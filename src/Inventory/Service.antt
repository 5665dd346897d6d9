-- ===== src/Inventory/Service.antt =====
-- The use cases (usecase/*.go) and the handlers of transport/grpc/handler.go.
use douyin_mall.Base.{
  String, Option, none, some, raise, Bool, true, false, List, [], ◌∷◌, map, str_eq, ◌||◌, ◌==◌, leb,
  half64, Int64, neg32, if◌then◌else◌, Result, ok, err, pure, attempt, raise_if, ◌>>=◌, ◌>>◌,
}
use douyin_mall.Inventory.Store.{
  StockChange, InventoryRow, Error, Db, empty_operation_id, empty_changes, empty_reason,
  duplicate_operation,
}
use douyin_mall.Inventory.Repository.{commit_stock, refund_stock, adjust_stock, get_inventory}

-- usecase/commit_stock_uc.go; `none` is the nil slice.
abbrev commit_some : String → Option (List StockChange) → Db (Unit {0})
commit_some op none = raise empty_changes
commit_some op (some changes) = commit_stock op changes

unfoldable pub commit_execute : String → Option (List StockChange) → Db (Unit {0})
commit_execute op changes = raise_if (str_eq op "") empty_operation_id >> commit_some op changes

-- usecase/refund_stock_uc.go
unfoldable pub refund_execute : String → Db (Unit {0})
refund_execute op = raise_if (str_eq op "") empty_operation_id >> refund_stock op

-- usecase/getInventory_uc.go: ids that are not positive are dropped.
unfoldable pub valid_ids : List Int64 → List Int64
valid_ids [] = []
valid_ids (p ∷ ps) = let rest = valid_ids ps in if p == 0 || leb half64 p then rest else p ∷ rest

unfoldable pub get_execute : List Int64 → Db (List InventoryRow)
unfolding valid_ids
get_execute ids = get_inventory (valid_ids ids)

-- `InventoryOpResp`: the status code, and the error whose text is the message.
pub data Response : Type 0 where
  success : Response
  success_idempotent : Response
  failure : Error → Response

abbrev pub no_changes : List StockChange → Bool
no_changes [] = true
no_changes (c ∷ cs) = false

abbrev respond : Result Error (Unit {0}) → Response
respond (ok _) = success
respond (err duplicate_operation) = success_idempotent
respond (err e) = failure e

abbrev respond_plain : Result Error (Unit {0}) → Response
respond_plain (ok _) = success
respond_plain (err e) = failure e

abbrev negate : StockChange → StockChange
negate c = record c { quantity = neg32 c.quantity }

-- `CommitStock` of the handler; the items carry the quantities to take.
unfoldable pub handle_commit : String → List StockChange → Db Response
unfolding commit_execute
handle_commit op items = do
  raise_if (str_eq op "") empty_operation_id
  raise_if (no_changes items) empty_changes
  r ← attempt (commit_execute op (some (map negate items)))
  pure (respond r)

unfoldable pub handle_refund : String → Db Response
unfolding refund_execute
handle_refund op = do
  raise_if (str_eq op "") empty_operation_id
  r ← attempt (refund_execute op)
  pure (respond r)

-- `adjust_<nanoseconds>_<reason>` is made by the caller's clock, so it is an argument.
unfoldable pub handle_adjust : String → String → List StockChange → Db Response
handle_adjust op reason items = do
  raise_if (str_eq reason "") empty_reason
  raise_if (no_changes items) empty_changes
  r ← attempt (adjust_stock op reason items)
  pure (respond_plain r)
