-- ===== src/Inventory/Repository.antt =====
-- infra/repository/gorm.go: the three operations that change the tables, as transactions.
use Prim.Native.String.{slice, len}
use douyin_mall.Base.{
  ◌-◌, String, Bool, true, false, Option, none, some, List, [], ◌∷◌, ◌++◌, map, ◌&&◌, ◌||◌, ◌==◌,
  str_eq, Int64, Int32, neg32, to_int64, neg64, le64, leb, half32, sql_add, if◌then◌else◌, pure,
  raise, gets, modify, raise_if, io, ◌>>=◌, ◌>>◌, transaction, all_where, count_where, try_update,
}
use douyin_mall.Inventory.Store.{
  StockChange, InventoryRow, OperationType, OperationRow, Tables, Error, Db, insert_all, commit,
  commit_direct, refund, adjust, duplicate_operation, insufficient_stock, statement_failed,
  product_not_found,
}

abbrev set_operations : List OperationRow → Db (Unit {0})
set_operations rows = modify λ t. record t { operations = rows }

abbrev set_inventory : List InventoryRow → Db (Unit {0})
set_inventory rows = modify λ t. record t { inventory = rows }

abbrev of_option : {A : Type 0} → Option A → Error → Db A
of_option none e = raise e
of_option (some a) e = pure a

-- `tx.Create(&items)`: gorm refuses an empty slice, the unique index a repeated operation.
abbrev is_empty : List OperationRow → Bool
is_empty [] = true
is_empty (a ∷ as') = false

unfoldable pub create_operations : List OperationRow → Db (Unit {0})
create_operations rows = do
  io statement_failed
  raise_if (is_empty rows) statement_failed
  table ← gets (λ (t : Tables). t.operations)
  table' ← of_option (insert_all rows table) duplicate_operation
  set_operations table'

abbrev pub operation_row : String → OperationType → String → StockChange → OperationRow
operation_row op kind reason c = record {
  operation_id = op;
  product_id = c.product_id;
  operation_type = kind;
  reason = reason;
  quantity = c.quantity;
}

-- `SET stock = stock + by, sold = sold + sold_by`, refused where a column would overflow.
unfoldable pub move_row : Int64 → Int64 → InventoryRow → Option InventoryRow
move_row by sold_by r = elim (sql_add r.stock by) [
  | none ↦ none
  | some s ↦ elim (sql_add r.sold sold_by) [
    | none ↦ none
    | some d ↦ some (record r { stock = s; sold = d })
  ]
]

abbrev pub has_stock : Int64 → Int64 → InventoryRow → Bool
has_stock product quantity r = r.product_id == product && le64 quantity r.stock

-- One round of the loop of `CommitStock`; the quantity is negative for a sale.
unfoldable pub commit_change : StockChange → Db (Unit {0})
unfolding move_row
commit_change c = do
  io statement_failed
  let abs_quantity = to_int64 (neg32 c.quantity)
  rows ← gets (λ (t : Tables). t.inventory)
  rows' ←
      of_option
        (try_update (has_stock c.product_id abs_quantity)
          (move_row (to_int64 c.quantity) abs_quantity) rows)
        statement_failed
  raise_if (count_where (has_stock c.product_id abs_quantity) rows == 0) insufficient_stock
  set_inventory rows'

unfoldable pub commit_changes : List StockChange → Db (Unit {0})
commit_changes [] = pure tt
commit_changes (c ∷ cs) = commit_change c >> commit_changes cs

unfoldable pub commit_stock : String → List StockChange → Db (Unit {0})
unfolding create_operations commit_changes
commit_stock op changes =
    transaction statement_failed
      do create_operations (map (operation_row op commit "") changes); commit_changes changes

-- `HasSuffix` and `TrimSuffix` with "refund" (six bytes); `slice s i j` takes bytes i to j.
unfoldable pub commit_operation_id : String → String
commit_operation_id op =
    let stem = slice op 0 (len op - 6) in
    if leb 6 (len op) && str_eq (slice op (len op - 6) (len op)) "refund"
    then Prim.Native.String.◌++◌ stem "commit"
    else op

abbrev is_commit : OperationType → Bool
is_commit commit = true
is_commit commit_direct = true
is_commit _ = false

abbrev pub committed_by : String → OperationRow → Bool
committed_by op r = str_eq r.operation_id op && is_commit r.operation_type

abbrev pub refund_row : String → OperationRow → OperationRow
refund_row op r = record {
  operation_id = op;
  product_id = r.product_id;
  operation_type = refund;
  reason = "";
  quantity = neg32 r.quantity;
}

abbrev pub is_product : Int64 → InventoryRow → Bool
is_product product r = r.product_id == product

-- `stock = stock + q, sold = sold - q` for the product, also where no row has it.
unfoldable pub restore_row : OperationRow → Db (Unit {0})
unfolding move_row
restore_row r = do
  io statement_failed
  rows ← gets (λ (t : Tables). t.inventory)
  rows' ←
      of_option
        (try_update (is_product r.product_id)
          (move_row (to_int64 r.quantity) (neg64 (to_int64 r.quantity))) rows)
        statement_failed
  set_inventory rows'

unfoldable pub restore_rows : List OperationRow → Db (Unit {0})
restore_rows [] = pure tt
restore_rows (r ∷ rs) = restore_row r >> restore_rows rs

abbrev pub refund_transaction : String → List OperationRow → Db (Unit {0})
refund_transaction op [] = pure tt
refund_transaction op (r ∷ rs) =
    let items = map (refund_row op) (r ∷ rs) in
    transaction statement_failed (create_operations items >> restore_rows items)

unfoldable pub refund_stock : String → Db (Unit {0})
unfolding create_operations restore_rows
refund_stock op = do
  io statement_failed
  records ← gets (λ (t : Tables). all_where (committed_by (commit_operation_id op)) t.operations)
  refund_transaction op records

abbrev set_stock : Int64 → InventoryRow → Option InventoryRow
set_stock by r = elim (sql_add r.stock by) [ none ↦ none | some s ↦ some (record r { stock = s }) ]

unfoldable pub adjust_rows : StockChange → List InventoryRow → Option (List InventoryRow)
adjust_rows c rows = try_update (is_product c.product_id) (set_stock (to_int64 c.quantity)) rows

-- `change.Quantity <= 0`
abbrev pub non_positive32 : Int32 → Bool
non_positive32 q = q == 0 || leb half32 q

abbrev new_row : StockChange → InventoryRow
new_row c = record { product_id = c.product_id; stock = to_int64 c.quantity; sold = 0 }

-- The INSERT of a missing product. Where the unique index on the product refuses it (another writer
-- was faster), the UPDATE is tried once more.
abbrev retry_adjust : StockChange → List InventoryRow → Db (Unit {0})
retry_adjust c rows = do
  io statement_failed
  rows' ← of_option (adjust_rows c rows) statement_failed
  raise_if (count_where (is_product c.product_id) rows == 0) product_not_found
  set_inventory rows'

abbrev add_product : StockChange → Db (Unit {0})
unfolding adjust_rows
add_product c = do
  raise_if (non_positive32 c.quantity) product_not_found
  io statement_failed
  rows ← gets (λ (t : Tables). t.inventory)
  if count_where (is_product c.product_id) rows == 0
      then set_inventory (rows ++ new_row c ∷ [])
      else retry_adjust c rows

unfoldable pub adjust_change : StockChange → Db (Unit {0})
unfolding adjust_rows
adjust_change c = do
  io statement_failed
  rows ← gets (λ (t : Tables). t.inventory)
  rows' ← of_option (adjust_rows c rows) statement_failed
  if count_where (is_product c.product_id) rows == 0 then add_product c else set_inventory rows'

unfoldable pub adjust_changes : List StockChange → Db (Unit {0})
adjust_changes [] = pure tt
adjust_changes (c ∷ cs) = adjust_change c >> adjust_changes cs

unfoldable pub adjust_stock : String → String → List StockChange → Db (Unit {0})
unfolding create_operations adjust_changes
adjust_stock op reason changes =
    transaction statement_failed
      do create_operations (map (operation_row op adjust reason) changes); adjust_changes changes

-- `product_id in (?)`
abbrev is_listed : List Int64 → InventoryRow → Bool
is_listed [] r = false
is_listed (p ∷ ps) r = r.product_id == p || is_listed ps r

unfoldable pub get_inventory : List Int64 → Db (List InventoryRow)
get_inventory ids = do
  io statement_failed
  gets (λ (t : Tables). all_where (is_listed ids) t.inventory)
