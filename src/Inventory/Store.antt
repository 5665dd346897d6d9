-- ===== src/Inventory/Store.antt =====
-- The tables `inventory` and `inventory_operation`, and the errors of the inventory service.
use douyin_mall.Base.{
  String, Bool, false, Option, none, some, List, [], ◌∷◌, ◌++◌, ◌&&◌, ◌||◌, ◌==◌, str_eq, Int64,
  Int32, if◌then◌else◌, Action,
}

pub record StockChange : Type 0 where
  pub product_id : Int64
  pub quantity : Int32

pub record InventoryRow : Type 0 where
  pub product_id : Int64
  pub stock : Int64
  pub sold : Int64

pub data OperationType : Type 0 where
  commit commit_direct refund adjust : OperationType

pub record OperationRow : Type 0 where
  pub operation_id : String
  pub product_id : Int64
  pub operation_type : OperationType
  pub reason : String
  pub quantity : Int32

pub record Tables : Type 0 where
  pub inventory : List InventoryRow
  pub operations : List OperationRow

-- The errors that the service tells apart; `statement_failed` is any other error of the driver.
pub data Error : Type 0 where
  duplicate_operation insufficient_stock statement_failed product_not_found : Error
  empty_operation_id empty_changes empty_reason : Error

abbrev pub Db : Type 0 → Type 0
Db A = Action Tables Error A

-- The unique index (operation_id, product_id).
abbrev pub same_key : OperationRow → OperationRow → Bool
same_key a b = str_eq a.operation_id b.operation_id && a.product_id == b.product_id

abbrev pub conflicts : OperationRow → List OperationRow → Bool
conflicts a [] = false
conflicts a (b ∷ bs) = same_key a b || conflicts a bs

-- An INSERT of several rows: none where one of them meets the unique index.
abbrev pub insert_all : List OperationRow → List OperationRow → Option (List OperationRow)
insert_all [] table = some table
insert_all (a ∷ as') table =
    let rest = insert_all as' (table ++ a ∷ []) in if conflicts a table then none else rest
