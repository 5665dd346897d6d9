-- ===== src/Cart/Rows.antt =====
-- repository/dao/cart.go: the table `cart_items`, with its unique index (user_id, sku_id). The key
-- and the times of a row are left out.
use douyin_mall.Base.{
  Bool, Option, none, some, List, [], ◌∷◌, ◌++◌, ◌&&◌, ◌==◌, leb, elem, map, Int64, le64, lt64,
  neg64, sql_add, if◌then◌else◌, Action, pure, raise, gets, modify, raise_if, io, ◌>>=◌, ◌>>◌,
  first_where, all_where, delete_where, count_where, try_update,
}

pub record CartItem : Type 0 where
  pub user_id : Int64
  pub product_id : Int64
  pub sku_id : Int64
  pub quantity : Int64

pub data Error : Type 0 where
  record_not_found invalid_data statement_failed : Error

abbrev pub Db : Type 0 → Type 0
Db A = Action (List CartItem) Error A

abbrev pub is_of_user : Int64 → CartItem → Bool
is_of_user user_id r = r.user_id == user_id

abbrev pub is_line : Int64 → Int64 → CartItem → Bool
is_line user_id sku_id r = (r.user_id == user_id) && (r.sku_id == sku_id)

abbrev pub is_among : Int64 → List Int64 → CartItem → Bool
is_among user_id sku_ids r = (r.user_id == user_id) && elem r.sku_id sku_ids

abbrev pub has_more : Int64 → Int64 → CartItem → Bool
has_more user_id sku_id r = is_line user_id sku_id r && lt64 1 r.quantity

abbrev pub set_quantity : CartItem → Option Int64 → Option CartItem
set_quantity r none = none
set_quantity r (some q) = some (record r { quantity = q })

abbrev pub add_quantity : Int64 → CartItem → Option CartItem
add_quantity by r = set_quantity r (sql_add r.quantity by)

-- The assignments of ON DUPLICATE KEY UPDATE.
abbrev pub merge_line : CartItem → CartItem → Option CartItem
merge_line item r = add_quantity item.quantity (record r { product_id = item.product_id })

abbrev pub replace_line : CartItem → CartItem → Option CartItem
replace_line item r = some (record r { product_id = item.product_id; quantity = item.quantity })

abbrev pub insert_or_update :
    (CartItem → Option CartItem) → CartItem → List CartItem → Option (List CartItem)
insert_or_update f item rows =
    if leb 1 (count_where (is_line item.user_id item.sku_id) rows)
    then try_update (is_line item.user_id item.sku_id) f rows
    else some (rows ++ item ∷ [])

-- The rows of one statement, each on the table that the rows before it have left.
abbrev pub insert_lines : List CartItem → Option (List CartItem) → Option (List CartItem)
insert_lines items none = none
insert_lines [] (some rows) = some rows
insert_lines (item ∷ items) (some rows) =
    insert_lines items (insert_or_update (merge_line item) item rows)

abbrev pub put_rows : Option (List CartItem) → Db (Unit {0})
put_rows none = raise statement_failed
put_rows (some rows) = modify λ _. rows

abbrev pub at_least_one : CartItem → CartItem
at_least_one item = if le64 item.quantity 0 then record item { quantity = 1 } else item

abbrev pub line_of_user : Int64 → CartItem → CartItem
line_of_user user_id item = record (at_least_one item) { user_id = user_id }

abbrev pub find_cart_by_user_id : Int64 → Db (List CartItem)
find_cart_by_user_id user_id = do io statement_failed; gets (all_where (is_of_user user_id))

abbrev pub found : Option CartItem → Db CartItem
found none = raise record_not_found
found (some r) = pure r

abbrev pub find_cart_item : Int64 → Int64 → Db CartItem
find_cart_item user_id sku_id = do
  io statement_failed
  r ← gets (first_where (is_line user_id sku_id))
  found r

unfoldable pub upsert_increment : CartItem → Db (Unit {0})
upsert_increment item = do
  io statement_failed
  rows ← gets (λ rows. rows)
  put_rows (insert_or_update (merge_line (at_least_one item)) (at_least_one item) rows)

unfoldable pub upsert_increment_batch : Int64 → List CartItem → Db (Unit {0})
upsert_increment_batch user_id [] = pure tt
upsert_increment_batch user_id (item ∷ items) = do
  io statement_failed
  rows ← gets (λ rows. rows)
  put_rows (insert_lines (map (line_of_user user_id) (item ∷ items)) (some rows))

unfoldable pub upsert : CartItem → Db (Unit {0})
upsert item = do
  raise_if (le64 item.quantity 0) invalid_data
  io statement_failed
  rows ← gets (λ rows. rows)
  put_rows (insert_or_update (replace_line item) item rows)

unfoldable pub delete : Int64 → Int64 → Db (Unit {0})
delete user_id sku_id = do io statement_failed; modify (delete_where (is_line user_id sku_id))

unfoldable pub delete_by_sku_ids : Int64 → List Int64 → Db (Unit {0})
delete_by_sku_ids user_id [] = pure tt
delete_by_sku_ids user_id (s ∷ ss) = do
  io statement_failed
  modify (delete_where (is_among user_id (s ∷ ss)))

unfoldable pub delete_by_user_id : Int64 → Db (Unit {0})
delete_by_user_id user_id = do io statement_failed; modify (delete_where (is_of_user user_id))

unfoldable pub increment_quantity : Int64 → Int64 → Db (Unit {0})
increment_quantity user_id sku_id = do
  io statement_failed
  rows ← gets (λ rows. rows)
  put_rows (try_update (is_line user_id sku_id) (add_quantity 1) rows)

unfoldable pub decrement_quantity : Int64 → Int64 → Db (Unit {0})
decrement_quantity user_id sku_id = do
  io statement_failed
  rows ← gets (λ rows. rows)
  put_rows (try_update (has_more user_id sku_id) (add_quantity (neg64 1)) rows)
  raise_if (count_where (has_more user_id sku_id) rows == 0) record_not_found
