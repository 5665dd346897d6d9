-- ===== src/Cart/Invariant.antt =====
-- The operations of repository/dao/cart.go on valid tables.
use douyin_mall.Base.{
  Bool, true, false, Option, none, some, List, [], ◌∷◌, ◌≡◌, refl, subst, inl, inr, arith, map,
  ◌==◌, suc, Int64, le64, neg64, All, Bool-cases, World, io, modify, raise_if, ◌>>◌, count_where,
  try_update, delete_where,
}
use douyin_mall.Cart.{
  CartItem, Error, record_not_found, is_of_user, is_line, is_among, has_more, add_quantity,
  merge_line, replace_line, put_rows, at_least_one, line_of_user, upsert_increment,
  upsert_increment_batch, upsert, delete, delete_by_sku_ids, delete_by_user_id, increment_quantity,
  decrement_quantity,
}
use douyin_mall.Cart.Changes.{
  Command, add, add_all, put, remove, remove_all, clear, increment, decrement, execute,
  add_quantity-is_line, merge_line-is_line, replace_line-is_line,
}
use douyin_mall.Cart.Lines.{
  IsPositive, IsValid, IsWord, HasWords, at_least_one-IsPositive, sql_add-IsPositive,
  sql_add-take_one, add_quantity-IsPositive, try_update-IsValid, delete_where-IsValid,
  insert_or_update-IsValid, merge_line-IsPositive, insert_lines-IsValid, put_rows-IsValid,
  lines_of_user-IsPositive,
}

upsert_increment-IsValid :
    (item : CartItem) (w : World (List CartItem))
    → IsWord item
    → IsValid w.store
    → IsValid (upsert_increment item w).1.store
unfolding upsert_increment
upsert_increment-IsValid item w k h = elim (Bool-cases (w.fails w.tick)) [
  | inl down ↦ rw down h
  | inr up ↦ rw up (
      put_rows-IsValid _ _ h (λ rows e.
        insert_or_update-IsValid (merge_line one) one w.store rows
          (λ u s. merge_line-is_line one u s) (λ r r'. merge_line-IsPositive one r r' new) new h e))
]
  where
    one : CartItem
    one = at_least_one item

    new : IsPositive one
    new = at_least_one-IsPositive item k

upsert_increment_batch-IsValid :
    (v : Int64) (items : List CartItem) (w : World (List CartItem))
    → All IsWord items
    → IsValid w.store
    → IsValid (upsert_increment_batch v items w).1.store
unfolding upsert_increment_batch
upsert_increment_batch-IsValid v [] w k h = h
upsert_increment_batch-IsValid v (item ∷ items) w k h = elim (Bool-cases (w.fails w.tick)) [
  | inl down ↦ rw down h
  | inr up ↦ rw up (
      put_rows-IsValid _ _ h (λ rows e.
        insert_lines-IsValid (map (line_of_user v) (item ∷ items)) w.store rows
          (lines_of_user-IsPositive v (item ∷ items) k) h e))
]

upsert-IsValid :
    (item : CartItem) (w : World (List CartItem))
    → IsWord item
    → IsValid w.store
    → IsValid (upsert item w).1.store
unfolding upsert
upsert-IsValid item w k h = elim (Bool-cases (le64 item.quantity 0)) [
  | inl bad ↦ rw bad h
  | inr good ↦ elim (Bool-cases (w.fails w.tick)) [
    | inl down ↦ rw (good, down) h
    | inr up ↦
        rw (good, up)
          (put_rows-IsValid _ _ h (λ rows e.
            insert_or_update-IsValid (replace_line item) item w.store rows
              (λ u s. replace_line-is_line item u s) (new good) (positive good) h e))
  ]
]
  where
    positive : le64 item.quantity 0 ≡ false → IsPositive item
    positive good = (ground arith, ground arith)

    new :
        le64 item.quantity 0 ≡ false
        → (r r' : CartItem) → IsPositive r
        → replace_line item r ≡ some r'
        → IsPositive r'
    new good r r' h e =
        let same : record r { product_id = item.product_id; quantity = item.quantity } ≡ r' =
          ground arith in
        subst IsPositive same (positive good)

-- A DELETE.
delete-IsValid :
    (q : CartItem → Bool) (w : World (List CartItem))
    → IsValid w.store
    → IsValid ((io Error.statement_failed >> modify (delete_where q)) w).1.store
delete-IsValid q w h = elim (Bool-cases (w.fails w.tick)) [
  | inl down ↦ rw down h
  | inr up ↦ rw up (delete_where-IsValid q w.store h)
]

increment_quantity-IsValid :
    (v t : Int64) (w : World (List CartItem))
    → IsValid w.store
    → IsValid (increment_quantity v t w).1.store
unfolding increment_quantity
increment_quantity-IsValid v t w h = elim (Bool-cases (w.fails w.tick)) [
  | inl down ↦ rw down h
  | inr up ↦ rw up (
      put_rows-IsValid _ _ h (λ rows e.
        try_update-IsValid (is_line v t) (add_quantity 1) w.store rows
          (λ u s. add_quantity-is_line 1 u s)
          (λ r r' k l.
            add_quantity-IsPositive 1 r r'
              (λ c. sql_add-IsPositive r.quantity 1 c k (omega arith, omega arith)))
          h e))
]

decrement_quantity-IsValid :
    (v t : Int64) (w : World (List CartItem))
    → IsValid w.store
    → IsValid (decrement_quantity v t w).1.store
unfolding decrement_quantity
decrement_quantity-IsValid v t w h = elim (Bool-cases (w.fails w.tick)) [
  | inl down ↦ rw down h
  | inr up ↦ rw up (go (try_update q (add_quantity (neg64 1)) w.store) refl)
]
  where
    q : CartItem → Bool
    q = has_more v t

    less :
        (r r' : CartItem)
        → IsPositive r
        → q r ≡ true
        → add_quantity (neg64 1) r ≡ some r'
        → IsPositive r'
    less r r' (_, k) l =
        add_quantity-IsPositive (neg64 1) r r' (λ c. sql_add-take_one r.quantity c k (ground arith))

    go :
        (x : Option (List CartItem))
        → try_update q (add_quantity (neg64 1)) w.store ≡ x
        → IsValid
            ((put_rows x >> raise_if (count_where q w.store == 0) record_not_found)
              (record w { tick = suc w.tick })).1.store
    go none e = h
    go (some rows) e =
        try_update-IsValid q (add_quantity (neg64 1)) w.store rows
          (λ u s. add_quantity-is_line (neg64 1) u s) less h e

pub execute-IsValid :
    (c : Command) (w : World (List CartItem))
    → HasWords c
    → IsValid w.store
    → IsValid (execute c w).1.store
unfolding delete delete_by_sku_ids delete_by_user_id
execute-IsValid (add item) w k h = upsert_increment-IsValid item w k h
execute-IsValid (add_all v items) w k h = upsert_increment_batch-IsValid v items w k h
execute-IsValid (put item) w k h = upsert-IsValid item w k h
execute-IsValid (remove v t) w k h = delete-IsValid (is_line v t) w h
execute-IsValid (remove_all v []) w k h = h
execute-IsValid (remove_all v (t ∷ ts)) w k h = delete-IsValid (is_among v (t ∷ ts)) w h
execute-IsValid (clear v) w k h = delete-IsValid (is_of_user v) w h
execute-IsValid (increment v t) w k h = increment_quantity-IsValid v t w h
execute-IsValid (decrement v t) w k h = decrement_quantity-IsValid v t w h

abbrev pub run : List Command → World (List CartItem) → World (List CartItem)
run [] w = w
run (c ∷ cs) w = run cs (execute c w).1

-- Whatever fails, any sequence of the operations of the cart's table, with quantities that are int64
-- words, on a table with one row at most for each user and SKU and with positive quantities leaves
-- such a table.
pub run-IsValid :
    (cs : List Command) (w : World (List CartItem))
    → All HasWords cs
    → IsValid w.store
    → IsValid (run cs w).store
run-IsValid [] w k h = h
run-IsValid (c ∷ cs) w (k, ks) h = run-IsValid cs (execute c w).1 ks (execute-IsValid c w k h)
