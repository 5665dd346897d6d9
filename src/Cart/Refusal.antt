-- ===== src/Cart/Refusal.antt =====
-- When an operation of repository/dao/cart.go fails although the database answers.
use douyin_mall.Base.{
  Bool, true, false, Option, none, some, List, [], ◌∷◌, ◌≡◌, ◌≤◌, ◌<◌, refl, sym, ap, ◌∙◌, subst,
  inl, inr, arith, map, leb, ◌==◌, ◌&&◌, suc, Int64, lt64, le64, neg64, half64, All, if◌then◌else◌,
  Bool-cases, World, err, raise_if, ◌>>◌, count_where, count_where-imp, All-first_where,
  first_where, first_where-holds, try_update, ◌≢◌, sql_add, add64,
}
use douyin_mall.Cart.{
  CartItem, Error, statement_failed, invalid_data, record_not_found, is_line, has_more,
  add_quantity, merge_line, replace_line, insert_or_update, insert_lines, put_rows, at_least_one,
  line_of_user, upsert_increment, upsert_increment_batch, upsert, delete, delete_by_sku_ids,
  delete_by_user_id, increment_quantity, decrement_quantity,
}
use douyin_mall.Cart.Lookups.{update_found, keep, try_update-refused}
use douyin_mall.Cart.Changes.{
  Command, add, add_all, put, remove, remove_all, clear, increment, decrement, execute, insert_line,
  merge_all, line_after, merge_line-is_line, insert_or_update-line, update_found-change,
}
use douyin_mall.Cart.Lines.{
  IsPositive, IsValid, IsWord, HasWords, insert_or_update-IsValid, merge_line-IsPositive,
  lines_of_user-IsPositive,
}

-- A row met by an insertion refuses it.
insert_or_update-refused :
    (f : CartItem → Option CartItem) (item : CartItem) (rows : List CartItem)
    → count_where (is_line item.user_id item.sku_id) rows ≤ 1
    → insert_or_update f item rows ≡ none
    → insert_line f item item.user_id item.sku_id
        (first_where (is_line item.user_id item.sku_id) rows)
      ≡ none
insert_or_update-refused f item rows h e = elim (Bool-cases (leb 1 (count_where q rows))) [
  | inl a ↦ same _ refl (try_update-refused q f rows h (ground arith))
  | inr a ↦ absurd (ground arith)
]
  where
    q : CartItem → Bool
    q = is_line item.user_id item.sku_id

    same :
        (o : Option CartItem)
        → first_where q rows ≡ o
        → update_found q f o ≡ none
        → insert_line f item item.user_id item.sku_id o ≡ none
    same none k l = absurd (ground arith)
    same (some r) k l =
        let here = first_where-holds q rows r k in
        let self : is_line item.user_id item.sku_id item ≡ true = ground arith in
        let refused : keep (f r) ≡ none =
          subst (λ b. keep (if b then f r else some r) ≡ none) here l in
        rw self refused

insert_lines-refused :
    (items rows : List CartItem)
    → All IsPositive items
    → IsValid rows
    → insert_lines items (some rows) ≡ none
    → (u : Int64) × (s : Int64) × (merge_all u s items (some (first_where (is_line u s) rows))
        ≡ none)
insert_lines-refused [] rows a h e = absurd (ground arith)
insert_lines-refused (item ∷ items) rows (a, b) h e =
    go (λ next k l. insert_lines-refused items next b k l)
      (insert_or_update (merge_line item) item rows) refl e
  where
    go :
        ((next : List CartItem)
          → IsValid next
          → insert_lines items (some next) ≡ none
          → (u : Int64) × (s : Int64) × (merge_all u s items (some (first_where (is_line u s) next))
              ≡ none))
        → (x : Option (List CartItem)) → insert_or_update (merge_line item) item rows ≡ x
        → insert_lines items x ≡ none
        → (u : Int64) × (s : Int64) × (merge_all u s
              (item ∷ items)
              (some (first_where (is_line u s) rows))
            ≡ none)
    go rest none k e =
        let refused =
          insert_or_update-refused (merge_line item) item rows (h.0 item.user_id item.sku_id) k in
        (item.user_id, item.sku_id, ap (merge_all item.user_id item.sku_id items) refused)
    go rest (some next) k e =
        let valid =
          insert_or_update-IsValid (merge_line item) item rows next
            (λ u s. merge_line-is_line item u s) (λ r r'. merge_line-IsPositive item r r' a) a h
            k in
        let (u, s, refused) = rest next valid e in
        let step =
          insert_or_update-line (merge_line item) item rows next u s (merge_line-is_line item u s)
            k in
        (u, s, ap (merge_all u s items) step ∙ refused)

-- A decrement is never refused.
has_more-less :
    (v t : Int64) (rows : List CartItem)
    → IsValid rows
    → try_update (has_more v t) (add_quantity (neg64 1)) rows ≢ none
has_more-less v t rows (one, all) e =
    go (first_where q rows) refl (try_update-refused q (add_quantity (neg64 1)) rows few e)
  where
    q : CartItem → Bool
    q = has_more v t

    few : count_where q rows ≤ 1
    few =
        let less = count_where-imp (is_line v t) q rows (λ r h. ground arith) in
        let before = one v t in omega arith

    go :
        (o : Option CartItem)
        → first_where q rows ≡ o
        → update_found q (add_quantity (neg64 1)) o ≢ none
    go none k l = absurd (ground arith)
    go (some r) k l =
        let here = first_where-holds q rows r k in
        let (_, small) = All-first_where IsPositive q rows r all k in
        let more : lt64 1 r.quantity ≡ true = ground arith in
        let fine = neg_one r.quantity small more in absurd (ground arith)
      where
        neg_one :
            (a : Int64)
            → a < half64
            → lt64 1 a ≡ true
            → (c : Int64) × (sql_add a (neg64 1) ≡ some c)
        neg_one a h k = (add64 a (neg64 1), ground arith)

-- Why an operation fails although the database answers.
abbrev pub Refused : Command → List CartItem → Error → Type 0
Refused c rows statement_failed =
    (u : Int64) × (s : Int64) × (line_after c u s (first_where (is_line u s) rows) ≡ none)
Refused c rows invalid_data = (item : CartItem) × (c ≡ put item) × (le64 item.quantity 0 ≡ true)
Refused c rows record_not_found =
    (v : Int64) × (t : Int64) × (c ≡ decrement v t) × (count_where (has_more v t) rows ≡ 0)

put_rows-Refused :
    (c : Command) (rows : List CartItem) (new : Option (List CartItem)) (w : World (List CartItem))
    (e : Error)
    → (new ≡ none → Refused c rows statement_failed)
    → (put_rows new w).0 ≡ err e
    → Refused c rows e
put_rows-Refused c rows none w e h k =
    let same : statement_failed ≡ e = ground arith in subst (Refused c rows) same (h refl)
put_rows-Refused c rows (some new) w e h k = absurd (ground arith)

insertion-Refused :
    (c : Command) (f : CartItem → Option CartItem) (item : CartItem) (rows : List CartItem)
    → ((u s : Int64) (o : Option CartItem) → line_after c u s o ≡ insert_line f item u s o)
    → IsValid rows
    → insert_or_update f item rows ≡ none
    → Refused c rows statement_failed
insertion-Refused c f item rows h v e =
    let refused = insert_or_update-refused f item rows (v.0 item.user_id item.sku_id) e in
    (item.user_id, item.sku_id, h item.user_id item.sku_id _ ∙ refused)

upsert_increment-Refused :
    (item : CartItem) (w : World (List CartItem)) (e : Error)
    → IsValid w.store
    → w.fails w.tick ≡ false
    → (upsert_increment item w).0 ≡ err e
    → Refused (add item) w.store e
unfolding upsert_increment
upsert_increment-Refused item w e v up = rw up (
    put_rows-Refused (add item) w.store _ _ e (
      insertion-Refused (add item) (merge_line (at_least_one item)) (at_least_one item) w.store
        (λ u s o. refl) v))

upsert_increment_batch-Refused :
    (v : Int64) (items : List CartItem) (w : World (List CartItem)) (e : Error)
    → All IsWord items
    → IsValid w.store
    → w.fails w.tick ≡ false
    → (upsert_increment_batch v items w).0 ≡ err e
    → Refused (add_all v items) w.store e
unfolding upsert_increment_batch
upsert_increment_batch-Refused v [] w e k h up = λ l. absurd (ground arith)
upsert_increment_batch-Refused v (item ∷ items) w e k h up = rw up (
    put_rows-Refused (add_all v (item ∷ items)) w.store _ _ e (
      insert_lines-refused (map (line_of_user v) (item ∷ items)) w.store
        (lines_of_user-IsPositive v (item ∷ items) k) h))

upsert-Refused :
    (item : CartItem) (w : World (List CartItem)) (e : Error)
    → IsValid w.store
    → w.fails w.tick ≡ false
    → (upsert item w).0 ≡ err e
    → Refused (put item) w.store e
unfolding upsert
upsert-Refused item w e v up = elim (Bool-cases (le64 item.quantity 0)) [
  | inl bad ↦ rw bad (λ k.
      let same : invalid_data ≡ e = ground arith in
      subst (Refused (put item) w.store) same (item, refl, bad))
  | inr good ↦
      rw (good, up)
        (put_rows-Refused (put item) w.store _ _ e
          (insertion-Refused (put item) (replace_line item) item w.store (λ u s o. refl) v))
]

increment_quantity-Refused :
    (v t : Int64) (w : World (List CartItem)) (e : Error)
    → IsValid w.store
    → w.fails w.tick ≡ false
    → (increment_quantity v t w).0 ≡ err e
    → Refused (increment v t) w.store e
unfolding increment_quantity
increment_quantity-Refused v t w e h up = rw up (
    put_rows-Refused (increment v t) w.store _ _ e (λ k. (
      v,
      t,
      sym (
            update_found-change v t ((v == v) && (t == t)) (is_line v t) (add_quantity 1)
              (add_quantity 1) w.store (λ r l. rw (same, l) refl))
          ∙ try_update-refused (is_line v t) (add_quantity 1) w.store (h.0 v t) k,
    )))
  where
    same : ((v == v) && (t == t)) ≡ true
    same = ground arith

decrement_quantity-Refused :
    (v t : Int64) (w : World (List CartItem)) (e : Error)
    → IsValid w.store
    → w.fails w.tick ≡ false
    → (decrement_quantity v t w).0 ≡ err e
    → Refused (decrement v t) w.store e
unfolding decrement_quantity
decrement_quantity-Refused v t w e h up =
    rw up
      (go (try_update q (add_quantity (neg64 1)) w.store) refl (count_where q w.store == 0) refl)
  where
    q : CartItem → Bool
    q = has_more v t

    go :
        (x : Option (List CartItem))
        → try_update q (add_quantity (neg64 1)) w.store ≡ x
        → (b : Bool) → (count_where q w.store == 0) ≡ b
        → ((put_rows x >> raise_if b record_not_found) (record w { tick = suc w.tick })).0 ≡ err e
        → Refused (decrement v t) w.store e
    go none k b l m = absurd (has_more-less v t w.store h k)
    go (some rows) k true l m =
        let same : record_not_found ≡ e = ground arith in
        subst (Refused (decrement v t) w.store) same (v, t, refl, ground arith)
    go (some rows) k false l m = absurd (ground arith)

-- Where the database answers, an operation of the cart's table, with quantities that are int64 words,
-- on a table with one row at most for each user and SKU and with positive quantities fails only for
-- a reason of its own: the new quantity of some line is out of range, the quantity of an upsert is not
-- positive, or the line of a decrement has not more than one unit.
pub execute-Refused :
    (c : Command) (w : World (List CartItem)) (e : Error)
    → HasWords c
    → IsValid w.store
    → w.fails w.tick ≡ false
    → (execute c w).0 ≡ err e
    → Refused c w.store e
unfolding delete delete_by_sku_ids delete_by_user_id
execute-Refused (add item) w e k h up = upsert_increment-Refused item w e h up
execute-Refused (add_all v items) w e k h up = upsert_increment_batch-Refused v items w e k h up
execute-Refused (put item) w e k h up = upsert-Refused item w e h up
execute-Refused (remove v t) w e k h up = rw up (λ l. absurd (ground arith))
execute-Refused (remove_all v []) w e k h up = λ l. absurd (ground arith)
execute-Refused (remove_all v (t ∷ ts)) w e k h up = rw up (λ l. absurd (ground arith))
execute-Refused (clear v) w e k h up = rw up (λ l. absurd (ground arith))
execute-Refused (increment v t) w e k h up = increment_quantity-Refused v t w e h up
execute-Refused (decrement v t) w e k h up = decrement_quantity-Refused v t w e h up
