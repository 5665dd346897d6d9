-- ===== src/Cart/Refinement.antt =====
-- The operations of repository/dao/cart.go against the changes of lines.
use douyin_mall.Base.{
  Bool, true, false, Option, none, some, List, [], ◌∷◌, ◌≡◌, ◌&&◌, ◌==◌, refl, sym, ap, ◌∙◌, inl,
  inr, arith, map, elem, Int64, lt64, le64, neg64, if◌then◌else◌, Bool-cases, suc, io, modify,
  raise_if, ◌>>◌, World, Result, ok, err, first_where, count_where, try_update, try_update-none,
  delete_where,
}
use douyin_mall.Cart.{
  CartItem, Error, record_not_found, is_of_user, is_line, is_among, has_more, add_quantity,
  merge_line, replace_line, put_rows, at_least_one, line_of_user, upsert_increment,
  upsert_increment_batch, upsert, delete, delete_by_sku_ids, delete_by_user_id, increment_quantity,
  decrement_quantity,
}
use douyin_mall.Cart.Lookups.{
  first_where-delete_all, first_where-delete_other, first_where-try_update,
}
use douyin_mall.Cart.Changes.{
  Command, add, add_all, put, remove, remove_all, clear, increment, decrement, execute, change_line,
  take_one, line_after, add_quantity-is_line, merge_line-is_line, replace_line-is_line, is_line-key,
  update_found-change, insert_or_update-line, insert_lines-line,
}

-- What a command does to the lines: nothing where it fails, and otherwise `line_after` to each.
abbrev pub Implements : Command → List CartItem → Result Error (Unit {0}) → List CartItem → Type 0
Implements c rows (err e) rows' = rows' ≡ rows
Implements c rows (ok x) rows' =
    (u s : Int64)
    → line_after c u s (first_where (is_line u s) rows) ≡ some (first_where (is_line u s) rows')

-- A statement that writes what it computes, or is refused.
put_rows-Implements :
    (c : Command) (rows : List CartItem) (new : Option (List CartItem)) (w : World (List CartItem))
    → w.store ≡ rows
    → ((rows' : List CartItem) (u s : Int64)
        → new ≡ some rows'
        → line_after c u s (first_where (is_line u s) rows)
          ≡ some (first_where (is_line u s) rows'))
    → Implements c rows (put_rows new w).0 (put_rows new w).1.store
put_rows-Implements c rows none w k h = k
put_rows-Implements c rows (some new) w k h = λ u s. h new u s refl

delete_where-Implements :
    (u s : Int64) (c : Bool) (q : CartItem → Bool) (rows : List CartItem)
    → ((r : CartItem) → is_line u s r ≡ true → q r ≡ c)
    → some (if c then none else first_where (is_line u s) rows)
      ≡ some (first_where (is_line u s) (delete_where q rows))
delete_where-Implements u s true q rows h =
    ap some (sym (first_where-delete_all (is_line u s) q rows h))
delete_where-Implements u s false q rows h =
    ap some (sym (first_where-delete_other (is_line u s) q rows h))

try_update-line :
    (u s by : Int64) (c : Bool) (q : CartItem → Bool) (g : CartItem → Option CartItem)
    (rows rows' : List CartItem)
    → ((r : CartItem)
        → is_line u s r ≡ true
        → (if q r then add_quantity by r else some r) ≡ (if c then g r else some r))
    → try_update q (add_quantity by) rows ≡ some rows'
    → change_line c g (first_where (is_line u s) rows) ≡ some (first_where (is_line u s) rows')
try_update-line u s by c q g rows rows' h e =
    sym (update_found-change u s c q (add_quantity by) g rows h)
    ∙ first_where-try_update (is_line u s) q (add_quantity by) rows rows'
        (add_quantity-is_line by u s) e

of_user-line : (u s v : Int64) (r : CartItem) → is_line u s r ≡ true → is_of_user v r ≡ (u == v)
of_user-line u s v r h = let (a, b) = is_line-key u s r h in ap (λ x. x == v) a

of_line-line :
    (u s v t : Int64) (r : CartItem) → is_line u s r ≡ true → is_line v t r ≡ ((u == v) && (s == t))
of_line-line u s v t r h =
    let (a, b) = is_line-key u s r h in
    ap (λ x. (x == v) && (r.sku_id == t)) a ∙ ap (λ x. (u == v) && (x == t)) b

among-line :
    (u s v : Int64) (ts : List Int64) (r : CartItem)
    → is_line u s r ≡ true
    → is_among v ts r ≡ ((u == v) && elem s ts)
among-line u s v ts r h =
    let (a, b) = is_line-key u s r h in
    ap (λ x. (x == v) && elem r.sku_id ts) a ∙ ap (λ x. (u == v) && elem x ts) b

-- A decrement, of the rows with more than one unit, is a decrement of the line if it has.
has_more-line :
    (u s v t : Int64) (r : CartItem)
    → is_line u s r ≡ true
    → (if has_more v t r then add_quantity (neg64 1) r else some r)
      ≡ (if (u == v) && (s == t) then take_one r else some r)
has_more-line u s v t r h =
    rw (of_line-line u s v t r h) (cases ((u == v) && (s == t)) (lt64 1 r.quantity))
  where
    cases :
        (c d : Bool)
        → (if c && d then add_quantity (neg64 1) r else some r)
          ≡ (if c then (if d then add_quantity (neg64 1) r else some r) else some r)
    cases true d = refl
    cases false d = refl

upsert_increment-Implements :
    (item : CartItem) (w : World (List CartItem))
    → let (r, v) = upsert_increment item w in Implements (add item) w.store r v.store
unfolding upsert_increment
upsert_increment-Implements item w = elim (Bool-cases (w.fails w.tick)) [
  | inl down ↦ rw down refl
  | inr up ↦ rw up (
      put_rows-Implements (add item) w.store _ _ refl (λ rows u s k.
        insert_or_update-line (merge_line (at_least_one item)) (at_least_one item) w.store rows u s
          (merge_line-is_line (at_least_one item) u s) k))
]

upsert_increment_batch-Implements :
    (v : Int64) (items : List CartItem) (w : World (List CartItem))
    → let (r, v') = upsert_increment_batch v items w in
      Implements (add_all v items) w.store r v'.store
unfolding upsert_increment_batch
upsert_increment_batch-Implements v [] w = λ u s. refl
upsert_increment_batch-Implements v (item ∷ items) w = elim (Bool-cases (w.fails w.tick)) [
  | inl down ↦ rw down refl
  | inr up ↦ rw up (
      put_rows-Implements (add_all v (item ∷ items)) w.store _ _ refl
        (λ rows u s k. insert_lines-line (map (line_of_user v) (item ∷ items)) w.store rows u s k))
]

upsert-Implements :
    (item : CartItem) (w : World (List CartItem))
    → let (r, v) = upsert item w in Implements (put item) w.store r v.store
unfolding upsert
upsert-Implements item w = elim (Bool-cases (le64 item.quantity 0)) [
  | inl bad ↦ rw bad refl
  | inr good ↦ elim (Bool-cases (w.fails w.tick)) [
    | inl down ↦ rw (good, down) refl
    | inr up ↦
        rw (good, up)
          (put_rows-Implements (put item) w.store _ _ refl (λ rows u s k.
            insert_or_update-line (replace_line item) item w.store rows u s
              (replace_line-is_line item u s) k))
  ]
]

-- A DELETE.
delete-Implements :
    (c : Command) (test : Int64 → Int64 → Bool) (q : CartItem → Bool) (w : World (List CartItem))
    → ((u s : Int64) (o : Option CartItem)
        → line_after c u s o ≡ some (if test u s then none else o))
    → ((u s : Int64) (r : CartItem) → is_line u s r ≡ true → q r ≡ test u s)
    → let (r, v) = (io Error.statement_failed >> modify (delete_where q)) w in
      Implements c w.store r v.store
delete-Implements c test q w h k = elim (Bool-cases (w.fails w.tick)) [
  | inl down ↦ rw down refl
  | inr up ↦ rw up (λ u s.
      h u s (first_where (is_line u s) w.store)
      ∙ delete_where-Implements u s (test u s) q w.store (k u s))
]

increment_quantity-Implements :
    (v t : Int64) (w : World (List CartItem))
    → let (r, v') = increment_quantity v t w in Implements (increment v t) w.store r v'.store
unfolding increment_quantity
increment_quantity-Implements v t w = elim (Bool-cases (w.fails w.tick)) [
  | inl down ↦ rw down refl
  | inr up ↦ rw up (
      put_rows-Implements (increment v t) w.store _ _ refl (λ rows u s k.
        try_update-line u s 1 ((u == v) && (s == t)) (is_line v t) (add_quantity 1) w.store rows
          (λ r h. rw (of_line-line u s v t r h) refl) k))
]

decrement_quantity-Implements :
    (v t : Int64) (w : World (List CartItem))
    → let (r, v') = decrement_quantity v t w in Implements (decrement v t) w.store r v'.store
unfolding decrement_quantity
decrement_quantity-Implements v t w = elim (Bool-cases (w.fails w.tick)) [
  | inl down ↦ rw down refl
  | inr up ↦
      rw up
        (go (try_update q (add_quantity (neg64 1)) w.store) refl (count_where q w.store == 0) refl)
]
  where
    q : CartItem → Bool
    q = has_more v t

    u : World (List CartItem)
    u = record w { tick = suc w.tick }

    go :
        (x : Option (List CartItem))
        → try_update q (add_quantity (neg64 1)) w.store ≡ x
        → (b : Bool) → (count_where q w.store == 0) ≡ b
        → let (r, v') = (put_rows x >> raise_if b record_not_found) u in
          Implements (decrement v t) w.store r v'.store
    go none h b k = refl
    go (some rows) h true k =
        let same = try_update-none q (add_quantity (neg64 1)) w.store (ground arith) in ground arith
    go (some rows) h false k = λ a s.
        try_update-line a s (neg64 1) ((a == v) && (s == t)) q take_one w.store rows
          (has_more-line a s v t) h

-- Whatever fails, an operation of the cart's table that fails leaves the table as it was; one that
-- succeeds changes the line of each user and each SKU as `line_after` says.
pub execute-Implements :
    (c : Command) (w : World (List CartItem))
    → let (r, v) = execute c w in Implements c w.store r v.store
unfolding delete delete_by_sku_ids delete_by_user_id
execute-Implements (add item) w = upsert_increment-Implements item w
execute-Implements (add_all v items) w = upsert_increment_batch-Implements v items w
execute-Implements (put item) w = upsert-Implements item w
execute-Implements (remove v t) w =
    delete-Implements (remove v t) (λ u s. (u == v) && (s == t)) (is_line v t) w (λ u s o. refl)
      (λ u s. of_line-line u s v t)
execute-Implements (remove_all v []) w = λ u s. nothing (u == v) (first_where (is_line u s) w.store)
  where
    nothing : (b : Bool) (o : Option CartItem) → some (if b && false then none else o) ≡ some o
    nothing true o = refl
    nothing false o = refl
execute-Implements (remove_all v (t ∷ ts)) w =
    delete-Implements (remove_all v (t ∷ ts)) (λ u s. (u == v) && elem s (t ∷ ts))
      (is_among v (t ∷ ts)) w (λ u s o. refl) (λ u s. among-line u s v (t ∷ ts))
execute-Implements (clear v) w =
    delete-Implements (clear v) (λ u s. u == v) (is_of_user v) w (λ u s o. refl)
      (λ u s. of_user-line u s v)
execute-Implements (increment v t) w = increment_quantity-Implements v t w
execute-Implements (decrement v t) w = decrement_quantity-Implements v t w
