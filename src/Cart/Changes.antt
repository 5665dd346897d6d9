-- ===== src/Cart/Changes.antt =====
-- The statements of repository/dao/cart.go as changes of single lines: a table of carts is a map
-- from a user and a SKU to a line.
use douyin_mall.Base.{
  Bool, true, false, Option, none, some, List, [], ◌∷◌, ◌++◌, ◌≡◌, ◌&&◌, ◌==◌, refl, sym, ap, ◌∙◌,
  subst, inl, inr, arith, map, elem, leb, Int64, lt64, neg64, if◌then◌else◌, Bool-cases,
  Option-cases, first_where, first_where-append, first_where-holds, count_where, sql_add,
}
use douyin_mall.Cart.{
  CartItem, Db, is_line, add_quantity, merge_line, replace_line, insert_or_update, insert_lines,
  at_least_one, line_of_user, upsert_increment, upsert_increment_batch, upsert, delete,
  delete_by_sku_ids, delete_by_user_id, increment_quantity, decrement_quantity,
}
use douyin_mall.Cart.Lookups.{
  keep, update_found, count_where-none, first_where-none, first_where-append_other,
  first_where-try_update,
}

pub data Command : Type 0 where
  add : CartItem → Command
  add_all : Int64 → List CartItem → Command
  put : CartItem → Command
  remove : Int64 → Int64 → Command
  remove_all : Int64 → List Int64 → Command
  clear : Int64 → Command
  increment : Int64 → Int64 → Command
  decrement : Int64 → Int64 → Command

abbrev pub execute : Command → Db (Unit {0})
execute (add item) = upsert_increment item
execute (add_all u items) = upsert_increment_batch u items
execute (put item) = upsert item
execute (remove u s) = delete u s
execute (remove_all u ss) = delete_by_sku_ids u ss
execute (clear u) = delete_by_user_id u
execute (increment u s) = increment_quantity u s
execute (decrement u s) = decrement_quantity u s

-- The line of one user and one SKU after a command; `none` where the new quantity is refused.
abbrev pub insert_line :
    (CartItem → Option CartItem)
    → CartItem
    → Int64
    → Int64
    → Option CartItem
    → Option (Option CartItem)
insert_line f item u s none = some (if is_line u s item then some item else none)
insert_line f item u s (some r) = keep (if is_line u s item then f r else some r)

abbrev pub merge_all :
    Int64 → Int64 → List CartItem → Option (Option CartItem) → Option (Option CartItem)
merge_all u s items none = none
merge_all u s [] (some o) = some o
merge_all u s (item ∷ items) (some o) =
    merge_all u s items (insert_line (merge_line item) item u s o)

abbrev pub change_line :
    Bool → (CartItem → Option CartItem) → Option CartItem → Option (Option CartItem)
change_line c f none = some none
change_line c f (some r) = keep (if c then f r else some r)

abbrev pub take_one : CartItem → Option CartItem
take_one r = if lt64 1 r.quantity then add_quantity (neg64 1) r else some r

abbrev pub line_after : Command → Int64 → Int64 → Option CartItem → Option (Option CartItem)
line_after (add item) u s o = insert_line (merge_line (at_least_one item)) (at_least_one item) u s o
line_after (add_all v items) u s o = merge_all u s (map (line_of_user v) items) (some o)
line_after (put item) u s o = insert_line (replace_line item) item u s o
line_after (remove v t) u s o = some (if (u == v) && (s == t) then none else o)
line_after (remove_all v ts) u s o = some (if (u == v) && elem s ts then none else o)
line_after (clear v) u s o = some (if u == v then none else o)
line_after (increment v t) u s o = change_line ((u == v) && (s == t)) (add_quantity 1) o
line_after (decrement v t) u s o = change_line ((u == v) && (s == t)) take_one o

-- An update of a line leaves its key.
pub add_quantity-is_line :
    (by u s : Int64) (r r' : CartItem)
    → add_quantity by r ≡ some r'
    → is_line u s r' ≡ is_line u s r
add_quantity-is_line by u s r r' h = elim (Option-cases (sql_add r.quantity by)) [
  | inl a ↦ absurd (ground arith)
  | inr (q, a) ↦
      let same : record r { quantity = q } ≡ r' = ground arith in
      subst (λ x. is_line u s x ≡ is_line u s r) same refl
]

pub merge_line-is_line :
    (item : CartItem) (u s : Int64) (r r' : CartItem)
    → merge_line item r ≡ some r'
    → is_line u s r' ≡ is_line u s r
merge_line-is_line item u s r r' h =
    add_quantity-is_line item.quantity u s (record r { product_id = item.product_id }) r' h

pub replace_line-is_line :
    (item : CartItem) (u s : Int64) (r r' : CartItem)
    → replace_line item r ≡ some r'
    → is_line u s r' ≡ is_line u s r
replace_line-is_line item u s r r' h =
    let same : record r { product_id = item.product_id; quantity = item.quantity } ≡ r' =
      ground arith in
    subst (λ x. is_line u s x ≡ is_line u s r) same refl

-- Of a row with a key, a test of the key is known.
pub is_line-key :
    (u s : Int64) (r : CartItem) → is_line u s r ≡ true → (r.user_id ≡ u) × (r.sku_id ≡ s)
is_line-key u s r h = (ground arith, ground arith)

pub update_found-change :
    (u s : Int64) (c : Bool) (q : CartItem → Bool) (f g : CartItem → Option CartItem)
    (rows : List CartItem)
    → ((r : CartItem)
        → is_line u s r ≡ true
        → (if q r then f r else some r) ≡ (if c then g r else some r))
    → update_found q f (first_where (is_line u s) rows)
      ≡ change_line c g (first_where (is_line u s) rows)
update_found-change u s c q f g [] h = refl
update_found-change u s c q f g (r ∷ rows) h = elim (Bool-cases (is_line u s r)) [
  | inl a ↦ rw a (ap keep (h r a))
  | inr a ↦ rw a (update_found-change u s c q f g rows h)
]

-- A row of a key has the key of an item exactly where the item has it.
is_line-item :
    (u s : Int64) (r item : CartItem)
    → is_line u s r ≡ true
    → is_line item.user_id item.sku_id r ≡ is_line u s item
is_line-item u s r item h = let (a, b) = is_line-key u s r h in ground arith

pub count_where-key :
    (u s : Int64) (item : CartItem) (rows : List CartItem)
    → is_line u s item ≡ true
    → count_where (is_line item.user_id item.sku_id) rows ≡ count_where (is_line u s) rows
count_where-key u s item rows h =
    let (a, b) = is_line-key u s item h in
    ap (λ x. count_where (is_line x item.sku_id) rows) a
    ∙ ap (λ x. count_where (is_line u x) rows) b

pub insert_or_update-line :
    (f : CartItem → Option CartItem) (item : CartItem) (rows rows' : List CartItem) (u s : Int64)
    → ((r r' : CartItem) → f r ≡ some r' → is_line u s r' ≡ is_line u s r)
    → insert_or_update f item rows ≡ some rows'
    → insert_line f item u s (first_where (is_line u s) rows)
      ≡ some (first_where (is_line u s) rows')
insert_or_update-line f item rows rows' u s h e = elim (Bool-cases (leb 1 (count_where q rows))) [
  | inl a ↦ met a _ refl ∙ first_where-try_update p q f rows rows' h (ground arith)
  | inr a ↦
      let appended : rows ++ item ∷ [] ≡ rows' = ground arith in
      subst (λ x. insert_line f item u s (first_where p rows) ≡ some (first_where p x)) appended
        (new (ground arith) _ refl)
]
  where
    p : CartItem → Bool
    p = is_line u s

    q : CartItem → Bool
    q = is_line item.user_id item.sku_id

    met :
        leb 1 (count_where q rows) ≡ true
        → (o : Option CartItem) → first_where p rows ≡ o
        → insert_line f item u s o ≡ update_found q f o
    met a none k = elim (Bool-cases (is_line u s item)) [
      | inl b ↦
          let left = count_where-none p rows k in
          let same = count_where-key u s item rows b in absurd (ground arith)
      | inr b ↦ rw b refl
    ]
    met a (some r) k =
        let here = first_where-holds p rows r k in rw (is_line-item u s r item here) refl

    new :
        count_where q rows ≡ 0
        → (o : Option CartItem) → first_where p rows ≡ o
        → insert_line f item u s o ≡ some (first_where p (rows ++ item ∷ []))
    new a o k = elim (Bool-cases (is_line u s item)) [
      | inl b ↦
          let left = sym (count_where-key u s item rows b) ∙ a in
          let before = sym k ∙ first_where-none p rows left in
          rw (before, b, first_where-append p rows item left b) refl
      | inr b ↦ rw (first_where-append_other p rows item b, k) (unchanged b o)
    ]
      where
        unchanged :
            is_line u s item ≡ false → (o : Option CartItem) → insert_line f item u s o ≡ some o
        unchanged b none = rw b refl
        unchanged b (some r) = rw b refl

pub insert_lines-line :
    (items rows rows' : List CartItem) (u s : Int64)
    → insert_lines items (some rows) ≡ some rows'
    → merge_all u s items (some (first_where (is_line u s) rows))
      ≡ some (first_where (is_line u s) rows')
insert_lines-line [] rows rows' u s e = ap (λ x. map_rows x) e
  where
    map_rows : Option (List CartItem) → Option (Option CartItem)
    map_rows none = none
    map_rows (some x) = some (first_where (is_line u s) x)
insert_lines-line (item ∷ items) rows rows' u s e =
    go (λ next k. insert_lines-line items next rows' u s k)
      (insert_or_update (merge_line item) item rows) refl e
  where
    go :
        ((next : List CartItem)
          → insert_lines items (some next) ≡ some rows'
          → merge_all u s items (some (first_where (is_line u s) next))
            ≡ some (first_where (is_line u s) rows'))
        → (x : Option (List CartItem)) → insert_or_update (merge_line item) item rows ≡ x
        → insert_lines items x ≡ some rows'
        → merge_all u s (item ∷ items) (some (first_where (is_line u s) rows))
          ≡ some (first_where (is_line u s) rows')
    go rest none k e = absurd (ground arith)
    go rest (some next) k e =
        let step =
          insert_or_update-line (merge_line item) item rows next u s (merge_line-is_line item u s)
            k in
        ap (merge_all u s items) step ∙ rest next e
