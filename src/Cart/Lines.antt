-- ===== src/Cart/Lines.antt =====
-- Valid tables of carts, and the statements on them.
use douyin_mall.Base.{
  Bool, true, Option, none, some, List, [], ◌∷◌, ◌++◌, ◌≡◌, ◌≤◌, ◌<◌, refl, sym, ◌∙◌, subst, inl,
  inr, arith, map, leb, Int64, lt64, le64, neg64, sql_add, mod64, half64, All, Bool-cases,
  Option-cases, World, count_where, count_where-append, count_where-try_update,
  count_where-delete_le, All-try_update, try_update, delete_where,
}
use douyin_mall.Cart.{
  CartItem, is_line, add_quantity, merge_line, insert_or_update, insert_lines, put_rows,
  at_least_one, line_of_user,
}
use douyin_mall.Cart.Lookups.{All-delete_where, All-append}
use douyin_mall.Cart.Changes.{Command, add, add_all, put, count_where-key, merge_line-is_line}

abbrev pub IsPositive : CartItem → Type 0
IsPositive r = (1 ≤ r.quantity) × (r.quantity < half64)

abbrev pub IsValid : List CartItem → Type 0
IsValid rows = ((u s : Int64) → count_where (is_line u s) rows ≤ 1) × All IsPositive rows

-- A quantity that is an int64.
abbrev pub IsWord : CartItem → Type 0
IsWord item = item.quantity < mod64

abbrev pub HasWords : Command → Type 0
HasWords (add item) = IsWord item
HasWords (add_all v items) = All IsWord items
HasWords (put item) = IsWord item
HasWords _ = Unit

pub at_least_one-IsPositive : (item : CartItem) → IsWord item → IsPositive (at_least_one item)
at_least_one-IsPositive item h = elim (Bool-cases (le64 item.quantity 0)) [
  | inl a ↦ rw a (omega arith, omega arith)
  | inr a ↦ rw a (ground arith, ground arith)
]

pub sql_add-IsPositive :
    (a b c : Int64)
    → (1 ≤ a) × (a < half64)
    → (1 ≤ b) × (b < half64)
    → sql_add a b ≡ some c
    → (1 ≤ c) × (c < half64)
sql_add-IsPositive a b c (h, k) (l, m) e = (ground arith, ground arith)

pub sql_add-take_one :
    (a c : Int64)
    → (a < half64)
    → lt64 1 a ≡ true
    → sql_add a (neg64 1) ≡ some c
    → (1 ≤ c) × (c < half64)
sql_add-take_one a c h k e = (ground arith, ground arith)

pub add_quantity-IsPositive :
    (by : Int64) (r r' : CartItem)
    → ((c : Int64) → sql_add r.quantity by ≡ some c → (1 ≤ c) × (c < half64))
    → add_quantity by r ≡ some r'
    → IsPositive r'
add_quantity-IsPositive by r r' h e = elim (Option-cases (sql_add r.quantity by)) [
  | inl a ↦ absurd (ground arith)
  | inr (q, a) ↦
      let same : record r { quantity = q } ≡ r' = ground arith in subst IsPositive same (h q a)
]

-- An UPDATE that keeps the keys and leaves positive quantities.
pub try_update-IsValid :
    (q : CartItem → Bool) (f : CartItem → Option CartItem) (rows rows' : List CartItem)
    → ((u s : Int64) (r r' : CartItem) → f r ≡ some r' → is_line u s r' ≡ is_line u s r)
    → ((r r' : CartItem) → IsPositive r → q r ≡ true → f r ≡ some r' → IsPositive r')
    → IsValid rows
    → try_update q f rows ≡ some rows'
    → IsValid rows'
try_update-IsValid q f rows rows' key pos (one, all) e = (
  (λ u s.
      let same = count_where-try_update (is_line u s) q f rows rows' (key u s) e in
      rw same (one u s)),
  All-try_update IsPositive IsPositive q f rows rows' pos (λ r h k. h) e all,
)

pub delete_where-IsValid :
    (q : CartItem → Bool) (rows : List CartItem) → IsValid rows → IsValid (delete_where q rows)
delete_where-IsValid q rows (one, all) = (
  (λ u s.
      let less = count_where-delete_le (is_line u s) q rows in let before = one u s in omega arith),
  All-delete_where IsPositive q rows all,
)

pub insert_or_update-IsValid :
    (f : CartItem → Option CartItem) (item : CartItem) (rows rows' : List CartItem)
    → ((u s : Int64) (r r' : CartItem) → f r ≡ some r' → is_line u s r' ≡ is_line u s r)
    → ((r r' : CartItem) → IsPositive r → f r ≡ some r' → IsPositive r')
    → IsPositive item
    → IsValid rows
    → insert_or_update f item rows ≡ some rows'
    → IsValid rows'
insert_or_update-IsValid f item rows rows' key pos new (one, all) e =
    elim (Bool-cases (leb 1 (count_where q rows))) [
      | inl a ↦
          try_update-IsValid q f rows rows' key (λ r r' h k. pos r r' h) (one, all) (ground arith)
      | inr a ↦
          let appended : rows ++ item ∷ [] ≡ rows' = ground arith in
          subst IsValid appended (fresh (ground arith), All-append IsPositive rows item all new)
    ]
  where
    q : CartItem → Bool
    q = is_line item.user_id item.sku_id

    fresh :
        count_where q rows ≡ 0 → (u s : Int64) → count_where (is_line u s) (rows ++ item ∷ []) ≤ 1
    fresh h u s = elim (Bool-cases (is_line u s item)) [
      | inl b ↦
          let left = sym (count_where-key u s item rows b) ∙ h in
          rw (count_where-append (is_line u s) rows item, b, left) (omega arith)
      | inr b ↦
          let before = one u s in rw (count_where-append (is_line u s) rows item, b) (omega arith)
    ]

pub merge_line-IsPositive :
    (item r r' : CartItem)
    → IsPositive item
    → IsPositive r
    → merge_line item r ≡ some r'
    → IsPositive r'
merge_line-IsPositive item r r' h k e =
    add_quantity-IsPositive item.quantity (record r { product_id = item.product_id }) r'
      (λ c. sql_add-IsPositive r.quantity item.quantity c k h) e

pub insert_lines-IsValid :
    (items rows rows' : List CartItem)
    → All IsPositive items
    → IsValid rows
    → insert_lines items (some rows) ≡ some rows'
    → IsValid rows'
insert_lines-IsValid [] rows rows' a h e =
    let same : rows ≡ rows' = ground arith in subst IsValid same h
insert_lines-IsValid (item ∷ items) rows rows' (a, b) h e =
    go (λ next k l. insert_lines-IsValid items next rows' b k l)
      (insert_or_update (merge_line item) item rows) refl e
  where
    go :
        ((next : List CartItem)
          → IsValid next
          → insert_lines items (some next) ≡ some rows'
          → IsValid rows')
        → (x : Option (List CartItem)) → insert_or_update (merge_line item) item rows ≡ x
        → insert_lines items x ≡ some rows'
        → IsValid rows'
    go rest none k e = absurd (ground arith)
    go rest (some next) k e =
        rest next
          (insert_or_update-IsValid (merge_line item) item rows next
            (λ u s. merge_line-is_line item u s) (λ r r'. merge_line-IsPositive item r r' a) a h k)
          e

pub put_rows-IsValid :
    (new : Option (List CartItem)) (w : World (List CartItem))
    → IsValid w.store
    → ((rows' : List CartItem) → new ≡ some rows' → IsValid rows')
    → IsValid (put_rows new w).1.store
put_rows-IsValid none w h k = h
put_rows-IsValid (some rows) w h k = k rows refl

pub lines_of_user-IsPositive :
    (v : Int64) (items : List CartItem)
    → All IsWord items
    → All IsPositive (map (line_of_user v) items)
lines_of_user-IsPositive v [] h = tt
lines_of_user-IsPositive v (item ∷ items) (a, h) =
    (at_least_one-IsPositive item a, lines_of_user-IsPositive v items h)
