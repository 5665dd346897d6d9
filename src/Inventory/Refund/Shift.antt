-- ===== src/Inventory/Refund/Shift.antt =====
-- The UPDATE statements of commits and refunds as functions on the rows, and how they cancel.
use douyin_mall.Base.{
  ◌≡◌, refl, sym, ◌∙◌, ap, subst, ◌⊎◌, inl, inr, ◌≢◌, Bool, true, false, Option, none, some, List,
  [], ◌∷◌, map, arith, All, Bool-cases, Int64, add64, neg64, neg32, to_int64, try_update, set_row,
  count_where, if◌then◌else◌,
}
use douyin_mall.Inventory.{StockChange, InventoryRow, move_row, has_stock, is_product}
use douyin_mall.Inventory.Ledger.{IsQuantity, sale, IsWord, IsUnique, IsAbsent}

-- What a statement does to a row of the product.
unfoldable pub shift : Int64 → Int64 → Int64 → InventoryRow → InventoryRow
shift p by sold_by r =
    if is_product p r then record r { stock = add64 r.stock by; sold = add64 r.sold sold_by } else r

abbrev pub sell : StockChange → InventoryRow → InventoryRow
sell c = shift c.product_id (to_int64 c.quantity) (to_int64 (neg32 c.quantity))

abbrev pub give_back : StockChange → InventoryRow → InventoryRow
give_back c = shift c.product_id (to_int64 (neg32 c.quantity)) (neg64 (to_int64 (neg32 c.quantity)))

give_back-sell :
    (c : StockChange) (r : InventoryRow) → IsQuantity c → IsWord r → give_back c (sell c r) ≡ r
unfolding shift
give_back-sell c r q b = ground arith

give_back-sell_comm :
    (c d : StockChange) (r : InventoryRow) → give_back c (sell d r) ≡ sell d (give_back c r)
unfolding shift
give_back-sell_comm c d r = ground arith

-- An UPDATE whose row function is `g` where it is not refused.
module _ (p : InventoryRow → Bool) (f : InventoryRow → Option InventoryRow)
    (g : InventoryRow → InventoryRow)
    (same : (r r' : InventoryRow) → p r ≡ true → f r ≡ some r' → r' ≡ g r)
    (id' : (r : InventoryRow) → p r ≡ false → r ≡ g r) where
  set_row-eq :
      (r : InventoryRow) (rs : List InventoryRow) (o : Option InventoryRow)
      (os : Option (List InventoryRow)) {rows : List InventoryRow}
      → set_row o os ≡ some rows
      → ((r' : InventoryRow) → o ≡ some r' → r' ≡ g r)
      → ((rs' : List InventoryRow) → os ≡ some rs' → rs' ≡ map g rs)
      → rows ≡ map g (r ∷ rs)
  set_row-eq r rs (some r') (some rs') h k l = ground (arith, k r' refl, l rs' refl)
  set_row-eq r rs (some r') none h k l = absurd (cc h)
  set_row-eq r rs none os h k l = absurd (cc h)

  pub try_update-eq-map :
      (rows rows' : List InventoryRow) → try_update p f rows ≡ some rows' → rows' ≡ map g rows
  try_update-eq-map [] rows' h = ground arith
  try_update-eq-map (r ∷ rs) rows' h =
      set_row-eq r rs _ _ h
        (λ r' e. elim (Bool-cases (p r)) [
          | inl hit ↦ same r r' hit (rw hit at e)
          | inr miss ↦ let e' : r ≡ r' = ground arith in sym e' ∙ id' r miss
        ])
        (λ rs' e. try_update-eq-map rs rs' e)

pub move_row-shift :
    (p by sold_by : Int64) (r r' : InventoryRow)
    → is_product p r ≡ true
    → move_row by sold_by r ≡ some r'
    → r' ≡ shift p by sold_by r
unfolding shift move_row
move_row-shift p by sold_by r r' h e = ground arith

pub shift-other :
    (p by sold_by : Int64) (r : InventoryRow) → is_product p r ≡ false → r ≡ shift p by sold_by r
unfolding shift
shift-other p by sold_by r h = ground arith

IsAbsent-map-sell :
    (p : Int64) (c : StockChange) (rs : List InventoryRow)
    → IsAbsent p rs
    → IsAbsent p (map (sell c) rs)
unfolding shift
IsAbsent-map-sell p c [] h = tt
IsAbsent-map-sell p c (r ∷ rs) h = (ground arith, IsAbsent-map-sell p c rs h.1)

pub IsUnique-map-sell :
    (c : StockChange) (rs : List InventoryRow) → IsUnique rs → IsUnique (map (sell c) rs)
unfolding shift
IsUnique-map-sell c [] h = tt
IsUnique-map-sell c (r ∷ rs) h = (
  elim (Bool-cases (is_product c.product_id r)) [
    | inl hit ↦ rw hit (IsAbsent-map-sell r.product_id c rs h.0)
    | inr miss ↦ rw miss (IsAbsent-map-sell r.product_id c rs h.0)
  ],
  IsUnique-map-sell c rs h.1,
)

-- Without a row of the product, the UPDATE and the shift change nothing.
map-sell-absent :
    (c : StockChange) (rs : List InventoryRow) → IsAbsent c.product_id rs → rs ≡ map (sell c) rs
unfolding shift
map-sell-absent c [] h = refl
map-sell-absent c (r ∷ rs) h = ground (arith, map-sell-absent c rs h.1)

set_row-some :
    (o : Option InventoryRow) (os : Option (List InventoryRow)) (rows : List InventoryRow)
    → set_row o os ≡ some rows
    → (r : InventoryRow) × (rs : List InventoryRow) × (o ≡ some r)
      × (os ≡ some rs)
      × (rows ≡ r ∷ rs)
set_row-some (some r) (some rs) rows h = (r, rs, refl, refl, cc)
set_row-some (some r) none rows h = absurd (cc h)
set_row-some none os rows h = absurd (cc h)

abbrev pub enough : StockChange → InventoryRow → Bool
enough c = has_stock c.product_id (to_int64 (neg32 c.quantity))

sale-absent :
    (c : StockChange) (rs : List InventoryRow)
    → IsAbsent c.product_id rs
    → (sale c rs ≡ some rs) × (count_where (enough c) rs ≡ 0)
sale-absent c [] h = (refl, refl)
sale-absent c (r ∷ rs) h = ground (arith, sale-absent c rs h.1)

-- With unique products, the UPDATE of a commit that meets a row shifts the rows of its product.
pub sale_shifts :
    (c : StockChange) (rows rows' : List InventoryRow)
    → IsUnique rows
    → count_where (enough c) rows ≢ 0
    → sale c rows ≡ some rows'
    → rows' ≡ map (sell c) rows
sale_shifts c [] rows' u n e = absurd (n refl)
sale_shifts c (r ∷ rs) rows' u n e =
    go (set_row-some _ _ rows' e) (Bool-cases (is_product c.product_id r))
      (λ as' n' e'. sale_shifts c rs as' u.1 n' e')
  where
    go :
        (a : InventoryRow) × (as' : List InventoryRow) × ((if enough c r
              then move_row (to_int64 c.quantity) (to_int64 (neg32 c.quantity)) r
              else some r)
            ≡ some a)
          × (sale c rs ≡ some as')
          × (rows' ≡ a ∷ as')
        → (is_product c.product_id r ≡ true) ⊎ (is_product c.product_id r ≡ false)
        → ((as' : List InventoryRow)
            → count_where (enough c) rs ≢ 0
            → sale c rs ≡ some as'
            → as' ≡ map (sell c) rs)
        → rows' ≡ map (sell c) (r ∷ rs)
    go (a, as', ha, hs, eq) (inl hit) ih =
        let gone : IsAbsent c.product_id rs = subst (λ p. IsAbsent p rs) (ground arith) u.0 in
        let rest = sale-absent c rs gone in
        let fits : enough c r ≡ true = ground arith in
        let moved =
          move_row-shift c.product_id (to_int64 c.quantity) (to_int64 (neg32 c.quantity)) r a hit
            (rw fits at ha) in
        let same = map-sell-absent c rs gone in eq ∙ cc (moved, rest.0, hs, same)
    go (a, as', ha, hs, eq) (inr miss) ih =
        let more : count_where (enough c) rs ≢ 0 = ground arith in
        let stays : r ≡ a = ground arith in
        eq
        ∙ cc (
          stays,
          shift-other c.product_id (to_int64 c.quantity) (to_int64 (neg32 c.quantity)) r miss,
          ih as' more hs,
        )

unfoldable pub give_back_all : List StockChange → List InventoryRow → List InventoryRow
give_back_all [] rows = rows
give_back_all (c ∷ cs) rows = give_back_all cs (map (give_back c) rows)

unfoldable pub sell_all : List StockChange → List InventoryRow → List InventoryRow
sell_all [] rows = rows
sell_all (c ∷ cs) rows = sell_all cs (map (sell c) rows)

map-give_back-sell_all :
    (c : StockChange) (cs : List StockChange) (rows : List InventoryRow)
    → map (give_back c) (sell_all cs rows) ≡ sell_all cs (map (give_back c) rows)
unfolding sell_all
map-give_back-sell_all c [] rows = refl
map-give_back-sell_all c (d ∷ cs) rows =
    map-give_back-sell_all c cs (map (sell d) rows) ∙ ap (sell_all cs) (swap rows)
  where
    swap :
        (rs : List InventoryRow)
        → map (give_back c) (map (sell d) rs) ≡ map (sell d) (map (give_back c) rs)
    swap [] = refl
    swap (r ∷ rs) = cc (give_back-sell_comm c d r, swap rs)

map-give_back-sell :
    (c : StockChange) (rows : List InventoryRow)
    → IsQuantity c
    → All IsWord rows
    → map (give_back c) (map (sell c) rows) ≡ rows
map-give_back-sell c [] q b = refl
map-give_back-sell c (r ∷ rs) q b = cc (give_back-sell c r q b.0, map-give_back-sell c rs q b.1)

pub give_back_all-sell_all :
    (cs : List StockChange) (rows : List InventoryRow)
    → All IsQuantity cs
    → All IsWord rows
    → give_back_all cs (sell_all cs rows) ≡ rows
unfolding give_back_all sell_all
give_back_all-sell_all [] rows q b = refl
give_back_all-sell_all (c ∷ cs) rows q b =
    ap (give_back_all cs) (
      map-give_back-sell_all c cs (map (sell c) rows)
      ∙ ap (sell_all cs) (map-give_back-sell c rows q.0 b))
    ∙ give_back_all-sell_all cs rows q.1 b
