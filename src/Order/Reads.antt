-- ===== src/Order/Reads.antt =====
-- What `FindByIDs` and `FindByID` read.
use douyin_mall.Base.{
  ◌≡◌, sym, subst, inl, inr, true, false, some, List, [], ◌∷◌, map, arith, ◌==◌, ==_iff, Int64,
  World, ok, err, Bool-cases, Option-cases, elem, first_where, all_where,
}
use douyin_mall.Order.{
  Order, Error, Tables, OrderModel, find_by_ids, find_by_id, pick_all, has_id, to_domain_order,
  is_listed,
}

-- The orders that the rows of the ids stand for, in the order of the ids.
pub data Read (rows : List OrderModel) : List Int64 → List Order → Type 0 where
  none_left : Read rows [] []
  row :
      {id : Int64} {m : OrderModel} {ids : List Int64} {os : List Order}
      → first_where (has_id id) rows ≡ some m
      → Read rows ids os
      → Read rows (id ∷ ids) (to_domain_order m ∷ os)

found_row :
    (whole : List Int64) (id : Int64) (rows : List OrderModel) (o : Order)
    → elem id whole ≡ true
    → first_where
        (λ (o : Order). o.id == id)
        (map to_domain_order (all_where (is_listed whole) rows))
      ≡ some o
    → (m : OrderModel) × (first_where (has_id id) rows ≡ some m) × (o ≡ to_domain_order m)
unfolding to_domain_order
found_row whole id [] o listed h = absurd (ground arith)
found_row whole id (m ∷ ms) o listed h = elim (Bool-cases (m.id == id)) [
  | inl same ↦
      let listed' : is_listed whole m ≡ true =
        subst (λ i. elem i whole ≡ true) (sym ((==_iff m.id id).0 same)) listed in
      (m, ground arith, ground arith)
  | inr other ↦
      let (n, found, eq) = found_row whole id ms o listed (later other) in (n, ground arith, eq)
]
  where
    later :
        (m.id == id) ≡ false
        → first_where
            (λ (o : Order). o.id == id)
            (map to_domain_order (all_where (is_listed whole) ms))
          ≡ some o
    later other = elim (Bool-cases (is_listed whole m)) [
      | inl in_list ↦ ground arith
      | inr not_in ↦ ground arith
    ]

picked :
    (whole ids : List Int64) (rows : List OrderModel) (os : List Order)
    → ((id : Int64) → elem id ids ≡ true → elem id whole ≡ true)
    → pick_all ids (map to_domain_order (all_where (is_listed whole) rows)) ≡ some os
    → Read rows ids os
unfolding pick_all
picked whole [] rows os sub h = subst (Read rows []) (ground arith) none_left
picked whole (id ∷ ids) rows os sub h =
    elim (Option-cases (first_where (λ (o : Order). o.id == id) found)) [
      | inl absent ↦ absurd (ground arith)
      | inr (o, first) ↦ elim (Option-cases (pick_all ids found)) [
        | inl absent ↦ absurd (ground arith)
        | inr (rest, later) ↦
            let (m, at, eq) = found_row whole id rows o (sub id (ground arith)) first in
            subst (Read rows (id ∷ ids)) {x = to_domain_order m ∷ rest} (ground arith)
              (row at (picked whole ids rows rest (λ i e. sub i (ground arith)) later))
      ]
    ]
  where
    found : List Order
    found = map to_domain_order (all_where (is_listed whole) rows)

pub find_by_ids-Read :
    (id : Int64) (ids : List Int64) (w v : World Tables) (os : List Order)
    → find_by_ids (id ∷ ids) w ≡ (ok os, v)
    → Read w.store.orders (id ∷ ids) os × (v.store ≡ w.store)
unfolding find_by_ids
find_by_ids-Read id ids w v os h =
    elim (Option-cases (
      pick_all (id ∷ ids)
        (map to_domain_order (all_where (is_listed (id ∷ ids)) w.store.orders)))) [
          | inl absent ↦ absurd (ground arith)
          | inr (os', found) ↦ (
            picked (id ∷ ids) (id ∷ ids) w.store.orders os (λ i e. e) (ground arith),
            ground arith,
          )
        ]

pub find_by_ids-err :
    (id : Int64) (ids : List Int64) (w v : World Tables) (x : Error)
    → find_by_ids (id ∷ ids) w ≡ (err x, v)
    → v.store ≡ w.store
unfolding find_by_ids
find_by_ids-err id ids w v x h =
    elim (Option-cases (
      pick_all (id ∷ ids)
        (map to_domain_order (all_where (is_listed (id ∷ ids)) w.store.orders)))) [
          | inl absent ↦ ground arith
          | inr (os', found) ↦ ground arith
        ]

-- A read changes nothing, and returns the first row of the id.
pub find_by_id-store : (id : Int64) (w : World Tables) → (find_by_id id w).1.store ≡ w.store
unfolding find_by_id
find_by_id-store id w = elim (Option-cases (first_where (has_id id) w.store.orders)) [
  | inl absent ↦ ground arith
  | inr (m, found) ↦ ground arith
]

pub find_by_id-ok :
    (id : Int64) (w v : World Tables) (o : Order)
    → find_by_id id w ≡ (ok o, v)
    → (m : OrderModel) × (first_where (has_id id) w.store.orders ≡ some m) × (o ≡ to_domain_order m)
unfolding find_by_id
find_by_id-ok id w v o h = elim (Option-cases (first_where (has_id id) w.store.orders)) [
  | inl absent ↦ absurd (ground arith)
  | inr (m, found) ↦ (m, found, ground arith)
]
