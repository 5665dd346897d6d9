-- ===== src/Coupon/RoundTrip.antt =====
-- A reservation that is undone.
use douyin_mall.Base.{
  ℕ, ◌≡◌, refl, ◌∙◌, ap, ◌⊎◌, inl, inr, true, false, none, List, [], ◌∷◌, arith, Int64, World, ok,
  Bool-cases, update_where, update_where-none, count_where, All, if◌then◌else◌, transaction-ok,
  ==_iff,
}
use douyin_mall.Coupon.{
  CouponModel, CouponStatus, unused, locked, used, Tables, batch_reserve, update_status_by_order_id,
  commit_execute, release_execute, is_reservable, is_held, lock, with_status, ◌==ᶜ◌, reserve_rows,
  statement_failed,
}

-- A free coupon has no order and no time of use.
abbrev pub IsClean : CouponModel → Type 0
IsClean m = ((m.status ==ᶜ unused) ≡ false) ⊎ ((m.order_id ≡ none) × (m.used_at ≡ none))

status_of : (s t : CouponStatus) → (s ==ᶜ t) ≡ true → s ≡ t
status_of s t h = ground arith

-- A row there and back.
abbrev unlock : ℕ → Int64 → CouponModel → CouponModel
unlock now order_id m = if is_held order_id locked m then with_status now unused m else m

abbrev lock_if : List Int64 → Int64 → CouponModel → CouponModel
lock_if ids order_id m = if is_reservable ids m then lock order_id m else m

unlock-lock :
    (now : ℕ) (ids : List Int64) (order_id : Int64) (m : CouponModel)
    → IsClean m
    → is_held order_id locked m ≡ false
    → unlock now order_id (lock_if ids order_id m) ≡ m
unlock-lock now ids order_id m (inl busy) free =
    let left : is_reservable ids m ≡ false = ground arith in rw left (rw free refl)
unlock-lock now ids order_id m (inr (no_order, no_time)) free =
    elim (Bool-cases (is_reservable ids m)) [
      | inl taken ↦
          let status = status_of m.status unused (ground arith) in
          let own = (==_iff order_id order_id).1 refl in
          rw taken (rw own (ground (arith, no_order, no_time, status)))
      | inr left ↦ rw left (rw free refl)
    ]

rows_back :
    (now : ℕ) (ids : List Int64) (order_id : Int64) (rows : List CouponModel)
    → All IsClean rows
    → count_where (is_held order_id locked) rows ≡ 0
    → update_where
        (is_held order_id locked)
        (with_status now unused)
        (update_where (is_reservable ids) (lock order_id) rows)
      ≡ rows
rows_back now ids order_id [] clean free = refl
rows_back now ids order_id (m ∷ rows) (c, cs) free =
    let head = unlock-lock now ids order_id m c (ground arith) in
    let tail = rows_back now ids order_id rows cs (ground arith) in cc (head, tail)

-- In a table where free coupons are clean and the order holds no coupon, a reservation for the order
-- and its release leave every coupon as it was.
pub update_status_by_order_id-batch_reserve :
    (now : ℕ) (id : Int64) (ids : List Int64) (order_id : Int64) (w u v : World Tables)
    → All IsClean w.store.coupons
    → count_where (is_held order_id locked) w.store.coupons ≡ 0
    → batch_reserve (id ∷ ids) order_id w ≡ (ok tt, u)
    → update_status_by_order_id now order_id locked unused u ≡ (ok tt, v)
    → v.store.coupons ≡ w.store.coupons
unfolding batch_reserve update_status_by_order_id
update_status_by_order_id-batch_reserve now id ids order_id w u v clean free reserved released =
    let (p, q, start, ran, end) =
      transaction-ok statement_failed (reserve_rows (id ∷ ids) order_id) w u tt reserved in
    let rows = ap (λ (t : Tables). t.coupons) start in
    let stored = ap (λ (t : Tables). t.coupons) end in
    let locked_rows : q.store.coupons
        ≡ update_where (is_reservable (id ∷ ids)) (lock order_id) p.store.coupons =
      ground arith in
    let unlocked : v.store.coupons
        ≡ update_where (is_held order_id locked) (with_status now unused) u.store.coupons =
      ground arith in
    unlocked
    ∙ ap (update_where (is_held order_id locked) (with_status now unused))
        (stored ∙ locked_rows ∙ ap (update_where (is_reservable (id ∷ ids)) (lock order_id)) rows)
    ∙ rows_back now (id ∷ ids) order_id w.store.coupons clean free

none_held :
    (now : ℕ) (order_id : Int64) (rows : List CouponModel)
    → count_where
        (is_held order_id locked)
        (update_where (is_held order_id locked) (with_status now used) rows)
      ≡ 0
none_held now order_id [] = refl
none_held now order_id (m ∷ rows) = elim (Bool-cases (is_held order_id locked m)) [
  | inl held ↦ ground (arith, none_held now order_id rows)
  | inr free ↦ ground (arith, none_held now order_id rows)
]

-- A coupon that an order has used is not given back by a late release: once the commit of the order
-- has succeeded, its release changes no coupon, whatever fails.
pub release_execute-commit_execute :
    (now later : ℕ) (order_id : Int64) (w u : World Tables)
    → commit_execute now order_id w ≡ (ok tt, u)
    → (release_execute later order_id u).1.store.coupons ≡ u.store.coupons
unfolding commit_execute release_execute update_status_by_order_id
release_execute-commit_execute now later order_id w u done =
    let written : u.store.coupons
        ≡ update_where (is_held order_id locked) (with_status now used) w.store.coupons =
      ground arith in
    let none_left : count_where (is_held order_id locked) u.store.coupons ≡ 0 =
      ap (count_where (is_held order_id locked)) written ∙ none_held now order_id w.store.coupons in
    let idle =
      update_where-none (is_held order_id locked) (with_status later unused) u.store.coupons
        none_left in
    ground arith
