-- ===== src/Coupon/Reservation.antt =====
-- `ReserveCouponUseCase`: the ids that it takes, and what one call does to the table.
use douyin_mall.Base.{
  ℕ, ◌≡◌, refl, sym, suc, ◌∙◌, ap, subst, ◌⊎◌, inl, inr, false, Option, none, some, List, [], ◌∷◌,
  arith, Int64, World, Result, ok, err, Bool-cases, Option-cases, update_where, count_where, length,
  elem, le64, ◌&&◌, not, ◌==◌, transaction-err, transaction-ok, ==_iff,
}
use douyin_mall.Coupon.{
  ReserveCouponInput, ReserveCouponOutput, success, failures, Tables, Error, reserve_execute,
  normalize_coupon_ids, normalize_from, batch_reserve, is_reservable, lock, get_available_by_ids,
  reserve_available, coupon_not_available, after_reserve, reserve_rows, statement_failed,
  invalid_argument, reserve_normalized,
}

-- No id comes twice.
abbrev pub Distinct : List Int64 → Type 0
Distinct [] = Unit
Distinct (id ∷ ids) = (elem id ids ≡ false) × Distinct ids

normalize_from-elem :
    (seen ids rs : List Int64) (x : Int64)
    → normalize_from seen ids ≡ some rs
    → elem x rs ≡ (elem x ids && not (elem x seen))
unfolding normalize_from
normalize_from-elem seen [] rs x h = ground arith
normalize_from-elem seen (id ∷ ids) rs x h = elim (Option-cases (normalize_from (id ∷ seen) ids)) [
  | inl bad ↦ absurd (ground arith)
  | inr (rest, good) ↦
      let ih = normalize_from-elem (id ∷ seen) ids rest x good in
      elim (Bool-cases (x == id)) [
        | inl same ↦
            let seen_alike = ap (λ y. elem y seen) ((==_iff x id).0 same) in
            elim (Bool-cases (elem id seen)) [ inl old ↦ ground arith | inr new ↦ ground arith ]
        | inr other ↦ elim (Bool-cases (elem id seen)) [
          | inl old ↦ ground arith
          | inr new ↦ ground arith
        ]
      ]
]

normalize_from-Distinct :
    (seen ids rs : List Int64) → normalize_from seen ids ≡ some rs → Distinct rs
unfolding normalize_from
normalize_from-Distinct seen [] rs h = subst Distinct {x = []} (ground arith) tt
normalize_from-Distinct seen (id ∷ ids) rs h =
    elim (Option-cases (normalize_from (id ∷ seen) ids)) [
      | inl bad ↦ absurd (ground arith)
      | inr (rest, good) ↦
          let ih = normalize_from-Distinct (id ∷ seen) ids rest good in
          let out = normalize_from-elem (id ∷ seen) ids rest id good in
          elim (Bool-cases (elem id seen)) [
            | inl old ↦ subst Distinct {x = rest} (ground arith) ih
            | inr new ↦ subst Distinct {x = id ∷ rest} (ground arith) (ground arith, ih)
          ]
    ]

-- A list of ids that is accepted comes out with the same members, each of them once.
pub normalize_coupon_ids-Distinct :
    (ids rs : List Int64) (x : Int64)
    → normalize_coupon_ids ids ≡ some rs
    → Distinct rs × (elem x rs ≡ elem x ids)
unfolding normalize_coupon_ids
normalize_coupon_ids-Distinct ids rs x h =
    let members = normalize_from-elem [] ids rs x h in
    (normalize_from-Distinct [] ids rs h, ground arith)

abbrev Out : Type 0
Out = Result Error ReserveCouponOutput × World Tables

abbrev Untouched : (Tables → Tables) → World Tables → Out → Type 0
Untouched others w o = (o.1.store ≡ w.store) ⊎ (o.1.store ≡ others w.store)

abbrev Failed : (Tables → Tables) → World Tables → Out → Type 0
Failed others w o = (x : Error) × (o.0 ≡ err x) × Untouched others w o

abbrev Refused : (Tables → Tables) → World Tables → Out → Type 0
Refused others w o = (ids : List Int64) × (o.0 ≡ ok (failures ids)) × Untouched others w o

abbrev Reserved : (Tables → Tables) → ReserveCouponInput → World Tables → Out → Type 0
Reserved others input w o =
    (ids : List Int64) × (normalize_coupon_ids input.coupon_ids ≡ some ids)
    × (o.0 ≡ ok (success (length ids)))
    × (count_where (is_reservable ids) (others w.store).coupons ≡ length ids)
    × (o.1.store.coupons
        ≡ update_where (is_reservable ids) (lock input.order_id) (others w.store).coupons)

abbrev pub Outcome : (Tables → Tables) → ReserveCouponInput → World Tables → Out → Type 0
Outcome others input w o = Failed others w o ⊎ Refused others w o ⊎ Reserved others input w o

reserving :
    (others : Tables → Tables) (input : ReserveCouponInput) (w u : World Tables) (id : Int64)
    (ids : List Int64)
    → normalize_coupon_ids input.coupon_ids ≡ some (id ∷ ids)
    → u.store ≡ others w.store
    → (o : Result Error (Unit {0}) × World Tables) → batch_reserve (id ∷ ids) input.order_id u ≡ o
    → Outcome others input w (after_reserve (id ∷ ids) o.0 o.1)
unfolding batch_reserve
reserving others input w u id ids normal base (err coupon_not_available, v) h =
    let kept =
      transaction-err statement_failed (reserve_rows (id ∷ ids) input.order_id) u v
        coupon_not_available h in
    inr (inl (id ∷ ids, refl, inr (kept ∙ base)))
reserving others input w u id ids normal base (err x, v) h =
    let kept = transaction-err statement_failed (reserve_rows (id ∷ ids) input.order_id) u v x h in
    inl (x, refl, inr (kept ∙ base))
reserving others input w u id ids normal base (ok tt, v) h =
    let (p, q, start, ran, end) =
      transaction-ok statement_failed (reserve_rows (id ∷ ids) input.order_id) u v tt h in
    let rows : p.store.coupons ≡ (others w.store).coupons =
      ap (λ (t : Tables). t.coupons) (start ∙ base) in
    let counted : count_where (is_reservable (id ∷ ids)) p.store.coupons ≡ length (id ∷ ids) =
      ground arith in
    let written : q.store.coupons
        ≡ update_where (is_reservable (id ∷ ids)) (lock input.order_id) p.store.coupons =
      ground arith in
    inr (
      inr (
        id ∷ ids,
        normal,
        refl,
        sym (ap (count_where (is_reservable (id ∷ ids))) rows) ∙ counted,
        ap (λ (t : Tables). t.coupons) end
            ∙ written
            ∙ ap (update_where (is_reservable (id ∷ ids)) (lock input.order_id)) rows,
      ))

with_available :
    (others : Tables → Tables) (input : ReserveCouponInput) (w u : World Tables) (id : Int64)
    (ids missing : List Int64)
    → normalize_coupon_ids input.coupon_ids ≡ some (id ∷ ids)
    → u.store ≡ w.store
    → Outcome others input w (reserve_available others input.order_id (id ∷ ids) missing u)
with_available others input w u id ids [] normal same =
    reserving others input w (record u { store = others u.store }) id ids normal (ap others same)
      (batch_reserve (id ∷ ids) input.order_id (record u { store = others u.store })) refl
with_available others input w u id ids (m ∷ ms) normal same = inr (inl (m ∷ ms, refl, inl same))

with_normal :
    (others : Tables → Tables) (now : ℕ) (input : ReserveCouponInput) (w : World Tables)
    (r : Option (List Int64))
    → normalize_coupon_ids input.coupon_ids ≡ r
    → Outcome others input w (reserve_normalized others now input r w)
unfolding get_available_by_ids
with_normal others now input w none h = inl (invalid_argument, refl, inl refl)
with_normal others now input w (some []) h = inl (invalid_argument, refl, inl refl)
with_normal others now input w (some (id ∷ ids)) h = elim (Bool-cases (w.fails w.tick)) [
  | inl down ↦ rw down (inl (statement_failed, refl, inl refl))
  | inr up ↦ rw up (with_available others input w (record w { tick = suc w.tick }) id ids _ h refl)
]

-- One call of ReserveCoupon, whatever fails and whatever other transactions do between its read and
-- its update: it fails or names coupons that it could not reserve, and has written nothing; or every
-- id of the request was free and is now locked for the order, and no other coupon has changed.
pub reserve_execute-Outcome :
    (others : Tables → Tables) (now : ℕ) (input : ReserveCouponInput) (w : World Tables)
    → Outcome others input w (reserve_execute others now input w)
unfolding reserve_execute
reserve_execute-Outcome others now input w = elim (Bool-cases (le64 input.user_id 0)) [
  | inl bad ↦ rw bad (inl (invalid_argument, refl, inl refl))
  | inr user ↦ elim (Bool-cases (le64 input.order_id 0)) [
    | inl bad ↦ rw (user, bad) (inl (invalid_argument, refl, inl refl))
    | inr order ↦
        rw (user, order)
          (with_normal others now input w (normalize_coupon_ids input.coupon_ids) refl)
  ]
]
