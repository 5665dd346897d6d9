-- ===== src/Order/Expiry.antt =====
-- Which orders the job of the expired orders cancels.
use douyin_mall.Base.{
  ℕ, ◌≡◌, ◌⊎◌, refl, inl, inr, Bool, true, false, List, [], ◌∷◌, Int64, World, ok, Bool-cases, suc,
}
use douyin_mall.Order.{Order, Tables, cancelable_order_ids, confirm_payment}

-- `ids` is the sublist of the orders of `os` that the job has seen unpaid, where the confirmation of
-- the first payment is call `k`: an order is left out where its call failed or it is paid.
pub data Unpaid (paid : Int64 → Bool) (fails : ℕ → Bool)
    : ℕ → List Order → List Int64 → Type 0 where
  none_left : {k : ℕ} → Unpaid paid fails k [] []
  dropped :
      {k : ℕ} {o : Order} {os : List Order} {ids : List Int64}
      → (fails k ≡ true) ⊎ (paid o.id ≡ true)
      → Unpaid paid fails (suc k) os ids
      → Unpaid paid fails k (o ∷ os) ids
  listed :
      {k : ℕ} {o : Order} {os : List Order} {ids : List Int64}
      → fails k ≡ false
      → paid o.id ≡ false
      → Unpaid paid fails (suc k) os ids
      → Unpaid paid fails k (o ∷ os) (o.id ∷ ids)

-- The loop of the job that confirms the payments of the expired orders does not fail, whatever calls
-- fail, and lists for cancellation, in their order, exactly the orders whose payment it has seen
-- unpaid: it leaves out those that are paid and those whose confirmation has failed. It changes no
-- row.
pub cancelable_order_ids-Unpaid :
    (paid : Int64 → Bool) (os : List Order) (w : World Tables)
    → (ids : List Int64) × ((cancelable_order_ids paid os w).0 ≡ ok ids)
      × Unpaid paid w.fails w.tick os ids
      × ((cancelable_order_ids paid os w).1.store ≡ w.store)
unfolding cancelable_order_ids confirm_payment
cancelable_order_ids-Unpaid paid [] w = ([], refl, none_left, refl)
cancelable_order_ids-Unpaid paid (o ∷ os) w =
    let (ids, done, unpaid, same) =
      cancelable_order_ids-Unpaid paid os (record w { tick = suc w.tick }) in
    elim (Bool-cases (w.fails w.tick)) [
      | inl down ↦ (ids, rw (down, done) refl, dropped (inl down) unpaid, rw (down, done) same)
      | inr up ↦ elim (Bool-cases (paid o.id)) [
        | inl settled ↦
            (ids, rw (up, done) (rw settled refl), dropped (inr settled) unpaid, rw (up, done) same)
        | inr owed ↦
            (o.id ∷ ids, rw (up, done) (rw owed refl), listed up owed unpaid, rw (up, done) same)
      ]
    ]
