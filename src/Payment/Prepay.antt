-- ===== src/Payment/Prepay.antt =====
-- `ensurePaymentRecord`: the record that a prepayment needs.
use douyin_mall.Base.{
  ℕ, suc, ◌≡◌, refl, ◌⊎◌, inl, inr, true, false, some, [], ◌∷◌, ◌++◌, arith, World, Result, ok, err,
  Bool-cases, Option-cases, first_where, count_where, ◌||◌, leb, ◌==◌, str_eq,
}
use douyin_mall.Payment.{
  Payment, PaymentModel, success, ◌==ˢ◌, Tables, Error, add_payment, get_payment,
  ensure_payment_record, to_db_payment, to_domain_payment, has_trade_no, has_txn_id, after_add,
  payment_already_exists, payment_already_paid, payment_amount_changed, payment_not_found,
  statement_failed,
}

abbrev Out : Type 0
Out = Result Error (Unit {0}) × World Tables

abbrev pub Failed : World Tables → Out → Type 0
Failed w o = (x : Error) × (o.0 ≡ err x) × (o.1.store ≡ w.store)

abbrev pub Added : ℕ → Payment → World Tables → Out → Type 0
Added now p w o =
    (o.0 ≡ ok tt)
    × (count_where (has_trade_no p.biz_trade_no) w.store.payments ≡ 0)
    × (o.1.store.payments ≡ w.store.payments ++ to_db_payment w.store.next_id now p ∷ [])
    × (o.1.store.outbox ≡ w.store.outbox)

abbrev pub Present : Payment → World Tables → Out → Type 0
Present p w o =
    (m : PaymentModel) × (o.0 ≡ ok tt)
    × (first_where (has_trade_no p.biz_trade_no) w.store.payments ≡ some m)
    × ((m.status ==ˢ success) ≡ false)
    × ((m.amt == p.amt.total) ≡ true)
    × (str_eq m.currency p.amt.currency ≡ true)
    × (o.1.store ≡ w.store)

abbrev pub Outcome : ℕ → Payment → World Tables → Out → Type 0
Outcome now p w o = Failed w o ⊎ Added now p w o ⊎ Present p w o

after_add-Outcome :
    (now : ℕ) (p : Payment) (w v : World Tables)
    → v.store ≡ w.store
    → Outcome now p w (after_add p (err payment_already_exists) v)
unfolding get_payment to_domain_payment
after_add-Outcome now p w v same = elim (Bool-cases (v.fails v.tick)) [
  | inl down ↦ inl (statement_failed, ground arith, ground arith)
  | inr up ↦ elim (Option-cases (first_where (has_trade_no p.biz_trade_no) v.store.payments)) [
    | inl absent ↦ inl (payment_not_found, ground arith, ground arith)
    | inr (m, found) ↦ elim (Bool-cases (m.status ==ˢ success)) [
      | inl done ↦ inl (payment_already_paid, ground arith, ground arith)
      | inr open_yet ↦ elim (Bool-cases (m.amt == p.amt.total)) [
        | inr changed ↦ inl (payment_amount_changed, ground arith, ground arith)
        | inl kept ↦ elim (Bool-cases (str_eq m.currency p.amt.currency)) [
          | inr changed ↦ inl (payment_amount_changed, ground arith, ground arith)
          | inl equal ↦
              inr (inr (m, ground arith, ground arith, open_yet, kept, equal, ground arith))
        ]
      ]
    ]
  ]
]

-- Before a prepayment, whatever fails: the call fails and writes nothing; or the trade number was
-- free and a new payment has it; or its payment, which has not succeeded, is for the same amount in
-- the same currency, and nothing is written.
pub ensure_payment_record-Outcome :
    (now : ℕ) (p : Payment) (w : World Tables) → Outcome now p w (ensure_payment_record now p w)
unfolding ensure_payment_record add_payment
ensure_payment_record-Outcome now p w = elim (Bool-cases (w.fails w.tick)) [
  | inl down ↦ inl (statement_failed, ground arith, ground arith)
  | inr up ↦
      elim (Bool-cases (
        leb 1 (count_where (has_trade_no p.biz_trade_no) w.store.payments)
        || leb 1 (count_where (has_txn_id p.txn_id) w.store.payments))) [
          | inl taken ↦
              rw (up, taken) (after_add-Outcome now p w (record w { tick = suc w.tick }) refl)
          | inr free ↦ inr (inl (ground arith, ground arith, ground arith, ground arith))
        ]
]
