-- ===== src/Payment/Callback.antt =====
-- `UpdatePaymentByTxn`: what one callback of the provider does to the tables.
use douyin_mall.Base.{
  ℕ, ◌≡◌, refl, sym, subst, subst₂, ◌⊎◌, inl, inr, false, some, List, [], ◌∷◌, ◌++◌, arith, Int64,
  World, Result, ok, err, transaction-err, transaction-ok, Bool-cases, Option-cases, update_where,
  first_where, str_eq, if◌then◌else◌, parse_int64, ◌&&◌, transaction,
}
use douyin_mall.Payment.{
  PaymentStatus, success, Payment, PaymentModel, Tables, Error, CallbackCmd, update_payment_by_txn,
  native_cb_type_to_status, trim_cmd, incoming, settle, event_of, apply_result,
  apply_provider_result, to_domain_payment, has_trade_no, is_current, write, pending_row,
  event_type_payment_status_changed, ◌==ˢ◌, add, statement_failed, unknown_trade_state,
  payment_txn_id_required, invalid_number,
}
use douyin_mall.Payment.StateMachine.{not_persisted-quiet}

-- What is left where a transition asks for no write.
abbrev pub payments_after : ℕ → PaymentModel → Payment → List PaymentModel → List PaymentModel
payments_after now m q rows =
    let tr = apply_provider_result (to_domain_payment m) q in
    if tr.should_persist
    then update_where (is_current q.biz_trade_no m.status)
        (write now (to_domain_payment m) tr.payment) rows
    else rows

-- From `t` to `u` the result `q` of the provider has been applied to the payment's row, and the event
-- is in the outbox exactly where the status changed.
abbrev pub Settles : ℕ → Int64 → Payment → Tables → Tables → Type 0
Settles now order_id q t u =
    (m : PaymentModel) × (first_where (has_trade_no q.biz_trade_no) t.payments ≡ some m)
    × (u.payments ≡ payments_after now m q t.payments)
    × (u.outbox ≡ (
        if (apply_provider_result (to_domain_payment m) q).status_changed
        then t.outbox
          ++ pending_row t.next_outbox_id event_type_payment_status_changed
              (event_of order_id (apply_provider_result (to_domain_payment m) q).payment)
            ∷ []
        else t.outbox))

settle-Settles :
    (now : ℕ) (order_id : Int64) (q : Payment) (u v : World Tables)
    → settle now order_id q u ≡ (ok tt, v)
    → Settles now order_id q u.store v.store
unfolding apply_result add
settle-Settles now order_id q u v h =
    elim (Option-cases (first_where (has_trade_no q.biz_trade_no) u.store.payments)) [
      | inl absent ↦ absurd (ground arith)
      | inr (m, found) ↦
          elim (Bool-cases (apply_provider_result (to_domain_payment m) q).should_persist) [
            | inl writes ↦
                elim (Bool-cases (apply_provider_result (to_domain_payment m) q).status_changed) [
                  | inl changed ↦ (m, found, ground arith, ground arith)
                  | inr stays ↦ (m, found, ground arith, ground arith)
                ]
            | inr rests ↦
                let quiet = not_persisted-quiet (to_domain_payment m) q rests in
                (m, found, ground arith, ground arith)
          ]
    ]

abbrev Failed : World Tables → Result Error (Unit {0}) × World Tables → Type 0
Failed w o = (x : Error) × (o.0 ≡ err x) × (o.1.store ≡ w.store)

abbrev pub Accepts : CallbackCmd → PaymentStatus → Int64 → Type 0
Accepts cmd status order_id =
    (native_cb_type_to_status (trim_cmd cmd).trade_state ≡ some status)
    × (parse_int64 (trim_cmd cmd).out_trade_no ≡ some order_id)
    × ((status ==ˢ success && str_eq (trim_cmd cmd).transaction_id "") ≡ false)

abbrev Settled : ℕ → CallbackCmd → World Tables → Result Error (Unit {0}) × World Tables → Type 0
Settled now cmd w o =
    (status : PaymentStatus) × (order_id : Int64) × Accepts cmd status order_id
    × (o.0 ≡ ok tt)
    × Settles now order_id (incoming (trim_cmd cmd) status) w.store o.1.store

abbrev pub Outcome :
    ℕ → CallbackCmd → World Tables → Result Error (Unit {0}) × World Tables → Type 0
Outcome now cmd w o = Failed w o ⊎ Settled now cmd w o

in_transaction :
    (now : ℕ) (cmd : CallbackCmd) (w : World Tables) (status : PaymentStatus) (order_id : Int64)
    → Accepts cmd status order_id
    → (o : Result Error (Unit {0}) × World Tables)
    → transaction statement_failed (settle now order_id (incoming (trim_cmd cmd) status)) w ≡ o
    → Outcome now cmd w o
in_transaction now cmd w status order_id accepted (err x, v) h = inl (
  x,
  refl,
  transaction-err statement_failed (settle now order_id (incoming (trim_cmd cmd) status)) w v x h,
)
in_transaction now cmd w status order_id accepted (ok tt, v) h =
    let q = incoming (trim_cmd cmd) status in
    let (u, t, start, ran, end) =
      transaction-ok statement_failed (settle now order_id q) w v tt h in
    inr (
      status,
      order_id,
      accepted,
      refl,
      subst₂ (Settles now order_id q) start (sym end) (settle-Settles now order_id q u t ran),
    )

accepted_run :
    (now : ℕ) (cmd : CallbackCmd) (w : World Tables) (status : PaymentStatus) (order_id : Int64)
    → Accepts cmd status order_id
    → update_payment_by_txn now cmd w
      ≡ transaction statement_failed (settle now order_id (incoming (trim_cmd cmd) status)) w
unfolding update_payment_by_txn
accepted_run now cmd w status order_id (mapped, parsed, given) =
    rw mapped (rw given (rw parsed refl))

-- One callback of the provider, whatever fails: it fails and writes nothing, or the result has been
-- applied to the row of the payment, and the event is in the outbox exactly where the status changed.
pub update_payment_by_txn-Outcome :
    (now : ℕ) (cmd : CallbackCmd) (w : World Tables)
    → Outcome now cmd w (update_payment_by_txn now cmd w)
unfolding update_payment_by_txn
update_payment_by_txn-Outcome now cmd w =
    elim (Option-cases (native_cb_type_to_status (trim_cmd cmd).trade_state)) [
      | inl unmapped ↦ rw unmapped (inl (unknown_trade_state, refl, refl))
      | inr (status, mapped) ↦
          elim (Bool-cases (status ==ˢ success && str_eq (trim_cmd cmd).transaction_id "")) [
            | inl missing ↦ rw (mapped, missing) (inl (payment_txn_id_required, refl, refl))
            | inr given ↦ elim (Option-cases (parse_int64 (trim_cmd cmd).out_trade_no)) [
              | inl unread ↦ rw (mapped, given, unread) (inl (invalid_number, refl, refl))
              | inr (order_id, parsed) ↦
                  let accepted : Accepts cmd status order_id = (mapped, parsed, given) in
                  subst (Outcome now cmd w) (sym (accepted_run now cmd w status order_id accepted))
                    (in_transaction now cmd w status order_id accepted _ refl)
            ]
          ]
    ]
