-- ===== src/Payment/Replay.antt =====
-- A callback that the provider sends again.
use douyin_mall.Base.{
  ℕ, ◌≡◌, refl, sym, ◌∙◌, ap, subst, ◌⊎◌, inl, inr, true, false, Option, some, arith, Int64, World,
  Result, ok, Bool-cases, first_where, str_eq, eq_iff, if◌then◌else◌, String, ◌&&◌, not,
}
use douyin_mall.Payment.{
  PaymentStatus, Payment, PaymentTransition, PaymentModel, Tables, Error, CallbackCmd,
  update_payment_by_txn, native_cb_type_to_status, trim_cmd, incoming, apply_provider_result,
  to_domain_payment, has_trade_no, write, null_string,
}
use douyin_mall.Payment.StateMachine.{
  apply_provider_result-Step, apply_provider_result-repeat, not_persisted-quiet, txn_id-cases,
}
use douyin_mall.Payment.Callback.{update_payment_by_txn-Outcome, Settles, payments_after, Outcome}
use douyin_mall.Payment.Rows.{first_where-written}

stored_txn_id :
    (own txn : String) (o : Option String)
    → null_string o ≡ own
    → (txn ≡ own) ⊎ ((own ≡ "") × (str_eq txn "" ≡ false))
    → null_string (if not (str_eq txn "") && not (str_eq txn own) then some txn else o) ≡ txn
stored_txn_id own txn o h (inl same) = let eq = (eq_iff txn own).1 same in ground arith
stored_txn_id own txn o h (inr (empty, full)) =
    let new = subst (λ s. str_eq txn s ≡ false) (sym empty) full in ground arith

-- The row that is written stands for the payment of the transition.
written_row :
    (now : ℕ) (m : PaymentModel) (q : Payment)
    → let tr = apply_provider_result (to_domain_payment m) q in
      to_domain_payment (write now (to_domain_payment m) tr.payment m) ≡ tr.payment
unfolding to_domain_payment
written_row now m q =
    let old = to_domain_payment m in
    let tr = apply_provider_result old q in
    ap (λ s. record old { status = tr.payment.status; txn_id = s })
      (stored_txn_id old.txn_id tr.payment.txn_id m.txn_id refl (txn_id-cases old q))
    ∙ sym (apply_provider_result-Step old q).3

abbrev Rests : PaymentModel → Payment → Type 0
Rests m q =
    ((apply_provider_result (to_domain_payment m) q).should_persist ≡ false)
    × ((apply_provider_result (to_domain_payment m) q).status_changed ≡ false)

unwritten :
    (now : ℕ) (m : PaymentModel) (q : Payment) (t : Tables)
    → (apply_provider_result (to_domain_payment m) q).should_persist ≡ false
    → payments_after now m q t.payments ≡ t.payments
unwritten now m q t rests = ground arith

written :
    (now : ℕ) (m : PaymentModel) (q : Payment) (t u : Tables)
    → let tr = apply_provider_result (to_domain_payment m) q in
      tr.should_persist ≡ true
      → u.payments ≡ payments_after now m q t.payments
      → first_where (has_trade_no q.biz_trade_no) t.payments ≡ some m
      → first_where (has_trade_no q.biz_trade_no) u.payments
        ≡ some (write now (to_domain_payment m) tr.payment m)
written now m q t u writes rows found =
    let tr = apply_provider_result (to_domain_payment m) q in
    let by_update =
      first_where-written now m.status (to_domain_payment m) tr.payment q.biz_trade_no t.payments m
        refl found in
    ap (first_where (has_trade_no q.biz_trade_no)) (rows ∙ rw writes refl) ∙ by_update

-- After a result has been applied, the payment's row asks for no write when it comes again.
after_settling :
    (now : ℕ) (order_id : Int64) (q : Payment) (t u : Tables) (m : PaymentModel)
    → Settles now order_id q t u
    → first_where (has_trade_no q.biz_trade_no) u.payments ≡ some m
    → Rests m q
after_settling now order_id q t u n (m, found, rows, events) again =
    elim (Bool-cases tr.should_persist) [
      | inl writes ↦ rests_at (write now old tr.payment m) (written now m q t u writes rows found) (
          subst
            (λ p.
              apply_provider_result p q
              ≡ record { payment = tr.payment; status_changed = false; should_persist = false })
            (sym (written_row now m q)) (apply_provider_result-repeat old q))
      | inr rests ↦
          let same : some m ≡ some n =
            sym found
            ∙ ap (first_where (has_trade_no q.biz_trade_no))
                (sym (rows ∙ unwritten now m q t rests))
            ∙ again in
          let same_row : m ≡ n = ground arith in
          subst (λ n. Rests n q) same_row (rests, not_persisted-quiet old q rests)
    ]
  where
    old : Payment
    old = to_domain_payment m

    tr : PaymentTransition
    tr = apply_provider_result old q

    rests_at :
        (r : PaymentModel)
        → first_where (has_trade_no q.biz_trade_no) u.payments ≡ some r
        → apply_provider_result (to_domain_payment r) q
          ≡ record { payment = tr.payment; status_changed = false; should_persist = false }
        → Rests n q
    rests_at r first rest =
        let row : some r ≡ some n = sym first ∙ again in
        let same_row : r ≡ n = ground arith in
        subst (λ n. Rests n q) same_row
          (
            ap (λ (tr : PaymentTransition). tr.should_persist) rest,
            ap (λ (tr : PaymentTransition). tr.status_changed) rest,
          )

-- Once a callback has succeeded, the same callback, whenever it comes again and whatever fails then,
-- changes no payment and writes no event.
pub update_payment_by_txn-repeat :
    (now later : ℕ) (cmd : CallbackCmd) (w v v' : World Tables)
    → update_payment_by_txn now cmd w ≡ (ok tt, v)
    → v'.store ≡ v.store
    → let u = (update_payment_by_txn later cmd v').1 in
      (u.store.payments ≡ v.store.payments) × (u.store.outbox ≡ v.store.outbox)
update_payment_by_txn-repeat now later cmd w v v' h same =
    first (subst (Outcome now cmd w) h (update_payment_by_txn-Outcome now cmd w))
  where
    Same : Tables → Type 0
    Same t = (t.payments ≡ v.store.payments) × (t.outbox ≡ v.store.outbox)

    second :
        (status : PaymentStatus) (id : Int64)
        → native_cb_type_to_status (trim_cmd cmd).trade_state ≡ some status
        → Settles now id (incoming (trim_cmd cmd) status) w.store v.store
        → (o : Result Error (Unit {0}) × World Tables) → Outcome later cmd v' o
        → Same o.1.store
    second status id mapped settles o (inl (x, _, kept)) =
        let all = kept ∙ same in
        (ap (λ (t : Tables). t.payments) all, ap (λ (t : Tables). t.outbox) all)
    second status id mapped settles o (inr (status', id', (mapped', _, _), _, again)) =
        let pair : some status' ≡ some status = sym mapped' ∙ mapped in
        let status_eq : status' ≡ status = ground arith in
        let (m, found, rows, events) =
          subst (λ s. Settles later id' (incoming (trim_cmd cmd) s) v'.store o.1.store) status_eq
            again in
        let q = incoming (trim_cmd cmd) status in
        let rest = after_settling now id q w.store v.store m settles (
          subst (λ (t : Tables). first_where (has_trade_no q.biz_trade_no) t.payments ≡ some m) same
            found) in
        (
          rows ∙ unwritten later m q v'.store rest.0 ∙ ap (λ (t : Tables). t.payments) same,
          events ∙ (rw rest.1 (ap (λ (t : Tables). t.outbox) same)),
        )

    first : Outcome now cmd w (ok tt, v) → Same (update_payment_by_txn later cmd v').1.store
    first (inl (x, e, _)) = absurd (ground arith)
    first (inr (status, id, (mapped, _, _), _, settles)) =
        second status id mapped settles (update_payment_by_txn later cmd v')
          (update_payment_by_txn-Outcome later cmd v')
