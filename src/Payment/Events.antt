-- ===== src/Payment/Events.antt =====
-- The events of a payment in the outbox, in the order in which they were written.
use douyin_mall.Base.{
  ℕ, ◌≡◌, ◌<◌, ◌≤◌, refl, sym, ◌∙◌, ap, subst, subst₂, ◌⊎◌, inl, inr, Bool, true, false, some, List,
  [], ◌∷◌, ◌++◌, arith, Int64, World, Result, Bool-cases, update_where, first_where, str_eq, eq_iff,
  if◌then◌else◌, All, All-map, All-append, first_where-holds,
}
use douyin_mall.Payment.{
  PaymentStatus, Payment, PaymentModel, Tables, OutboxEventModel, Error, CallbackCmd,
  update_payment_by_txn, trim_cmd, incoming, apply_provider_result, to_domain_payment, has_trade_no,
  is_current, write, pending_row, event_type_payment_status_changed, event_of, PaymentTransition,
}
use douyin_mall.Payment.Graph.{rank, Edge-rank, Step}
use douyin_mall.Payment.StateMachine.{apply_provider_result-Step, not_persisted-quiet}
use douyin_mall.Payment.Callback.{update_payment_by_txn-Outcome, Settles, payments_after, Outcome}
use douyin_mall.Payment.Rows.{first_where-after, first_where-written}

-- `x` was written before `e`: it is of another payment or of a lower rank.
abbrev pub Before : OutboxEventModel → OutboxEventModel → Type 0
Before e x =
    (str_eq x.payload.biz_trade_no e.payload.biz_trade_no ≡ false)
    ⊎ (rank x.payload.status < rank e.payload.status)

-- The events of each payment rise in rank.
abbrev pub Rising : List OutboxEventModel → Type 0
Rising [] = Unit
Rising (x ∷ xs) = All (λ e. Before e x) xs × Rising xs

-- A payment has come at least as far as the event says.
abbrev pub Reached : List PaymentModel → OutboxEventModel → Type 0
Reached rows e =
    (m : PaymentModel) × (first_where (has_trade_no e.payload.biz_trade_no) rows ≡ some m)
    × (rank e.payload.status ≤ rank m.status)

abbrev pub IsConsistent : Tables → Type 0
IsConsistent t = Rising t.outbox × All (Reached t.payments) t.outbox

Rising-append :
    (xs : List OutboxEventModel) (e : OutboxEventModel)
    → Rising xs
    → All (Before e) xs
    → Rising (xs ++ e ∷ [])
Rising-append [] e r b = (tt, tt)
Rising-append (x ∷ xs) e (earlier, r) (b, bs) =
    (All-append (λ e. Before e x) xs e earlier b, Rising-append xs e r bs)

-- The parts of a transition.
Step-rank : (s t : PaymentStatus) (b : Bool) → Step s t b → rank s ≤ rank t
Step-rank s t b (inl (_, e)) = omega (arith, Edge-rank e)
Step-rank s t b (inr (_, e)) = let same = ap rank e in omega (arith, same)

Step-rises : (s t : PaymentStatus) (b : Bool) → Step s t b → b ≡ true → rank s < rank t
Step-rises s t b (inl (_, e)) h = Edge-rank e
Step-rises s t b (inr (f, _)) h = absurd (ground arith)

Settles-IsConsistent :
    (now : ℕ) (order_id : Int64) (q : Payment) (t u : Tables)
    → Settles now order_id q t u
    → IsConsistent t
    → IsConsistent u
unfolding to_domain_payment
Settles-IsConsistent now order_id q t u (m, found, rows, events) (rising, reached) =
    subst₂ (λ ps es. Rising es × All (Reached ps) es) (sym rows) (sym events) result
  where
    old : Payment
    old = to_domain_payment m

    tr : PaymentTransition
    tr = apply_provider_result old q

    sound : Step m.status tr.payment.status tr.status_changed
    sound = (apply_provider_result-Step old q).0

    e : OutboxEventModel
    e =
        pending_row t.next_outbox_id event_type_payment_status_changed
          (event_of order_id tr.payment)

    updated : List PaymentModel
    updated =
        update_where (is_current q.biz_trade_no m.status) (write now old tr.payment) t.payments

    moved : All (Reached updated) t.outbox
    moved =
        All-map
          (λ x (n, f, le).
            let (n', f', le') =
              first_where-after now m.status old tr.payment q.biz_trade_no x.payload.biz_trade_no
                t.payments n (Step-rank m.status tr.payment.status tr.status_changed sound) f in
            (n', f', omega (arith, le, le')))
          t.outbox reached

    trade : tr.payment.biz_trade_no ≡ q.biz_trade_no
    trade =
        ap (λ (p : Payment). p.biz_trade_no) (apply_provider_result-Step old q).3
        ∙ (eq_iff m.biz_trade_no q.biz_trade_no).0
            (first_where-holds (has_trade_no q.biz_trade_no) t.payments m found)

    before : tr.status_changed ≡ true → All (Before e) t.outbox
    before changed =
        All-map
          (λ x (n, f, le).
            elim (Bool-cases (str_eq x.payload.biz_trade_no tr.payment.biz_trade_no)) [
              | inr apart ↦ inl apart
              | inl together ↦
                  let same_trade : x.payload.biz_trade_no ≡ q.biz_trade_no =
                    (eq_iff x.payload.biz_trade_no tr.payment.biz_trade_no).0 together ∙ trade in
                  let row : some n ≡ some m =
                    sym f ∙ ap (λ b. first_where (has_trade_no b) t.payments) same_trade ∙ found in
                  let same_row : n.status ≡ m.status = ground arith in
                  let up = Step-rises m.status tr.payment.status tr.status_changed sound changed in
                  let eq = ap rank same_row in inr (omega (arith, le, eq, up))
            ])
          t.outbox reached

    newest : Reached updated e
    newest = (
      write now old tr.payment m,
      subst (λ b. first_where (has_trade_no b) updated ≡ some (write now old tr.payment m))
          (sym trade)
          (first_where-written now m.status old tr.payment q.biz_trade_no t.payments m refl found),
      omega arith,
    )

    result :
        Rising (if tr.status_changed then t.outbox ++ e ∷ [] else t.outbox)
        × All
            (Reached (payments_after now m q t.payments))
            (if tr.status_changed then t.outbox ++ e ∷ [] else t.outbox)
    result = elim (Bool-cases tr.status_changed) [
      | inl changed ↦ elim (Bool-cases tr.should_persist) [
        | inl writes ↦
            rw (changed, writes)
              (
                Rising-append t.outbox e rising (before changed),
                All-append (Reached updated) t.outbox e moved newest,
              )
        | inr rests ↦ let quiet = not_persisted-quiet old q rests in absurd (ground arith)
      ]
      | inr stays ↦ elim (Bool-cases tr.should_persist) [
        | inl writes ↦ rw (stays, writes) (rising, moved)
        | inr rests ↦ rw (stays, rests) (rising, reached)
      ]
    ]

-- Whatever fails, a callback leaves the tables consistent: the events of each payment rise in rank, so
-- that none is announced twice, and the payment has come at least as far as each of its events says.
pub update_payment_by_txn-IsConsistent :
    (now : ℕ) (cmd : CallbackCmd) (w : World Tables)
    → IsConsistent w.store
    → IsConsistent (update_payment_by_txn now cmd w).1.store
update_payment_by_txn-IsConsistent now cmd w good =
    go (update_payment_by_txn now cmd w) (update_payment_by_txn-Outcome now cmd w)
  where
    go : (o : Result Error (Unit {0}) × World Tables) → Outcome now cmd w o → IsConsistent o.1.store
    go o (inl (x, _, same)) = subst IsConsistent (sym same) good
    go o (inr (status, order_id, _, _, settles)) =
        Settles-IsConsistent now order_id (incoming (trim_cmd cmd) status) w.store o.1.store settles
          good
