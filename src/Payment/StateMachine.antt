-- ===== src/Payment/StateMachine.antt =====
-- `ApplyProviderResult` against the life of a payment as a graph.
use douyin_mall.Base.{
  ◌≡◌, refl, sym, subst, ◌∙◌, ap, ◌⊎◌, inl, inr, arith, Bool, true, false, Bool-cases, str_eq,
  eq_iff, String, not, ◌||◌,
}
use douyin_mall.Payment.{
  PaymentStatus, init, success, failed, refund, Payment, apply_provider_result, next_payment_status,
  PaymentTransition, fill_txn_id,
}
use douyin_mall.Payment.Graph.{Step, next-Step, still}

status-Step :
    (p q : Payment) (s incoming : PaymentStatus)
    → p.status ≡ s
    → q.status ≡ incoming
    → Step s (apply_provider_result p q).payment.status (apply_provider_result p q).status_changed
unfolding apply_provider_result
status-Step p q s PaymentStatus.unknown e f = rw (e, f) (inr (refl, refl))
status-Step p q s init e f = rw (e, f) (inr (refl, refl))
status-Step p q s success e f = rw (e, f) (next-Step s success (λ h. absurd (ground arith)))
status-Step p q s failed e f = rw (e, f) (next-Step s failed (λ h. absurd (ground arith)))
status-Step p q s refund e f = rw (e, f) (next-Step s refund (λ h. absurd (ground arith)))

-- The transaction id.
txn_id-kept :
    (p q : Payment) → (p.txn_id ≡ "") ⊎ ((apply_provider_result p q).payment.txn_id ≡ p.txn_id)
unfolding apply_provider_result
txn_id-kept p q = elim (Bool-cases (str_eq p.txn_id "")) [
  | inl empty ↦ inl ((eq_iff p.txn_id "").0 empty)
  | inr full ↦ inr (ground arith)
]

-- The function again, with the two columns apart.
abbrev settled : PaymentStatus → PaymentStatus → PaymentStatus × Bool
settled s PaymentStatus.unknown = (s, false)
settled s init = (s, false)
settled s incoming = next_payment_status s incoming

abbrev transition_of : Payment → Payment → PaymentStatus × Bool → String → PaymentTransition
transition_of p q (status, changed) txn = record {
  payment = record p { status = status; txn_id = txn };
  status_changed = changed;
  should_persist = changed || not (str_eq txn p.txn_id);
}

columns :
    (p q : Payment) (incoming : PaymentStatus)
    → q.status ≡ incoming
    → apply_provider_result p q
      ≡ transition_of p q (settled p.status incoming) (fill_txn_id p.txn_id q.txn_id)
unfolding apply_provider_result
columns p q PaymentStatus.unknown e = rw e refl
columns p q init e = rw e refl
columns p q success e = rw e refl
columns p q failed e = rw e refl
columns p q refund e = rw e refl

str_eq_refl : (s : String) → str_eq s s ≡ true
str_eq_refl s = (eq_iff s s).1 refl

fill_txn_id-again :
    (own incoming : String)
    → fill_txn_id (fill_txn_id own incoming) incoming ≡ fill_txn_id own incoming
fill_txn_id-again own incoming = elim (Bool-cases (str_eq incoming "")) [
  | inl none_sent ↦ ground arith
  | inr sent ↦ elim (Bool-cases (str_eq own "")) [
    | inl empty ↦ ground arith
    | inr full ↦ ground arith
  ]
]

settled-again :
    (s incoming : PaymentStatus)
    → settled (settled s incoming).0 incoming ≡ ((settled s incoming).0, false)
unfolding next_payment_status
settled-again s PaymentStatus.unknown = refl
settled-again s init = refl
settled-again PaymentStatus.unknown success = refl
settled-again init success = refl
settled-again success success = refl
settled-again failed success = refl
settled-again refund success = refl
settled-again PaymentStatus.unknown failed = refl
settled-again init failed = refl
settled-again success failed = refl
settled-again failed failed = refl
settled-again refund failed = refl
settled-again PaymentStatus.unknown refund = refl
settled-again init refund = refl
settled-again success refund = refl
settled-again failed refund = refl
settled-again refund refund = refl

settled-kept :
    (s incoming : PaymentStatus) → (settled s incoming).1 ≡ false → (settled s incoming).0 ≡ s
settled-kept s PaymentStatus.unknown h = refl
settled-kept s init h = refl
settled-kept s success h = still s success (next-Step s success (λ h. absurd (ground arith))) h
settled-kept s failed h = still s failed (next-Step s failed (λ h. absurd (ground arith))) h
settled-kept s refund h = still s refund (next-Step s refund (λ h. absurd (ground arith))) h

not_persisted :
    (p q : Payment)
    → (apply_provider_result p q).should_persist ≡ false
    → (apply_provider_result p q).payment ≡ p
not_persisted p q h =
    let c = columns p q q.status refl in
    let same = settled-kept p.status q.status in
    let eq = eq_iff (fill_txn_id p.txn_id q.txn_id) p.txn_id in
    elim (Bool-cases (settled p.status q.status).1) [
      | inl changed ↦ absurd (ground arith)
      | inr stays ↦ elim (Bool-cases (str_eq (fill_txn_id p.txn_id q.txn_id) p.txn_id)) [
        | inl equal ↦
            ap (λ (tr : PaymentTransition). tr.payment) c
            ∙ ap (λ s. record p { status = s; txn_id = fill_txn_id p.txn_id q.txn_id }) (same stays)
            ∙ ap (λ t. record p { txn_id = t }) (eq.0 equal)
        | inr other ↦ absurd (ground arith)
      ]
    ]

-- The transaction id after a result: that of before, or a new one where there was none.
pub txn_id-cases :
    (p q : Payment)
    → let txn = (apply_provider_result p q).payment.txn_id in
      (txn ≡ p.txn_id) ⊎ ((p.txn_id ≡ "") × (str_eq txn "" ≡ false))
txn_id-cases p q =
    let c = columns p q q.status refl in
    elim (Bool-cases (str_eq q.txn_id "")) [
      | inl none_sent ↦ inl (ground arith)
      | inr sent ↦ elim (Bool-cases (str_eq p.txn_id "")) [
        | inl empty ↦ inr ((eq_iff p.txn_id "").0 empty, ground arith)
        | inr full ↦ inl (ground arith)
      ]
    ]

-- Without a write there is no change to announce.
pub not_persisted-quiet :
    (p q : Payment)
    → (apply_provider_result p q).should_persist ≡ false
    → (apply_provider_result p q).status_changed ≡ false
not_persisted-quiet p q h = let c = columns p q q.status refl in ground arith

-- A result of the provider moves the payment along an edge of the graph exactly where it reports a
-- change; it never replaces a transaction id; and where it asks for no write, nothing differs.
pub apply_provider_result-Step :
    (p q : Payment)
    → let tr = apply_provider_result p q in
      Step p.status tr.payment.status tr.status_changed
      × ((p.txn_id ≡ "") ⊎ (tr.payment.txn_id ≡ p.txn_id))
      × ((tr.should_persist ≡ true) ⊎ (tr.payment ≡ p))
      × (tr.payment ≡ record p { status = tr.payment.status; txn_id = tr.payment.txn_id })
unfolding apply_provider_result
apply_provider_result-Step p q = (
  status-Step p q p.status q.status refl refl,
  txn_id-kept p q,
  elim (Bool-cases (apply_provider_result p q).should_persist) [
    | inl writes ↦ inl writes
    | inr rests ↦ inr (not_persisted p q rests)
  ],
  ground arith,
)

-- A result that comes again changes nothing and asks for no write.
pub apply_provider_result-repeat :
    (p q : Payment)
    → apply_provider_result (apply_provider_result p q).payment q ≡ record {
      payment = (apply_provider_result p q).payment;
      status_changed = false;
      should_persist = false;
    }
apply_provider_result-repeat p q =
    subst
      (λ (tr : PaymentTransition).
        apply_provider_result tr.payment q
        ≡ record { payment = tr.payment; status_changed = false; should_persist = false })
      (sym (columns p q q.status refl)) twice
  where
    txn : String
    txn = fill_txn_id p.txn_id q.txn_id

    s : PaymentStatus
    s = (settled p.status q.status).0

    once : Payment
    once = record p { status = s; txn_id = txn }

    twice :
        apply_provider_result once q
        ≡ record { payment = once; status_changed = false; should_persist = false }
    twice =
        columns once q q.status refl
        ∙ (rw
            (settled-again p.status q.status, fill_txn_id-again p.txn_id q.txn_id, str_eq_refl txn)
            refl)
