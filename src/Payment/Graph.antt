-- ===== src/Payment/Graph.antt =====
-- The life of a payment as a graph, and `nextPaymentStatus` against it.
use douyin_mall.Base.{◌≡◌, ◌≢◌, refl, ◌⊎◌, inl, inr, ◌<◌, ℕ, arith, Bool, true, false}
use douyin_mall.Payment.{PaymentStatus, init, success, failed, refund, next_payment_status}

-- How far a payment has come: no move goes back.
abbrev pub rank : PaymentStatus → ℕ
rank PaymentStatus.unknown = 0
rank init = 0
rank failed = 1
rank success = 2
rank refund = 3

-- The moves of a payment.
pub data Edge : PaymentStatus → PaymentStatus → Type 0 where
  settling : {s t : PaymentStatus} → rank s ≡ 0 → rank t ≢ 0 → Edge s t
  recovering : Edge failed success
  refunding : Edge success refund

-- A move reaches a higher rank.
pub Edge-rank : {s t : PaymentStatus} → Edge s t → rank s < rank t
Edge-rank (settling h k) = omega (arith, h, k)
Edge-rank recovering = omega arith
Edge-rank refunding = omega arith

-- What a result of the provider does to a payment.
abbrev pub Step : PaymentStatus → PaymentStatus → Bool → Type 0
Step s t changed = ((changed ≡ true) × Edge s t) ⊎ ((changed ≡ false) × (t ≡ s))

pub next-Step :
    (s incoming : PaymentStatus)
    → rank incoming ≢ 0
    → Step s (next_payment_status s incoming).0 (next_payment_status s incoming).1
unfolding next_payment_status
next-Step PaymentStatus.unknown incoming h = inl (refl, settling refl h)
next-Step init incoming h = inl (refl, settling refl h)
next-Step success refund h = inl (refl, refunding)
next-Step success PaymentStatus.unknown h = inr (refl, refl)
next-Step success init h = inr (refl, refl)
next-Step success success h = inr (refl, refl)
next-Step success failed h = inr (refl, refl)
next-Step failed success h = inl (refl, recovering)
next-Step failed PaymentStatus.unknown h = inr (refl, refl)
next-Step failed init h = inr (refl, refl)
next-Step failed refund h = inr (refl, refl)
next-Step failed failed h = inr (refl, refl)
next-Step refund incoming h = inr (refl, refl)

pub still :
    (s incoming : PaymentStatus)
    → Step s (next_payment_status s incoming).0 (next_payment_status s incoming).1
    → (next_payment_status s incoming).1 ≡ false
    → (next_payment_status s incoming).0 ≡ s
still s incoming (inl (changed, _)) h = absurd (ground arith)
still s incoming (inr (_, same)) h = same
