-- ===== src/Payment/Rows.antt =====
-- The row of a payment under the UPDATE of `ApplyProviderResult`.
use douyin_mall.Base.{
  ℕ, ◌≡◌, ◌≤◌, ◌∙◌, ap, subst, inl, inr, true, false, some, List, [], ◌∷◌, arith, Bool-cases,
  update_where, first_where, String,
}
use douyin_mall.Payment.{
  PaymentStatus, Payment, PaymentModel, ◌==ˢ◌, has_trade_no, is_current, write,
}
use douyin_mall.Payment.Graph.{rank}

same_status : (s t : PaymentStatus) → (s ==ˢ t) ≡ true → rank s ≡ rank t
same_status s t h = ground arith

status_refl : (s : PaymentStatus) → (s ==ˢ s) ≡ true
status_refl s = ground arith

-- The first row of a trade number after the UPDATE of another row, or of its own.
pub first_where-after :
    (now : ℕ) (s : PaymentStatus) (old new : Payment) (trade_no other : String)
    (rows : List PaymentModel) (m : PaymentModel)
    → rank s ≤ rank new.status
    → first_where (has_trade_no other) rows ≡ some m
    → (n : PaymentModel) × (first_where
          (has_trade_no other)
          (update_where (is_current trade_no s) (write now old new) rows)
        ≡ some n)
      × (rank m.status ≤ rank n.status)
first_where-after now s old new trade_no other [] m h found = absurd (ground arith)
first_where-after now s old new trade_no other (r ∷ rows) m h found =
    elim (Bool-cases (has_trade_no other r)) [
      | inl its_own ↦ elim (Bool-cases (is_current trade_no s r)) [
        | inl written ↦
            let eq : r ≡ m = ground arith in
            let le = same_status r.status s (ground arith) in
            (
              write now old new r,
              ground arith,
              subst (λ (m : PaymentModel). rank m.status ≤ rank new.status) eq
                  (omega (arith, le, h)),
            )
        | inr kept ↦ (r, ground arith, ground arith)
      ]
      | inr not_its_own ↦
          let (n, f, le) = first_where-after now s old new trade_no other rows m h (ground arith) in
          (n, kept_on n f not_its_own, le)
    ]
  where
    kept_on :
        (n : PaymentModel)
        → first_where
            (has_trade_no other)
            (update_where (is_current trade_no s) (write now old new) rows)
          ≡ some n
        → has_trade_no other r ≡ false
        → first_where
            (has_trade_no other)
            (update_where (is_current trade_no s) (write now old new) (r ∷ rows))
          ≡ some n
    kept_on n f not_its_own = elim (Bool-cases (is_current trade_no s r)) [
      | inl written ↦ ground arith
      | inr kept ↦ ground arith
    ]

pub first_where-written :
    (now : ℕ) (s : PaymentStatus) (old new : Payment) (trade_no : String) (rows : List PaymentModel)
    (m : PaymentModel)
    → m.status ≡ s
    → first_where (has_trade_no trade_no) rows ≡ some m
    → first_where
        (has_trade_no trade_no)
        (update_where (is_current trade_no s) (write now old new) rows)
      ≡ some (write now old new m)
first_where-written now s old new trade_no [] m h found = absurd (ground arith)
first_where-written now s old new trade_no (r ∷ rows) m h found =
    elim (Bool-cases (has_trade_no trade_no r)) [
      | inl its_own ↦
          let eq : r ≡ m = ground arith in
          let same : (r.status ==ˢ s) ≡ true =
            subst (λ t. (r.status ==ˢ t) ≡ true) (ap (λ (m : PaymentModel). m.status) eq ∙ h)
              (status_refl r.status) in
          let new_row = ap (write now old new) eq in ground arith
      | inr not_its_own ↦ ground (arith, first_where-written now s old new trade_no rows m h)
    ]
