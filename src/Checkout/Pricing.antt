-- ===== src/Checkout/Pricing.antt =====
-- The price of an order against natural numbers.
use douyin_mall.Base.{
  ℕ, ◌+◌, ◌-◌, ◌<◌, ◌≤◌, ◌≡◌, ◌∙◌, inl, inr, List, [], ◌∷◌, arith, half64, mod64, add64,
  if◌then◌else◌, Bool-cases, ok, ◌↔◌,
}
use douyin_mall.Checkout.{OrderLine, calculate_price, product_amount_from, validate_price_change}

-- What the available lines cost.
abbrev pub worth : List OrderLine → ℕ
worth [] = 0
worth (l ∷ ls) = (if l.available then l.subtotal else 0) + worth ls

product_amount_from-worth :
    (n : ℕ) (lines : List OrderLine)
    → n + worth lines < mod64
    → product_amount_from n lines ≡ n + worth lines
product_amount_from-worth n [] h = omega arith
product_amount_from-worth n (l ∷ ls) h = elim (Bool-cases l.available) [
  | inl counts ↦ rw counts (
      let bound : (n + l.subtotal) + worth ls < mod64 = ground arith in
      let small : add64 n l.subtotal ≡ n + l.subtotal = ground arith in
      rw small (product_amount_from-worth (n + l.subtotal) ls bound ∙ omega arith))
  | inr skipped ↦ rw skipped (product_amount_from-worth n ls (ground arith) ∙ omega arith)
]

-- Where the available lines cost less than 2^63 and the discount is not negative, the price is that
-- cost, less the discount as far as it goes, and it is accepted exactly where it is at most the price
-- that was expected.
pub calculate_price-worth :
    (lines : List OrderLine) (discount expected : ℕ)
    → worth lines < half64
    → discount < half64
    → expected < half64
    → ((calculate_price lines discount).product_amount ≡ worth lines)
      × ((calculate_price lines discount).total_amount ≡ worth lines - discount)
      × ((validate_price_change expected (calculate_price lines discount).total_amount ≡ ok tt)
          ↔ (worth lines ≤ expected + discount))
unfolding calculate_price validate_price_change
calculate_price-worth lines discount expected bound positive small =
    let amount = product_amount_from-worth 0 lines (omega (arith, bound)) in
    let amount' : product_amount_from 0 lines ≡ worth lines = amount ∙ omega arith in
    rw amount' (ground arith)
