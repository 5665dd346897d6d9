-- ===== src/Coupon/Applicability.antt =====
-- The amount of an order that a coupon applies to, against sums of natural numbers.
use douyin_mall.Base.{
  ℕ, ◌+◌, ◌≤◌, ◌<◌, ◌≡◌, ◌≢◌, refl, sym, ◌∙◌, inl, inr, Bool, true, false, List, [], ◌∷◌, arith,
  Int64, half64, mod64, add64, elem, if◌then◌else◌, Bool-cases, ok, ◌↔◌,
}
use douyin_mall.Coupon.{
  CouponTemplate, CouponScope, all, merchant, category, product, OrderItem,
  calculate_applicable_amount, sum_by_ids, sum_from, is_applicable_to_order,
}

-- Whether the template is for the item.
abbrev pub covers : CouponTemplate → CouponScope → OrderItem → Bool
covers t all i = true
covers t merchant i = elem i.merchant_id t.merchant_ids
covers t category i = elem i.category_id t.category_ids
covers t product i = elem i.product_id t.product_ids
covers t CouponScope.unknown i = false

abbrev pub covered : (OrderItem → Bool) → List OrderItem → ℕ
covered p [] = 0
covered p (i ∷ is) = (if p i then i.subtotal else 0) + covered p is

sum_from-covered :
    (p : OrderItem → Bool) (n : ℕ) (items : List OrderItem)
    → n + covered p items < mod64
    → sum_from n p items ≡ n + covered p items
sum_from-covered p n [] h = omega arith
sum_from-covered p n (i ∷ is) h = elim (Bool-cases (p i)) [
  | inl counts ↦ rw counts (
      let bound : (n + i.subtotal) + covered p is < mod64 = ground arith in
      let small : add64 n i.subtotal ≡ n + i.subtotal = ground arith in
      rw small (sum_from-covered p (n + i.subtotal) is bound ∙ omega arith))
  | inr skipped ↦ rw skipped (sum_from-covered p n is (ground arith) ∙ omega arith)
]

covered_none :
    (get : OrderItem → Int64) (items : List OrderItem) → covered (λ i. elem (get i) []) items ≡ 0
covered_none get [] = refl
covered_none get (i ∷ is) = ground (arith, covered_none get is)

sum_by_ids-covered :
    (items : List OrderItem) (ids : List Int64) (get : OrderItem → Int64)
    → covered (λ i. elem (get i) ids) items < mod64
    → sum_by_ids items ids get ≡ covered (λ i. elem (get i) ids) items
unfolding sum_by_ids
sum_by_ids-covered items [] get h = sym (covered_none get items)
sum_by_ids-covered items (id ∷ ids) get h =
    sum_from-covered (λ i. elem (get i) (id ∷ ids)) 0 items (omega (arith, h)) ∙ omega arith

amount-covered :
    (t : CouponTemplate) (items : List OrderItem) (s : CouponScope)
    → t.scope ≡ s
    → covered (covers t s) items < mod64
    → calculate_applicable_amount t items ≡ covered (covers t s) items
unfolding calculate_applicable_amount
amount-covered t items all e h =
    rw e (sum_from-covered (λ i. true) 0 items (omega (arith, h)) ∙ omega arith)
amount-covered t items merchant e h =
    rw e (sum_by_ids-covered items t.merchant_ids (λ i. i.merchant_id) h)
amount-covered t items category e h =
    rw e (sum_by_ids-covered items t.category_ids (λ i. i.category_id) h)
amount-covered t items product e h =
    rw e (sum_by_ids-covered items t.product_ids (λ i. i.product_id) h)
amount-covered t items CouponScope.unknown e h = rw e (sym (none_covered items))
  where
    none_covered : (is : List OrderItem) → covered (λ i. false) is ≡ 0
    none_covered [] = refl
    none_covered (i ∷ is) = ground (arith, none_covered is)

-- Where the covered items cost less than 2^63 and the threshold is not negative, a template applies to
-- an order exactly where its items cost something and reach the threshold.
pub is_applicable_to_order_iff :
    (t : CouponTemplate) (items : List OrderItem)
    → covered (covers t t.scope) items < half64
    → t.threshold < half64
    → (is_applicable_to_order t items ≡ ok tt)
      ↔ ((covered (covers t t.scope) items ≢ 0) × (t.threshold ≤ covered (covers t t.scope) items))
unfolding is_applicable_to_order
is_applicable_to_order_iff t items bound positive =
    let amount = amount-covered t items t.scope refl (omega (arith, bound)) in
    rw amount (ground arith)
