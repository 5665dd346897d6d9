-- ===== src/Coupon/Domain.antt =====
-- domain/coupon.go and domain/error.go.
use douyin_mall.Base.{
  String, Bool, true, false, not, ◌&&◌, List, [], ◌∷◌, ◌+◌, ◌%◌, ◌==◌, elem, Int64, Int32, add64,
  mul64, lt64, half32, mod32, ltb, if◌then◌else◌, Result, ok, err,
}

pub data CouponScope : Type 0 where
  unknown all merchant category product : CouponScope

pub data CouponType : Type 0 where
  unspecified_type amount percent fixed : CouponType

pub data CouponStatus : Type 0 where
  unspecified unused locked used expired : CouponStatus

infix 50 ◌==ᶜ◌
abbrev pub ◌==ᶜ◌ : CouponStatus → CouponStatus → Bool
unspecified ==ᶜ unspecified = true
unused ==ᶜ unused = true
locked ==ᶜ locked = true
used ==ᶜ used = true
expired ==ᶜ expired = true
_ ==ᶜ _ = false

-- `invalid_argument` is any of the errors that a use case makes of its input.
pub data Error : Type 0 where
  coupon_not_available coupon_not_locked order_not_applicable threshold_not_met : Error
  invalid_argument statement_failed : Error

pub record CouponTemplate : Type 0 where
  pub id : Int64
  pub name : String
  pub coupon_type : CouponType
  pub threshold : Int64
  pub discount_value : Int64
  pub max_discount : Int64
  pub scope : CouponScope
  pub merchant_ids : List Int64
  pub category_ids : List Int64
  pub product_ids : List Int64
  pub valid_days : Int64
  pub valid_start_time : Int64
  pub valid_end_time : Int64
  pub total_count : Int32
  pub issued_count : Int32
  pub per_user_limit : Int32
  pub enabled : Bool

abbrev lt32 : Int32 → Int32 → Bool
lt32 a b = let n = half32 in ltb ((a + n) % mod32) ((b + n) % mod32)

unfoldable pub can_issue : CouponTemplate → Bool
can_issue t =
    if not t.enabled
    then false
    else not (lt32 0 t.total_count && not (lt32 t.issued_count t.total_count))

-- `now` is the Unix time in seconds.
unfoldable pub calculate_valid_time : Int64 → CouponTemplate → Int64 × Int64
calculate_valid_time now t =
    if lt64 0 t.valid_days
    then (now, add64 now (mul64 t.valid_days 86_400))
    else (t.valid_start_time, t.valid_end_time)

-- The fields of a coupon that its methods read and write.
pub record Coupon : Type 0 where
  pub id : Int64
  pub user_id : Int64
  pub template_id : Int64
  pub status : CouponStatus
  pub order_id : Int64

unfoldable pub reserve : Int64 → Coupon → Result Error Coupon
reserve order_id c =
    if not (c.status ==ᶜ unused)
    then err coupon_not_available
    else ok (record c { status = locked; order_id = order_id })

unfoldable pub commit : Coupon → Result Error Coupon
commit c =
    if not (c.status ==ᶜ locked) then err coupon_not_locked else ok (record c { status = used })

unfoldable pub release : Coupon → Result Error Coupon
release c =
    if not (c.status ==ᶜ locked)
    then err coupon_not_locked
    else ok (record c { status = unused; order_id = 0 })

pub record OrderItem : Type 0 where
  pub product_id : Int64
  pub merchant_id : Int64
  pub category_id : Int64
  pub subtotal : Int64

abbrev pub sum_from : Int64 → (OrderItem → Bool) → List OrderItem → Int64
sum_from total p [] = total
sum_from total p (i ∷ is) = sum_from (if p i then add64 total i.subtotal else total) p is

unfoldable pub sum_by_ids : List OrderItem → List Int64 → (OrderItem → Int64) → Int64
sum_by_ids items [] get_id = 0
sum_by_ids items (id ∷ ids) get_id = sum_from 0 (λ i. elem (get_id i) (id ∷ ids)) items

unfoldable pub calculate_applicable_amount : CouponTemplate → List OrderItem → Int64
unfolding sum_by_ids
calculate_applicable_amount t items = by_scope t.scope
  where
    by_scope : CouponScope → Int64
    by_scope all = sum_from 0 (λ i. true) items
    by_scope merchant = sum_by_ids items t.merchant_ids (λ i. i.merchant_id)
    by_scope category = sum_by_ids items t.category_ids (λ i. i.category_id)
    by_scope product = sum_by_ids items t.product_ids (λ i. i.product_id)
    by_scope unknown = 0

unfoldable pub is_applicable_to_order : CouponTemplate → List OrderItem → Result Error (Unit {0})
unfolding calculate_applicable_amount
is_applicable_to_order t items =
    let amount = calculate_applicable_amount t items in
    if amount == 0
    then err order_not_applicable
    else if lt64 amount t.threshold
    then err threshold_not_met
    else ok tt
