-- ===== src/Checkout/Domain.antt =====
-- domain/checkout.go and domain/error.go.
use douyin_mall.Base.{
  String, Bool, List, [], ◌∷◌, Int64, add64, sub64, lt64, if◌then◌else◌, Result, ok, err,
}

pub record CheckoutItem : Type 0 where
  pub product_id : Int64
  pub sku_id : Int64
  pub quantity : Int64

pub record Address : Type 0 where
  pub receiver_name : String
  pub phone : String
  pub province : String
  pub city : String
  pub district : String
  pub street : String
  pub zip_code : String

-- The fields of a line but for its name and picture, which a quote leaves empty.
pub record OrderLine : Type 0 where
  pub product_id : Int64
  pub sku_id : Int64
  pub price : Int64
  pub currency : String
  pub quantity : Int64
  pub subtotal : Int64
  pub available : Bool
  pub unavail_reason : String

pub record PriceDetail : Type 0 where
  pub product_amount : Int64
  pub coupon_discount : Int64
  pub total_amount : Int64

-- `rpc_failed` is any error of a call of another service.
pub data Error : Type 0 where
  invalid_input price_changed insufficient_stock commit_stock_failed : Error
  order_create_failed items_unavailable coupons_unavailable rpc_failed : Error

-- The loop over the lines.
abbrev pub product_amount_from : Int64 → List OrderLine → Int64
product_amount_from n [] = n
product_amount_from n (l ∷ ls) =
    product_amount_from (if l.available then add64 n l.subtotal else n) ls

unfoldable pub calculate_price : List OrderLine → Int64 → PriceDetail
calculate_price lines coupon_discount =
    let amount = product_amount_from 0 lines in
    let total = sub64 amount coupon_discount in
    record {
      product_amount = amount;
      coupon_discount = coupon_discount;
      total_amount = if lt64 total 0 then 0 else total;
    }

unfoldable pub validate_price_change : Int64 → Int64 → Result Error (Unit {0})
validate_price_change expected actual = if lt64 expected actual then err price_changed else ok tt
