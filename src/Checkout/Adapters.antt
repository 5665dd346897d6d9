-- ===== src/Checkout/Adapters.antt =====
-- usecase/adapters.go.
use douyin_mall.Base.{
  String, Bool, false, ◌&&◌, ◌||◌, ◌==◌, Option, none, some, List, [], ◌∷◌, elem, Int64, Int32,
  add64, sub64, mul64, quot64, lt64, le64, add32, to_int32, if◌then◌else◌, Result, ok, err,
}
use douyin_mall.Checkout.Domain.{CheckoutItem, OrderLine, Error, invalid_input}

pub record ProductQuote : Type 0 where
  pub product_id : Int64
  pub sku_id : Int64
  pub price : Int64
  pub currency : String
  pub in_stock : Bool

-- `quoteMap`: a later quote of the same key takes the place of an earlier one.
abbrev pub later_or : {A : Type 0} → Option A → Option A → Option A
later_or (some a) b = some a
later_or none b = b

unfoldable pub find_quote : Int64 → Int64 → List ProductQuote → Option ProductQuote
find_quote p s [] = none
find_quote p s (q ∷ qs) =
    later_or (find_quote p s qs) (if q.product_id == p && q.sku_id == s then some q else none)

abbrev line_of_quote : CheckoutItem → Option ProductQuote → OrderLine
line_of_quote item none = record {
  product_id = item.product_id;
  sku_id = item.sku_id;
  price = 0;
  currency = "";
  quantity = item.quantity;
  subtotal = 0;
  available = false;
  unavail_reason = "product not found";
}
line_of_quote item (some q) = record {
  product_id = q.product_id;
  sku_id = q.sku_id;
  price = q.price;
  currency = q.currency;
  quantity = item.quantity;
  subtotal = mul64 q.price item.quantity;
  available = q.in_stock;
  unavail_reason = if q.in_stock then "" else "product out of stock";
}

abbrev put_line : OrderLine → List OrderLine × List OrderLine → List OrderLine × List OrderLine
put_line l (available, unavailable) =
    if l.available then (l ∷ available, unavailable) else (available, l ∷ unavailable)

unfoldable pub build_order_lines_from_quotes :
    List CheckoutItem → List ProductQuote → List OrderLine × List OrderLine
unfolding find_quote
build_order_lines_from_quotes [] quotes = ([], [])
build_order_lines_from_quotes (i ∷ is) quotes =
    put_line (line_of_quote i (find_quote i.product_id i.sku_id quotes))
      (build_order_lines_from_quotes is quotes)

pub data CouponType : Type 0 where
  unspecified amount percent fixed : CouponType

pub record CouponTemplate : Type 0 where
  pub coupon_type : CouponType
  pub threshold : Int64
  pub discount_value : Int64
  pub max_discount : Int64

pub record UserCoupon : Type 0 where
  pub id : Int64
  pub template : Option CouponTemplate

abbrev capped : Int64 → Int64 → Int64
capped limit discount = if lt64 0 limit && lt64 limit discount then limit else discount

abbrev discount_by_type : CouponType → CouponTemplate → Int64 → Int64
discount_by_type amount t total = if le64 t.threshold total then t.discount_value else 0
discount_by_type fixed t total = t.discount_value
discount_by_type percent t total =
    capped t.max_discount (quot64 (mul64 total (sub64 100 t.discount_value)) 100)
discount_by_type unspecified t total = 0

unfoldable pub calculate_coupon_discount : CouponTemplate → Int64 → Int64
calculate_coupon_discount t total = discount_by_type t.coupon_type t total

-- The discount of an option of `toCouponOptions`, each of which is usable.
abbrev option_discount : Int64 → Option CouponTemplate → Int64
option_discount total none = 0
option_discount total (some t) = calculate_coupon_discount t total

abbrev selected_from : Int64 → Int64 → List UserCoupon → List Int64 → Int64
selected_from n total [] selected = n
selected_from n total (c ∷ cs) selected =
    selected_from (if elem c.id selected then add64 n (option_discount total c.template) else n)
      total cs selected

-- `sumSelectedCouponDiscount` over the options of the coupons.
unfoldable pub sum_selected_coupon_discount : Int64 → List UserCoupon → List Int64 → Int64
unfolding calculate_coupon_discount
sum_selected_coupon_discount total coupons selected = selected_from 0 total coupons selected

pub record StockItem : Type 0 where
  pub product_id : Int64
  pub quantity : Int32

abbrev has_product : Int64 → List StockItem → Bool
has_product p [] = false
has_product p (s ∷ ss) = s.product_id == p || has_product p ss

-- The first entry of the product takes the quantity; the index has one entry for each product.
abbrev pub put_item : Int64 → Int32 → List StockItem → List StockItem
put_item p n [] = record { product_id = p; quantity = n } ∷ []
put_item p n (s ∷ ss) =
    let rest = put_item p n ss in
    if s.product_id == p then record s { quantity = add32 s.quantity n } ∷ ss else s ∷ rest

unfoldable pub stock_items_from : List StockItem → List CheckoutItem → List StockItem
stock_items_from acc [] = acc
stock_items_from acc (i ∷ is) =
    stock_items_from (put_item i.product_id (to_int32 i.quantity) acc) is

unfoldable pub to_inventory_stock_items : List CheckoutItem → List StockItem
unfolding stock_items_from
to_inventory_stock_items items = stock_items_from [] items

unfoldable pub validate_checkout_items : List CheckoutItem → Result Error (Unit {0})
validate_checkout_items [] = ok tt
validate_checkout_items (i ∷ is) =
    let rest = validate_checkout_items is in
    if le64 i.product_id 0 || le64 i.sku_id 0 || le64 i.quantity 0 then err invalid_input else rest
