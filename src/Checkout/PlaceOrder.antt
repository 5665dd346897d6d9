-- ===== src/Checkout/PlaceOrder.antt =====
-- usecase/place_order.go. The other services are behind calls that are logged, each of which can fail;
-- what they answer is in `Replies`.
use Prim.Native.Char.{Char, code}
use Prim.Native.String.{[] as nil, ◌∷◌ as ◌∷ˢ◌}
use douyin_mall.Base.{
  ℕ, ◌-◌, String, Bool, true, false, not, ◌&&◌, ◌||◌, ◌==◌, List, [], ◌∷◌, leb, str_eq, Int64, le64,
  if◌then◌else◌, Result, ok, err, Action, pure, raise, raise_if, modify, io, attempt, ◌>>=◌, ◌>>◌,
  trim_space,
}
use douyin_mall.Checkout.Domain.{
  CheckoutItem, Address, OrderLine, Error, invalid_input, insufficient_stock, commit_stock_failed,
  order_create_failed, items_unavailable, coupons_unavailable, rpc_failed, calculate_price,
  validate_price_change,
}
use douyin_mall.Checkout.Adapters.{
  ProductQuote, build_order_lines_from_quotes, UserCoupon, sum_selected_coupon_discount, StockItem,
  to_inventory_stock_items, validate_checkout_items,
}

pub data Call : Type 0 where
  get_product_quotes list_available_coupons : Call
  commit_stock : Int64 → List StockItem → Call
  reserve_coupon refund_stock release_coupon : Int64 → Call
  create_order : Int64 → String → Int64 → Call
  native_prepay : Int64 → Int64 → Call

-- The calls so far, the latest first.
pub record Shop : Type 0 where
  pub calls : List Call

abbrev pub Remote : Type 0 → Type 0
Remote A = Action Shop Error A

-- A call is sent, whether or not its answer arrives.
abbrev pub rpc : Call → Remote (Unit {0})
rpc c = do modify (λ (s : Shop). record s { calls = c ∷ s.calls }); io rpc_failed

-- `commit_status` is the status code of the inventory, 0 for success.
pub record Replies : Type 0 where
  pub quotes : List ProductQuote
  pub coupons : List UserCoupon
  pub commit_status : ℕ
  pub says_insufficient : Bool
  pub reserve_success : Bool
  pub code_url : String

pub record PlaceOrderInput : Type 0 where
  pub user_id : Int64
  pub items : List CheckoutItem
  pub coupon_ids : List Int64
  pub address : Address
  pub payment_method : String
  pub order_kind : String
  pub expected_amount : Int64

pub record PlaceOrderOutput : Type 0 where
  pub order_id : Int64
  pub payment_url : String
  pub total_amount : Int64

-- `strings.ToUpper(s) == t` for a text `t` of ASCII letters and underscores: besides their own small
-- letters, only U+0131 and U+017F have an upper case among them.
abbrev upper_code : Char → ℕ
upper_code c =
    let n = code c in
    if leb 97 n && leb n 122 then n - 32 else if n == 305 then 73 else if n == 383 then 83 else n

unfoldable pub is_upper_of : String → String → Bool
is_upper_of nil nil = true
is_upper_of (c ∷ˢ s) (d ∷ˢ t) = let rest = is_upper_of s t in upper_code c == code d && rest
is_upper_of _ _ = false

abbrev pub order_kind_direct_buy : String
order_kind_direct_buy = "DIRECT_BUY"

abbrev pub order_kind_cart : String
order_kind_cart = "CART"

unfoldable pub normalize_order_kind : String → Result Error String
unfolding is_upper_of
normalize_order_kind kind =
    let k = trim_space kind in
    if is_upper_of k "" || is_upper_of k order_kind_direct_buy
    then ok order_kind_direct_buy
    else if is_upper_of k order_kind_cart
    then ok order_kind_cart
    else err invalid_input

abbrev no_items : List CheckoutItem → Bool
no_items [] = true
no_items (i ∷ is) = false

abbrev pub no_ids : List Int64 → Bool
no_ids [] = true
no_ids (i ∷ is) = false

unfoldable pub validate : PlaceOrderInput → Result Error (Unit {0})
unfolding validate_checkout_items
validate input =
    if le64 input.user_id 0 || no_items input.items
    then err invalid_input
    else and_items (validate_checkout_items input.items)
  where
    and_items : Result Error (Unit {0}) → Result Error (Unit {0})
    and_items (err e) = err e
    and_items (ok _) =
        if str_eq input.address.receiver_name ""
          || str_eq input.address.phone ""
          || str_eq input.payment_method ""
          || le64 input.expected_amount 0
        then err invalid_input
        else ok tt

abbrev pub of_result : {A : Type 0} → Result Error A → Remote A
of_result (ok a) = pure a
of_result (err e) = raise e

-- Compensations, whose errors are only logged: the log of the calls has what has been asked for,
-- whether or not it succeeds.
abbrev pub restore_committed_stock : Int64 → Remote (Unit {0})
restore_committed_stock id = do attempt (rpc (refund_stock id)); pure tt

abbrev pub release_reserved_coupons : Int64 → Remote (Unit {0})
release_reserved_coupons id = do attempt (rpc (release_coupon id)); pure tt

abbrev no_lines : List OrderLine → Bool
no_lines [] = true
no_lines (l ∷ ls) = false

-- `classifyCommitStockResult` of an answer.
abbrev pub commit_result : Replies → Result Error (Unit {0})
commit_result r =
    if r.commit_status == 0
    then ok tt
    else if r.says_insufficient
    then err insufficient_stock
    else err commit_stock_failed

-- The reservation, with what is undone where it fails.
abbrev pub after_reserve_call : Replies → Int64 → Result Error (Unit {0}) → Remote (Unit {0})
after_reserve_call r id (err e) =
    restore_committed_stock id >> release_reserved_coupons id >> raise e
after_reserve_call r id (ok _) =
    if r.reserve_success then pure tt else restore_committed_stock id >> raise coupons_unavailable

abbrev pub reserve_coupons : Replies → PlaceOrderInput → Int64 → Remote (Unit {0})
reserve_coupons r input id =
    if no_ids input.coupon_ids
    then pure tt
    else attempt (rpc (reserve_coupon id)) >>= after_reserve_call r id

abbrev pub after_create_call : Int64 → Result Error (Unit {0}) → Remote (Unit {0})
after_create_call id (err e) =
    restore_committed_stock id >> release_reserved_coupons id >> raise order_create_failed
after_create_call id (ok _) = pure tt

abbrev pub after_prepay :
    Replies → Int64 → Int64 → Result Error (Unit {0}) → Remote PlaceOrderOutput
after_prepay r id total (err e) =
    pure (record { order_id = id; payment_url = ""; total_amount = total })
after_prepay r id total (ok _) =
    pure (record { order_id = id; payment_url = r.code_url; total_amount = total })

-- From the creation of the order on.
abbrev pub create_from : Replies → String → Int64 → Int64 → Remote PlaceOrderOutput
create_from r kind id total = do
  created ← attempt (rpc (create_order id kind total))
  after_create_call id created
  prepaid ← attempt (rpc (native_prepay id total))
  after_prepay r id total prepaid

-- From the commit of the stock on.
unfoldable pub order_from :
    Replies → PlaceOrderInput → String → Int64 → Int64 → Remote PlaceOrderOutput
order_from r input kind id total = do
  rpc (commit_stock id (to_inventory_stock_items input.items))
  of_result (commit_result r)
  reserve_coupons r input id
  create_from r kind id total

abbrev pub coupon_discount : Replies → PlaceOrderInput → List OrderLine → Remote Int64
coupon_discount r input lines =
    if no_ids input.coupon_ids
    then pure 0
    else rpc list_available_coupons
      >> pure (
          sum_selected_coupon_discount (calculate_price lines 0).product_amount r.coupons
            input.coupon_ids)

-- `Execute`: `id` is what the generator answers.
unfoldable pub place_order : Replies → Int64 → PlaceOrderInput → Remote PlaceOrderOutput
unfolding order_from normalize_order_kind validate validate_price_change calculate_price
place_order r id input = do
  of_result (validate input)
  kind ← of_result (normalize_order_kind input.order_kind)
  rpc get_product_quotes
  let (lines, unavailable) = build_order_lines_from_quotes input.items r.quotes
  raise_if (not (no_lines unavailable)) items_unavailable
  discount ← coupon_discount r input lines
  let price = calculate_price lines discount
  of_result (validate_price_change input.expected_amount price.total_amount)
  order_from r input kind id price.total_amount
