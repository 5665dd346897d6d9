-- ===== src/Checkout/Tests.antt =====
-- Tests of the checkout service, and its theorems at small inputs.
use douyin_mall.Base.{
  ◌%◌, ◌-◌, ◌+◌, ◌≤◌, ◌≡◌, ◌↔◌, refl, true, false, List, [], ◌∷◌, World, ok, arith, mod32,
  trim_space, is_space,
}
use douyin_mall.Checkout.{
  CheckoutItem, OrderLine, Shop, Replies, PlaceOrderInput, calculate_price, validate_price_change,
  order_from, to_inventory_stock_items, normalize_order_kind, is_upper_of,
}
use douyin_mall.Checkout.Stock.{entries, asked, quantity_of, quantity_of-to_inventory_stock_items}
use douyin_mall.Checkout.Pricing.{worth, calculate_price-worth}
use douyin_mall.Checkout.Compensation.{Outcome, order_from-Outcome}

kind_of_cart : normalize_order_kind " cart " ≡ ok "CART"
unfolding normalize_order_kind is_upper_of trim_space is_space
kind_of_cart = refl

abbrev two_skus : List CheckoutItem
two_skus =
    record { product_id = 1; sku_id = 1; quantity = 2 }
    ∷ record { product_id = 1; sku_id = 2; quantity = 3 }
    ∷ []

quantity_of-to_inventory_stock_items_example :
    (entries 1 (to_inventory_stock_items two_skus) ≤ 1)
    × (quantity_of 1 (to_inventory_stock_items two_skus) ≡ asked 1 two_skus % mod32)
quantity_of-to_inventory_stock_items_example = quantity_of-to_inventory_stock_items 1 two_skus

abbrev line : OrderLine
line = record {
  product_id = 1;
  sku_id = 1;
  price = 50;
  currency = "CNY";
  quantity = 2;
  subtotal = 100;
  available = true;
  unavail_reason = "";
}

calculate_price-worth_example :
    ((calculate_price (line ∷ []) 30).product_amount ≡ worth (line ∷ []))
    × ((calculate_price (line ∷ []) 30).total_amount ≡ worth (line ∷ []) - 30)
    × ((validate_price_change 70 (calculate_price (line ∷ []) 30).total_amount ≡ ok tt)
        ↔ (worth (line ∷ []) ≤ 70 + 30))
calculate_price-worth_example =
    calculate_price-worth (line ∷ []) 30 70 (omega arith) (omega arith) (omega arith)

abbrev input : PlaceOrderInput
input = record {
  user_id = 9;
  items = two_skus;
  coupon_ids = 3 ∷ [];
  address = record {
    receiver_name = "r";
    phone = "1";
    province = "p";
    city = "c";
    district = "d";
    street = "s";
    zip_code = "z";
  };
  payment_method = "wechat";
  order_kind = "";
  expected_amount = 500;
}

abbrev replies : Replies
replies = record {
  quotes = [];
  coupons = [];
  commit_status = 0;
  says_insufficient = false;
  reserve_success = true;
  code_url = "weixin://pay";
}

abbrev quiet : World Shop
quiet = record { store = record { calls = [] }; tick = 0; fails = λ n. false }

order_from-Outcome_example :
    Outcome input "DIRECT_BUY" 7 250 quiet (order_from replies input "DIRECT_BUY" 7 250 quiet)
order_from-Outcome_example = order_from-Outcome replies input "DIRECT_BUY" 7 250 quiet
