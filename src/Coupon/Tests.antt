-- ===== src/Coupon/Tests.antt =====
-- The theorems of the coupon service at small tables.
use douyin_mall.Base.{
  inr, ◌≡◌, ◌≢◌, ◌≤◌, ◌↔◌, refl, true, false, none, some, List, [], ◌∷◌, World, ok, arith, elem,
}
use douyin_mall.Coupon.{
  Tables, CouponModel, CouponTemplate, amount, product, OrderItem, unused, locked,
  ReserveCouponInput, reserve_execute, normalize_coupon_ids, normalize_from, batch_reserve,
  update_status_by_order_id, commit_execute, release_execute, is_applicable_to_order,
}
use douyin_mall.Coupon.Reservation.{
  Outcome, Distinct, normalize_coupon_ids-Distinct, reserve_execute-Outcome,
}
use douyin_mall.Coupon.RoundTrip.{
  update_status_by_order_id-batch_reserve, release_execute-commit_execute,
}
use douyin_mall.Coupon.Applicability.{covered, covers, is_applicable_to_order_iff}

abbrev free_coupon : CouponModel
free_coupon = record {
  id = 3;
  user_id = 9;
  order_id = none;
  template_id = 1;
  status = unused;
  valid_from = 0;
  valid_to = 100;
  used_at = none;
}

abbrev wallet : World Tables
wallet = record { store = record { coupons = free_coupon ∷ [] }; tick = 0; fails = λ n. false }

abbrev request : ReserveCouponInput
request = record { user_id = 9; coupon_ids = 3 ∷ 3 ∷ []; order_id = 7 }

abbrev idle : Tables → Tables
idle t = t

normalized : normalize_coupon_ids (3 ∷ 3 ∷ []) ≡ some (3 ∷ [])
unfolding normalize_coupon_ids normalize_from
normalized = refl

normalize_coupon_ids-Distinct_example : Distinct (3 ∷ []) × (elem 3 (3 ∷ []) ≡ elem 3 (3 ∷ 3 ∷ []))
normalize_coupon_ids-Distinct_example =
    normalize_coupon_ids-Distinct (3 ∷ 3 ∷ []) (3 ∷ []) 3 normalized

reserve_execute-Outcome_example :
    Outcome idle request wallet (reserve_execute idle 10 request wallet)
reserve_execute-Outcome_example = reserve_execute-Outcome idle 10 request wallet

abbrev reserved : World Tables
reserved = (batch_reserve (3 ∷ []) 7 wallet).1

abbrev released : World Tables
released = (update_status_by_order_id 10 7 locked unused reserved).1

reserve_done : batch_reserve (3 ∷ []) 7 wallet ≡ (ok tt, reserved)
unfolding batch_reserve
reserve_done = refl

release_done : update_status_by_order_id 10 7 locked unused reserved ≡ (ok tt, released)
unfolding batch_reserve update_status_by_order_id
release_done = refl

update_status_by_order_id-batch_reserve_example : released.store.coupons ≡ wallet.store.coupons
update_status_by_order_id-batch_reserve_example =
    update_status_by_order_id-batch_reserve 10 3 [] 7 wallet reserved released
      (inr (refl, refl), tt) refl reserve_done release_done

abbrev template : CouponTemplate
template = record {
  id = 1;
  name = "pens";
  coupon_type = amount;
  threshold = 100;
  discount_value = 20;
  max_discount = 0;
  scope = product;
  merchant_ids = [];
  category_ids = [];
  product_ids = 1 ∷ [];
  valid_days = 30;
  valid_start_time = 0;
  valid_end_time = 0;
  total_count = 0;
  issued_count = 0;
  per_user_limit = 1;
  enabled = true;
}

abbrev pens : List OrderItem
pens = record { product_id = 1; merchant_id = 1; category_id = 1; subtotal = 150 } ∷ []

is_applicable_to_order_iff_example : (is_applicable_to_order template pens ≡ ok tt) ↔ (
    (covered (covers template template.scope) pens ≢ 0)
    × (template.threshold ≤ covered (covers template template.scope) pens))
is_applicable_to_order_iff_example =
    is_applicable_to_order_iff template pens (omega arith) (omega arith)

abbrev used_up : World Tables
used_up = (commit_execute 10 7 reserved).1

commit_done : commit_execute 10 7 reserved ≡ (ok tt, used_up)
unfolding batch_reserve commit_execute update_status_by_order_id
commit_done = refl

release_execute-commit_execute_example :
    (release_execute 20 7 used_up).1.store.coupons ≡ used_up.store.coupons
release_execute-commit_execute_example =
    release_execute-commit_execute 10 20 7 reserved used_up commit_done
