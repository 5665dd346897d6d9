-- ===== src/Order/Tests.antt =====
-- The theorems of the order service at small tables.
use douyin_mall.Base.{
  suc, count_where, ◌≡◌, ◌↔◌, refl, Bool, false, List, [], ◌∷◌, World, ok, arith, Int64,
  if◌then◌else◌, ◌==◌, ◌+◌,
}
use douyin_mall.Order.{
  Listing, pending_row, build_order_status_update_event, run_from, is_pending, Order, OrderItem,
  pay, paid, Address, CreateOrderCmd, Tables, create_execute, apply_order_action, pay_order,
  order_of_cmd, to_order_model, to_domain_order, change_execute, batch_cancel_execute,
  cancelable_order_ids, total_from, save, normalize_order_kind, payable_of, discount_of,
}
use douyin_mall.Order.Worker.{run_from-enough}
use douyin_mall.Order.Progress.{calm, run_from-delivers}
use douyin_mall.Order.Transitions.{Edge, target, apply_order_action_iff}
use douyin_mall.Order.StatusChange.{change_execute-Outcome}
use douyin_mall.Order.Creation.{
  create_execute-Outcome, create_execute-repeat, to_domain_order-to_order_model,
}
use douyin_mall.Order.Amounts.{cost, order_of_cmd-amounts}
use douyin_mall.Order.Cancellation.{batch_cancel_execute-Outcome}
use douyin_mall.Order.Expiry.{Unpaid, cancelable_order_ids-Unpaid}
use douyin_mall.Order.StatusChange as Change
use douyin_mall.Order.Creation as Create
use douyin_mall.Order.Cancellation as Cancel

abbrev somewhere : Address
somewhere = record {
  street = "s";
  city = "c";
  state = "p";
  country = "";
  zipcode = "z";
  phone = "1";
}

abbrev pen : OrderItem
pen = record {
  product_id = 1;
  sku_id = 2;
  quantity = 3;
  snapshot_price = 50;
  snapshot_currency = "CNY";
  price = 50;
}

abbrev command : CreateOrderCmd
command = record {
  order_id = 7;
  user_id = 9;
  currency = "CNY";
  remark = "";
  address = somewhere;
  order_kind = "CART";
  activity_id = 0;
  payable_amount = 120;
  items = pen ∷ [];
}

abbrev fresh : Order
fresh = order_of_cmd 1000 command

abbrev empty : World Tables
empty = record {
  store = record { orders = []; outbox = []; next_outbox_id = 1; messages = [] };
  tick = 0;
  fails = λ n. false;
}

abbrev one_order : World Tables
one_order = record {
  store = record {
    orders = to_order_model fresh ∷ [];
    outbox = [];
    next_outbox_id = 1;
    messages = [];
  };
  tick = 0;
  fails = λ n. false;
}

abbrev idle : Tables → Tables
idle t = t

create_execute-Outcome_example :
    Create.Outcome 1000 500 command empty (create_execute 1000 500 command empty)
create_execute-Outcome_example = create_execute-Outcome 1000 500 command empty

abbrev after_create : World Tables
after_create = (create_execute 1000 500 command empty).1

create_done : create_execute 1000 500 command empty ≡ (ok 7, after_create)
unfolding create_execute save order_of_cmd normalize_order_kind total_from payable_of discount_of
create_done = refl

create_up : after_create.fails after_create.tick ≡ false
unfolding create_execute save order_of_cmd
create_up = refl

create_up_next : after_create.fails (suc after_create.tick) ≡ false
unfolding create_execute save order_of_cmd
create_up_next = refl

create_execute-repeat_example :
    create_execute 2000 600 command after_create
    ≡ (ok 7, record after_create { tick = suc (suc after_create.tick) })
create_execute-repeat_example =
    create_execute-repeat 1000 2000 500 600 command empty after_create 7 refl create_done create_up
      create_up_next

same_currency : fresh.total_amount.currency ≡ fresh.payable_amount.currency
unfolding order_of_cmd
same_currency = refl

same_discount_currency : fresh.discount_amount.currency ≡ fresh.payable_amount.currency
unfolding order_of_cmd
same_discount_currency = refl

to_domain_order-to_order_model_example :
    to_domain_order (to_order_model fresh) ≡ record fresh { created_at = 0 }
to_domain_order-to_order_model_example =
    to_domain_order-to_order_model fresh same_currency same_discount_currency

order_of_cmd-amounts_example :
    ((order_of_cmd 1000 command).total_amount.total ≡ cost command.items)
    × ((order_of_cmd 1000 command).payable_amount.total
        ≡ (if command.payable_amount == 0 then cost command.items else command.payable_amount))
    × ((order_of_cmd 1000 command).payable_amount.total
          + (order_of_cmd 1000 command).discount_amount.total
        ≡ cost command.items)
order_of_cmd-amounts_example = order_of_cmd-amounts 1000 command (omega arith) (omega arith)

abbrev paid_order : Order
paid_order = record fresh { status = paid }

paying_works : apply_order_action fresh pay ≡ ok paid_order
unfolding apply_order_action pay_order order_of_cmd
paying_works = refl

apply_order_action_iff_example :
    (apply_order_action fresh pay ≡ ok paid_order)
    ↔ (Edge fresh.status pay (target pay) × (paid_order ≡ record fresh { status = target pay }))
apply_order_action_iff_example = apply_order_action_iff fresh paid_order pay

change_execute-Outcome_example :
    Change.Outcome idle 7 pay one_order (change_execute idle 7 pay one_order)
change_execute-Outcome_example = change_execute-Outcome idle 7 pay one_order

batch_cancel_execute-Outcome_example :
    Cancel.Outcome idle (7 ∷ []) one_order (batch_cancel_execute idle (7 ∷ []) one_order)
batch_cancel_execute-Outcome_example = batch_cancel_execute-Outcome idle (7 ∷ []) one_order

abbrev nobody : Int64 → Bool
nobody id = false

cancelable_order_ids-Unpaid_example :
    (ids : List Int64) × ((cancelable_order_ids nobody (fresh ∷ []) one_order).0 ≡ ok ids)
    × Unpaid nobody one_order.fails 0 (fresh ∷ []) ids
    × ((cancelable_order_ids nobody (fresh ∷ []) one_order).1.store ≡ one_order.store)
cancelable_order_ids-Unpaid_example = cancelable_order_ids-Unpaid nobody (fresh ∷ []) one_order

abbrev waiting : Tables
waiting = record {
  orders = [];
  outbox = pending_row 4 "order.status.changed" (build_order_status_update_event fresh) ∷ [];
  next_outbox_id = 5;
  messages = [];
}

-- By the time of insertion.
abbrev inserted : Listing
inserted offset rows = rows

run_from-enough_example :
    run_from inserted 3 0 (calm waiting 0) ≡ run_from inserted 1 0 (calm waiting 0)
run_from-enough_example =
    run_from-enough inserted 0 2 0 (calm waiting 0) (λ offset rs p. refl) (omega arith)
      (omega arith)

run_from-delivers_example :
    (v : World Tables) × (run_from inserted 1 0 (calm waiting 0) ≡ (ok tt, v))
    × (v.store.messages ≡ build_order_status_update_event fresh ∷ [])
    × (count_where is_pending v.store.outbox ≡ 0)
run_from-delivers_example =
    run_from-delivers inserted 0 waiting 0 (λ offset rs p. refl) (omega arith)
