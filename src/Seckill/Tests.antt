-- ===== src/Seckill/Tests.antt =====
-- The theorems of the seckill service at small tables.
use douyin_mall.Base.{
  true, false, none, some, List, [], ◌∷◌, ◌≤◌, ◌+◌, refl, World, ok, arith, count_where,
  if◌then◌else◌, ◌==◌, parse_int64,
}
use douyin_mall.Seckill.{
  Node, Delivery, submit, ActivityRow, RequestRow, Tables, Event, online, order_creating,
  request_of, mark_fail, Redis, Shop, OrderService, process, failed_result, advance_processing,
  complete_order_creating, create_request, to_domain_request, move_row, order_id_from_request_no,
  ensure_request, process_processing, process_order_creating, find_by_request_no,
  compensate_and_clear, set_result,
}
use douyin_mall.Seckill.Admission.{Submission, submit-Submission}
use douyin_mall.Seckill.Machine.{Owner, Sound}
use douyin_mall.Seckill.Advance.{Moved}
use douyin_mall.Seckill.Reachable.{is_sale}
use douyin_mall.Seckill.Refinement.{
  Operation, enter, advance, complete, execute, run, execute-Moved, run-Sound, run-sales,
}
use douyin_mall.Seckill.Lifecycle.{Follows, run-Follows}
use douyin_mall.Seckill.Stranded.{Stranded, mark_fail-Stranded}
use douyin_mall.Seckill.Settlement.{Settled}
use douyin_mall.Seckill.Processing.{process-Settled}
use douyin_mall.Seckill.Reservation.{Reserved}
use douyin_mall.Seckill.Scripts.{Script, reserve, repay, eval_all, eval_all-Reserved}

abbrev two_left : ActivityRow
two_left = record {
  id = 1;
  activity_name = "a";
  product_id = 2;
  sku_id = 3;
  seckill_price = 10;
  total_stock = 2;
  available_stock = 2;
  start_time = 0;
  end_time = 100;
  status = online;
  limit_per_user = 1;
  version = 0;
}

abbrev one_left : ActivityRow
one_left = record two_left { available_stock = 1; version = 1 }

abbrev event : Event
event = record {
  request_no = "77";
  activity_id = 1;
  user_id = 9;
  product_id = 2;
  sku_id = 3;
  seckill_price = 10;
}

abbrev opened : Tables
opened = record {
  activities = two_left ∷ [];
  requests = [];
  qualifications = [];
  next_activity_id = 2;
  next_request_id = 1;
}

abbrev request : RequestRow
request = record {
  id = 1;
  request_no = "77";
  activity_id = 1;
  user_id = 9;
  status = order_creating;
  fail_reason = "";
}

abbrev ordering_tables : Tables
ordering_tables = record {
  activities = one_left ∷ [];
  requests = request ∷ [];
  qualifications = (record { activity_id = 1; user_id = 9; request_no = "77" }) ∷ [];
  next_activity_id = 2;
  next_request_id = 2;
}

abbrev up : {S : Type 0} → S → World S
up s = record { store = s; tick = 0; fails = λ _. false }

abbrev owner : Owner
owner n = (1, 9)

opened-Sound : Sound owner opened
opened-Sound = record {
  keys = λ a. ground arith;
  numbers = λ n. omega arith;
  single = λ a u. omega arith;
  owned = tt;
  backed = tt;
  balanced = ((refl, omega arith), tt);
}

ordering-Sound : Sound owner ordering_tables
ordering-Sound = record {
  keys = λ a. ground arith;
  numbers = λ n. ground arith;
  single = λ a u. ground arith;
  owned = (refl, tt);
  backed = ((λ live. omega arith), tt);
  balanced = ((refl, omega arith), tt);
}

abbrev sale : List Operation
sale = enter (request_of event) ∷ advance 5 event ∷ complete event ∷ []

execute-Moved_example :
    Moved owner ordering_tables (execute (complete event) (up ordering_tables)).store
execute-Moved_example = execute-Moved owner (complete event) (up ordering_tables) ordering-Sound tt

run-Sound_example : Sound owner (run sale (up opened)).store
run-Sound_example = run-Sound owner sale (up opened) opened-Sound ((refl, refl), (refl, (tt, tt)))

run-sales_example : 1 + count_where (is_sale 1) (run sale (up opened)).store.requests ≤ 2
unfolding create_request advance_processing complete_order_creating move_row
run-sales_example =
    run-sales owner sale (up opened) one_left opened-Sound ((refl, refl), (refl, (tt, tt))) refl

run-Follows_example : Follows request (run (complete event ∷ []) (up ordering_tables)).store
run-Follows_example =
    run-Follows owner (complete event ∷ []) (up ordering_tables) request ordering-Sound (tt, tt)
      refl

mark_fail-Stranded_example :
    Stranded request
      (run (complete event ∷ []) (mark_fail "77" "TIMEOUT" (up ordering_tables)).1).store
unfolding mark_fail
mark_fail-Stranded_example =
    mark_fail-Stranded owner (complete event ∷ []) (up ordering_tables)
      (mark_fail "77" "TIMEOUT" (up ordering_tables)).1 request "TIMEOUT" ordering-Sound (tt, tt)
      refl refl refl

abbrev ready : Redis
ready = record {
  stocks = λ a. if a == 1 then some 2 else none;
  markers = [];
  statuses = λ _. none;
  results = λ _. none;
  activities = λ _. none;
}

abbrev shop : Shop (Unit {0})
shop = record { tables = opened; redis = ready; marks = []; remote = tt }

abbrev accepting : OrderService (Unit {0})
accepting = record { create_order = λ q r. (ok tt, r); get_order = λ id r. ok none }

process-Settled_example : Settled "77" (process accepting 5 event (up shop)).1.store
unfolding process ensure_request process_processing process_order_creating find_by_request_no
    create_request advance_processing complete_order_creating move_row to_domain_request
    order_id_from_request_no set_result compensate_and_clear parse_int64
process-Settled_example =
    process-Settled accepting 5 event (up shop) (process accepting 5 event (up shop)).1 refl

ready-Reserved : Reserved 1 2 ready
ready-Reserved = record {
  stock = 2;
  in_stock = refl;
  balance = refl;
  small = omega arith;
  single = λ b u. omega arith;
}

abbrev scripts : List Script
scripts = reserve 1 9 "77" ∷ repay 1 9 (failed_result "77" "TIMEOUT") ∷ []

eval_all-Reserved_example : Reserved 1 2 (eval_all scripts ready)
eval_all-Reserved_example = eval_all-Reserved 1 2 scripts ready ready-Reserved

abbrev node : Node
node = record { tables = opened; redis = ready; marks = []; decisions = []; writes = [] }

abbrev delivered : Delivery
delivered = record { listened = true; made = true }

submit-Submission_example :
    Submission 5 delivered event (up node) (submit 5 delivered event (up node))
submit-Submission_example = submit-Submission 5 delivered event (up node)
