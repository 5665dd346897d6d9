-- ===== src/Seckill/Processor.antt =====
-- infra/mq/processor.go and order_status_consumer.go, with the order service as a parameter: what
-- an RPC of it answers, and the state that it keeps.
use douyin_mall.Base.{
  ℕ, String, Bool, false, Option, none, some, List, ◌||◌, ◌==◌, str_eq, Int64, Action, Result, ok,
  err, if◌then◌else◌, pure, raise, modify, io, attempt, suc, ◌>>=◌, ◌>>◌,
}
use douyin_mall.Seckill.Domain.{
  RequestStatus, processing, order_creating, success, failed, Request, RequestResult, Event,
  DeadLetterEvent, Error, request_not_found, duplicate_seckill, call_failed, invalid_request_no,
  unknown_status, create_order_fail_reason, order_id_from_request_no,
}
use douyin_mall.Seckill.Store.{Tables, Db}
use douyin_mall.Seckill.Repository.{create_request, find_by_request_no}
use douyin_mall.Seckill.Transactions.{
  advance_processing, complete_order_creating, rollback_order_creating,
}
use douyin_mall.Seckill.Cache.{Redis, compensate, set_result, clear_sold_out}

-- `orderv1.CreateOrderReq` and `orderv1.Order`, with the fields that are set or read.
pub record CreateOrderReq : Type 0 where
  pub order_id : Int64
  pub user_id : Int64
  pub currency : String
  pub order_kind : String
  pub activity_id : Int64
  pub product_id : Int64
  pub sku_id : Int64
  pub quantity : Int64
  pub snapshot_price : Int64

pub record RemoteOrder : Type 0 where
  pub order_id : Int64
  pub user_id : Int64
  pub activity_id : Int64
  pub order_kind : String

-- An error of a call: with the code of a business status, or any other.
pub data CallError : Type 0 where
  biz_status : ℕ → CallError
  other_error : CallError

pub record OrderService (R : Type 0) : Type 0 where
  pub create_order : CreateOrderReq → R → Result CallError (Unit {0}) × R
  pub get_order : Int64 → R → Result CallError (Option RemoteOrder)

-- order/domain/errors.go
abbrev pub is_explicit_create_order_failure : CallError → Bool
is_explicit_create_order_failure (biz_status c) = c == 4_001 || (c == 4_002 || c == 4_003)
is_explicit_create_order_failure other_error = false

abbrev pub is_order_not_found : CallError → Bool
is_order_not_found (biz_status c) = c == 4_404
is_order_not_found other_error = false

-- The database, Redis, the marks of this node and the order service.
pub record Shop (R : Type 0) : Type 0 where
  pub tables : Tables
  pub redis : Redis
  pub marks : List Int64
  pub remote : R

abbrev pub request_of : Event → Request
request_of e = record {
  id = 0;
  request_no = e.request_no;
  activity_id = e.activity_id;
  user_id = e.user_id;
  status = processing;
  order_id = 0;
  fail_reason = "";
}

abbrev pub create_req_of : Int64 → Event → CreateOrderReq
create_req_of id e = record {
  order_id = id;
  user_id = e.user_id;
  currency = "CNY";
  order_kind = "SECKILL";
  activity_id = e.activity_id;
  product_id = e.product_id;
  sku_id = e.sku_id;
  quantity = 1;
  snapshot_price = e.seckill_price;
}

abbrev pub success_result : String → Int64 → RequestResult
success_result n id = record { request_no = n; status = success; order_id = id; fail_reason = "" }

abbrev pub failed_result : String → String → RequestResult
failed_result n reason = record {
  request_no = n;
  status = failed;
  order_id = 0;
  fail_reason = reason;
}

abbrev pub or_zero : Option Int64 → Int64
or_zero none = 0
or_zero (some n) = n

abbrev pub order_id_or_request_no : Request → Int64
order_id_or_request_no r =
    if r.order_id == 0 then or_zero (order_id_from_request_no r.request_no) else r.order_id

abbrev pub dead_letter_reason : DeadLetterEvent → String
dead_letter_reason d = if str_eq d.reason "" then create_order_fail_reason else d.reason

abbrev pub Handler : Type 0 → Type 0 → Type 0
Handler R A = Action (Shop R) Error A

module _ {R : Type 0} where
  -- An operation of the repository, of Redis and of the marks.
  abbrev pub in_tables : {A : Type 0} → Db A → Handler R A
  in_tables m w =
      let (r, v) = m (record { store = w.store.tables; tick = w.tick; fails = w.fails }) in
      (r, record { store = record w.store { tables = v.store }; tick = v.tick; fails = v.fails })

  abbrev pub in_redis : (Redis → Redis) → Handler R (Unit {0})
  in_redis f = do io call_failed; modify λ (s : Shop R). record s { redis = f s.redis }

  unfoldable pub compensate_and_clear : Int64 → Int64 → RequestResult → Handler R (Unit {0})
  compensate_and_clear a u x = do
    in_redis (compensate a u x)
    modify λ (s : Shop R). record s { marks = clear_sold_out a s.marks }

  abbrev pub save_result : RequestResult → Handler R (Unit {0})
  save_result x = in_redis (set_result x)

  -- The three answers of `FindByRequestNo` and of `Create` that the code tells apart.
  abbrev pub created_or_found : Event → Result Error Request → Handler R Request
  created_or_found e (ok r) = pure (request_of e)
  created_or_found e (err duplicate_seckill) = in_tables (find_by_request_no e.request_no)
  created_or_found e (err x) = raise x

  abbrev pub found_or_created : Event → Result Error Request → Handler R Request
  found_or_created e (ok r) = pure r
  found_or_created e (err request_not_found) = do
    r ← attempt (in_tables (create_request (request_of e)))
    created_or_found e r
  found_or_created e (err x) = raise x

  unfoldable pub ensure_request : Event → Handler R Request
  ensure_request e = do
    r ← attempt (in_tables (find_by_request_no e.request_no))
    found_or_created e r

  unfoldable pub roll_back : Event → String → Handler R (Unit {0})
  roll_back e reason = do
    r ← in_tables (rollback_order_creating e reason)
    compensate_and_clear e.activity_id e.user_id (failed_result e.request_no r.fail_reason)

  abbrev pub finish : Event → Handler R (Unit {0})
  finish e = do
    r ← in_tables (complete_order_creating e)
    save_result (success_result e.request_no (order_id_or_request_no r))

module _ {R : Type 0} (service : OrderService R) where
  -- The RPC: the request may be lost on the way.
  abbrev pub call_create_order : CreateOrderReq → Handler R (Result CallError (Unit {0}))
  call_create_order q w =
      if w.fails w.tick
      then (ok (err other_error), record w { tick = suc w.tick })
      else let (r, remote) = service.create_order q w.store.remote in
        (ok r, record w { store = record w.store { remote = remote }; tick = suc w.tick })

  abbrev pub after_create : Event → Result CallError (Unit {0}) → Handler R (Unit {0})
  after_create e (ok x) = finish e
  after_create e (err x) =
      if is_explicit_create_order_failure x
      then roll_back e create_order_fail_reason
      else raise call_failed

  abbrev pub order_with : Event → Option Int64 → Handler R (Unit {0})
  order_with e none = raise invalid_request_no
  order_with e (some id) = do r ← call_create_order (create_req_of id e); after_create e r

  unfoldable pub process_order_creating : Event → Handler R (Unit {0})
  process_order_creating e = order_with e (order_id_from_request_no e.request_no)

  abbrev pub after_advance : Event → Request → RequestStatus → Handler R (Unit {0})
  after_advance e r order_creating = process_order_creating e
  after_advance e r failed =
      compensate_and_clear e.activity_id e.user_id (failed_result e.request_no r.fail_reason)
  after_advance e r success = save_result (success_result e.request_no r.order_id)
  after_advance e r s = raise unknown_status

  unfoldable pub process_processing : ℕ → Event → Handler R (Unit {0})
  process_processing now e = do r ← in_tables (advance_processing now e); after_advance e r r.status

  abbrev pub process_from : ℕ → Event → Request → RequestStatus → Handler R (Unit {0})
  process_from now e r processing = process_processing now e
  process_from now e r order_creating = process_order_creating e
  process_from now e r success = save_result (success_result e.request_no r.order_id)
  process_from now e r failed =
      compensate_and_clear e.activity_id e.user_id (failed_result e.request_no r.fail_reason)
  process_from now e r (RequestStatus.other s) = raise unknown_status

  -- `Process` at the time `now`.
  unfoldable pub process : ℕ → Event → Handler R (Unit {0})
  process now e = do r ← ensure_request e; process_from now e r r.status
