-- ===== src/Seckill/Activities.antt =====
-- usecase/activity.go, usecase/getSeckill.go and the beginning of usecase/submit.go.
use douyin_mall.Base.{
  ℕ, String, Option, none, some, ◌==◌, Int64, Int32, World, Result, ok, err, if◌then◌else◌, pure,
  raise, gets, modify, io, attempt, ◌>>=◌, ◌>>◌,
}
use douyin_mall.Seckill.Domain.{
  ActivityStatus, init, Activity, Request, RequestResult, Error, request_not_found, call_failed,
  ◌==ᵃ◌,
}
use douyin_mall.Seckill.Store.{Db}
use douyin_mall.Seckill.Repository.{
  create_activity, find_activity, update_activity_status, find_by_request_no,
}
use douyin_mall.Seckill.Cache.{
  Redis, set_activity, set_activity_stock, set_result, get_result, clear_sold_out,
}
use douyin_mall.Seckill.Submit.{Node, Delivery, Call, Answer, set_redis, submit_for}

-- An operation on the tables, and one on Redis.
abbrev pub in_node_tables : {A : Type 0} → Db A → Call A
in_node_tables m w =
    let (r, v) = m (record { store = w.store.tables; tick = w.tick; fails = w.fails }) in
    (r, record { store = record w.store { tables = v.store }; tick = v.tick; fails = v.fails })

abbrev pub in_node_redis : (Redis → Redis) → Call (Unit {0})
in_node_redis f = do io call_failed; modify λ (s : Node). set_redis (f s.redis) s

abbrev from_redis : {A : Type 0} → (Redis → Option A) → Call (Option A)
from_redis f = do io call_failed; gets λ (s : Node). f s.redis

-- `_ = call`
abbrev ignore_error : Call (Unit {0}) → Call (Unit {0})
ignore_error m = do r ← attempt m; pure tt

abbrev clear_mark : Int64 → Call (Unit {0})
clear_mark a = modify λ (s : Node). record s { marks = clear_sold_out a s.marks }

pub record CreateActivityCmd : Type 0 where
  pub activity_name : String
  pub product_id : Int64
  pub sku_id : Int64
  pub seckill_price : Int64
  pub total_stock : Int32
  pub start_time : ℕ
  pub end_time : ℕ
  pub status : ActivityStatus
  pub limit_per_user : Int32

abbrev or_init : ActivityStatus → ActivityStatus
or_init s = if s ==ᵃ ActivityStatus.other "" then init else s

abbrev pub activity_of_cmd : CreateActivityCmd → Activity
activity_of_cmd c = record {
  id = 0;
  activity_name = c.activity_name;
  product_id = c.product_id;
  sku_id = c.sku_id;
  seckill_price = c.seckill_price;
  total_stock = c.total_stock;
  available_stock = c.total_stock;
  start_time = c.start_time;
  end_time = c.end_time;
  status = or_init c.status;
  limit_per_user = if c.limit_per_user == 0 then 1 else c.limit_per_user;
  version = 0;
}

unfoldable pub create_activity_execute : CreateActivityCmd → Call Int64
create_activity_execute c = do
  a ← in_node_tables (create_activity (activity_of_cmd c))
  clear_mark a.id
  ignore_error (in_node_redis (set_activity a))
  ignore_error (in_node_redis (set_activity_stock a.id a.available_stock))
  pure a.id

unfoldable pub update_activity_status_execute : Int64 → ActivityStatus → Call (Unit {0})
update_activity_status_execute id s = do
  in_node_tables (update_activity_status id s)
  a ← in_node_tables (find_activity id)
  clear_mark id
  in_node_redis (set_activity a)

abbrev or_find : Int64 → Option Activity → Call Activity
or_find id (some a) = pure a
or_find id none = do
  a ← in_node_tables (find_activity id)
  ignore_error (in_node_redis (set_activity a))
  pure a

unfoldable pub get_activity_execute : Int64 → Call Activity
get_activity_execute id = do cached ← from_redis (λ r. r.activities id); or_find id cached

-- `SubmitUseCase.Execute`
abbrev submitted :
    ℕ → Delivery → String → Int64 → Result Error Activity → World Node → Answer × World Node
submitted now d n user (ok a) w = submit_for now d n user a w
submitted now d n user (err x) w = ((none, some x), w)

unfoldable pub submit_execute :
    ℕ → Delivery → String → Int64 → Int64 → World Node → Answer × World Node
unfolding get_activity_execute
submit_execute now d n id user w =
    let (r, v) = get_activity_execute id w in submitted now d n user r v

abbrev result_of_request : Request → RequestResult
result_of_request r = record {
  request_no = r.request_no;
  status = r.status;
  order_id = r.order_id;
  fail_reason = r.fail_reason;
}

abbrev or_request : Call Request → Option RequestResult → Call RequestResult
or_request find (some x) = pure x
or_request find none = do
  r ← find
  ignore_error (in_node_redis (set_result (result_of_request r)))
  pure (result_of_request r)

unfoldable pub get_result_execute : String → Call RequestResult
get_result_execute n = do
  cached ← from_redis (get_result n)
  or_request (in_node_tables (find_by_request_no n)) cached

abbrev own_result : Int64 → String → Request → Call RequestResult
own_result user n r =
    if r.user_id == user
    then (do cached ← from_redis (get_result n); or_request (pure r) cached)
    else raise request_not_found

unfoldable pub get_result_for_user : String → Int64 → Call RequestResult
get_result_for_user n user = do r ← in_node_tables (find_by_request_no n); own_result user n r
