-- ===== src/Seckill/Submit.antt =====
-- usecase/submit.go from the activity on, and infra/mq/producer.go. The client of the broker calls the
-- listener at most once for a message, and answers with what the listener said. What a goroutine has
-- still to write to Redis waits in a list, from which any of them can come next.
use douyin_mall.Base.{
  ℕ, ◌+◌, String, Bool, Option, none, some, List, [], ◌∷◌, ◌++◌, ◌&&◌, get_elem?, take, drop, not,
  ◌==◌, ltb, str_eq, Int64, World, Action, if◌then◌else◌, suc, first_where, delete_where,
}
use douyin_mall.Seckill.Domain.{
  online, processing, failed, Activity, RequestResult, Event, Error, activity_offline,
  activity_not_started, activity_ended, out_of_stock, duplicate_seckill, rolled_back, call_failed,
  out_of_stock_reason, duplicate_reason, activity_not_open_reason, TransactionResolution, commit,
  rollback, ◌==ᵃ◌, ◌==ʳ◌,
}
use douyin_mall.Seckill.Store.{Tables}
use douyin_mall.Seckill.Cache.{
  Redis, atomic_reserve, resolve_transaction, set_result, processing_result, is_sold_out,
  mark_sold_out,
}
use douyin_mall.Seckill.Processor.{failed_result}

-- `transactionDecision`; the listener keeps rollbacks only.
pub record Decision : Type 0 where
  pub request_no : String
  pub result : RequestResult
  pub expires_at : ℕ

-- One node of the service with the stores that it calls. The copies of the activities in the memory
-- of the node are taken for those of Redis.
pub record Node : Type 0 where
  pub tables : Tables
  pub redis : Redis
  pub marks : List Int64
  pub decisions : List Decision
  pub writes : List RequestResult

-- What becomes of a message beyond the calls that fail: the listener is not called, and the message
-- rolled back, where the broker has not stored it as it should; and a reservation whose call fails may
-- have been made all the same.
pub record Delivery : Type 0 where
  pub listened : Bool
  pub made : Bool

abbrev pub Call : Type 0 → Type 0
Call A = Action Node Error A

pub data LocalState : Type 0 where
  commit_message rollback_message unknow : LocalState

-- 10 minutes, in nanoseconds.
abbrev transaction_decision_ttl : ℕ
transaction_decision_ttl = 600_000_000_000

abbrev pub cleanup_expired : ℕ → List Decision → List Decision
cleanup_expired now ds = delete_where (λ d. ltb d.expires_at now) ds

abbrev pub is_decision : String → Decision → Bool
is_decision n d = str_eq d.request_no n

-- `go func() { cache.SetResult(x) }()`
abbrev pub write_later : RequestResult → Node → Node
write_later x s = record s { writes = s.writes ++ x ∷ [] }

abbrev pub decisions_with : ℕ → RequestResult → List Decision → List Decision
decisions_with now x ds =
    (record { request_no = x.request_no; result = x; expires_at = now + transaction_decision_ttl })
    ∷ delete_where (is_decision x.request_no) (cleanup_expired now ds)

unfoldable pub record_rollback_result : ℕ → RequestResult → Node → Node
record_rollback_result now x s =
    write_later x (record s { decisions = decisions_with now x s.decisions })

abbrev pub result_of : Option Decision → Option RequestResult
result_of none = none
result_of (some d) = some d.result

unfoldable pub lookup_decision : ℕ → String → List Decision → Option RequestResult
lookup_decision now n ds = result_of (first_where (is_decision n) (cleanup_expired now ds))

abbrev pub set_redis : Redis → Node → Node
set_redis r s = record s { redis = r }

-- `ExecuteLocalTransaction`: the number of the script decides.
abbrev pub decide : ℕ → Event → ℕ → Node → LocalState × Node
decide now e code s =
    if code == 0
    then (commit_message, s)
    else if code == 1
    then (
      rollback_message,
      record_rollback_result now (failed_result e.request_no out_of_stock_reason)
          (record s { marks = mark_sold_out e.activity_id s.marks }),
    )
    else if code == 2
    then (
      rollback_message,
      record_rollback_result now (failed_result e.request_no duplicate_reason) s,
    )
    else (unknow, s)

abbrev reserved : ℕ → Event → Node → LocalState × Node
reserved now e s =
    let (code, r) = atomic_reserve e.activity_id e.user_id e.request_no s.redis in
    decide now e code (set_redis r s)

-- The stores where the answer of the reservation is lost.
abbrev pub unanswered : Bool → Event → Node → Node
unanswered made e s =
    if made then set_redis (atomic_reserve e.activity_id e.user_id e.request_no s.redis).1 s else s

unfoldable pub execute_local_transaction : ℕ → Bool → Event → World Node → LocalState × World Node
execute_local_transaction now made e w =
    if w.fails w.tick
    then (unknow, record w { store = unanswered made e w.store; tick = suc w.tick })
    else let (st, s) = reserved now e w.store in (st, record w { store = s; tick = suc w.tick })

-- `CheckLocalTransaction`, by which the broker asks again.
abbrev state_of : TransactionResolution → LocalState
state_of commit = commit_message
state_of rollback = rollback_message
state_of TransactionResolution.unknown = unknow

abbrev checked : Event → Option RequestResult → World Node → LocalState × World Node
checked e (some x) w = (rollback_message, w)
checked e none w =
    if w.fails w.tick
    then (unknow, record w { tick = suc w.tick })
    else let (res, r) = resolve_transaction e.activity_id e.user_id e.request_no w.store.redis in
      (state_of res, record w { store = set_redis r w.store; tick = suc w.tick })

unfoldable pub check_local_transaction : ℕ → Event → World Node → LocalState × World Node
check_local_transaction now e w =
    checked e (lookup_decision now e.request_no w.store.decisions)
      (record w { store = record w.store { decisions = cleanup_expired now w.store.decisions } })

-- `Submit` of the producer: a result, an error, or both.
abbrev pub Answer : Type 0
Answer = Option RequestResult × Option Error

abbrev pub processing_answer : String → Answer
processing_answer n =
    (some (record { request_no = n; status = processing; order_id = 0; fail_reason = "" }), none)

abbrev error_for_fail_reason : String → Error
error_for_fail_reason reason =
    if str_eq reason out_of_stock_reason
    then out_of_stock
    else if str_eq reason duplicate_reason
    then duplicate_seckill
    else rolled_back

abbrev pub rollback_answer : String → Option RequestResult → Answer
rollback_answer n (some x) = (some x, some (error_for_fail_reason x.fail_reason))
rollback_answer n none = (some (failed_result n ""), some rolled_back)

abbrev pub answer_of : ℕ → String → LocalState → World Node → Answer × World Node
answer_of now n rollback_message w = (
  rollback_answer n (lookup_decision now n w.store.decisions),
  record w { store = record w.store { decisions = cleanup_expired now w.store.decisions } },
)
answer_of now n s w = (processing_answer n, w)

-- `SendMessageInTransaction` once the message has been sent.
abbrev pub local_state : ℕ → Delivery → Event → World Node → LocalState × World Node
local_state now d e w =
    if d.listened then execute_local_transaction now d.made e w else (rollback_message, w)

unfoldable pub submit : ℕ → Delivery → Event → World Node → Answer × World Node
submit now d e w =
    if w.fails w.tick
    then ((none, some call_failed), record w { tick = suc w.tick })
    else let (st, v) = local_state now d e (record w { tick = suc w.tick }) in
      answer_of now e.request_no st v

-- `SubmitUseCase.Execute` from the activity on, with the number that the generator gives.
abbrev not_open : Error → Answer
not_open x = (
  some (record {
    request_no = "";
    status = failed;
    order_id = 0;
    fail_reason = activity_not_open_reason;
  }),
  some x,
)

abbrev pub event_for : String → Int64 → Activity → Event
event_for n user a = record {
  request_no = n;
  activity_id = a.id;
  user_id = user;
  product_id = a.product_id;
  sku_id = a.sku_id;
  seckill_price = a.seckill_price;
}

-- `persistProcessingResult`, by a goroutine.
abbrev is_to_persist : RequestResult → Bool
is_to_persist x = x.status ==ʳ processing && not (str_eq x.request_no "")

abbrev pub persist_processing : Answer × World Node → Answer × World Node
persist_processing ((none, e), w) = ((none, e), w)
persist_processing ((some x, e), w) = (
  (some x, e),
  if is_to_persist x
      then record w { store = write_later (processing_result x.request_no) w.store }
      else w,
)

-- One of the goroutines writes its result, or fails, which is logged.
unfoldable pub write_result : ℕ → World Node → World Node
write_result k w = written (get_elem? w.store.writes k)
  where
    rest : Node
    rest = record w.store { writes = take k w.store.writes ++ drop (suc k) w.store.writes }

    written : Option RequestResult → World Node
    written none = w
    written (some x) = record w {
      store = if w.fails w.tick then rest else set_redis (set_result x w.store.redis) rest;
      tick = suc w.tick;
    }

unfoldable pub submit_for :
    ℕ → Delivery → String → Int64 → Activity → World Node → Answer × World Node
submit_for now d n user a w =
    if not (a.status ==ᵃ online)
    then (not_open activity_offline, w)
    else if ltb now a.start_time
    then (not_open activity_not_started, w)
    else if ltb a.end_time now
    then (not_open activity_ended, w)
    else if is_sold_out a.id w.store.marks
    then ((some (failed_result "" out_of_stock_reason), some out_of_stock), w)
    else persist_processing (submit now d (event_for n user a) w)
