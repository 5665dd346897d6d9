-- ===== src/Seckill/DeadLetters.antt =====
-- infra/mq/processor.go for the messages that have failed too often, and
-- infra/mq/order_status_consumer.go for the orders that were closed.
use douyin_mall.Base.{
  String, Bool, true, false, Option, none, some, ◌&&◌, not, ◌==◌, str_eq, Int64, Result, ok, err,
  if◌then◌else◌, pure, raise, attempt, suc, ◌>>=◌, ◌>>◌,
}
use douyin_mall.Seckill.Domain.{
  RequestStatus, processing, order_creating, success, failed, Request, Event, DeadLetterEvent,
  Error, request_not_found, call_failed, invalid_request_no, unknown_status, order_canceled_reason,
  order_refunded_reason, order_id_from_request_no,
}
use douyin_mall.Seckill.Repository.{find_by_request_no}
use douyin_mall.Seckill.Transactions.{close_by_order_result, mark_fail}
use douyin_mall.Seckill.Processor.{
  OrderService, RemoteOrder, CallError, other_error, is_order_not_found, Handler, in_tables,
  compensate_and_clear, save_result, success_result, failed_result, finish, roll_back,
  dead_letter_reason,
}

module _ {R : Type 0} (service : OrderService R) where
  abbrev pub call_get_order : Int64 → Handler R (Result CallError (Option RemoteOrder))
  call_get_order id w =
      if w.fails w.tick
      then (ok (err other_error), record w { tick = suc w.tick })
      else (ok (service.get_order id w.store.remote), record w { tick = suc w.tick })

  -- `lookupOrder`: whether the order is there and is that of the event.
  abbrev is_order_of : Event → RemoteOrder → Bool
  is_order_of e o =
      o.user_id == e.user_id && (o.activity_id == e.activity_id && str_eq o.order_kind "SECKILL")

  abbrev looked_up : Event → Result CallError (Option RemoteOrder) → Handler R Bool
  looked_up e (ok none) = pure false
  looked_up e (ok (some o)) = pure (is_order_of e o)
  looked_up e (err x) = if is_order_not_found x then pure false else raise call_failed

  abbrev lookup_with : Event → Option Int64 → Handler R Bool
  lookup_with e none = raise invalid_request_no
  lookup_with e (some id) = do r ← call_get_order id; looked_up e r

  unfoldable pub lookup_order : Event → Handler R Bool
  lookup_order e = lookup_with e (order_id_from_request_no e.request_no)

  abbrev pub settle_dead : Event → String → Bool → Handler R (Unit {0})
  settle_dead e reason found = if found then finish e else roll_back e reason

  abbrev pub dead_from : Event → String → Request → RequestStatus → Handler R (Unit {0})
  dead_from e reason r success = save_result (success_result e.request_no r.order_id)
  dead_from e reason r failed =
      compensate_and_clear e.activity_id e.user_id (failed_result e.request_no r.fail_reason)
  dead_from e reason r processing = do
    in_tables (mark_fail e.request_no reason)
    compensate_and_clear e.activity_id e.user_id (failed_result e.request_no reason)
  dead_from e reason r order_creating = do found ← lookup_order e; settle_dead e reason found
  dead_from e reason r (RequestStatus.other s) = raise unknown_status

  abbrev pub dead_found : Event → String → Result Error Request → Handler R (Unit {0})
  dead_found e reason (ok r) = dead_from e reason r r.status
  dead_found e reason (err request_not_found) =
      compensate_and_clear e.activity_id e.user_id (failed_result e.request_no reason)
  dead_found e reason (err x) = raise x

  unfoldable pub process_dead_letter : DeadLetterEvent → Handler R (Unit {0})
  process_dead_letter d = do
    r ← attempt (in_tables (find_by_request_no d.event.request_no))
    dead_found d.event (dead_letter_reason d) r

-- The status in the message, and the number that `strconv.FormatInt` writes for the order.
pub data ClosedStatus : Type 0 where
  paid canceled refunded another : ClosedStatus

abbrev fail_reason_for : ClosedStatus → String
fail_reason_for refunded = order_refunded_reason
fail_reason_for s = order_canceled_reason

-- `kind` is the kind of the order in upper case and without spaces around it.
module _ {R : Type 0} where
  abbrev after_close : Result Error (Request × Bool) → Handler R (Unit {0})
  after_close (err request_not_found) = pure tt
  after_close (err x) = raise x
  after_close (ok (r, false)) = pure tt
  after_close (ok (r, true)) =
      compensate_and_clear r.activity_id r.user_id (failed_result r.request_no r.fail_reason)

  unfoldable pub on_order_closed : String → ClosedStatus → Handler R (Unit {0})
  on_order_closed n s = do
    r ← attempt (in_tables (close_by_order_result n (fail_reason_for s)))
    after_close r

  abbrev consume_status : String → ClosedStatus → Handler R (Unit {0})
  consume_status n paid = pure tt
  consume_status n canceled = on_order_closed n canceled
  consume_status n refunded = on_order_closed n refunded
  consume_status n another = pure tt

  unfoldable pub consume : String → String → ClosedStatus → Handler R (Unit {0})
  consume kind n s =
      if not (str_eq kind "") && not (str_eq kind "SECKILL") then pure tt else consume_status n s
