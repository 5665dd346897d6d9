-- ===== src/Order/Jobs.antt =====
-- job/outbox_worker.go, job/checkExpired_job.go, job/dispatch_order_timeout.go and the consumer
-- infra/mq/payment_consumer.go. What the payment service answers is an argument, `paid id` for a
-- payment that is confirmed as a success; its call can fail as any other. The errors that the code
-- only logs are dropped.
use douyin_mall.Base.{
  ℕ, zero, suc, ◌+◌, Bool, true, false, Option, none, some, List, [], ◌∷◌, map, length, take, drop,
  ltb, ◌==◌, Int64, if◌then◌else◌, Result, ok, err, pure, raise, io, attempt, ◌>>=◌, ◌>>◌,
}
use douyin_mall.Order.Domain.{
  OrderAction, pay, refund, Order, ◌==ˢ◌, created, Error, record_not_found,
  invalid_status_transition, statement_failed, OrderStatusUpdateEvent,
}
use douyin_mall.Order.Store.{OutboxEventModel, Tables, Db}
use douyin_mall.Order.Repository.{find_expired_orders, find_by_id}
use douyin_mall.Order.Outbox.{Listing, list_pending, batch_mark_sent, increase_retry, mark_failed}
use douyin_mall.Order.UseCases.{
  send_messages, successes, log_error, batch_cancel_execute, change_execute, Change,
}

abbrev pub batch_size : ℕ
batch_size = 100

abbrev pub max_retry : ℕ
max_retry = 5

abbrev pub event_of : OutboxEventModel → OrderStatusUpdateEvent
event_of r = r.payload

abbrev pub outbox_id : OutboxEventModel → ℕ
outbox_id r = r.id

-- An event that could not be sent: count it, and give it up after too many times.
abbrev pub give_up : ℕ → Result Error ℕ → Db (Unit {0})
give_up id (err e) = pure tt
give_up id (ok n) = if ltb max_retry n then log_error (mark_failed id) else pure tt

unfoldable pub retry_failed : List ℕ → List Bool → Db (Unit {0})
retry_failed (id ∷ ids) (true ∷ bs) = do
  n ← attempt (increase_retry id)
  give_up id n
  retry_failed ids bs
retry_failed (id ∷ ids) (false ∷ bs) = retry_failed ids bs
retry_failed _ _ = pure tt

-- `processBatch`
unfoldable pub process_batch : List OutboxEventModel → Db (Unit {0})
unfolding retry_failed
process_batch rows = do
  errs ← send_messages (map event_of rows)
  retry_failed (map outbox_id rows) errs
  log_error (batch_mark_sent (successes (map outbox_id rows) errs))

-- The loop of `Run`; it has as much fuel as there are rows, and each round takes a full batch.
abbrev pub next_round : List OutboxEventModel → Db (Unit {0}) → Db (Unit {0})
next_round [] rest = pure tt
next_round (r ∷ rows) rest =
    process_batch (r ∷ rows) >> (if ltb (length (r ∷ rows)) batch_size then pure tt else rest)

unfoldable pub run_from : Listing → ℕ → ℕ → Db (Unit {0})
unfolding process_batch
run_from listing zero offset = pure tt
run_from listing (suc fuel) offset = do
  rows ← list_pending listing offset batch_size
  next_round rows (run_from listing fuel (offset + batch_size))

-- `confirmPayment` of both jobs.
unfoldable pub confirm_payment : (Int64 → Bool) → Int64 → Db Bool
confirm_payment paid id = do io statement_failed; pure (paid id)

-- The loop of CheckExpiredJob: an order is left alone where the payment cannot be confirmed or is paid.
abbrev keep_cancelable : Result Error Bool → Int64 → List Int64 → List Int64
keep_cancelable (err e) id rest = rest
keep_cancelable (ok paid) id rest = if paid then rest else id ∷ rest

unfoldable pub cancelable_order_ids : (Int64 → Bool) → List Order → Db (List Int64)
unfolding confirm_payment
cancelable_order_ids paid [] = pure []
cancelable_order_ids paid (o ∷ os) = do
  status ← attempt (confirm_payment paid o.id)
  rest ← cancelable_order_ids paid os
  pure (keep_cancelable status o.id rest)

abbrev pub max_batch_size : ℕ
max_batch_size = 10_000

-- `processByBatch`: one use case for each slice; the fuel bounds the number of slices.
unfoldable pub process_by_batch : ℕ → (Tables → Tables) → List Int64 → Db (Unit {0})
process_by_batch fuel others [] = pure tt
process_by_batch zero others (id ∷ ids) = pure tt
process_by_batch (suc fuel) others (id ∷ ids) = do
  batch_cancel_execute others (take max_batch_size (id ∷ ids))
  process_by_batch fuel others (drop max_batch_size (id ∷ ids))

-- `Run` of CheckExpiredJob at the time `now`.
unfoldable pub check_expired : (Tables → Tables) → (Int64 → Bool) → ℕ → Db (Unit {0})
unfolding cancelable_order_ids process_by_batch
check_expired others paid now = do
  expired ← find_expired_orders now 0
  ids ← cancelable_order_ids paid expired
  process_by_batch (length ids) others ids

-- `shouldCancelDueOrder`
abbrev after_pay : Result Error Change → Db Bool
after_pay (ok _) = pure false
after_pay (err invalid_status_transition) = pure false
after_pay (err e) = raise e

abbrev if_unpaid : (Tables → Tables) → Int64 → Bool → Db Bool
if_unpaid others id paid =
    if paid then attempt (change_execute others id pay) >>= after_pay else pure true

abbrev should_cancel : (Tables → Tables) → (Int64 → Bool) → Result Error Order → Db Bool
should_cancel others paid (err record_not_found) = pure false
should_cancel others paid (err e) = raise e
should_cancel others paid (ok o) =
    if o.status ==ˢ created then confirm_payment paid o.id >>= if_unpaid others o.id else pure false

unfoldable pub should_cancel_due_order : (Tables → Tables) → (Int64 → Bool) → Int64 → Db Bool
unfolding confirm_payment
should_cancel_due_order others paid id = attempt (find_by_id id) >>= should_cancel others paid

-- `paymentStatusToOrderAction` over the codes of the event.
unfoldable pub payment_status_to_order_action : ℕ → Option OrderAction
payment_status_to_order_action s = if s == 2 then some pay else if s == 4 then some refund else none

abbrev acknowledge : Result Error Change → Db (Unit {0})
acknowledge (ok _) = pure tt
acknowledge (err invalid_status_transition) = pure tt
acknowledge (err e) = raise e

abbrev apply_event : (Tables → Tables) → Int64 → Option OrderAction → Db (Unit {0})
apply_event others id none = pure tt
apply_event others id (some action) = attempt (change_execute others id action) >>= acknowledge

-- `Consume`: an error makes the broker deliver the message again.
unfoldable pub consume_payment_status : (Tables → Tables) → ℕ → Int64 → Db (Unit {0})
unfolding payment_status_to_order_action
consume_payment_status others status id =
    apply_event others id (payment_status_to_order_action status)
