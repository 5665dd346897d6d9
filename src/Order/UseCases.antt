-- ===== src/Order/UseCases.antt =====
-- usecase/change_orderStatus.go, usecase/batch_cancel_order.go and
-- usecase/get_order.go. What a use case starts in a goroutine is an action of its own.
use douyin_mall.Base.{
  ℕ, Bool, true, false, Option, none, some, List, [], ◌∷◌, Int64, le64, if◌then◌else◌, Result, ok,
  err, pure, raise, modify, raise_if, io, attempt, ◌>>=◌, ◌>>◌, transaction,
}
use douyin_mall.Order.Domain.{
  OrderAction, pay, ship, complete, cancel, refund, created, canceled, ◌==ˢ◌, Order,
  OrderStatusUpdateEvent, Error, invalid_status_transition, order_status_unchanged,
  invalid_order_id, invalid_order_action, record_not_found, statement_failed, pay_order, ship_order,
  complete_order, cancel_order, refund_order, build_order_status_update_event,
}
use douyin_mall.Order.Store.{Tables, Db}
use douyin_mall.Order.Repository.{find_by_id, find_by_ids, update_status, batch_update_status}
use douyin_mall.Order.Outbox.{
  add, batch_add, mark_sent, batch_mark_sent, event_type_order_status_changed,
}

unfoldable pub apply_order_action : Order → OrderAction → Result Error Order
unfolding pay_order ship_order complete_order cancel_order refund_order
apply_order_action o pay = pay_order o
apply_order_action o ship = ship_order o
apply_order_action o complete = complete_order o
apply_order_action o cancel = cancel_order o
apply_order_action o refund = refund_order o
apply_order_action o OrderAction.unknown = err invalid_status_transition

abbrev pub is_unknown : OrderAction → Bool
is_unknown OrderAction.unknown = true
is_unknown _ = false

-- A row that has left its status meanwhile is an invalid transition.
abbrev lost_race : Result Error (Unit {0}) → Result Error (Unit {0})
lost_race (err record_not_found) = err invalid_status_transition
lost_race r = r

abbrev pub update_or_lose : Order → Order → Db (Unit {0})
update_or_lose from to w =
    let (r, w') = update_status to.id from.status to.status w in (lost_race r, w')

-- The result of a change: nothing changed, or the outbox row and the event that a goroutine sends.
abbrev pub Change : Type 0
Change = Option (ℕ × OrderStatusUpdateEvent)

unfoldable pub commit_change : Order → Order → Db Change
commit_change from to = do
  let event = build_order_status_update_event to
  outbox_id ←
      transaction statement_failed
        do update_or_lose from to; add event_type_order_status_changed event
  pure (some (outbox_id, event))

-- `others` is what other transactions do between the read and the transaction.
abbrev pub change_from : (Tables → Tables) → Order → Result Error Order → Db Change
change_from others from (err order_status_unchanged) = pure none
change_from others from (err e) = raise e
change_from others from (ok to) =
    if from.status ==ˢ to.status then pure none else modify others >> commit_change from to

-- `Execute` of ChangeOrderStatusUseCase up to the goroutine.
unfoldable pub change_execute : (Tables → Tables) → Int64 → OrderAction → Db Change
unfolding apply_order_action commit_change
change_execute others id action = do
  raise_if (le64 id 0) invalid_order_id
  raise_if (is_unknown action) invalid_order_action
  full_order ← find_by_id id
  change_from others full_order (apply_order_action full_order action)

-- The broker accepts the message or fails.
unfoldable pub send_message : OrderStatusUpdateEvent → Db (Unit {0})
send_message e = do
  io statement_failed
  modify (λ (t : Tables). record t { messages = e ∷ t.messages })

abbrev pub log_error : {A : Type 0} → Db A → Db (Unit {0})
log_error m = do attempt m; pure tt

-- The goroutine of a change: send, then mark; errors are logged.
unfoldable pub publish : Change → Db (Unit {0})
unfolding send_message mark_sent
publish none = pure tt
publish (some (id, e)) = log_error (send_message e >> mark_sent id)

abbrev pub is_created : Order → Bool
is_created o = o.status ==ˢ created

abbrev pub cancel_ids : List Order → List Int64
cancel_ids [] = []
cancel_ids (o ∷ os) = let rest = cancel_ids os in if is_created o then o.id ∷ rest else rest

abbrev cancel_event : Order → OrderStatusUpdateEvent
cancel_event o = build_order_status_update_event (record o { status = canceled })

abbrev pub cancel_events : List Order → List OrderStatusUpdateEvent
cancel_events [] = []
cancel_events (o ∷ os) =
    let rest = cancel_events os in if is_created o then cancel_event o ∷ rest else rest

-- What is left to send: the orders, their outbox rows and their events.
abbrev pub Batch : Type 0
Batch = List Int64 × List ℕ × List OrderStatusUpdateEvent

abbrev empty_batch : Batch
empty_batch = ([], [], [])

unfoldable pub cancel_candidates :
    (Tables → Tables) → List Int64 → List OrderStatusUpdateEvent → Db Batch
cancel_candidates others [] events = io statement_failed >> pure empty_batch
cancel_candidates others (id ∷ ids) events = do
  modify others
  transaction statement_failed do
    batch_update_status (id ∷ ids) created canceled
    outbox_ids ← batch_add event_type_order_status_changed events
    pure (id ∷ ids, outbox_ids, events)

-- `Execute` of BatchCancelOrderUseCase up to the goroutine. The SELECT at the start of its
-- transaction takes no lock, so `others` may act between it and the UPDATE.
unfoldable pub batch_cancel_execute : (Tables → Tables) → List Int64 → Db Batch
unfolding cancel_candidates
batch_cancel_execute others [] = pure empty_batch
batch_cancel_execute others (id ∷ ids) = do
  orders ← find_by_ids (id ∷ ids)
  cancel_candidates others (cancel_ids orders) (cancel_events orders)

-- `SendBatch` of pkg/rocketmqx/producer.go: each event is sent, and its failure noted.
abbrev pub failed_send : {A : Type 0} → Result Error A → Bool
failed_send (ok _) = false
failed_send (err _) = true

unfoldable pub send_messages : List OrderStatusUpdateEvent → Db (List Bool)
unfolding send_message
send_messages [] = pure []
send_messages (e ∷ es) = do
  r ← attempt (send_message e)
  rest ← send_messages es
  pure (failed_send r ∷ rest)

abbrev pub successes : List ℕ → List Bool → List ℕ
successes (id ∷ ids) (b ∷ bs) = let rest = successes ids bs in if b then rest else id ∷ rest
successes _ _ = []

-- The goroutine of a batch.
unfoldable pub batch_send_messages : Batch → Db (Unit {0})
unfolding send_messages
batch_send_messages (ids, outbox_ids, events) = do
  errs ← send_messages events
  log_error (batch_mark_sent (successes outbox_ids errs))

-- `Execute` of GetOrderUseCase.
unfoldable pub get_execute : Int64 → Db Order
get_execute id = raise_if (le64 id 0) invalid_order_id >> find_by_id id
