-- ===== src/Payment/Repository.antt =====
-- infra/repository/gorm.go and `Add` of infra/repository/outbox.go.
use douyin_mall.Base.{
  ℕ, suc, String, Bool, false, not, ◌&&◌, ◌||◌, Option, none, some, [], ◌∷◌, ◌++◌, ◌==◌, leb,
  str_eq, if◌then◌else◌, pure, raise, gets, modify, raise_if, io, ◌>>=◌, ◌>>◌, first_where,
  update_where, count_where,
}
use douyin_mall.Payment.Domain.{
  PaymentStatus, ◌==ˢ◌, Payment, PaymentTransition, apply_provider_result, PaymentStatusUpdateEvent,
  Error, payment_not_found, payment_already_exists, payment_status_race, statement_failed,
}
use douyin_mall.Payment.Store.{
  PaymentModel, pending, OutboxEventModel, Tables, Db, to_domain_payment, to_db_payment,
  null_string,
}

abbrev pub has_trade_no : String → PaymentModel → Bool
has_trade_no trade_no m = str_eq m.biz_trade_no trade_no

-- The unique index on `txn_id` has no NULL in it.
abbrev pub has_txn_id : String → PaymentModel → Bool
has_txn_id txn m = not (str_eq (null_string m.txn_id) "") && str_eq (null_string m.txn_id) txn

abbrev pub of_option : {A : Type 0} → Option A → Error → Db A
of_option none e = raise e
of_option (some a) e = pure a

unfoldable pub add_payment : ℕ → Payment → Db (Unit {0})
unfolding to_db_payment
add_payment now p = do
  io statement_failed
  t ← gets (λ (t : Tables). t)
  raise_if
      (leb 1 (count_where (has_trade_no p.biz_trade_no) t.payments)
        || leb 1 (count_where (has_txn_id p.txn_id) t.payments))
      payment_already_exists
  modify (λ (t : Tables). record t {
    payments = t.payments ++ to_db_payment t.next_id now p ∷ [];
    next_id = suc t.next_id;
  })

unfoldable pub get_payment : String → Db Payment
unfolding to_domain_payment
get_payment trade_no = do
  io statement_failed
  row ← gets (λ (t : Tables). first_where (has_trade_no trade_no) t.payments)
  m ← of_option row payment_not_found
  pure (to_domain_payment m)

abbrev pub is_current : String → PaymentStatus → PaymentModel → Bool
is_current trade_no s m = str_eq m.biz_trade_no trade_no && m.status ==ˢ s

-- The columns that a transition writes.
abbrev pub sets_txn_id : Payment → Payment → Bool
sets_txn_id old new = not (str_eq new.txn_id "") && not (str_eq new.txn_id old.txn_id)

abbrev pub write : ℕ → Payment → Payment → PaymentModel → PaymentModel
write now old new m = record m {
  status = new.status;
  updated_at = now;
  txn_id = if sets_txn_id old new then some new.txn_id else m.txn_id;
}

-- The UPDATE, which the unique index on `txn_id` can refuse.
abbrev pub store_transition : ℕ → String → Payment → PaymentTransition → Db (Payment × Bool)
store_transition now trade_no old tr = do
  io statement_failed
  rows ← gets (λ (t : Tables). t.payments)
  raise_if (sets_txn_id old tr.payment && leb 1 (count_where (has_txn_id tr.payment.txn_id) rows))
      statement_failed
  raise_if (count_where (is_current trade_no old.status) rows == 0) payment_status_race
  modify (λ (t : Tables). record t {
    payments = update_where (is_current trade_no old.status) (write now old tr.payment) t.payments;
  })
  pure (tr.payment, tr.status_changed)

abbrev pub persist : ℕ → Payment → Payment → Db (Payment × Bool)
persist now old incoming =
    let tr = apply_provider_result old incoming in
    if tr.should_persist
    then store_transition now incoming.biz_trade_no old tr
    else pure (old, false)

-- `ApplyProviderResult` at the time `now`; inside a transaction the SELECT locks the row.
unfoldable pub apply_result : ℕ → Payment → Db (Payment × Bool)
unfolding apply_provider_result to_domain_payment
apply_result now incoming = do
  io statement_failed
  row ← gets (λ (t : Tables). first_where (has_trade_no incoming.biz_trade_no) t.payments)
  m ← of_option row payment_not_found
  persist now (to_domain_payment m) incoming

abbrev pub event_type_payment_status_changed : String
event_type_payment_status_changed = "payment.status.changed"

abbrev pub pending_row : ℕ → String → PaymentStatusUpdateEvent → OutboxEventModel
pending_row id kind e = record {
  id = id;
  event_type = kind;
  payload = e;
  status = pending;
  retry_count = 0;
}

unfoldable pub add : String → PaymentStatusUpdateEvent → Db ℕ
add kind e = do
  io statement_failed
  t ← gets (λ (t : Tables). t)
  modify (λ (t : Tables). record t {
    outbox = t.outbox ++ pending_row t.next_outbox_id kind e ∷ [];
    next_outbox_id = suc t.next_outbox_id;
  })
  pure t.next_outbox_id
