-- ===== src/Payment/UseCases.antt =====
-- usecase/wechat_callback_uc.go, usecase/payment_record.go, usecase/native_prepay_uc.go,
-- usecase/sync_wechat_order_uc.go and usecase/confirm_payment_uc.go.
use douyin_mall.Base.{
  ℕ, String, Bool, not, ◌&&◌, ◌||◌, ◌==◌, Option, none, some, str_eq, Int64, if◌then◌else◌, Result,
  ok, err, pure, raise, raise_if, io, attempt, ◌>>=◌, ◌>>◌, transaction, trim_space, parse_int64,
}
use douyin_mall.Payment.Domain.{
  PaymentStatus, init, success, failed, refund, ◌==ˢ◌, Amount, Payment, PaymentStatusUpdateEvent,
  Error, payment_already_exists, payment_already_paid, payment_amount_changed,
  payment_txn_id_required, unknown_trade_state, invalid_number, biz_trade_no_required,
  statement_failed,
}
use douyin_mall.Payment.Store.{Db}
use douyin_mall.Payment.Repository.{
  add_payment, get_payment, apply_result, add, event_type_payment_status_changed,
}

pub record CallbackCmd : Type 0 where
  pub trade_state : String
  pub transaction_id : String
  pub out_trade_no : String

-- `nativeCBTypeToStatus`
unfoldable pub native_cb_type_to_status : String → Option PaymentStatus
native_cb_type_to_status s =
    if str_eq s "SUCCESS" || str_eq s "TRADE_SUCCESS" || str_eq s "TRADE_FINISHED"
    then some success
    else if str_eq s "PAYERROR"
        || str_eq s "CLOSED"
        || str_eq s "REVOKED"
        || str_eq s "TRADE_CLOSED"
    then some failed
    else if str_eq s "NOTPAY" || str_eq s "USERPAYING" || str_eq s "WAIT_BUYER_PAY"
    then some init
    else if str_eq s "REFUND"
    then some refund
    else none

unfoldable pub trim_cmd : CallbackCmd → CallbackCmd
trim_cmd cmd = record {
  trade_state = trim_space cmd.trade_state;
  transaction_id = trim_space cmd.transaction_id;
  out_trade_no = trim_space cmd.out_trade_no;
}

abbrev pub incoming : CallbackCmd → PaymentStatus → Payment
incoming cmd status = record {
  id = 0;
  amt = record { currency = ""; total = 0 };
  biz_trade_no = cmd.out_trade_no;
  description = "";
  status = status;
  txn_id = cmd.transaction_id;
}

abbrev pub event_of : Int64 → Payment → PaymentStatusUpdateEvent
event_of order_id p = record {
  biz_trade_no = p.biz_trade_no;
  order_id = order_id;
  status = p.status;
  txn_id = p.txn_id;
}

abbrev pub announce : Int64 → Payment × Bool → Db (Unit {0})
announce order_id (p, changed) =
    if changed
    then add event_type_payment_status_changed (event_of order_id p) >> pure tt
    else pure tt

-- The body of the transaction: the state and the event go together.
abbrev pub settle : ℕ → Int64 → Payment → Db (Unit {0})
settle now order_id p = apply_result now p >>= announce order_id

abbrev pub with_order : ℕ → CallbackCmd → PaymentStatus → Option Int64 → Db (Unit {0})
with_order now cmd status none = raise invalid_number
with_order now cmd status (some order_id) =
    transaction statement_failed (settle now order_id (incoming cmd status))

abbrev pub with_status : ℕ → CallbackCmd → Option PaymentStatus → Db (Unit {0})
with_status now cmd none = raise unknown_trade_state
with_status now cmd (some status) = do
  raise_if (status ==ˢ success && str_eq cmd.transaction_id "") payment_txn_id_required
  with_order now cmd status (parse_int64 cmd.out_trade_no)

-- `UpdatePaymentByTxn` at the time `now`.
unfoldable pub update_payment_by_txn : ℕ → CallbackCmd → Db (Unit {0})
unfolding trim_cmd
update_payment_by_txn now cmd =
    let cmd' = trim_cmd cmd in with_status now cmd' (native_cb_type_to_status cmd'.trade_state)

abbrev pub existing_record : Payment → Payment → Db (Unit {0})
existing_record existing p = do
  raise_if (existing.status ==ˢ success) payment_already_paid
  raise_if
      (not (existing.amt.total == p.amt.total) || not (str_eq existing.amt.currency p.amt.currency))
      payment_amount_changed

abbrev pub after_add : Payment → Result Error (Unit {0}) → Db (Unit {0})
after_add p (ok _) = pure tt
after_add p (err payment_already_exists) =
    get_payment p.biz_trade_no >>= λ existing. existing_record existing p
after_add p (err e) = raise e

unfoldable pub ensure_payment_record : ℕ → Payment → Db (Unit {0})
ensure_payment_record now p = attempt (add_payment now p) >>= after_add p

pub record PrePaymentCmd : Type 0 where
  pub amt : Amount
  pub biz_trade_no : String
  pub description : String

-- `Execute` of NativePrePaymentUC: `url` is what the provider answers.
unfoldable pub native_prepay : ℕ → String → PrePaymentCmd → Db String
unfolding ensure_payment_record
native_prepay now url cmd = do
  ensure_payment_record now (record {
    id = 0;
    amt = cmd.amt;
    biz_trade_no = cmd.biz_trade_no;
    description = cmd.description;
    status = PaymentStatus.unknown;
    txn_id = "";
  })
  io statement_failed
  pure url

-- `SyncOrderInfo`: `order` is what the provider answers to the query.
unfoldable pub sync_order_info : ℕ → CallbackCmd → Db (Unit {0})
sync_order_info now order = do io statement_failed; update_payment_by_txn now order

abbrev confirm_from : ℕ → CallbackCmd → String → Payment → Db Payment
confirm_from now order trade_no p =
    if p.status ==ˢ init then sync_order_info now order >> get_payment trade_no else pure p

-- `Execute` of ConfirmPaymentUC, with the answer of the provider.
unfoldable pub confirm_payment : ℕ → CallbackCmd → String → Db Payment
unfolding sync_order_info
confirm_payment now order trade_no = get_payment trade_no >>= confirm_from now order trade_no

unfoldable pub get_payment_execute : String → Db Payment
get_payment_execute trade_no =
    raise_if (str_eq trade_no "") biz_trade_no_required >> get_payment trade_no
