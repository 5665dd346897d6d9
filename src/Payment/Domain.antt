-- ===== src/Payment/Domain.antt =====
-- domain/payment.go, domain/event.go and domain/errors.go.
use douyin_mall.Base.{ℕ, String, Bool, true, false, ◌&&◌, ◌||◌, not, str_eq, Int64, if◌then◌else◌}

pub data PaymentStatus : Type 0 where
  unknown init success failed refund : PaymentStatus

infix 50 ◌==ˢ◌
abbrev pub ◌==ˢ◌ : PaymentStatus → PaymentStatus → Bool
unknown ==ˢ unknown = true
init ==ˢ init = true
success ==ˢ success = true
failed ==ˢ failed = true
refund ==ˢ refund = true
_ ==ˢ _ = false

pub record Amount : Type 0 where
  pub currency : String
  pub total : Int64

pub record Payment : Type 0 where
  pub id : ℕ
  pub amt : Amount
  pub biz_trade_no : String
  pub description : String
  pub status : PaymentStatus
  pub txn_id : String

pub record PaymentTransition : Type 0 where
  pub payment : Payment
  pub status_changed : Bool
  pub should_persist : Bool

unfoldable pub next_payment_status : PaymentStatus → PaymentStatus → PaymentStatus × Bool
next_payment_status success incoming =
    if incoming ==ˢ refund then (refund, true) else (success, false)
next_payment_status refund incoming = (refund, false)
next_payment_status failed incoming =
    if incoming ==ˢ success then (success, true) else (failed, false)
next_payment_status unknown incoming = (incoming, true)
next_payment_status init incoming = (incoming, true)

-- The transaction id of the provider fills an empty one.
abbrev pub fill_txn_id : String → String → String
fill_txn_id own incoming = if not (str_eq incoming "") && str_eq own "" then incoming else own

unfoldable pub apply_provider_result : Payment → Payment → PaymentTransition
unfolding next_payment_status
apply_provider_result p incoming =
    let txn = fill_txn_id p.txn_id incoming.txn_id in
    let (status, changed) = next_payment_status p.status incoming.status in
    if incoming.status ==ˢ unknown || incoming.status ==ˢ init
    then record {
      payment = record p { txn_id = txn };
      status_changed = false;
      should_persist = not (str_eq txn p.txn_id);
    }
    else record {
      payment = record p { txn_id = txn; status = status };
      status_changed = changed;
      should_persist = changed || not (str_eq txn p.txn_id);
    }

pub record PaymentStatusUpdateEvent : Type 0 where
  pub biz_trade_no : String
  pub order_id : Int64
  pub status : PaymentStatus
  pub txn_id : String

-- `unknown_trade_state` and `invalid_number` are the errors that the callback makes on the spot, and
-- `statement_failed` is any other error of the driver or of the provider.
pub data Error : Type 0 where
  payment_not_found payment_already_exists payment_already_paid payment_amount_changed : Error
  payment_status_race payment_txn_id_required unknown_trade_state invalid_number : Error
  biz_trade_no_required statement_failed : Error
