-- ===== src/Payment/Store.antt =====
-- infra/db/payment.go and infra/db/outbox.go, and the mappings of infra/repository/gorm.go.
use douyin_mall.Base.{ℕ, String, Option, none, some, List, Int64, Action, str_eq, if◌then◌else◌}
use douyin_mall.Payment.Domain.{PaymentStatus, init, Payment, PaymentStatusUpdateEvent, Error}

-- The column `txn_id` is NULL until it is known.
pub record PaymentModel : Type 0 where
  pub id : ℕ
  pub status : PaymentStatus
  pub updated_at : ℕ
  pub amt : Int64
  pub currency : String
  pub description : String
  pub biz_trade_no : String
  pub txn_id : Option String

pub data EventStatus : Type 0 where
  unknown_event pending sent failed_event : EventStatus

pub record OutboxEventModel : Type 0 where
  pub id : ℕ
  pub event_type : String
  pub payload : PaymentStatusUpdateEvent
  pub status : EventStatus
  pub retry_count : ℕ

pub record Tables : Type 0 where
  pub payments : List PaymentModel
  pub next_id : ℕ
  pub outbox : List OutboxEventModel
  pub next_outbox_id : ℕ

abbrev pub Db : Type 0 → Type 0
Db A = Action Tables Error A

-- `sql.NullString`: its string is empty where it is NULL.
abbrev pub null_string : Option String → String
null_string none = ""
null_string (some s) = s

unfoldable pub to_domain_payment : PaymentModel → Payment
to_domain_payment m = record {
  id = m.id;
  amt = record { currency = m.currency; total = m.amt };
  biz_trade_no = m.biz_trade_no;
  description = m.description;
  status = m.status;
  txn_id = null_string m.txn_id;
}

-- gorm leaves a zero status out of the INSERT, and the column's default is 1.
abbrev inserted_status : PaymentStatus → PaymentStatus
inserted_status PaymentStatus.unknown = init
inserted_status s = s

unfoldable pub to_db_payment : ℕ → ℕ → Payment → PaymentModel
to_db_payment id now p = record {
  id = id;
  status = inserted_status p.status;
  updated_at = now;
  amt = p.amt.total;
  currency = p.amt.currency;
  description = p.description;
  biz_trade_no = p.biz_trade_no;
  txn_id = if str_eq p.txn_id "" then none else some p.txn_id;
}
