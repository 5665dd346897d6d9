-- ===== src/Seckill/Domain.antt =====
-- domain/model.go and domain/errors.go.
use douyin_mall.Base.{ℕ, String, Bool, true, false, Option, str_eq, Int64, Int32, parse_int64}

-- The texts of the constants; `other` is any other text that a column can hold.
pub data ActivityStatus : Type 0 where
  init online offline ended : ActivityStatus
  other : String → ActivityStatus

pub data RequestStatus : Type 0 where
  processing order_creating success failed : RequestStatus
  other : String → RequestStatus

infix 50 ◌==ᵃ◌ ◌==ʳ◌
abbrev pub ◌==ᵃ◌ : ActivityStatus → ActivityStatus → Bool
init ==ᵃ init = true
online ==ᵃ online = true
offline ==ᵃ offline = true
ended ==ᵃ ended = true
ActivityStatus.other s ==ᵃ ActivityStatus.other t = str_eq s t
_ ==ᵃ _ = false

abbrev pub ◌==ʳ◌ : RequestStatus → RequestStatus → Bool
processing ==ʳ processing = true
order_creating ==ʳ order_creating = true
success ==ʳ success = true
failed ==ʳ failed = true
RequestStatus.other s ==ʳ RequestStatus.other t = str_eq s t
_ ==ʳ _ = false

-- `FailReason...`; the empty text is no reason.
abbrev pub out_of_stock_reason : String
out_of_stock_reason = "OUT_OF_STOCK"

abbrev pub create_order_fail_reason : String
create_order_fail_reason = "CREATE_ORDER_FAIL"

abbrev pub duplicate_reason : String
duplicate_reason = "DUPLICATE"

abbrev pub user_already_succeeded_reason : String
user_already_succeeded_reason = "USER_ALREADY_SUCCEEDED"

abbrev pub activity_not_open_reason : String
activity_not_open_reason = "ACTIVITY_NOT_OPEN"

abbrev pub order_canceled_reason : String
order_canceled_reason = "ORDER_CANCELED"

abbrev pub order_refunded_reason : String
order_refunded_reason = "ORDER_REFUNDED"

-- Times are nanoseconds since the epoch. The times of creation and of update, which gorm sets and
-- nothing reads, are left out.
pub record Activity : Type 0 where
  pub id : Int64
  pub activity_name : String
  pub product_id : Int64
  pub sku_id : Int64
  pub seckill_price : Int64
  pub total_stock : Int32
  pub available_stock : Int32
  pub start_time : ℕ
  pub end_time : ℕ
  pub status : ActivityStatus
  pub limit_per_user : Int32
  pub version : Int64

pub record Request : Type 0 where
  pub id : Int64
  pub request_no : String
  pub activity_id : Int64
  pub user_id : Int64
  pub status : RequestStatus
  pub order_id : Int64
  pub fail_reason : String

-- `Result`
pub record RequestResult : Type 0 where
  pub request_no : String
  pub status : RequestStatus
  pub order_id : Int64
  pub fail_reason : String

pub record Event : Type 0 where
  pub request_no : String
  pub activity_id : Int64
  pub user_id : Int64
  pub product_id : Int64
  pub sku_id : Int64
  pub seckill_price : Int64

pub record DeadLetterEvent : Type 0 where
  pub event : Event
  pub reason : String

pub data TransactionResolution : Type 0 where
  unknown commit rollback : TransactionResolution

-- The errors of domain/errors.go, those that the code writes in place, and `call_failed` for any
-- error of the database, of Redis, of the broker or of the order service that it hands on.
pub data Error : Type 0 where
  activity_not_found activity_not_started activity_ended activity_offline : Error
  duplicate_seckill out_of_stock request_not_found : Error
  duplicate_entry wrong_status conditional_update_failed invalid_request_no unknown_status : Error
  rolled_back call_failed : Error

-- `0, false` for a text that is no int64.
unfoldable pub order_id_from_request_no : String → Option Int64
order_id_from_request_no n = parse_int64 n
