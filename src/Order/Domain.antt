-- ===== src/Order/Domain.antt =====
-- domain/order.go, domain/event.go and domain/errors.go.
use douyin_mall.Base.{
  ℕ, String, Bool, true, false, List, [], map, ◌&&◌, not, str_eq, Int64, if◌then◌else◌, Result, ok,
  err,
}

-- The values of the enumerations in idl/order.proto.
pub data OrderStatus : Type 0 where
  unknown created paid shipped completed canceled refunded : OrderStatus

pub data OrderAction : Type 0 where
  unknown pay ship complete cancel refund : OrderAction

abbrev pub status_code : OrderStatus → ℕ
status_code OrderStatus.unknown = 0
status_code created = 1
status_code paid = 2
status_code shipped = 3
status_code completed = 4
status_code canceled = 5
status_code refunded = 6

pub record OrderItem : Type 0 where
  pub product_id : Int64
  pub sku_id : Int64
  pub quantity : Int64
  pub snapshot_price : Int64
  pub snapshot_currency : String
  pub price : Int64

pub record Address : Type 0 where
  pub street : String
  pub city : String
  pub state : String
  pub country : String
  pub zipcode : String
  pub phone : String

pub record Amount : Type 0 where
  pub currency : String
  pub total : Int64

-- Times are nanoseconds since the epoch; 0 is the zero time.
pub record Order : Type 0 where
  pub id : Int64
  pub user_id : Int64
  pub remark : String
  pub addr : Address
  pub status : OrderStatus
  pub order_kind : String
  pub activity_id : Int64
  pub created_at : ℕ
  pub expire_at : ℕ
  pub total_amount : Amount
  pub payable_amount : Amount
  pub discount_amount : Amount
  pub order_items : List OrderItem

abbrev pub order_kind_direct_buy : String
order_kind_direct_buy = "DIRECT_BUY"

abbrev pub order_kind_cart : String
order_kind_cart = "CART"

abbrev pub order_kind_seckill : String
order_kind_seckill = "SECKILL"

-- `statement_failed` is any error of the driver or of the broker that the code does not tell apart.
pub data Error : Type 0 where
  record_not_found invalid_user empty_order_items seckill_activity_required : Error
  duplicate_order invalid_status_transition order_status_unchanged : Error
  invalid_order_id invalid_order_action statement_failed : Error

infix 50 ◌==ˢ◌
abbrev pub ◌==ˢ◌ : OrderStatus → OrderStatus → Bool
OrderStatus.unknown ==ˢ OrderStatus.unknown = true
created ==ˢ created = true
paid ==ˢ paid = true
shipped ==ˢ shipped = true
completed ==ˢ completed = true
canceled ==ˢ canceled = true
refunded ==ˢ refunded = true
_ ==ˢ _ = false

-- A method that fails leaves the order alone.
abbrev move : OrderStatus → Bool → Order → Result Error Order
move target allowed o =
    if o.status ==ˢ target
    then err order_status_unchanged
    else if not allowed
    then err invalid_status_transition
    else ok (record o { status = target })

unfoldable pub pay_order : Order → Result Error Order
pay_order o = move paid (o.status ==ˢ created) o

unfoldable pub ship_order : Order → Result Error Order
ship_order o = move shipped (o.status ==ˢ paid) o

unfoldable pub complete_order : Order → Result Error Order
complete_order o = move completed (o.status ==ˢ shipped) o

unfoldable pub cancel_order : Order → Result Error Order
cancel_order o = move canceled (o.status ==ˢ created) o

unfoldable pub refund_order : Order → Result Error Order
refund_order o = move refunded (not (not (o.status ==ˢ paid) && not (o.status ==ˢ shipped))) o

pub record OrderStatusUpdateEvent : Type 0 where
  pub order_id : Int64
  pub user_id : Int64
  pub status : OrderStatus
  pub order_kind : String
  pub product_ids : List Int64
  pub sku_ids : List Int64

unfoldable pub build_order_status_update_event : Order → OrderStatusUpdateEvent
build_order_status_update_event o =
    if o.status ==ˢ paid && str_eq o.order_kind order_kind_cart
    then record {
      order_id = o.id;
      user_id = o.user_id;
      status = o.status;
      order_kind = o.order_kind;
      product_ids = map (λ (i : OrderItem). i.product_id) o.order_items;
      sku_ids = map (λ (i : OrderItem). i.sku_id) o.order_items;
    }
    else record {
      order_id = o.id;
      user_id = 0;
      status = o.status;
      order_kind = o.order_kind;
      product_ids = [];
      sku_ids = [];
    }
