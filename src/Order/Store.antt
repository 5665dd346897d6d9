-- ===== src/Order/Store.antt =====
-- infra/db/order.go and infra/db/outbox.go: the tables, and the mappings of
-- infra/repository/order.go between rows and orders.
use douyin_mall.Base.{ℕ, String, List, map, Int64, Action}
use douyin_mall.Order.Domain.{OrderStatus, OrderItem, Order, Error, OrderStatusUpdateEvent}

-- The columns of `order_items` but for the key and the foreign key, which gorm fills in.
pub record OrderItemModel : Type 0 where
  pub product_id : Int64
  pub sku_id : Int64
  pub quantity : Int64
  pub snapshot_price : Int64
  pub snapshot_currency : String
  pub price : Int64

pub record OrderModel : Type 0 where
  pub id : Int64
  pub remark : String
  pub status : OrderStatus
  pub order_kind : String
  pub activity_id : Int64
  pub currency : String
  pub total : Int64
  pub payable_total : Int64
  pub discount_total : Int64
  pub user_id : Int64
  pub phone : String
  pub street : String
  pub city : String
  pub state : String
  pub country : String
  pub zip_code : String
  pub created_at : ℕ
  pub expired_at : ℕ
  pub items : List OrderItemModel

pub data EventStatus : Type 0 where
  unknow pending sent failed : EventStatus

-- The payload is the event itself: what `json.Marshal` writes, `json.Unmarshal` reads back.
pub record OutboxEventModel : Type 0 where
  pub id : ℕ
  pub event_type : String
  pub payload : OrderStatusUpdateEvent
  pub status : EventStatus
  pub retry_count : ℕ

-- The database of the service, and the messages that the broker has accepted.
pub record Tables : Type 0 where
  pub orders : List OrderModel
  pub outbox : List OutboxEventModel
  pub next_outbox_id : ℕ
  pub messages : List OrderStatusUpdateEvent

abbrev pub Db : Type 0 → Type 0
Db A = Action Tables Error A

abbrev pub to_item_model : OrderItem → OrderItemModel
to_item_model i = record {
  product_id = i.product_id;
  sku_id = i.sku_id;
  quantity = i.quantity;
  snapshot_price = i.snapshot_price;
  snapshot_currency = i.snapshot_currency;
  price = i.price;
}

abbrev pub to_domain_item : OrderItemModel → OrderItem
to_domain_item i = record {
  product_id = i.product_id;
  sku_id = i.sku_id;
  quantity = i.quantity;
  snapshot_price = i.snapshot_price;
  snapshot_currency = i.snapshot_currency;
  price = i.price;
}

-- `created_at` is left to gorm, which sets it on the INSERT.
unfoldable pub to_order_model : Order → OrderModel
to_order_model o = record {
  id = o.id;
  remark = o.remark;
  status = o.status;
  order_kind = o.order_kind;
  activity_id = o.activity_id;
  currency = o.payable_amount.currency;
  total = o.total_amount.total;
  payable_total = o.payable_amount.total;
  discount_total = o.discount_amount.total;
  user_id = o.user_id;
  phone = o.addr.phone;
  street = o.addr.street;
  city = o.addr.city;
  state = o.addr.state;
  country = o.addr.country;
  zip_code = o.addr.zipcode;
  created_at = 0;
  expired_at = o.expire_at;
  items = map to_item_model o.order_items;
}

unfoldable pub to_domain_order : OrderModel → Order
to_domain_order m = record {
  id = m.id;
  user_id = m.user_id;
  remark = m.remark;
  addr = record {
    street = m.street;
    city = m.city;
    state = m.state;
    country = m.country;
    zipcode = m.zip_code;
    phone = m.phone;
  };
  status = m.status;
  order_kind = m.order_kind;
  activity_id = m.activity_id;
  created_at = m.created_at;
  expire_at = m.expired_at;
  total_amount = record { currency = m.currency; total = m.total };
  payable_amount = record { currency = m.currency; total = m.payable_total };
  discount_amount = record { currency = m.currency; total = m.discount_total };
  order_items = map to_domain_item m.items;
}
