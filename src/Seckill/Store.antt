-- ===== src/Seckill/Store.antt =====
-- infra/db: the tables, and the mappings of infra/repository/gorm.go from rows.
use douyin_mall.Base.{
  ℕ, String, Bool, Option, none, some, List, Int64, Int32, ◌&&◌, ◌==◌, str_eq, Action,
  if◌then◌else◌,
}
use douyin_mall.Seckill.Domain.{
  ActivityStatus, RequestStatus, Activity, Request, Error, success, ◌==ʳ◌, order_id_from_request_no,
}

pub record ActivityRow : Type 0 where
  pub id : Int64
  pub activity_name : String
  pub product_id : Int64
  pub sku_id : Int64
  pub seckill_price : Int64
  pub total_stock : Int32
  pub available_stock : Int32
  pub start_time : ℕ
  pub end_time : ℕ
  pub status : ActivityStatus
  pub limit_per_user : Int32
  pub version : Int64

pub record RequestRow : Type 0 where
  pub id : Int64
  pub request_no : String
  pub activity_id : Int64
  pub user_id : Int64
  pub status : RequestStatus
  pub fail_reason : String

-- One user holds one order of an activity; the key of the row is left out.
pub record QualificationRow : Type 0 where
  pub activity_id : Int64
  pub user_id : Int64
  pub request_no : String

-- The next keys are those that the database will give.
pub record Tables : Type 0 where
  pub activities : List ActivityRow
  pub requests : List RequestRow
  pub qualifications : List QualificationRow
  pub next_activity_id : Int64
  pub next_request_id : Int64

abbrev pub Db : Type 0 → Type 0
Db A = Action Tables Error A

unfoldable pub to_domain_activity : ActivityRow → Activity
to_domain_activity m = record {
  id = m.id;
  activity_name = m.activity_name;
  product_id = m.product_id;
  sku_id = m.sku_id;
  seckill_price = m.seckill_price;
  total_stock = m.total_stock;
  available_stock = m.available_stock;
  start_time = m.start_time;
  end_time = m.end_time;
  status = m.status;
  limit_per_user = m.limit_per_user;
  version = m.version;
}

abbrev or_zero : Option Int64 → Int64
or_zero none = 0
or_zero (some n) = n

unfoldable pub to_domain_request : RequestRow → Request
unfolding order_id_from_request_no
to_domain_request m = record {
  id = m.id;
  request_no = m.request_no;
  activity_id = m.activity_id;
  user_id = m.user_id;
  status = m.status;
  order_id = if m.status ==ʳ success then or_zero (order_id_from_request_no m.request_no) else 0;
  fail_reason = m.fail_reason;
}

-- The conditions of the statements.
abbrev pub has_activity_id : Int64 → ActivityRow → Bool
has_activity_id id m = m.id == id

abbrev pub has_request_no : String → RequestRow → Bool
has_request_no n m = str_eq m.request_no n

abbrev pub has_request_no_and_status : String → RequestStatus → RequestRow → Bool
has_request_no_and_status n s m = str_eq m.request_no n && m.status ==ʳ s

-- The unique index of the qualifications, and the condition of their DELETE.
abbrev pub is_of_user : Int64 → Int64 → QualificationRow → Bool
is_of_user a u q = q.activity_id == a && q.user_id == u

abbrev pub is_qualification : Int64 → Int64 → String → QualificationRow → Bool
is_qualification a u n q = q.activity_id == a && (q.user_id == u && str_eq q.request_no n)
