-- ===== src/Seckill/Repository.antt =====
-- infra/repository/gorm.go over the tables. Each transaction locks the row of its request, so that
-- it is one step.
use douyin_mall.Base.{
  ℕ, String, Bool, Option, none, some, List, [], ◌∷◌, ◌++◌, ◌&&◌, ◌==◌, leb, Int64, Int32, le32,
  sql_add, sql_add32, suc, pure, raise, gets, modify, raise_if, io, ◌>>=◌, ◌>>◌, first_where,
  update_where, delete_where, count_where, try_update,
}
use douyin_mall.Seckill.Domain.{
  ActivityStatus, online, RequestStatus, ◌==ᵃ◌, Activity, Request, Event, Error, activity_not_found,
  request_not_found, duplicate_seckill, duplicate_entry, call_failed,
}
use douyin_mall.Seckill.Store.{
  ActivityRow, RequestRow, QualificationRow, Tables, Db, to_domain_activity, to_domain_request,
  has_activity_id, has_request_no, is_of_user, is_qualification,
}

abbrev pub of_option : {A : Type 0} → Option A → Error → Db A
of_option none e = raise e
of_option (some a) e = pure a

abbrev set_activities : List ActivityRow → Db (Unit {0})
set_activities rows = modify λ t. record t { activities = rows }

abbrev set_requests : List RequestRow → Db (Unit {0})
set_requests rows = modify λ t. record t { requests = rows }

abbrev set_qualifications : List QualificationRow → Db (Unit {0})
set_qualifications rows = modify λ t. record t { qualifications = rows }

abbrev activity_row : Int64 → Activity → ActivityRow
activity_row id a = record {
  id = id;
  activity_name = a.activity_name;
  product_id = a.product_id;
  sku_id = a.sku_id;
  seckill_price = a.seckill_price;
  total_stock = a.total_stock;
  available_stock = a.available_stock;
  start_time = a.start_time;
  end_time = a.end_time;
  status = a.status;
  limit_per_user = a.limit_per_user;
  version = a.version;
}

-- The activity with the key of its new row.
unfoldable pub create_activity : Activity → Db Activity
create_activity a = do
  io call_failed
  id ← gets (λ (t : Tables). t.next_activity_id)
  modify λ (t : Tables). record t {
    activities = t.activities ++ activity_row id a ∷ [];
    next_activity_id = suc id;
  }
  pure (record a { id = id })

unfoldable pub find_activity : Int64 → Db Activity
unfolding to_domain_activity
find_activity id = do
  io call_failed
  row ← gets (λ (t : Tables). first_where (has_activity_id id) t.activities)
  m ← of_option row activity_not_found
  pure (to_domain_activity m)

unfoldable pub update_activity_status : Int64 → ActivityStatus → Db (Unit {0})
update_activity_status id s = do
  io call_failed
  rows ← gets (λ (t : Tables). t.activities)
  set_activities (update_where (has_activity_id id) (λ m. record m { status = s }) rows)
  raise_if (count_where (has_activity_id id) rows == 0) activity_not_found

abbrev pub request_row : Int64 → Request → RequestRow
request_row id r = record {
  id = id;
  request_no = r.request_no;
  activity_id = r.activity_id;
  user_id = r.user_id;
  status = r.status;
  fail_reason = r.fail_reason;
}

-- `Create` of a request: the unique index refuses a second row of the same number.
unfoldable pub create_request : Request → Db Request
create_request r = do
  io call_failed
  rows ← gets (λ (t : Tables). t.requests)
  raise_if (leb 1 (count_where (has_request_no r.request_no) rows)) duplicate_seckill
  id ← gets (λ (t : Tables). t.next_request_id)
  modify λ (t : Tables). record t {
    requests = t.requests ++ request_row id r ∷ [];
    next_request_id = suc id;
  }
  pure (record r { id = id })

-- The locking read of the transactions is the same statement.
abbrev pub first_request : String → Db RequestRow
first_request n = do
  io call_failed
  row ← gets (λ (t : Tables). first_where (has_request_no n) t.requests)
  of_option row request_not_found

unfoldable pub find_by_request_no : String → Db Request
unfolding to_domain_request
find_by_request_no n = do m ← first_request n; pure (to_domain_request m)

-- `UPDATE seckill_request SET status, fail_reason WHERE p`, and `RowsAffected`.
abbrev pub set_status : RequestStatus → String → RequestRow → RequestRow
set_status s reason m = record m { status = s; fail_reason = reason }

abbrev pub update_requests : (RequestRow → Bool) → RequestStatus → String → Db ℕ
update_requests p s reason = do
  io call_failed
  rows ← gets (λ (t : Tables). t.requests)
  set_requests (update_where p (set_status s reason) rows)
  pure (count_where p rows)

-- `available_stock + by, version + 1`, refused where a column would overflow.
unfoldable pub move_row : Int32 → ActivityRow → Option ActivityRow
move_row by m = elim (sql_add32 m.available_stock by) [
  | none ↦ none
  | some s ↦ elim (sql_add m.version 1) [
    | none ↦ none
    | some v ↦ some (record m { available_stock = s; version = v })
  ]
]

abbrev pub update_stock : (ActivityRow → Bool) → Int32 → Db ℕ
update_stock p by = do
  io call_failed
  rows ← gets (λ (t : Tables). t.activities)
  rows' ← of_option (try_update p (move_row by) rows) call_failed
  set_activities rows'
  pure (count_where p rows)

abbrev pub minus_one : Int32
minus_one = 4_294_967_295

abbrev pub is_on_sale : Int64 → ℕ → ActivityRow → Bool
is_on_sale a now m =
    m.id == a
    && le32 1 m.available_stock
    && m.status ==ᵃ online
    && leb m.start_time now
    && leb now m.end_time

abbrev pub create_qualification : QualificationRow → Db (Unit {0})
create_qualification q = do
  io call_failed
  rows ← gets (λ (t : Tables). t.qualifications)
  raise_if (leb 1 (count_where (is_of_user q.activity_id q.user_id) rows)) duplicate_entry
  set_qualifications (rows ++ q ∷ [])

abbrev pub delete_qualification : Int64 → Int64 → String → Db (Unit {0})
delete_qualification a u n = do
  io call_failed
  rows ← gets (λ (t : Tables). t.qualifications)
  set_qualifications (delete_where (is_qualification a u n) rows)

abbrev pub qualification_of : Event → QualificationRow
qualification_of e = record {
  activity_id = e.activity_id;
  user_id = e.user_id;
  request_no = e.request_no;
}
