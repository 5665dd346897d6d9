-- ===== src/Seckill/Cache.antt =====
-- infra/repository/cache.go, its Lua scripts and infra/local/sold_out_marker.go. A key that has
-- expired is one that is not there; the times of expiry are left out.
use douyin_mall.Base.{
  ℕ, String, Bool, true, false, Option, none, some, List, [], ◌∷◌, ◌++◌, ◌&&◌, ◌==◌, str_eq, Int64,
  Int32, add64, sub64, le64, to_int64, elem, if◌then◌else◌, first_where, delete_where,
}
use douyin_mall.Seckill.Domain.{
  RequestStatus, processing, failed, ◌==ʳ◌, Activity, RequestResult, TransactionResolution, commit,
  rollback,
}

-- The value of `seckill:user:<activity>:<user>` is the number of the request that has reserved.
pub record Marker : Type 0 where
  pub activity_id : Int64
  pub user_id : Int64
  pub request_no : String

pub record Redis : Type 0 where
  pub stocks : Int64 → Option Int64
  pub markers : List Marker
  pub statuses : String → Option RequestStatus
  pub results : String → Option RequestResult
  pub activities : Int64 → Option Activity

abbrev pub set_number : {A : Type 0} → Int64 → A → (Int64 → Option A) → Int64 → Option A
set_number k a f x = if x == k then some a else f x

abbrev pub set_text : {A : Type 0} → String → A → (String → Option A) → String → Option A
set_text k a f x = if str_eq x k then some a else f x

abbrev pub is_marker : Int64 → Int64 → Marker → Bool
is_marker a u m = m.activity_id == a && m.user_id == u

abbrev pub marked_by : String → Option Marker → Bool
marked_by n none = false
marked_by n (some m) = str_eq m.request_no n

abbrev pub is_marked : Option Marker → Bool
is_marked none = false
is_marked (some m) = true

abbrev pub get_marker : Int64 → Int64 → Redis → Option Marker
get_marker a u r = first_where (is_marker a u) r.markers

-- reserve_stock.lua, with the number that it returns.
abbrev pub reserve_from : Int64 → Int64 → String → Option Int64 → Redis → ℕ × Redis
reserve_from a u n none r = (1, r)
reserve_from a u n (some s) r = if le64 s 0 then (1, r) else (
  0,
  record r {
    stocks = set_number a (sub64 s 1) r.stocks;
    markers = r.markers ++ (record { activity_id = a; user_id = u; request_no = n }) ∷ [];
  },
)

unfoldable pub atomic_reserve : Int64 → Int64 → String → Redis → ℕ × Redis
atomic_reserve a u n r =
    if is_marked (get_marker a u r) then (2, r) else reserve_from a u n (r.stocks a) r

-- compensate.lua; INCRBY takes a key that is not there for 0.
abbrev pub units_or_zero : Option Int64 → Int64
units_or_zero none = 0
units_or_zero (some s) = s

abbrev pub give_back_unit : Int64 → Int64 → Redis → Redis
give_back_unit a u r = record r {
  stocks = set_number a (add64 (units_or_zero (r.stocks a)) 1) r.stocks;
  markers = delete_where (is_marker a u) r.markers;
}

abbrev pub put_result : RequestResult → Redis → Redis
put_result x r = record r {
  statuses = set_text x.request_no x.status r.statuses;
  results = set_text x.request_no x r.results;
}

abbrev pub has_status : RequestStatus → Option RequestStatus → Bool
has_status s none = false
has_status s (some t) = t ==ʳ s

unfoldable pub compensate : Int64 → Int64 → RequestResult → Redis → Redis
compensate a u x r =
    if has_status x.status (r.statuses x.request_no)
    then r
    else put_result x
        (if marked_by x.request_no (get_marker a u r) then give_back_unit a u r else r)

-- `SetResult`
unfoldable pub set_result : RequestResult → Redis → Redis
set_result x r = put_result x r

abbrev result_of_status : String → Option RequestStatus → Option RequestResult
result_of_status n none = none
result_of_status n (some s) =
    some (record { request_no = n; status = s; order_id = 0; fail_reason = "" })

abbrev first_of : {A : Type 0} → Option A → Option A → Option A
first_of (some a) b = some a
first_of none b = b

unfoldable pub get_result : String → Redis → Option RequestResult
get_result n r = first_of (r.results n) (result_of_status n (r.statuses n))

-- resolve_transaction.lua
abbrev pub processing_result : String → RequestResult
processing_result n = record { request_no = n; status = processing; order_id = 0; fail_reason = "" }

abbrev pub resolve_from : Int64 → Int64 → String → Option RequestStatus → Redis → ℕ × Redis
resolve_from a u n (some failed) r = (2, r)
resolve_from a u n (some s) r = (1, r)
resolve_from a u n none r =
    if marked_by n (get_marker a u r)
    then (1, put_result (processing_result n) r)
    else (if is_marked (get_marker a u r) then 2 else 1, r)

-- `ResolveTransaction`
abbrev pub resolution_of : ℕ → TransactionResolution
resolution_of code =
    if code == 1 then commit else if code == 2 then rollback else TransactionResolution.unknown

unfoldable pub resolve_transaction : Int64 → Int64 → String → Redis → TransactionResolution × Redis
resolve_transaction a u n r =
    let (code, r') = resolve_from a u n (r.statuses n) r in (resolution_of code, r')

unfoldable pub set_activity : Activity → Redis → Redis
set_activity a r = record r { activities = set_number a.id a r.activities }

unfoldable pub set_activity_stock : Int64 → Int32 → Redis → Redis
set_activity_stock a stock r = record r { stocks = set_number a (to_int64 stock) r.stocks }

-- The marks of this node, as a set of activities.
unfoldable pub is_sold_out : Int64 → List Int64 → Bool
is_sold_out a marks = elem a marks

unfoldable pub mark_sold_out : Int64 → List Int64 → List Int64
mark_sold_out a marks = a ∷ delete_where (λ x. x == a) marks

unfoldable pub clear_sold_out : Int64 → List Int64 → List Int64
clear_sold_out a marks = delete_where (λ x. x == a) marks
