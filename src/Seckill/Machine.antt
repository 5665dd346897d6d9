-- ===== src/Seckill/Machine.antt =====
-- The steps of the tables of the service, as the rows show them: the abstract machine that
-- infra/repository/gorm.go implements.
use douyin_mall.Base.{
  ℕ, String, Bool, true, some, List, [], ◌∷◌, ◌++◌, ◌≡◌, ◌≢◌, ◌≤◌, ◌<◌, ◌+◌, ◌==◌, All, Int64,
  half32, first_where, update_where, delete_where, count_where, try_update, ◌||◌,
}
use douyin_mall.Seckill.{
  ActivityStatus, RequestStatus, processing, order_creating, success, failed, ◌==ʳ◌, ActivityRow,
  RequestRow, QualificationRow, Tables, has_activity_id, has_request_no, has_request_no_and_status,
  is_of_user, is_qualification, set_status, move_row, minus_one, is_on_sale, is_open,
}

-- A request that holds a unit of the stock.
abbrev pub is_live : RequestStatus → Bool
is_live s = s ==ʳ order_creating || s ==ʳ success

-- To whom a request number was given: its activity and its user.
abbrev pub Owner : Type 0
Owner = String → Int64 × Int64

abbrev pub Owned : Owner → RequestRow → Type 0
Owned o m = o m.request_no ≡ (m.activity_id, m.user_id)

abbrev pub holder : RequestRow → QualificationRow
holder m = record { activity_id = m.activity_id; user_id = m.user_id; request_no = m.request_no }

abbrev pub is_held_by : RequestRow → QualificationRow → Bool
is_held_by m = is_qualification m.activity_id m.user_id m.request_no

abbrev pub with_requests : (RequestRow → Bool) → RequestStatus → String → Tables → Tables
with_requests p s reason t = record t { requests = update_where p (set_status s reason) t.requests }

-- The tables after a unit has come back from `m` to its activity.
abbrev pub returned : RequestRow → List ActivityRow → Tables → Tables
returned m rows t = record t {
  activities = rows;
  qualifications = delete_where (is_held_by m) t.qualifications;
}

abbrev pub sold_to : RequestRow → List ActivityRow → Tables → Tables
sold_to m rows t = record t {
  activities = rows;
  qualifications = t.qualifications ++ holder m ∷ [];
}

pub data Step (o : Owner) : Tables → Tables → Type 0 where
  enters :
      {t : Tables} (m : RequestRow) (next : Int64)
      → m.status ≡ processing
      → Owned o m
      → count_where (has_request_no m.request_no) t.requests ≡ 0
      → Step o t (record t { requests = t.requests ++ m ∷ []; next_request_id = next })
  rejects :
      {t : Tables} (n reason : String)
      → Step o t (with_requests (has_request_no_and_status n processing) failed reason t)
  sells :
      {t : Tables} (now : ℕ) (m : RequestRow) (rows : List ActivityRow)
      → first_where (has_request_no m.request_no) t.requests ≡ some m
      → m.status ≡ processing
      → count_where (is_of_user m.activity_id m.user_id) t.qualifications ≡ 0
      → count_where (is_on_sale m.activity_id now) t.activities ≢ 0
      → try_update (is_on_sale m.activity_id now) (move_row minus_one) t.activities ≡ some rows
      → Step o t (
          with_requests
            (has_request_no_and_status m.request_no processing)
            order_creating
            ""
            (sold_to m rows t))
  confirms :
      {t : Tables} (n : String)
      → Step o t (with_requests (has_request_no_and_status n order_creating) success "" t)
  rolls_back :
      {t : Tables} (m : RequestRow) (rows : List ActivityRow) (reason : String)
      → first_where (has_request_no m.request_no) t.requests ≡ some m
      → m.status ≡ order_creating
      → try_update (has_activity_id m.activity_id) (move_row 1) t.activities ≡ some rows
      → Step o t (
          with_requests
            (has_request_no_and_status m.request_no order_creating)
            failed
            reason
            (returned m rows t))
  closes :
      {t : Tables} (m : RequestRow) (rows : List ActivityRow) (reason : String)
      → first_where (has_request_no m.request_no) t.requests ≡ some m
      → is_live m.status ≡ true
      → try_update (has_activity_id m.activity_id) (move_row 1) t.activities ≡ some rows
      → Step o t (with_requests (is_open m.request_no) failed reason (returned m rows t))
  gives_up :
      {t : Tables} (m : RequestRow) (reason : String)
      → first_where (has_request_no m.request_no) t.requests ≡ some m
      → m.status ≡ processing
      → Step o t (with_requests (is_open m.request_no) failed reason t)
  marks :
      {t : Tables} (n reason : String) → Step o t (with_requests (has_request_no n) failed reason t)
  turns :
      {t : Tables} (id : Int64) (s : ActivityStatus)
      → Step o t (record t {
        activities = update_where (has_activity_id id) (λ m. record m { status = s }) t.activities;
      })

-- The units of an activity that are held.
abbrev pub is_of_activity : Int64 → QualificationRow → Bool
is_of_activity a q = q.activity_id == a

abbrev pub Balanced : List QualificationRow → ActivityRow → Type 0
Balanced qs m =
    (m.available_stock + count_where (is_of_activity m.id) qs ≡ m.total_stock)
    × (m.total_stock < half32)

abbrev pub Backed : List QualificationRow → RequestRow → Type 0
Backed qs m = is_live m.status ≡ true → 1 ≤ count_where (is_held_by m) qs

-- What holds of the tables at all times: the keys are unique, each request is its owner's, each
-- request with a unit has a qualification of its own, and of each activity the units in stock and
-- the units held make up the total.
pub record Sound (o : Owner) (t : Tables) : Type 0 where
  pub keys : (a : Int64) → count_where (has_activity_id a) t.activities ≤ 1
  pub numbers : (n : String) → count_where (has_request_no n) t.requests ≤ 1
  pub single : (a u : Int64) → count_where (is_of_user a u) t.qualifications ≤ 1
  pub owned : All (Owned o) t.requests
  pub backed : All (Backed t.qualifications) t.requests
  pub balanced : All (Balanced t.qualifications) t.activities
