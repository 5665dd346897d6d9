-- ===== src/Seckill/Statements.antt =====
-- What the statements of infra/repository/gorm.go do to the tables where they succeed.
use douyin_mall.Base.{
  ℕ, String, Bool, some, List, [], ◌∷◌, ◌++◌, ◌≡◌, inl, inr, Int64, Int32, first_where, count_where,
  delete_where, try_update, arith, Option-cases, World, ok, err,
}
use douyin_mall.Seckill.{
  RequestStatus, ActivityRow, RequestRow, QualificationRow, Tables, Error, first_request,
  has_request_no, is_of_user, move_row, create_qualification, delete_qualification, update_requests,
  update_stock, is_qualification,
}
use douyin_mall.Seckill.Machine.{with_requests}

pub first_request-ok :
    (n : String) (u v : World Tables) (m : RequestRow)
    → first_request n u ≡ (ok m, v)
    → (first_where (has_request_no n) u.store.requests ≡ some m) × (v.store ≡ u.store)
first_request-ok n u v m h = ground arith

pub update_requests-ok :
    (p : RequestRow → Bool) (s : RequestStatus) (reason : String) (u v : World Tables) (k : ℕ)
    → update_requests p s reason u ≡ (ok k, v)
    → (v.store ≡ with_requests p s reason u.store) × (k ≡ count_where p u.store.requests)
update_requests-ok p s reason u v k h = ground arith

pub update_stock-ok :
    (p : ActivityRow → Bool) (by : Int32) (u v : World Tables) (k : ℕ)
    → update_stock p by u ≡ (ok k, v)
    → (rows : List ActivityRow) × (try_update p (move_row by) u.store.activities ≡ some rows)
      × (v.store ≡ record u.store { activities = rows })
      × (k ≡ count_where p u.store.activities)
update_stock-ok p by u v k h = elim (Option-cases (try_update p (move_row by) u.store.activities)) [
  | inl a ↦ absurd (ground arith)
  | inr (rows, a) ↦ (rows, a, ground arith, ground arith)
]

pub delete_qualification-ok :
    (a b : Int64) (n : String) (u v : World Tables) {r : Unit {0}}
    → delete_qualification a b n u ≡ (ok r, v)
    → v.store ≡ record u.store {
      qualifications = delete_where (is_qualification a b n) u.store.qualifications;
    }
delete_qualification-ok a b n u v h = ground arith

pub create_qualification-ok :
    (q : QualificationRow) (u v : World Tables) {r : Unit {0}}
    → create_qualification q u ≡ (ok r, v)
    → (count_where (is_of_user q.activity_id q.user_id) u.store.qualifications ≡ 0)
      × (v.store ≡ record u.store { qualifications = u.store.qualifications ++ q ∷ [] })
create_qualification-ok q u v h = ground arith

pub create_qualification-err :
    (q : QualificationRow) (u v : World Tables) (x : Error)
    → create_qualification q u ≡ (err x, v)
    → v.store ≡ u.store
create_qualification-err q u v x h = ground arith
