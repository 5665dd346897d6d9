-- ===== src/Seckill/Rows.antt =====
-- The row of a request after an operation of infra/repository/gorm.go that has returned the request.
use douyin_mall.Base.{
  String, true, some, [], ◌∷◌, ◌++◌, ◌≡◌, refl, sym, ap, subst, ◌∙◌, first_where, arith, World, ok,
  pure, ◌>>=◌, ◌>>◌, >>=-ok, transaction, transaction-ok, first_where-update_where,
  first_where-holds, first_where-append, count_where,
}
use douyin_mall.Seckill.{
  RequestStatus, processing, order_creating, success, failed, ◌==ʳ◌, RequestRow, Tables, Event,
  Error, Request, Db, call_failed, has_request_no, has_request_no_and_status, set_status,
  request_row, first_request, find_by_request_no, create_request, complete_from,
  complete_order_creating, rollback_from, give_up, go_on, rollback_order_creating, update_stock,
  has_activity_id, delete_qualification, to_domain_request,
}
use douyin_mall.Seckill.Machine.{with_requests}
use douyin_mall.Seckill.Soundness.{str_eq_refl}
use douyin_mall.Seckill.Statements.{first_request-ok, update_stock-ok, delete_qualification-ok}
use douyin_mall.Seckill.Advance.{give_up-ok, go_on-ok}

-- The row of the number `n` has the status `s`.
abbrev pub Row : String → RequestStatus → Tables → Type 0
Row n s t = (m : RequestRow) × (first_where (has_request_no n) t.requests ≡ some m) × (m.status ≡ s)

-- An UPDATE of the row that was read, from the status that it had.
update-Row :
    (n : String) (from to : RequestStatus) (reason : String) (t : Tables) (m : RequestRow)
    → first_where (has_request_no n) t.requests ≡ some m
    → (m.status ==ʳ from) ≡ true
    → Row n to (with_requests (has_request_no_and_status n from) to reason t)
update-Row n from to reason t m found status =
    let after =
      first_where-update_where (has_request_no n) (has_request_no_and_status n from)
        (set_status to reason) t.requests m (λ r. refl) found in
    let number = first_where-holds (has_request_no n) t.requests m found in
    (set_status to reason m, after ∙ rw (number, status) refl, refl)

module _ (e : Event) (m : RequestRow) (u v : World Tables) (r : Request)
    (found : first_where (has_request_no e.request_no) u.store.requests ≡ some m) where
  pub give_up-Row :
      (reason : String)
      → m.status ≡ processing
      → give_up e m reason u ≡ (ok r, v)
      → Row e.request_no r.status v.store
  unfolding to_domain_request
  give_up-Row reason status h =
      let end = give_up-ok e m reason u v r h in
      let made : failed ≡ r.status = ground arith in
      subst (λ s. Row e.request_no s v.store) made
        (subst (Row e.request_no failed) (sym end)
          (update-Row e.request_no processing failed reason u.store m found (rw status refl)))

  pub go_on-Row :
      (from to : RequestStatus) (reason : String)
      → (m.status ==ʳ from) ≡ true
      → go_on e.request_no m from to reason u ≡ (ok r, v)
      → Row e.request_no to v.store × (r.status ≡ to)
  unfolding to_domain_request
  go_on-Row from to reason status h =
      let end = go_on-ok e.request_no m from to reason u v r h in
      (
        subst (Row e.request_no to) (sym end)
            (update-Row e.request_no from to reason u.store m found status),
        ground arith,
      )

-- A statement on another table leaves the request where it was found.
pub found_after :
    (n : String) (t u : Tables) (m : RequestRow)
    → u.requests ≡ t.requests
    → first_where (has_request_no n) t.requests ≡ some m
    → first_where (has_request_no n) u.requests ≡ some m
found_after n t u m same found = ap (first_where (has_request_no n)) same ∙ found

-- A request that is returned as it was read.
pub unmoved-Row :
    (n : String) (m : RequestRow) (u v : World Tables) (r : Request)
    → first_where (has_request_no n) u.store.requests ≡ some m
    → pure {S = Tables} {E = Error} (to_domain_request m) u ≡ (ok r, v)
    → Row n r.status v.store
unfolding to_domain_request
unmoved-Row n m u v r found h =
    let end : u.store ≡ v.store = ground arith in
    let made : m.status ≡ r.status = ground arith in subst (Row n r.status) end (m, found, made)

complete_from-Row :
    (e : Event) (m : RequestRow) (u v : World Tables) (r : Request) (s : RequestStatus)
    → m.status ≡ s
    → first_where (has_request_no e.request_no) u.store.requests ≡ some m
    → complete_from e m s u ≡ (ok r, v)
    → Row e.request_no success v.store
complete_from-Row e m u v r order_creating status found h =
    (go_on-Row e m u v r found order_creating success "" (rw status refl) h).0
complete_from-Row e m u v r success status found h =
    let end : u.store ≡ v.store = ground arith in
    subst (Row e.request_no success) end (m, found, status)
complete_from-Row e m u v r processing status found h = absurd (ground arith)
complete_from-Row e m u v r failed status found h = absurd (ground arith)
complete_from-Row e m u v r (RequestStatus.other x) status found h = absurd (ground arith)

rollback_from-Row :
    (e : Event) (reason : String) (m : RequestRow) (u v : World Tables) (r : Request)
    (s : RequestStatus)
    → m.status ≡ s
    → first_where (has_request_no e.request_no) u.store.requests ≡ some m
    → rollback_from e reason m s u ≡ (ok r, v)
    → Row e.request_no failed v.store
rollback_from-Row e reason m u v r order_creating status found h =
    let (k, u1, ran, rest) =
      >>=-ok (update_stock (has_activity_id e.activity_id) 1)
        (λ _.
          delete_qualification e.activity_id e.user_id e.request_no
          >> go_on e.request_no m order_creating failed reason)
        u v r h in
    let (x, u2, deleted, last) =
      >>=-ok (delete_qualification e.activity_id e.user_id e.request_no)
        (λ _. go_on e.request_no m order_creating failed reason) u1 v r rest in
    let (rows, _, end, _) = update_stock-ok (has_activity_id e.activity_id) 1 u u1 k ran in
    let gone = delete_qualification-ok e.activity_id e.user_id e.request_no u1 u2 deleted in
    let same = ap (λ (t : Tables). t.requests) gone ∙ ap (λ (t : Tables). t.requests) end in
    (go_on-Row e m u2 v r (found_after e.request_no u.store u2.store m same found) order_creating
      failed reason (rw status refl) last).0
rollback_from-Row e reason m u v r failed status found h =
    let end : u.store ≡ v.store = ground arith in
    subst (Row e.request_no failed) end (m, found, status)
rollback_from-Row e reason m u v r processing status found h = absurd (ground arith)
rollback_from-Row e reason m u v r success status found h = absurd (ground arith)
rollback_from-Row e reason m u v r (RequestStatus.other x) status found h = absurd (ground arith)

-- A transaction that reads the row and goes on from there.
pub read-Row :
    (n : String) (f : RequestRow → Db Request) (w v : World Tables) (r : Request)
    (s : RequestStatus)
    → ((m : RequestRow) (u t : World Tables)
        → first_where (has_request_no n) u.store.requests ≡ some m
        → f m u ≡ (ok r, t)
        → Row n s t.store)
    → transaction call_failed (first_request n >>= f) w ≡ (ok r, v)
    → Row n s v.store
read-Row n f w v r s step h =
    let (u, t, start, ran, end) = transaction-ok call_failed (first_request n >>= f) w v r h in
    let (m, u1, read, rest) = >>=-ok (first_request n) f u t r ran in
    let (found, same) = first_request-ok n u u1 m read in
    subst (Row n s) (sym end) (
      step m u1 t (ap (λ (x : Tables). first_where (has_request_no n) x.requests) same ∙ found)
        rest)

-- The operations, where they return a request.
pub complete_order_creating-Row :
    (e : Event) (w v : World Tables) (r : Request)
    → complete_order_creating e w ≡ (ok r, v)
    → Row e.request_no success v.store
unfolding complete_order_creating
complete_order_creating-Row e w v r h =
    read-Row e.request_no (λ m. complete_from e m m.status) w v r success
      (λ m u t found rest. complete_from-Row e m u t r m.status refl found rest) h

pub rollback_order_creating-Row :
    (e : Event) (reason : String) (w v : World Tables) (r : Request)
    → rollback_order_creating e reason w ≡ (ok r, v)
    → Row e.request_no failed v.store
unfolding rollback_order_creating
rollback_order_creating-Row e reason w v r h =
    read-Row e.request_no (λ m. rollback_from e reason m m.status) w v r failed
      (λ m u t found rest. rollback_from-Row e reason m u t r m.status refl found rest) h

pub find_by_request_no-Row :
    (n : String) (w v : World Tables) (r : Request)
    → find_by_request_no n w ≡ (ok r, v)
    → Row n r.status v.store
unfolding find_by_request_no
find_by_request_no-Row n w v r h =
    let (m, u, read, rest) = >>=-ok (first_request n) (λ m. pure (to_domain_request m)) w v r h in
    let (found, same) = first_request-ok n w u m read in
    unmoved-Row n m u v r
      (ap (λ (x : Tables). first_where (has_request_no n) x.requests) same ∙ found) rest

pub create_request-Row :
    (q r : Request) (w v : World Tables)
    → create_request q w ≡ (ok r, v)
    → Row q.request_no q.status v.store
unfolding create_request
create_request-Row q r w v h =
    let none_yet : count_where (has_request_no q.request_no) w.store.requests ≡ 0 = ground arith in
    let row = request_row w.store.next_request_id q in
    let end : w.store.requests ++ row ∷ [] ≡ v.store.requests = ground arith in
    (
      row,
      ap (first_where (has_request_no q.request_no)) (sym end)
          ∙ first_where-append (has_request_no q.request_no) w.store.requests row none_yet
              (str_eq_refl q.request_no),
      refl,
    )
