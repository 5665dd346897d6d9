-- ===== src/Seckill/Processing.antt =====
-- `Process` consumes a message only where the request has come to its end.
use douyin_mall.Base.{
  ℕ, String, Bool, true, false, Option, none, some, ◌≡◌, ◌∙◌, refl, sym, subst, Int64, arith, World,
  Result, ok, err, if◌then◌else◌, raise, attempt, attempt-ok, >>=-ok,
}
use douyin_mall.Seckill.{
  RequestStatus, processing, order_creating, success, failed, Event, Error, Request,
  request_not_found, duplicate_seckill, call_failed, Shop, OrderService, CallError, in_tables,
  roll_back, after_create, order_with, process_order_creating, after_advance, process_processing,
  process_from, process, ensure_request, found_or_created, created_or_found, request_of,
  call_create_order, create_req_of, advance_processing, find_by_request_no, create_request,
  order_id_from_request_no, is_explicit_create_order_failure, create_order_fail_reason,
}
use douyin_mall.Seckill.Rows.{Row, find_by_request_no-Row, create_request-Row}
use douyin_mall.Seckill.AdvanceRows.{advance_processing-Row}
use douyin_mall.Seckill.Settlement.{
  Settled, in_tables-ok, cleared-Settled, saved-Settled, finish-Settled, roll_back-Settled,
}

module _ {R : Type 0} where
  find-Row :
      (n : String) (w v : World (Shop R)) (r : Request)
      → in_tables (find_by_request_no n) w ≡ (ok r, v)
      → Row n r.status v.store.tables
  find-Row n w v r h =
      let (t, done, end) = in_tables-ok (find_by_request_no n) w v r h in
      subst (Row n r.status) (sym end) (
        find_by_request_no-Row n (record { store = w.store.tables; tick = w.tick; fails = w.fails })
          t r done)

  created-Row :
      (e : Event) (w u v : World (Shop R)) (q : Result Error Request) (r : Request)
      → in_tables (create_request (request_of e)) w ≡ (q, u)
      → created_or_found e q u ≡ (ok r, v)
      → Row e.request_no r.status v.store.tables
  created-Row e w u v (ok q) r tried h =
      let (t, done, end) = in_tables-ok (create_request (request_of e)) w u q tried in
      let here : u.store.tables ≡ v.store.tables = ground arith in
      let new : processing ≡ r.status = ground arith in
      subst (λ s. Row e.request_no s v.store.tables) new
        (subst (Row e.request_no processing) (sym end ∙ here) (
          create_request-Row (request_of e) q
            (record { store = w.store.tables; tick = w.tick; fails = w.fails }) t done))
  created-Row e w u v (err duplicate_seckill) r tried h = find-Row e.request_no u v r h
  created-Row e w u v (err x) r tried h = absurd (ground arith)

  found-Row :
      (e : Event) (w u v : World (Shop R)) (q : Result Error Request) (r : Request)
      → in_tables (find_by_request_no e.request_no) w ≡ (q, u)
      → found_or_created e q u ≡ (ok r, v)
      → Row e.request_no r.status v.store.tables
  found-Row e w u v (ok q) r tried h =
      let row = find-Row e.request_no w u q tried in
      let here : u.store.tables ≡ v.store.tables = ground arith in
      let same : q.status ≡ r.status = ground arith in
      subst (λ s. Row e.request_no s v.store.tables) same
        (subst (Row e.request_no q.status) here row)
  found-Row e w u v (err request_not_found) r tried h =
      let (p, t, ran, rest) =
        >>=-ok (attempt (in_tables (create_request (request_of e)))) (created_or_found e) u v r h in
      created-Row e u t v p r (attempt-ok (in_tables (create_request (request_of e))) u t p ran)
        rest
  found-Row e w u v (err x) r tried h = absurd (ground arith)

  ensure_request-Row :
      (e : Event) (w v : World (Shop R)) (r : Request)
      → ensure_request e w ≡ (ok r, v)
      → Row e.request_no r.status v.store.tables
  unfolding ensure_request
  ensure_request-Row e w v r h =
      let (q, u, ran, rest) =
        >>=-ok (attempt (in_tables (find_by_request_no e.request_no))) (found_or_created e) w v r
          h in
      found-Row e w u v q r (attempt-ok (in_tables (find_by_request_no e.request_no)) w u q ran)
        rest

module _ {R : Type 0} (service : OrderService R) (e : Event) where
  after_create-Settled :
      (r : Result CallError (Unit {0})) (w v : World (Shop R)) {x : Unit {0}}
      → after_create service e r w ≡ (ok x, v)
      → Settled e.request_no v.store
  after_create-Settled (ok y) w v h = finish-Settled e w v h
  after_create-Settled (err y) w v {x} h = go (is_explicit_create_order_failure y) h
    where
      go :
          (b : Bool)
          → (if b then roll_back e create_order_fail_reason else raise call_failed) w ≡ (ok x, v)
          → Settled e.request_no v.store
      go true h = roll_back-Settled e create_order_fail_reason w v h
      go false h = absurd (ground arith)

  order_with-Settled :
      (id : Option Int64) (w v : World (Shop R)) {x : Unit {0}}
      → order_with service e id w ≡ (ok x, v)
      → Settled e.request_no v.store
  order_with-Settled none w v h = absurd (ground arith)
  order_with-Settled (some id) w v {x} h =
      let (r, u, ran, rest) =
        >>=-ok (call_create_order service (create_req_of id e)) (after_create service e) w v x h in
      after_create-Settled r u v rest

  process_order_creating-Settled :
      (w v : World (Shop R)) {x : Unit {0}}
      → process_order_creating service e w ≡ (ok x, v)
      → Settled e.request_no v.store
  unfolding process_order_creating
  process_order_creating-Settled w v h =
      order_with-Settled (order_id_from_request_no e.request_no) w v h

  after_advance-Settled :
      (r : Request) (s : RequestStatus) (w v : World (Shop R)) {x : Unit {0}}
      → r.status ≡ s
      → Row e.request_no r.status w.store.tables
      → after_advance service e r s w ≡ (ok x, v)
      → Settled e.request_no v.store
  after_advance-Settled r order_creating w v status row h = process_order_creating-Settled w v h
  after_advance-Settled r failed w v status row h =
      cleared-Settled e.activity_id e.user_id e.request_no r.fail_reason w v
        (subst (λ s. Row e.request_no s w.store.tables) status row) h
  after_advance-Settled r success w v status row h =
      saved-Settled e.request_no r.order_id w v
        (subst (λ s. Row e.request_no s w.store.tables) status row) h
  after_advance-Settled r processing w v status row h = absurd (ground arith)
  after_advance-Settled r (RequestStatus.other y) w v status row h = absurd (ground arith)

  process_processing-Settled :
      (now : ℕ) (w v : World (Shop R)) {x : Unit {0}}
      → process_processing service now e w ≡ (ok x, v)
      → Settled e.request_no v.store
  unfolding process_processing
  process_processing-Settled now w v {x} h =
      let (r, u, ran, rest) =
        >>=-ok (in_tables (advance_processing now e)) (λ r. after_advance service e r r.status) w v
          x h in
      let (t, done, end) = in_tables-ok (advance_processing now e) w u r ran in
      after_advance-Settled r r.status u v refl
        (subst (Row e.request_no r.status) (sym end) (
          advance_processing-Row now e
            (record { store = w.store.tables; tick = w.tick; fails = w.fails }) t r done))
        rest

  process_from-Settled :
      (now : ℕ) (r : Request) (s : RequestStatus) (w v : World (Shop R)) {x : Unit {0}}
      → r.status ≡ s
      → Row e.request_no r.status w.store.tables
      → process_from service now e r s w ≡ (ok x, v)
      → Settled e.request_no v.store
  process_from-Settled now r processing w v status row h = process_processing-Settled now w v h
  process_from-Settled now r order_creating w v status row h = process_order_creating-Settled w v h
  process_from-Settled now r success w v status row h =
      saved-Settled e.request_no r.order_id w v
        (subst (λ s. Row e.request_no s w.store.tables) status row) h
  process_from-Settled now r failed w v status row h =
      cleared-Settled e.activity_id e.user_id e.request_no r.fail_reason w v
        (subst (λ s. Row e.request_no s w.store.tables) status row) h
  process_from-Settled now r (RequestStatus.other y) w v status row h = absurd (ground arith)

-- Whatever fails and whatever the order service answers, where `Process` succeeds, and with that
-- consumes its message, the request has succeeded or failed in the database, and Redis has the same
-- status.
pub process-Settled :
    {R : Type 0} (service : OrderService R) (now : ℕ) (e : Event) (w v : World (Shop R))
    → process service now e w ≡ (ok tt, v)
    → Settled e.request_no v.store
unfolding process
process-Settled service now e w v h =
    let (r, u, ran, rest) =
      >>=-ok (ensure_request e) (λ r. process_from service now e r r.status) w v tt h in
    process_from-Settled service e now r r.status u v refl (ensure_request-Row e w u r ran) rest
