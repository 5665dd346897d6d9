-- ===== src/Seckill/Returns.antt =====
-- The other operations of infra/repository/gorm.go as steps of the abstract machine.
use douyin_mall.Base.{
  ℕ, String, Bool, true, some, List, ◌≡◌, refl, sym, ap, subst, inl, inr, ◌∙◌, suc, delete_where,
  Int64, first_where, count_where, arith, Bool-cases, World, ok, try_update, ◌>>◌, >>=-ok, leb,
}
use douyin_mall.Seckill.{
  ActivityStatus, RequestStatus, processing, order_creating, success, failed, ActivityRow,
  RequestRow, Tables, Event, Request, has_activity_id, has_request_no, create_request,
  update_activity_status, has_request_no_and_status, complete_from, rollback_from, close_from,
  close_row, give_back, move_row, mark_fail, update_stock, delete_qualification, go_on, is_open,
  is_qualification,
}
use douyin_mall.Seckill.Machine.{
  Owner, is_live, returned, with_requests, enters, confirms, rolls_back, closes, gives_up, marks,
  turns,
}
use douyin_mall.Seckill.Statements.{update_stock-ok, delete_qualification-ok}
use douyin_mall.Seckill.Advance.{Moved, event_of, go_on-ok}

module _ (o : Owner) (m : RequestRow) (u v : World Tables) where
  pub complete_from-Moved :
      (e : Event) (r : Request) (s : RequestStatus)
      → complete_from e m s u ≡ (ok r, v)
      → Moved o u.store v.store
  complete_from-Moved e r order_creating h =
      let done = go_on-ok e.request_no m order_creating success "" u v r h in
      subst (Moved o u.store) (sym done) (inr (confirms e.request_no))
  complete_from-Moved e r success h = inl (ground arith)
  complete_from-Moved e r processing h = absurd (ground arith)
  complete_from-Moved e r failed h = absurd (ground arith)
  complete_from-Moved e r (RequestStatus.other x) h = absurd (ground arith)

  -- The stock and the qualification are given back.
  given_back :
      (u1 : World Tables) (k : ℕ) {x : Unit {0}}
      → update_stock (has_activity_id m.activity_id) 1 u ≡ (ok k, u1)
      → delete_qualification m.activity_id m.user_id m.request_no u1 ≡ (ok x, v)
      → (rows : List ActivityRow) × (try_update
            (has_activity_id m.activity_id)
            (move_row 1)
            u.store.activities
          ≡ some rows)
        × (v.store ≡ returned m rows u.store)
  given_back u1 k ran rest =
      let (rows, moved, end, _) = update_stock-ok (has_activity_id m.activity_id) 1 u u1 k ran in
      let last = delete_qualification-ok m.activity_id m.user_id m.request_no u1 v rest in
      (
        rows,
        moved,
        last
            ∙ ap
                (λ (t : Tables). record t {
                  qualifications =
                      delete_where (is_qualification m.activity_id m.user_id m.request_no)
                        t.qualifications;
                })
                end,
      )

  close_row-ok :
      (n reason : String) (r : Request × Bool)
      → close_row n reason m u ≡ (ok r, v)
      → v.store ≡ with_requests (is_open n) failed reason u.store
  close_row-ok n reason r h = ground arith

pub rollback_from-Moved :
    (o : Owner) (m : RequestRow) (u v : World Tables) (e : Event) (reason : String) (r : Request)
    (s : RequestStatus)
    → m.status ≡ s
    → first_where (has_request_no m.request_no) u.store.requests ≡ some m
    → rollback_from (event_of e m) reason m s u ≡ (ok r, v)
    → Moved o u.store v.store
rollback_from-Moved o m u v e reason r order_creating status found h =
    let (k, u1, ran, rest) =
      >>=-ok (update_stock (has_activity_id m.activity_id) 1)
        (λ _.
          delete_qualification m.activity_id m.user_id m.request_no
          >> go_on m.request_no m order_creating failed reason)
        u v r h in
    let (x, u2, deleted, last) =
      >>=-ok (delete_qualification m.activity_id m.user_id m.request_no)
        (λ _. go_on m.request_no m order_creating failed reason) u1 v r rest in
    let (rows, moved, start) = given_back o m u u2 u1 k ran deleted in
    let done = go_on-ok m.request_no m order_creating failed reason u2 v r last in
    subst (Moved o u.store)
      (sym (
        done
        ∙ ap (with_requests (has_request_no_and_status m.request_no order_creating) failed reason)
            start))
      (inr (rolls_back m rows reason found status moved))
rollback_from-Moved o m u v e reason r failed status found h = inl (ground arith)
rollback_from-Moved o m u v e reason r processing status found h = absurd (ground arith)
rollback_from-Moved o m u v e reason r success status found h = absurd (ground arith)
rollback_from-Moved o m u v e reason r (RequestStatus.other x) status found h =
    absurd (ground arith)

live_close-Moved :
    (o : Owner) (m : RequestRow) (u v : World Tables) (reason : String) (r : Request × Bool)
    → is_live m.status ≡ true
    → first_where (has_request_no m.request_no) u.store.requests ≡ some m
    → (give_back m >> close_row m.request_no reason m) u ≡ (ok r, v)
    → Moved o u.store v.store
live_close-Moved o m u v reason r live found h =
    let (x, u1, ran, rest) = >>=-ok (give_back m) (λ _. close_row m.request_no reason m) u v r h in
    let (k, u0, stocked, deleted) =
      >>=-ok (update_stock (has_activity_id m.activity_id) 1)
        (λ _. delete_qualification m.activity_id m.user_id m.request_no) u u1 x ran in
    let (rows, moved, start) = given_back o m u u1 u0 k stocked deleted in
    let done = close_row-ok o m u1 v m.request_no reason r rest in
    subst (Moved o u.store)
      (sym (done ∙ ap (with_requests (is_open m.request_no) failed reason) start))
      (inr (closes m rows reason found live moved))

pub close_from-Moved :
    (o : Owner) (m : RequestRow) (u v : World Tables) (reason : String) (r : Request × Bool)
    (s : RequestStatus)
    → m.status ≡ s
    → first_where (has_request_no m.request_no) u.store.requests ≡ some m
    → close_from m.request_no reason m s u ≡ (ok r, v)
    → Moved o u.store v.store
close_from-Moved o m u v reason r processing status found h =
    let done = close_row-ok o m u v m.request_no reason r h in
    subst (Moved o u.store) (sym done) (inr (gives_up m reason found status))
close_from-Moved o m u v reason r order_creating status found h =
    live_close-Moved o m u v reason r (ap is_live status) found h
close_from-Moved o m u v reason r success status found h =
    live_close-Moved o m u v reason r (ap is_live status) found h
close_from-Moved o m u v reason r failed status found h = inl (ground arith)
close_from-Moved o m u v reason r (RequestStatus.other x) status found h = inl (ground arith)

-- The operations that are one statement.
pub mark_fail-Moved :
    (o : Owner) (n reason : String) (w : World Tables)
    → Moved o w.store (mark_fail n reason w).1.store
unfolding mark_fail
mark_fail-Moved o n reason w = elim (Bool-cases (w.fails w.tick)) [
  | inl down ↦ rw down (inl refl)
  | inr up ↦ rw up (inr (marks n reason))
]

pub update_activity_status-Moved :
    (o : Owner) (id : Int64) (s : ActivityStatus) (w : World Tables)
    → Moved o w.store (update_activity_status id s w).1.store
unfolding update_activity_status
update_activity_status-Moved o id s w = elim (Bool-cases (w.fails w.tick)) [
  | inl down ↦ rw down (inl refl)
  | inr up ↦ rw up (inr (turns id s))
]

pub create_request-Moved :
    (o : Owner) (r : Request) (w : World Tables)
    → r.status ≡ processing
    → o r.request_no ≡ (r.activity_id, r.user_id)
    → Moved o w.store (create_request r w).1.store
unfolding create_request
create_request-Moved o r w status own = elim (Bool-cases (w.fails w.tick)) [
  | inl down ↦ rw down (inl refl)
  | inr up ↦
      elim (Bool-cases (leb 1 (count_where (has_request_no r.request_no) w.store.requests))) [
        | inl known ↦ rw (up, known) (inl refl)
        | inr fresh ↦
            rw (up, fresh)
              (inr (
                enters
                  (record {
                    id = w.store.next_request_id;
                    request_no = r.request_no;
                    activity_id = r.activity_id;
                    user_id = r.user_id;
                    status = r.status;
                    fail_reason = r.fail_reason;
                  })
                  (suc w.store.next_request_id) status own (ground arith)))
      ]
]
