-- ===== src/Seckill/Advance.antt =====
-- `AdvanceProcessing` as steps of the abstract machine.
use douyin_mall.Base.{
  ℕ, String, Bool, true, false, some, [], ◌∷◌, ◌++◌, ◌≡◌, ◌≢◌, ◌==◌, refl, sym, ap, subst, inl, inr,
  ◌⊎◌, ◌∙◌, first_where, count_where, delete_where, try_update, arith, World, Result, ok, err,
  ==_iff, attempt, ◌>>◌, if◌then◌else◌, >>=-ok, attempt-ok, count_where-imp, delete_where-append,
  try_update-none,
}
use douyin_mall.Seckill.{
  RequestStatus, processing, order_creating, success, failed, RequestRow, Tables, Db, Event, Error,
  Request, has_request_no, has_request_no_and_status, advance_from, is_of_user, is_on_sale,
  move_row, minus_one, after_stock, after_qualification, create_qualification, delete_qualification,
  duplicate_entry, update_stock, is_qualification, give_up, go_on, out_of_stock_reason,
  user_already_succeeded_reason,
}
use douyin_mall.Seckill.Machine.{Owner, is_held_by, Step, holder, with_requests, rejects, sells}
use douyin_mall.Seckill.Units.{is_held_refl}
use douyin_mall.Seckill.Statements.{
  update_stock-ok, delete_qualification-ok, create_qualification-ok, create_qualification-err,
}

-- What an operation does to the tables.
abbrev pub Moved : Owner → Tables → Tables → Type 0
Moved o t u = (u ≡ t) ⊎ Step o t u

-- The event of a request, as its row has it.
abbrev pub event_of : Event → RequestRow → Event
event_of e m = record e {
  request_no = m.request_no;
  activity_id = m.activity_id;
  user_id = m.user_id;
}

pub give_up-ok :
    (e : Event) (m : RequestRow) (reason : String) (u v : World Tables) (r : Request)
    → give_up e m reason u ≡ (ok r, v)
    → v.store
      ≡ with_requests (has_request_no_and_status e.request_no processing) failed reason u.store
give_up-ok e m reason u v r h = ground arith

pub go_on-ok :
    (n : String) (m : RequestRow) (from to : RequestStatus) (reason : String) (u v : World Tables)
    (r : Request)
    → go_on n m from to reason u ≡ (ok r, v)
    → v.store ≡ with_requests (has_request_no_and_status n from) to reason u.store
go_on-ok n m from to reason u v r h = ground arith

-- The two ends of a sale, by the number of activities on sale.
abbrev SoldOut : Event → ℕ → Tables → Tables → Type 0
SoldOut e k t t' =
    (k ≡ 0)
    × (t'
        ≡ with_requests (has_request_no_and_status e.request_no processing) failed
            out_of_stock_reason
            (record t {
              qualifications =
                  delete_where (is_qualification e.activity_id e.user_id e.request_no)
                    t.qualifications;
            }))

abbrev Sold : Event → ℕ → Tables → Tables → Type 0
Sold e k t t' =
    (k ≢ 0)
    × (t' ≡ with_requests (has_request_no_and_status e.request_no processing) order_creating "" t)

after_stock-cases :
    (e : Event) (m : RequestRow) (k : ℕ) (u v : World Tables) (r : Request)
    → after_stock e m k u ≡ (ok r, v)
    → SoldOut e k u.store v.store ⊎ Sold e k u.store v.store
after_stock-cases e m k u v r h = go (k == 0) refl h
  where
    taken_back : Db Request
    taken_back =
        delete_qualification e.activity_id e.user_id e.request_no >> give_up e m out_of_stock_reason

    go :
        (b : Bool)
        → (k == 0) ≡ b
        → (if b then taken_back else go_on e.request_no m processing order_creating "") u
          ≡ (ok r, v)
        → SoldOut e k u.store v.store ⊎ Sold e k u.store v.store
    go true z h =
        let (x, w, ran, rest) =
          >>=-ok (delete_qualification e.activity_id e.user_id e.request_no)
            (λ _. give_up e m out_of_stock_reason) u v r h in
        inl (
          (==_iff k 0).0 z,
          give_up-ok e m out_of_stock_reason w v r rest
              ∙ ap
                  (with_requests (has_request_no_and_status e.request_no processing) failed
                    out_of_stock_reason)
                  (delete_qualification-ok e.activity_id e.user_id e.request_no u w ran),
        )
    go false z h =
        inr ((λ zero. ground arith), go_on-ok e.request_no m processing order_creating "" u v r h)

module _ (o : Owner) (now : ℕ) (e : Event) (m : RequestRow) (u v : World Tables) (r : Request) where
  -- The tables after the qualification has been taken.
  abbrev qualified : Tables
  qualified = record u.store { qualifications = u.store.qualifications ++ holder m ∷ [] }

  stock-Step :
      (u1 : World Tables) (k : ℕ) (u2 : World Tables)
      → first_where (has_request_no m.request_no) u.store.requests ≡ some m
      → m.status ≡ processing
      → count_where (is_of_user m.activity_id m.user_id) u.store.qualifications ≡ 0
      → u1.store ≡ qualified
      → update_stock (is_on_sale m.activity_id now) minus_one u1 ≡ (ok k, u2)
      → after_stock (event_of e m) m k u2 ≡ (ok r, v)
      → Step o u.store v.store
  stock-Step u1 k u2 found status free start ran rest =
      let (rows, moved, end, count) =
        update_stock-ok (is_on_sale m.activity_id now) minus_one u1 u2 k ran in
      let moved_here : try_update (is_on_sale m.activity_id now) (move_row minus_one)
            u.store.activities
          ≡ some rows =
        subst
          (λ (t : Tables).
            try_update (is_on_sale m.activity_id now) (move_row minus_one) t.activities ≡ some rows)
          start moved in
      let count_here : k ≡ count_where (is_on_sale m.activity_id now) u.store.activities =
        count
        ∙ ap (λ (t : Tables). count_where (is_on_sale m.activity_id now) t.activities) start in
      let after : u2.store ≡ record qualified { activities = rows } =
        end ∙ ap (λ (t : Tables). record t { activities = rows }) start in
      elim (after_stock-cases (event_of e m) m k u2 v r rest) [
        | inl (none_left, done) ↦
            let same =
              try_update-none (is_on_sale m.activity_id now) (move_row minus_one) u.store.activities
                (sym count_here ∙ none_left) in
            let rows_same : rows ≡ u.store.activities = ground arith in
            let narrow =
              count_where-imp (is_of_user m.activity_id m.user_id) (is_held_by m)
                u.store.qualifications (λ q held. ground arith) in
            let gone =
              delete_where-append (is_held_by m) u.store.qualifications (holder m)
                (omega (arith, narrow, free)) (is_held_refl m) in
            subst (Step o u.store)
              (sym (
                done
                ∙ ap
                    (with_requests (has_request_no_and_status m.request_no processing) failed
                      out_of_stock_reason)
                    (ap
                        (λ (t : Tables). record t {
                          qualifications = delete_where (is_held_by m) t.qualifications;
                        })
                        after
                      ∙ (ap
                            (λ rs. record u.store {
                              activities = rs;
                              qualifications =
                                  delete_where (is_held_by m)
                                    (u.store.qualifications ++ holder m ∷ []);
                            })
                            rows_same
                          ∙ ap (λ qs. record u.store { qualifications = qs }) gone))))
              (rejects m.request_no out_of_stock_reason)
        | inr (some_left, done) ↦
            subst (Step o u.store)
              (sym (
                done
                ∙ ap
                    (with_requests (has_request_no_and_status m.request_no processing)
                      order_creating "")
                    after))
              (sells now m rows found status free (λ z. some_left (count_here ∙ z)) moved_here)
      ]

  after_qualification-Step :
      (u1 : World Tables) (res : Result Error (Unit {0}))
      → first_where (has_request_no m.request_no) u.store.requests ≡ some m
      → m.status ≡ processing
      → create_qualification (holder m) u ≡ (res, u1)
      → after_qualification now (event_of e m) m res u1 ≡ (ok r, v)
      → Step o u.store v.store
  after_qualification-Step u1 (err duplicate_entry) found status tried rest =
      let same = create_qualification-err (holder m) u u1 duplicate_entry tried in
      let done = give_up-ok (event_of e m) m user_already_succeeded_reason u1 v r rest in
      subst (Step o u.store)
        (sym (
          done
          ∙ ap
              (with_requests (has_request_no_and_status m.request_no processing) failed
                user_already_succeeded_reason)
              same))
        (rejects m.request_no user_already_succeeded_reason)
  after_qualification-Step u1 (ok x) found status tried rest =
      let (free, start) = create_qualification-ok (holder m) u u1 tried in
      let (k, u2, ran, last) =
        >>=-ok (update_stock (is_on_sale m.activity_id now) minus_one)
          (after_stock (event_of e m) m) u1 v r rest in
      stock-Step u1 k u2 found status free start ran last
  after_qualification-Step u1 (err x) found status tried rest = absurd (ground arith)

  processing-Step :
      first_where (has_request_no m.request_no) u.store.requests ≡ some m
      → m.status ≡ processing
      → advance_from now (event_of e m) m processing u ≡ (ok r, v)
      → Step o u.store v.store
  processing-Step found status h =
      let (res, u1, tried, rest) =
        >>=-ok (attempt (create_qualification (holder m)))
          (after_qualification now (event_of e m) m) u v r h in
      after_qualification-Step u1 res found status
        (attempt-ok (create_qualification (holder m)) u u1 res tried) rest

  -- Whatever the status that was read.
  pub advance_from-Moved :
      (s : RequestStatus)
      → m.status ≡ s
      → first_where (has_request_no m.request_no) u.store.requests ≡ some m
      → advance_from now (event_of e m) m s u ≡ (ok r, v)
      → Moved o u.store v.store
  advance_from-Moved processing status found h = inr (processing-Step found status h)
  advance_from-Moved order_creating status found h = inl (ground arith)
  advance_from-Moved success status found h = inl (ground arith)
  advance_from-Moved failed status found h = inl (ground arith)
  advance_from-Moved (RequestStatus.other x) status found h = absurd (ground arith)
