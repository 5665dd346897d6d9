-- ===== src/Seckill/AdvanceRows.antt =====
-- The row of a request after `AdvanceProcessing` has returned the request.
use douyin_mall.Base.{
  ℕ, Bool, true, false, some, ◌≡◌, ◌==◌, refl, sym, ap, subst, ◌∙◌, first_where, arith, World,
  Result, ok, err, if◌then◌else◌, ◌>>◌, >>=-ok, attempt, attempt-ok,
}
use douyin_mall.Seckill.{
  RequestStatus, processing, order_creating, success, failed, RequestRow, Tables, Event, Error,
  Request, duplicate_entry, has_request_no, advance_from, after_qualification, after_stock,
  advance_processing, give_up, go_on, is_on_sale, minus_one, update_stock, create_qualification,
  qualification_of, delete_qualification, out_of_stock_reason, user_already_succeeded_reason,
}
use douyin_mall.Seckill.Statements.{
  update_stock-ok, delete_qualification-ok, create_qualification-ok, create_qualification-err,
}
use douyin_mall.Seckill.Rows.{Row, give_up-Row, go_on-Row, found_after, unmoved-Row, read-Row}

after_stock-Row :
    (e : Event) (m : RequestRow) (k : ℕ) (u v : World Tables) (r : Request)
    → first_where (has_request_no e.request_no) u.store.requests ≡ some m
    → m.status ≡ processing
    → after_stock e m k u ≡ (ok r, v)
    → Row e.request_no r.status v.store
after_stock-Row e m k u v r found status h = go (k == 0) h
  where
    go :
        (b : Bool)
        → (if b
              then (delete_qualification e.activity_id e.user_id e.request_no
                  >> give_up e m out_of_stock_reason)
              else go_on e.request_no m processing order_creating "")
            u
          ≡ (ok r, v)
        → Row e.request_no r.status v.store
    go true h =
        let (x, w, ran, rest) =
          >>=-ok (delete_qualification e.activity_id e.user_id e.request_no)
            (λ _. give_up e m out_of_stock_reason) u v r h in
        let same =
          ap (λ (t : Tables). t.requests)
            (delete_qualification-ok e.activity_id e.user_id e.request_no u w ran) in
        give_up-Row e m w v r (found_after e.request_no u.store w.store m same found)
          out_of_stock_reason status rest
    go false h =
        let (row, made) =
          go_on-Row e m u v r found processing order_creating "" (rw status refl) h in
        subst (λ s. Row e.request_no s v.store) (sym made) row

after_qualification-Row :
    (now : ℕ) (e : Event) (m : RequestRow) (u u1 v : World Tables) (r : Request)
    (res : Result Error (Unit {0}))
    → first_where (has_request_no e.request_no) u.store.requests ≡ some m
    → m.status ≡ processing
    → create_qualification (qualification_of e) u ≡ (res, u1)
    → after_qualification now e m res u1 ≡ (ok r, v)
    → Row e.request_no r.status v.store
after_qualification-Row now e m u u1 v r (err duplicate_entry) found status tried h =
    let same =
      ap (λ (t : Tables). t.requests)
        (create_qualification-err (qualification_of e) u u1 duplicate_entry tried) in
    give_up-Row e m u1 v r (found_after e.request_no u.store u1.store m same found)
      user_already_succeeded_reason status h
after_qualification-Row now e m u u1 v r (ok x) found status tried h =
    let same =
      ap (λ (t : Tables). t.requests) (create_qualification-ok (qualification_of e) u u1 tried).1 in
    let (k, u2, ran, rest) =
      >>=-ok (update_stock (is_on_sale e.activity_id now) minus_one) (after_stock e m) u1 v r h in
    let (rows, _, end, _) = update_stock-ok (is_on_sale e.activity_id now) minus_one u1 u2 k ran in
    after_stock-Row e m k u2 v r
      (found_after e.request_no u.store u2.store m (ap (λ (t : Tables). t.requests) end ∙ same)
        found)
      status rest
after_qualification-Row now e m u u1 v r (err x) found status tried h = absurd (ground arith)

advance_from-Row :
    (now : ℕ) (e : Event) (m : RequestRow) (u v : World Tables) (r : Request) (s : RequestStatus)
    → m.status ≡ s
    → first_where (has_request_no e.request_no) u.store.requests ≡ some m
    → advance_from now e m s u ≡ (ok r, v)
    → Row e.request_no r.status v.store
advance_from-Row now e m u v r processing status found h =
    let (res, u1, tried, rest) =
      >>=-ok (attempt (create_qualification (qualification_of e))) (after_qualification now e m) u v
        r h in
    after_qualification-Row now e m u u1 v r res found status
      (attempt-ok (create_qualification (qualification_of e)) u u1 res tried) rest
advance_from-Row now e m u v r order_creating status found h =
    unmoved-Row e.request_no m u v r found h
advance_from-Row now e m u v r success status found h = unmoved-Row e.request_no m u v r found h
advance_from-Row now e m u v r failed status found h = unmoved-Row e.request_no m u v r found h
advance_from-Row now e m u v r (RequestStatus.other x) status found h = absurd (ground arith)

pub advance_processing-Row :
    (now : ℕ) (e : Event) (w v : World Tables) (r : Request)
    → advance_processing now e w ≡ (ok r, v)
    → Row e.request_no r.status v.store
unfolding advance_processing
advance_processing-Row now e w v r h =
    read-Row e.request_no (λ m. advance_from now e m m.status) w v r r.status
      (λ m u t found rest. advance_from-Row now e m u t r m.status refl found rest) h
