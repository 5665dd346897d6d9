-- ===== src/Seckill/Lifecycle.antt =====
-- The life of a request, and what becomes of a unit whose request has failed without giving it back.
use douyin_mall.Base.{
  String, Bool, true, some, List, [], ◌∷◌, ◌≡◌, refl, sym, ap, subst, inl, inr, ◌∙◌, All,
  first_where, arith, Bool-cases, World, first_where-update_where, first_where-insert,
}
use douyin_mall.Seckill.{
  RequestStatus, processing, order_creating, success, failed, ◌==ʳ◌, RequestRow, Tables,
  has_request_no, has_request_no_and_status, set_status, is_open, QualificationRow,
}
use douyin_mall.Seckill.Machine.{
  Owner, Step, Sound, with_requests, enters, rejects, sells, confirms, rolls_back, closes, gives_up,
  marks, turns, holder,
}
use douyin_mall.Seckill.Advance.{Moved}
use douyin_mall.Seckill.Refinement.{Operation, IsGenuine, execute, run, execute-Moved, Moved-Sound}

-- The transitions of a request; it can fail from everywhere.
pub data Edge : RequestStatus → RequestStatus → Type 0 where
  ordering : Edge processing order_creating
  succeeding : Edge order_creating success
  failing : (s : RequestStatus) → Edge s failed

pub data Reach : RequestStatus → RequestStatus → Type 0 where
  stay : {s : RequestStatus} → Reach s s
  go : {s t u : RequestStatus} → Edge s t → Reach t u → Reach s u

is_processing : (s : RequestStatus) → (s ==ʳ processing) ≡ true → s ≡ processing
is_processing processing h = refl
is_processing order_creating h = absurd (ground arith)
is_processing success h = absurd (ground arith)
is_processing failed h = absurd (ground arith)
is_processing (RequestStatus.other x) h = absurd (ground arith)

is_order_creating : (s : RequestStatus) → (s ==ʳ order_creating) ≡ true → s ≡ order_creating
is_order_creating order_creating h = refl
is_order_creating processing h = absurd (ground arith)
is_order_creating success h = absurd (ground arith)
is_order_creating failed h = absurd (ground arith)
is_order_creating (RequestStatus.other x) h = absurd (ground arith)

-- The row of `m` is still the first of its number, of the same activity and user, and its status has
-- gone along the graph.
abbrev pub Follows : RequestRow → Tables → Type 0
Follows m u =
    (m' : RequestRow) × (first_where (has_request_no m.request_no) u.requests ≡ some m')
    × (holder m' ≡ holder m)
    × Reach m.status m'.status

update-Follows :
    (p : RequestRow → Bool) (s : RequestStatus) (reason : String) (t : Tables) (m : RequestRow)
    → first_where (has_request_no m.request_no) t.requests ≡ some m
    → (p m ≡ true → Edge m.status s)
    → Follows m (with_requests p s reason t)
update-Follows p s reason t m found edge =
    let after =
      first_where-update_where (has_request_no m.request_no) p (set_status s reason) t.requests m
        (λ r. refl) found in
    elim (Bool-cases (p m)) [
      | inl a ↦ (set_status s reason m, after ∙ rw a refl, refl, go (edge a) stay)
      | inr a ↦ (m, after ∙ rw a refl, refl, stay)
    ]

Step-Follows :
    (o : Owner) {t u : Tables} (m : RequestRow)
    → first_where (has_request_no m.request_no) t.requests ≡ some m
    → Step o t u
    → Follows m u
Step-Follows o m found (enters {t} x next status own fresh) =
    (m, first_where-insert (has_request_no m.request_no) t.requests m x found, refl, stay)
Step-Follows o m found (rejects {t} n reason) =
    update-Follows (has_request_no_and_status n processing) failed reason t m found
      (λ a. failing m.status)
Step-Follows o m found (sells {t} now x rows f status free on_sale moved) =
    update-Follows (has_request_no_and_status x.request_no processing) order_creating "" t m found
      (λ a.
        subst (λ s. Edge s order_creating) (sym (is_processing m.status (ground arith))) ordering)
Step-Follows o m found (confirms {t} n) =
    update-Follows (has_request_no_and_status n order_creating) success "" t m found (λ a.
      subst (λ s. Edge s success) (sym (is_order_creating m.status (ground arith))) succeeding)
Step-Follows o m found (rolls_back {t} x rows reason f status moved) =
    update-Follows (has_request_no_and_status x.request_no order_creating) failed reason t m found
      (λ a. failing m.status)
Step-Follows o m found (closes {t} x rows reason f live moved) =
    update-Follows (is_open x.request_no) failed reason t m found (λ a. failing m.status)
Step-Follows o m found (gives_up {t} x reason f status) =
    update-Follows (is_open x.request_no) failed reason t m found (λ a. failing m.status)
Step-Follows o m found (marks {t} n reason) =
    update-Follows (has_request_no n) failed reason t m found (λ a. failing m.status)
Step-Follows o m found (turns {t} id s) = (m, found, refl, stay)

Reach-join : {s t u : RequestStatus} → Reach s t → Reach t u → Reach s u
Reach-join stay q = q
Reach-join (go e p) q = go e (Reach-join p q)

pub Moved-Follows :
    (o : Owner) (t u : Tables) (m : RequestRow)
    → first_where (has_request_no m.request_no) t.requests ≡ some m
    → Moved o t u
    → Follows m u
Moved-Follows o t u m found (inl same) = (
  m,
  subst (λ (x : Tables). first_where (has_request_no m.request_no) x.requests ≡ some m) (sym same)
      found,
  refl,
  stay,
)
Moved-Follows o t u m found (inr step) = Step-Follows o m found step

-- Whatever fails, a request goes through any sequence of genuine operations on sound tables as one
-- row, of the same number, activity and user, along the graph of its statuses: it succeeds only
-- from the creation of its order, creates its order only from processing, and never comes back
-- from a failure.
pub run-Follows :
    (o : Owner) (ops : List Operation) (w : World Tables) (m : RequestRow)
    → Sound o w.store
    → All (IsGenuine o) ops
    → first_where (has_request_no m.request_no) w.store.requests ≡ some m
    → Follows m (run ops w).store
run-Follows o [] w m h g found = (m, found, refl, stay)
run-Follows o (op ∷ ops) w m h (g, gs) found =
    let moved = execute-Moved o op w h g in
    let (x, found_x, same, path) = Moved-Follows o w.store (execute op w).store m found moved in
    let number : x.request_no ≡ m.request_no = ap (λ (q : QualificationRow). q.request_no) same in
    let (y, found_y, same_y, path_y) =
      run-Follows o ops (execute op w) x (Moved-Sound o w.store (execute op w).store moved h) gs (
        subst (λ n. first_where (has_request_no n) (execute op w).store.requests ≡ some x)
          (sym number) found_x) in
    (
      y,
      subst (λ n. first_where (has_request_no n) (run ops (execute op w)).store.requests ≡ some y)
          number found_y,
      same_y ∙ same,
      Reach-join path path_y,
    )

pub Reach-failed : {s : RequestStatus} → Reach failed s → s ≡ failed
Reach-failed stay = refl
Reach-failed (go (failing _) p) = Reach-failed p
