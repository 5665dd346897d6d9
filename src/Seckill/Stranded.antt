-- ===== src/Seckill/Stranded.antt =====
-- `MarkFail` has no condition on the status: what becomes of a unit that its request still holds.
use douyin_mall.Base.{
  String, true, false, some, List, [], ◌∷◌, ◌≡◌, ◌≤◌, ◌∙◌, refl, sym, ap, subst, inl, inr, All,
  first_where, count_where, delete_where, arith, str_eq, eq_iff, Bool-cases, World,
  count_where-append, count_where-delete_other, All-first_where, ok, first_where-update_where,
}
use douyin_mall.Seckill.{
  failed, RequestRow, Tables, has_request_no, mark_fail, QualificationRow, set_status,
}
use douyin_mall.Seckill.Machine.{
  Owner, Step, Sound, Backed, is_live, is_held_by, enters, rejects, sells, confirms, rolls_back,
  closes, gives_up, marks, turns, holder, with_requests,
}
use douyin_mall.Seckill.Units.{other_number}
use douyin_mall.Seckill.Soundness.{str_eq_refl}
use douyin_mall.Seckill.Reachable.{Step-Sound}
use douyin_mall.Seckill.Advance.{Moved}
use douyin_mall.Seckill.Refinement.{Operation, IsGenuine, execute, run, execute-Moved, Moved-Sound}
use douyin_mall.Seckill.Lifecycle.{Reach, Reach-failed, Moved-Follows}

-- A request that has failed and still has its qualification.
abbrev pub Stranded : RequestRow → Tables → Type 0
Stranded m t =
    (m' : RequestRow) × (first_where (has_request_no m.request_no) t.requests ≡ some m')
    × (holder m' ≡ holder m)
    × (m'.status ≡ failed)
    × (1 ≤ count_where (is_held_by m) t.qualifications)

-- A request that gives its unit back is another one.
other_request :
    (t : Tables) (m m' x : RequestRow)
    → first_where (has_request_no m.request_no) t.requests ≡ some m'
    → m'.status ≡ failed
    → first_where (has_request_no x.request_no) t.requests ≡ some x
    → is_live x.status ≡ true
    → str_eq m.request_no x.request_no ≡ false
other_request t m m' x found dead found_x live =
    elim (Bool-cases (str_eq m.request_no x.request_no)) [
      | inl same ↦
          let eq = (eq_iff m.request_no x.request_no).0 same in
          let found_m = subst (λ n. first_where (has_request_no n) t.requests ≡ some m') eq found in
          let row : x ≡ m' = ground arith in
          let gone : is_live x.status ≡ false =
            ap (λ (r : RequestRow). is_live r.status) row ∙ ap is_live dead in
          absurd (ground arith)
      | inr differ ↦ differ
    ]

left_held :
    (t : Tables) (m m' x : RequestRow)
    → first_where (has_request_no m.request_no) t.requests ≡ some m'
    → m'.status ≡ failed
    → first_where (has_request_no x.request_no) t.requests ≡ some x
    → is_live x.status ≡ true
    → 1 ≤ count_where (is_held_by m) t.qualifications
    → 1 ≤ count_where (is_held_by m) (delete_where (is_held_by x) t.qualifications)
left_held t m m' x found dead found_x live held =
    subst (λ n. 1 ≤ n)
      (sym (
        count_where-delete_other (is_held_by m) (is_held_by x) t.qualifications
          (λ q h. other_number m x q (other_request t m m' x found dead found_x live) h)))
      held

Step-held :
    (o : Owner) {t u : Tables} (m m' : RequestRow)
    → first_where (has_request_no m.request_no) t.requests ≡ some m'
    → m'.status ≡ failed
    → 1 ≤ count_where (is_held_by m) t.qualifications
    → Step o t u
    → 1 ≤ count_where (is_held_by m) u.qualifications
Step-held o m m' found dead held (sells {t} now x rows f status free on_sale moved) =
    subst (λ n. 1 ≤ n) (sym (count_where-append (is_held_by m) t.qualifications (holder x)))
      (omega (arith, held))
Step-held o m m' found dead held (rolls_back {t} x rows reason f status moved) =
    left_held t m m' x found dead f (ap is_live status) held
Step-held o m m' found dead held (closes {t} x rows reason f live moved) =
    left_held t m m' x found dead f live held
Step-held o m m' found dead held (enters x next status own fresh) = held
Step-held o m m' found dead held (rejects n reason) = held
Step-held o m m' found dead held (confirms n) = held
Step-held o m m' found dead held (gives_up x reason f status) = held
Step-held o m m' found dead held (marks n reason) = held
Step-held o m m' found dead held (turns id s) = held

Moved-Stranded :
    (o : Owner) (t u : Tables) (m : RequestRow) → Stranded m t → Moved o t u → Stranded m u
Moved-Stranded o t u m s (inl same) = subst (Stranded m) (sym same) s
Moved-Stranded o t u m (m', found, kin, dead, held) (inr step) =
    let number : m'.request_no ≡ m.request_no = ap (λ (q : QualificationRow). q.request_no) kin in
    let (x, found_x, kin_x, path) =
      Moved-Follows o t u m'
        (subst (λ n. first_where (has_request_no n) t.requests ≡ some m') (sym number) found)
        (inr step) in
    (
      x,
      subst (λ n. first_where (has_request_no n) u.requests ≡ some x) number found_x,
      kin_x ∙ kin,
      Reach-failed (subst (λ s. Reach s x.status) dead path),
      Step-held o m m' found dead held step,
    )

run-Stranded :
    (o : Owner) (ops : List Operation) (w : World Tables) (m : RequestRow)
    → Sound o w.store
    → All (IsGenuine o) ops
    → Stranded m w.store
    → Stranded m (run ops w).store
run-Stranded o [] w m h g s = s
run-Stranded o (op ∷ ops) w m h (g, gs) s =
    let moved = execute-Moved o op w h g in
    run-Stranded o ops (execute op w) m (Moved-Sound o w.store (execute op w).store moved h) gs
      (Moved-Stranded o w.store (execute op w).store m s moved)

-- Where `MarkFail` succeeds on a request that holds a unit, on sound tables, the request has failed
-- and its qualification stands after every sequence of genuine operations.
pub mark_fail-Stranded :
    (o : Owner) (ops : List Operation) (w v : World Tables) (m : RequestRow) (reason : String)
    → Sound o w.store
    → All (IsGenuine o) ops
    → first_where (has_request_no m.request_no) w.store.requests ≡ some m
    → is_live m.status ≡ true
    → mark_fail m.request_no reason w ≡ (ok tt, v)
    → Stranded m (run ops v).store
unfolding mark_fail
mark_fail-Stranded o ops w v m reason h g found live ran =
    let end : v.store ≡ with_requests (has_request_no m.request_no) failed reason w.store =
      ground arith in
    let row =
      first_where-update_where (has_request_no m.request_no) (has_request_no m.request_no)
        (set_status failed reason) w.store.requests m (λ r. refl) found in
    let self = str_eq_refl m.request_no in
    let held =
      All-first_where (Backed w.store.qualifications) (has_request_no m.request_no) w.store.requests
        m h.backed found live in
    run-Stranded o ops v m (subst (Sound o) (sym end) (Step-Sound o (marks m.request_no reason) h))
      g
      (subst (Stranded m) (sym end)
        (set_status failed reason m, row ∙ rw self refl, refl, refl, held))
