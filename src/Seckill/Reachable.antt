-- ===== src/Seckill/Reachable.antt =====
-- Every step of the abstract machine keeps the tables sound, and what sound tables mean for a sale.
use douyin_mall.Base.{
  Bool, true, false, List, [], ◌∷◌, ◌≡◌, ◌≤◌, ◌+◌, ◌&&◌, ◌==◌, refl, sym, subst, inl, inr, All,
  All-map, Int64, first_where, count_where, delete_where, arith, Bool-cases, String, some,
  count_where-delete_where, count_where-delete_other, All-first_where, All-zip, count_where-zero,
  not,
}
use douyin_mall.Seckill.{
  RequestStatus, processing, order_creating, success, failed, ◌==ʳ◌, ActivityRow, RequestRow,
  QualificationRow, Tables, has_activity_id, has_request_no, has_request_no_and_status, is_open,
}
use douyin_mall.Seckill.Machine.{
  is_live, Owner, is_held_by, is_of_activity, Balanced, Backed, Step, Sound, enters, rejects, sells,
  confirms, rolls_back, closes, gives_up, marks, turns,
}
use douyin_mall.Seckill.Soundness.{str_eq_refl, drop-Sound, confirm-Sound, turn-Sound, enter-Sound}
use douyin_mall.Seckill.Units.{other_number}
use douyin_mall.Seckill.Moves.{sell-Sound, return-Sound}

live-open : (s : RequestStatus) → is_live s ≡ true → not (s ==ʳ failed) ≡ true
live-open order_creating h = refl
live-open success h = refl
live-open processing h = absurd (ground arith)
live-open failed h = absurd (ground arith)
live-open (RequestStatus.other s) h = absurd (ground arith)

pub Step-Sound : (o : Owner) {t u : Tables} → Step o t u → Sound o t → Sound o u
Step-Sound o (enters {t} m next status own fresh) h = enter-Sound o t h m next status own fresh
Step-Sound o (rejects {t} n reason) h =
    drop-Sound o t h (has_request_no_and_status n processing) reason
Step-Sound o (sells {t} now m rows found status free on_sale moved) h =
    sell-Sound o t m rows h found now status free on_sale moved
Step-Sound o (confirms {t} n) h = confirm-Sound o t h n
Step-Sound o (rolls_back {t} m rows reason found status moved) h =
    let same = str_eq_refl m.request_no in
    return-Sound o t m rows h found (has_request_no_and_status m.request_no order_creating) reason
      (rw (same, status) refl) (rw status refl) moved
Step-Sound o (closes {t} m rows reason found live moved) h =
    let same = str_eq_refl m.request_no in
    let fresh = live-open m.status live in
    return-Sound o t m rows h found (is_open m.request_no) reason (rw (same, fresh) refl) live moved
Step-Sound o (gives_up {t} m reason found status) h = drop-Sound o t h (is_open m.request_no) reason
Step-Sound o (marks {t} n reason) h = drop-Sound o t h (has_request_no n) reason
Step-Sound o (turns {t} id s) h = turn-Sound o t h id s

-- The requests of an activity that hold a unit.
abbrev pub is_sale : Int64 → RequestRow → Bool
is_sale a m = m.activity_id == a && is_live m.status

-- A qualification that is taken away leaves the requests of other numbers theirs.
still-Backed :
    (m : RequestRow) (rs : List RequestRow) (qs : List QualificationRow)
    → count_where (has_request_no m.request_no) rs ≡ 0
    → All (Backed qs) rs
    → All (Backed (delete_where (is_held_by m) qs)) rs
still-Backed m rs qs others bs =
    All-map
      (λ r k live.
        subst (λ n. 1 ≤ n)
          (sym (
            count_where-delete_other (is_held_by r) (is_held_by m) qs
              (λ q held. other_number r m q k.1 held)))
          (k.0 live))
      rs
      (All-zip (Backed qs) (λ r. has_request_no m.request_no r ≡ false) rs bs
        (count_where-zero (has_request_no m.request_no) rs others))

-- Each of them has a qualification, and no two have the same.
sales-qualifications :
    (a : Int64) (rs : List RequestRow) (qs : List QualificationRow)
    → ((n : String) → count_where (has_request_no n) rs ≤ 1)
    → All (Backed qs) rs
    → count_where (is_sale a) rs ≤ count_where (is_of_activity a) qs
sales-qualifications a [] qs numbers backed = omega arith
sales-qualifications a (m ∷ rs) qs numbers (b, bs) = elim (Bool-cases (is_sale a m)) [
  | inl sold ↦
      let once = numbers m.request_no in
      let same = str_eq_refl m.request_no in
      let others : count_where (has_request_no m.request_no) rs ≡ 0 = ground arith in
      let later =
        sales-qualifications a rs (delete_where (is_held_by m) qs) (λ n. fewer n)
          (still-Backed m rs qs others bs) in
      let held = b (ground arith) in
      let taken =
        count_where-delete_where (is_of_activity a) (is_held_by m) qs (λ q e. ground arith) in
      rw sold omega (arith, later, held, taken)
  | inr free ↦
      let later = sales-qualifications a rs qs (λ n. fewer n) bs in rw free omega (arith, later)
]
  where
    fewer : (n : String) → count_where (has_request_no n) rs ≤ 1
    fewer n = let le = numbers n in ground arith

-- No activity ever sells more than its total stock.
pub sales_le_total :
    (o : Owner) (t : Tables) (a : ActivityRow)
    → Sound o t
    → first_where (has_activity_id a.id) t.activities ≡ some a
    → a.available_stock + count_where (is_sale a.id) t.requests ≤ a.total_stock
sales_le_total o t a h found =
    let balance =
      All-first_where (Balanced t.qualifications) (has_activity_id a.id) t.activities a h.balanced
        found in
    let le = sales-qualifications a.id t.requests t.qualifications h.numbers h.backed in
    omega (arith, balance.0, le)
