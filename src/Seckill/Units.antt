-- ===== src/Seckill/Units.antt =====
-- A unit that moves between the stock of an activity and a request, row by row.
use douyin_mall.Base.{
  ℕ, Bool, true, false, some, List, [], ◌∷◌, ◌++◌, ◌≡◌, ◌≤◌, ◌<◌, ◌+◌, refl, sym, ap, subst, inl,
  inr, ◌∙◌, All, Int64, Int32, half32, first_where, delete_where, count_where, try_update, arith,
  str_eq, eq_iff, Bool-cases, Option-cases, le32, ◌==◌, sql_add32, sql_add, count_where-append,
  count_where-try_update, count_where-delete_where, count_where-delete_other, unique-first_where,
}
use douyin_mall.Seckill.{
  ActivityRow, RequestRow, QualificationRow, Tables, has_activity_id, has_request_no, move_row,
  minus_one, is_on_sale,
}
use douyin_mall.Seckill.Machine.{Owner, holder, is_held_by, is_of_activity, Balanced, Sound}
use douyin_mall.Seckill.Soundness.{str_eq_refl}

-- What `move_row` leaves of a row.
move_row-keeps :
    (by : Int32) (r r' : ActivityRow)
    → move_row by r ≡ some r'
    → (r'.id ≡ r.id)
      × (r'.total_stock ≡ r.total_stock)
      × (sql_add32 r.available_stock by ≡ some r'.available_stock)
unfolding move_row
move_row-keeps by r r' h = elim (Option-cases (sql_add32 r.available_stock by)) [
  | inl a ↦ absurd (ground arith)
  | inr (x, a) ↦ elim (Option-cases (sql_add r.version 1)) [
    | inl b ↦ absurd (ground arith)
    | inr (v, b) ↦
        let eq : record r { available_stock = x; version = v } ≡ r' = ground arith in
        (
          sym (ap (λ (m : ActivityRow). m.id) eq),
          sym (ap (λ (m : ActivityRow). m.total_stock) eq),
          a ∙ ap (λ (m : ActivityRow). some m.available_stock) eq,
        )
  ]
]

take_one : (a b : Int32) → a < half32 → le32 1 a ≡ true → sql_add32 a minus_one ≡ some b → b + 1 ≡ a
take_one a b h k e = ground arith

give_one : (a b : Int32) → a + 1 < half32 → sql_add32 a 1 ≡ some b → b ≡ a + 1
give_one a b h e = ground arith

-- The rows of an activity keep their keys.
pub keys-move :
    (o : Owner) (t : Tables) (q : ActivityRow → Bool) (by : Int32) (rows : List ActivityRow)
    → Sound o t
    → try_update q (move_row by) t.activities ≡ some rows
    → (a : Int64) → count_where (has_activity_id a) rows ≤ 1
keys-move o t q by rows h moved a =
    subst (λ k. k ≤ 1)
      (sym (
        count_where-try_update (has_activity_id a) q (move_row by) t.activities rows
          (λ r r' e. ap (λ i. i == a) (move_row-keeps by r r' e).0) moved))
      (h.keys a)

-- Every request of the number of `m` is `m`.
pub only :
    (o : Owner) (t : Tables) (m : RequestRow)
    → Sound o t
    → first_where (has_request_no m.request_no) t.requests ≡ some m
    → All (λ r. has_request_no m.request_no r ≡ true → r ≡ m) t.requests
only o t m h found =
    unique-first_where (has_request_no m.request_no) t.requests m (h.numbers m.request_no) found

pub is_held_refl : (m : RequestRow) → is_held_by m (holder m) ≡ true
is_held_refl m = let eq = str_eq_refl m.request_no in ground arith

-- A qualification is held under one number.
pub other_number :
    (r m : RequestRow) (q : QualificationRow)
    → str_eq r.request_no m.request_no ≡ false
    → is_held_by m q ≡ true
    → is_held_by r q ≡ false
other_number r m q b held = elim (Bool-cases (is_held_by r q)) [
  | inl c ↦
      let of_m = (eq_iff q.request_no m.request_no).0 (ground arith) in
      let of_r = (eq_iff q.request_no r.request_no).0 (ground arith) in
      let same = (eq_iff r.request_no m.request_no).1 (sym of_r ∙ of_m) in absurd (ground arith)
  | inr c ↦ c
]

-- A row that takes the place of another whose units are as many.
rebalance :
    (qs qs' : List QualificationRow) (r r' : ActivityRow)
    → Balanced qs r
    → r'.id ≡ r.id
    → r'.total_stock ≡ r.total_stock
    → r'.available_stock + count_where (is_of_activity r.id) qs'
      ≡ r.available_stock + count_where (is_of_activity r.id) qs
    → Balanced qs' r'
rebalance qs qs' r r' (b, small) id total units = (
  subst (λ i. r'.available_stock + count_where (is_of_activity i) qs' ≡ r'.total_stock) (sym id)
      (units ∙ (b ∙ sym total)),
  subst (λ n. n < half32) (sym total) small,
)

pub sold_row :
    (qs : List QualificationRow) (m : RequestRow) (now : ℕ) (r r' : ActivityRow)
    → Balanced qs r
    → is_on_sale m.activity_id now r ≡ true
    → move_row minus_one r ≡ some r'
    → Balanced (qs ++ holder m ∷ []) r'
sold_row qs m now r r' b e mv =
    let keeps = move_row-keeps minus_one r r' mv in
    let same : r.id ≡ m.activity_id = ground arith in
    let here : is_of_activity r.id (holder m) ≡ true = ground arith in
    let one = take_one r.available_stock r'.available_stock (ground arith) (ground arith) keeps.2 in
    rebalance qs (qs ++ holder m ∷ []) r r' b keeps.0 keeps.1
      (rw (count_where-append (is_of_activity r.id) qs (holder m), here) omega (arith, one))

pub unsold_row :
    (qs : List QualificationRow) (m : RequestRow) (r : ActivityRow)
    → Balanced qs r
    → has_activity_id m.activity_id r ≡ false
    → Balanced (qs ++ holder m ∷ []) r
unsold_row qs m r b e =
    let other : is_of_activity r.id (holder m) ≡ false = ground arith in
    rebalance qs (qs ++ holder m ∷ []) r r b refl refl
      (rw (count_where-append (is_of_activity r.id) qs (holder m), other) omega arith)

-- The unit that comes back from a request that has one qualification.
pub returned_row :
    (qs : List QualificationRow) (m : RequestRow) (r r' : ActivityRow)
    → Balanced qs r
    → count_where (is_held_by m) qs ≡ 1
    → has_activity_id m.activity_id r ≡ true
    → move_row 1 r ≡ some r'
    → Balanced (delete_where (is_held_by m) qs) r'
returned_row qs m r r' b one e mv =
    let keeps = move_row-keeps 1 r r' mv in
    let same : r.id ≡ m.activity_id = ground arith in
    let left =
      count_where-delete_where (is_of_activity r.id) (is_held_by m) qs (λ q held. ground arith) in
    let more = give_one r.available_stock r'.available_stock (ground arith) keeps.2 in
    rebalance qs (delete_where (is_held_by m) qs) r r' b keeps.0 keeps.1
      (omega (arith, left, one, more))

pub other_row :
    (qs : List QualificationRow) (m : RequestRow) (r : ActivityRow)
    → Balanced qs r
    → has_activity_id m.activity_id r ≡ false
    → Balanced (delete_where (is_held_by m) qs) r
other_row qs m r b e = rebalance qs (delete_where (is_held_by m) qs) r r b refl refl (
    rw (count_where-delete_other (is_of_activity r.id) (is_held_by m) qs (λ q held. ground arith))
      refl)
