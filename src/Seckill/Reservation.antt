-- ===== src/Seckill/Reservation.antt =====
-- The Lua scripts on Redis: the units in the stock of an activity and the markers of its users.
use douyin_mall.Base.{
  ℕ, String, Bool, true, false, none, some, List, [], ◌∷◌, ◌++◌, ◌≡◌, ◌≤◌, ◌<◌, ◌+◌, ◌==◌, refl,
  sym, ap, subst, inl, inr, ◌∙◌, Int64, half64, add64, sub64, le64, arith, Bool-cases, first_where,
  count_where, count_where-append, count_where-delete_where, count_where-delete_other,
  count_where-delete_le,
}
use douyin_mall.Seckill.{Marker, Redis, is_marker, set_number, give_back_unit}

abbrev pub is_marker_of : Int64 → Marker → Bool
is_marker_of a m = m.activity_id == a

-- Of the activity `a`, the units in stock and the users that hold a marker make up `total`, and no
-- user holds two.
pub record Reserved (a total : ℕ) (r : Redis) : Type 0 where
  pub stock : ℕ
  pub in_stock : r.stocks a ≡ some stock
  pub balance : stock + count_where (is_marker_of a) r.markers ≡ total
  pub small : total < half64
  pub single : (b u : Int64) → count_where (is_marker b u) r.markers ≤ 1

pay_one : (s : ℕ) → s < half64 → le64 s 0 ≡ false → sub64 s 1 + 1 ≡ s
pay_one s h k = ground arith

get_one : (s : ℕ) → s < half64 → add64 s 1 ≡ s + 1
get_one s h = omega arith

pub none_marked :
    (b u : Int64) (ms : List Marker)
    → first_where (is_marker b u) ms ≡ none
    → count_where (is_marker b u) ms ≡ 0
none_marked b u [] h = refl
none_marked b u (m ∷ ms) h = ground (arith, none_marked b u ms)

abbrev pub marker : Int64 → Int64 → String → Marker
marker b u n = record { activity_id = b; user_id = u; request_no = n }

abbrev pub taken : Int64 → Int64 → String → Int64 → Redis → Redis
taken b u n s r = record r {
  stocks = set_number b (sub64 s 1) r.stocks;
  markers = r.markers ++ marker b u n ∷ [];
}

module _ (a total : ℕ) (r : Redis) (h : Reserved a total r) (b u : Int64) where
  taken-single :
      (n : String)
      → count_where (is_marker b u) r.markers ≡ 0
      → (c x : Int64) → count_where (is_marker c x) (r.markers ++ marker b u n ∷ []) ≤ 1
  taken-single n free c x =
      subst (λ k. k ≤ 1) (sym (count_where-append (is_marker c x) r.markers (marker b u n)))
        (elim (Bool-cases (is_marker c x (marker b u n))) [
          | inl same ↦
              let act : b ≡ c = ground arith in
              let user : u ≡ x = ground arith in
              let none_yet : count_where (is_marker c x) r.markers ≡ 0 =
                subst (λ y. count_where (is_marker c y) r.markers ≡ 0) user
                  (subst (λ y. count_where (is_marker y u) r.markers ≡ 0) act free) in
              rw same omega (arith, none_yet)
          | inr differ ↦ let le = h.single c x in rw differ omega (arith, le)
        ])

  pub taken-Reserved :
      (n : String) (s : Int64)
      → count_where (is_marker b u) r.markers ≡ 0
      → r.stocks b ≡ some s
      → le64 s 0 ≡ false
      → Reserved a total (taken b u n s r)
  taken-Reserved n s free found positive = elim (Bool-cases (a == b)) [
    | inl here ↦
        let eq : a ≡ b = ground arith in
        let both : some h.stock ≡ some s = sym h.in_stock ∙ (ap r.stocks eq ∙ found) in
        let stock_eq : h.stock ≡ s = ground arith in
        let bal = h.balance in
        let small = h.small in
        let marked : is_marker_of a (marker b u n) ≡ true = ground arith in
        record {
          stock = sub64 s 1;
          in_stock = rw here refl;
          balance =
              rw (count_where-append (is_marker_of a) r.markers (marker b u n), marked) omega
                (arith, bal, stock_eq, pay_one s (omega (arith, bal, small, stock_eq)) positive);
          small = h.small;
          single = taken-single n free;
        }
    | inr there ↦
        let other : is_marker_of a (marker b u n) ≡ false = ground arith in
        let bal = h.balance in
        record {
          stock = h.stock;
          in_stock = rw there h.in_stock;
          balance =
              rw (count_where-append (is_marker_of a) r.markers (marker b u n), other) omega
                (arith, bal);
          small = h.small;
          single = taken-single n free;
        }
  ]

  pub returned-Reserved :
      1 ≤ count_where (is_marker b u) r.markers → Reserved a total (give_back_unit b u r)
  returned-Reserved held = elim (Bool-cases (a == b)) [
    | inl here ↦
        let eq : a ≡ b = ground arith in
        let left =
          count_where-delete_where (is_marker_of a) (is_marker b u) r.markers
            (λ m e. ground arith) in
        let one = h.single b u in
        let found = ap r.stocks (sym eq) ∙ h.in_stock in
        record {
          stock = add64 h.stock 1;
          in_stock = rw (here, found) refl;
          balance =
              let bal = h.balance in
              let small = h.small in
              let more = get_one h.stock (omega (arith, bal, small)) in
              omega (arith, left, one, held, bal, more);
          small = h.small;
          single = (λ c x.
              let le = count_where-delete_le (is_marker c x) (is_marker b u) r.markers in
              let one = h.single c x in omega (arith, le, one));
        }
    | inr there ↦ record {
      stock = h.stock;
      in_stock = rw there h.in_stock;
      balance =
          ap (λ k. h.stock + k)
            (count_where-delete_other (is_marker_of a) (is_marker b u) r.markers
              (λ m e. ground arith))
          ∙ h.balance;
      small = h.small;
      single = (λ c x.
          let le = count_where-delete_le (is_marker c x) (is_marker b u) r.markers in
          let one = h.single c x in omega (arith, le, one));
    }
  ]
