-- ===== src/Seckill/Moves.antt =====
-- The two steps that move a unit between the stock of an activity and a request keep the tables
-- sound.
use douyin_mall.Base.{
  ℕ, String, Bool, true, some, List, [], ◌∷◌, ◌++◌, ◌≡◌, ◌≢◌, ◌≤◌, sym, subst, inl, inr, All, Int64,
  first_where, update_where, delete_where, count_where, try_update, arith, str_eq, Bool-cases,
  count_where-append, count_where-delete_other, count_where-delete_le, count_where-imp, All-zip,
  All-first_where, All-update_where, All-try_update, unique-narrow,
}
use douyin_mall.Seckill.{
  processing, order_creating, failed, ActivityRow, RequestRow, Tables, has_activity_id,
  has_request_no, has_request_no_and_status, is_of_user, set_status, move_row, minus_one,
  is_on_sale,
}
use douyin_mall.Seckill.Machine.{
  is_live, Owner, holder, is_held_by, with_requests, returned, sold_to, Balanced, Backed, Sound,
}
use douyin_mall.Seckill.Soundness.{numbers-update, update-Owned}
use douyin_mall.Seckill.Units.{
  is_held_refl, other_number, keys-move, only, sold_row, unsold_row, returned_row, other_row,
}

module _ (o : Owner) (t : Tables) (m : RequestRow) (rows : List ActivityRow) (h : Sound o t)
    (found : first_where (has_request_no m.request_no) t.requests ≡ some m) where
  -- The sale of a unit to `m`.
  module _ (now : ℕ) (status : m.status ≡ processing)
      (free : count_where (is_of_user m.activity_id m.user_id) t.qualifications ≡ 0)
      (on_sale : count_where (is_on_sale m.activity_id now) t.activities ≢ 0)
      (moved : try_update (is_on_sale m.activity_id now) (move_row minus_one) t.activities
        ≡ some rows) where
    sold-single :
        (b u : Int64) → count_where (is_of_user b u) (t.qualifications ++ holder m ∷ []) ≤ 1
    sold-single b u =
        subst (λ k. k ≤ 1) (sym (count_where-append (is_of_user b u) t.qualifications (holder m)))
          (elim (Bool-cases (is_of_user b u (holder m))) [
            | inl same ↦
                let act : m.activity_id ≡ b = ground arith in
                let user : m.user_id ≡ u = ground arith in
                let none_yet : count_where (is_of_user b u) t.qualifications ≡ 0 =
                  subst (λ x. count_where (is_of_user x u) t.qualifications ≡ 0) act
                    (subst (λ x. count_where (is_of_user m.activity_id x) t.qualifications ≡ 0) user
                      free) in
                rw same omega (arith, none_yet)
            | inr differ ↦ let le = h.single b u in rw differ omega (arith, le)
          ])

    sold-Backed : All (Backed (t.qualifications ++ holder m ∷ [])) (
        update_where
          (has_request_no_and_status m.request_no processing)
          (set_status order_creating "")
          t.requests)
    sold-Backed =
        All-update_where
          (λ r. Backed t.qualifications r × (has_request_no m.request_no r ≡ true → r ≡ m))
          (Backed (t.qualifications ++ holder m ∷ []))
          (has_request_no_and_status m.request_no processing) (set_status order_creating "")
          t.requests
          (λ r k e _.
            subst (λ n. 1 ≤ n) (sym (count_where-append (is_held_by r) t.qualifications (holder m)))
              (let same = k.1 (ground arith) in
                let held : is_held_by r (holder m) ≡ true =
                  subst (λ x. is_held_by x (holder m) ≡ true) (sym same) (is_held_refl m) in
                rw held omega arith))
          (λ r k e live.
            subst (λ n. 1 ≤ n) (sym (count_where-append (is_held_by r) t.qualifications (holder m)))
              (let le = k.0 live in ground arith))
          (All-zip (Backed t.qualifications) (λ r. has_request_no m.request_no r ≡ true → r ≡ m)
            t.requests h.backed (only o t m h found))

    sold-Balanced : All (Balanced (t.qualifications ++ holder m ∷ [])) rows
    sold-Balanced =
        All-try_update
          (λ r.
            Balanced t.qualifications r
            × (has_activity_id m.activity_id r ≡ true → is_on_sale m.activity_id now r ≡ true))
          (Balanced (t.qualifications ++ holder m ∷ [])) (is_on_sale m.activity_id now)
          (move_row minus_one) t.activities rows
          (λ r r' k e mv. sold_row t.qualifications m now r r' k.0 e mv)
          (λ r k e.
            unsold_row t.qualifications m r k.0
              (elim (Bool-cases (has_activity_id m.activity_id r)) [
                | inl b ↦ let c = k.1 b in absurd (ground arith)
                | inr b ↦ b
              ]))
          moved
          (All-zip (Balanced t.qualifications)
            (λ r. has_activity_id m.activity_id r ≡ true → is_on_sale m.activity_id now r ≡ true)
            t.activities h.balanced
            (unique-narrow (has_activity_id m.activity_id) (is_on_sale m.activity_id now)
              t.activities (λ r e. ground arith) (h.keys m.activity_id) on_sale))

    pub sell-Sound : Sound o (
        with_requests
          (has_request_no_and_status m.request_no processing)
          order_creating
          ""
          (sold_to m rows t))
    sell-Sound = record {
      keys = keys-move o t (is_on_sale m.activity_id now) minus_one rows h moved;
      numbers =
          numbers-update o t h (has_request_no_and_status m.request_no processing) order_creating
            "";
      single = sold-single;
      owned =
          update-Owned o t h (has_request_no_and_status m.request_no processing) order_creating "";
      backed = sold-Backed;
      balanced = sold-Balanced;
    }

  -- The return of a unit from `m`, whose number the UPDATE of the requests covers.
  module _ (p : RequestRow → Bool) (reason : String) (covers : p m ≡ true)
      (live : is_live m.status ≡ true)
      (moved : try_update (has_activity_id m.activity_id) (move_row 1) t.activities
        ≡ some rows) where
    one_held : count_where (is_held_by m) t.qualifications ≡ 1
    one_held =
        let at_least =
          All-first_where (Backed t.qualifications) (has_request_no m.request_no) t.requests m
            h.backed found live in
        let at_most = h.single m.activity_id m.user_id in
        let le =
          count_where-imp (is_of_user m.activity_id m.user_id) (is_held_by m) t.qualifications
            (λ q e. ground arith) in
        omega (arith, at_least, at_most, le)

    returned-Backed :
        All
          (Backed (delete_where (is_held_by m) t.qualifications))
          (update_where p (set_status failed reason) t.requests)
    returned-Backed =
        All-update_where
          (λ r. Backed t.qualifications r × (has_request_no m.request_no r ≡ true → r ≡ m))
          (Backed (delete_where (is_held_by m) t.qualifications)) p (set_status failed reason)
          t.requests (λ r k e dead. absurd (ground arith))
          (λ r k e alive. elim (Bool-cases (str_eq r.request_no m.request_no)) [
            | inl b ↦
                let covered = subst (λ x. p x ≡ true) (sym (k.1 b)) covers in absurd (ground arith)
            | inr b ↦
                subst (λ n. 1 ≤ n)
                  (sym (
                    count_where-delete_other (is_held_by r) (is_held_by m) t.qualifications
                      (λ q held. other_number r m q b held)))
                  (k.0 alive)
          ])
          (All-zip (Backed t.qualifications) (λ r. has_request_no m.request_no r ≡ true → r ≡ m)
            t.requests h.backed (only o t m h found))

    pub return-Sound : Sound o (with_requests p failed reason (returned m rows t))
    return-Sound = record {
      keys = keys-move o t (has_activity_id m.activity_id) 1 rows h moved;
      numbers = numbers-update o t h p failed reason;
      single = (λ b u.
          let le = count_where-delete_le (is_of_user b u) (is_held_by m) t.qualifications in
          let one = h.single b u in omega (arith, le, one));
      owned = update-Owned o t h p failed reason;
      backed = returned-Backed;
      balanced =
          All-try_update (Balanced t.qualifications)
            (Balanced (delete_where (is_held_by m) t.qualifications))
            (has_activity_id m.activity_id) (move_row 1) t.activities rows
            (λ r r' k e mv. returned_row t.qualifications m r r' k one_held e mv)
            (λ r k e. other_row t.qualifications m r k e) moved h.balanced;
    }
