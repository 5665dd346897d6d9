-- ===== src/Seckill/Soundness.antt =====
-- Every step of the abstract machine keeps the tables sound.
use douyin_mall.Base.{
  String, Bool, true, [], ◌∷◌, ◌++◌, ◌≡◌, ◌≤◌, refl, sym, subst, inl, inr, All, All-append, Int64,
  update_where, count_where, arith, str_eq, eq_iff, Bool-cases, count_where-append,
  count_where-update_where, All-update_where,
}
use douyin_mall.Seckill.{
  ActivityStatus, RequestStatus, processing, order_creating, success, failed, RequestRow, Tables,
  has_activity_id, has_request_no, has_request_no_and_status, set_status,
}
use douyin_mall.Seckill.Machine.{Owner, Owned, with_requests, Balanced, Backed, Sound}

pub str_eq_refl : (s : String) → str_eq s s ≡ true
str_eq_refl s = (eq_iff s s).1 refl

-- An UPDATE of requests to a status that holds no unit, or to one from another that holds one.
module _ (o : Owner) (t : Tables) (h : Sound o t) where
  pub numbers-update :
      (p : RequestRow → Bool) (s : RequestStatus) (reason : String) (n : String)
      → count_where (has_request_no n) (update_where p (set_status s reason) t.requests) ≤ 1
  numbers-update p s reason n =
      subst (λ k. k ≤ 1)
        (sym (
          count_where-update_where (has_request_no n) p (set_status s reason) t.requests
            (λ r. refl)))
        (h.numbers n)

  pub update-Owned :
      (p : RequestRow → Bool) (s : RequestStatus) (reason : String)
      → All (Owned o) (update_where p (set_status s reason) t.requests)
  update-Owned p s reason =
      All-update_where (Owned o) (Owned o) p (set_status s reason) t.requests (λ r k _. k)
        (λ r k _. k) h.owned

  pub drop-Sound :
      (p : RequestRow → Bool) (reason : String) → Sound o (with_requests p failed reason t)
  drop-Sound p reason = record {
    keys = h.keys;
    single = h.single;
    balanced = h.balanced;
    numbers = numbers-update p failed reason;
    owned = update-Owned p failed reason;
    backed =
        All-update_where (Backed t.qualifications) (Backed t.qualifications) p
          (set_status failed reason) t.requests (λ r k _ dead. absurd (ground arith)) (λ r k _. k)
          h.backed;
  }

  pub confirm-Sound :
      (n : String)
      → Sound o (with_requests (has_request_no_and_status n order_creating) success "" t)
  confirm-Sound n = record {
    keys = h.keys;
    single = h.single;
    balanced = h.balanced;
    numbers = numbers-update (has_request_no_and_status n order_creating) success "";
    owned = update-Owned (has_request_no_and_status n order_creating) success "";
    backed =
        All-update_where (Backed t.qualifications) (Backed t.qualifications)
          (has_request_no_and_status n order_creating) (set_status success "") t.requests
          (λ r k e _. k (ground arith)) (λ r k _. k) h.backed;
  }

  pub turn-Sound :
      (id : Int64) (s : ActivityStatus)
      → Sound o (record t {
        activities = update_where (has_activity_id id) (λ m. record m { status = s }) t.activities;
      })
  turn-Sound id s = record {
    numbers = h.numbers;
    single = h.single;
    owned = h.owned;
    backed = h.backed;
    keys = (λ a.
        subst (λ k. k ≤ 1)
          (sym (
            count_where-update_where (has_activity_id a) (has_activity_id id)
              (λ m. record m { status = s }) t.activities (λ r. refl)))
          (h.keys a));
    balanced =
        All-update_where (Balanced t.qualifications) (Balanced t.qualifications)
          (has_activity_id id) (λ m. record m { status = s }) t.activities (λ r k _. k) (λ r k _. k)
          h.balanced;
  }

  pub enter-Sound :
      (m : RequestRow) (next : Int64)
      → m.status ≡ processing
      → Owned o m
      → count_where (has_request_no m.request_no) t.requests ≡ 0
      → Sound o (record t { requests = t.requests ++ m ∷ []; next_request_id = next })
  enter-Sound m next status own fresh = record {
    keys = h.keys;
    single = h.single;
    balanced = h.balanced;
    numbers = (λ n.
        subst (λ k. k ≤ 1) (sym (count_where-append (has_request_no n) t.requests m))
          (elim (Bool-cases (str_eq m.request_no n)) [
            | inl same ↦
                let eq = (eq_iff m.request_no n).0 same in
                let none_yet : count_where (has_request_no n) t.requests ≡ 0 =
                  subst (λ x. count_where (has_request_no x) t.requests ≡ 0) eq fresh in
                rw same omega (arith, none_yet)
            | inr differ ↦ let le = h.numbers n in rw differ omega (arith, le)
          ]));
    owned = All-append (Owned o) t.requests m h.owned own;
    backed =
        All-append (Backed t.qualifications) t.requests m h.backed
          (λ live. absurd (ground (arith, status)));
  }
