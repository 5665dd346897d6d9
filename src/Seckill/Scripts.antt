-- ===== src/Seckill/Scripts.antt =====
-- The Lua scripts on Redis, one after the other.
use douyin_mall.Base.{
  ℕ, String, Option, none, some, List, [], ◌∷◌, ◌≡◌, refl, inl, inr, Int64, le64, arith, str_eq,
  Bool-cases, Option-cases, count_where-first_where,
}
use douyin_mall.Seckill.{
  RequestStatus, processing, order_creating, success, failed, RequestResult, Redis, is_marker,
  get_marker, atomic_reserve, compensate, resolve_transaction, set_result, failed_result, marked_by,
  resolve_from, put_result, processing_result, give_back_unit, has_status,
}
use douyin_mall.Seckill.Soundness.{str_eq_refl}
use douyin_mall.Seckill.Reservation.{Reserved, none_marked, taken-Reserved, returned-Reserved}

-- The scripts, and `SetResult`.
pub data Script : Type 0 where
  reserve : Int64 → Int64 → String → Script
  repay : Int64 → Int64 → RequestResult → Script
  resolve : Int64 → Int64 → String → Script
  save : RequestResult → Script

abbrev pub eval : Script → Redis → Redis
eval (reserve b u n) r = (atomic_reserve b u n r).1
eval (repay b u x) r = compensate b u x r
eval (resolve b u n) r = (resolve_transaction b u n r).1
eval (save x) r = set_result x r

put-Reserved :
    (a total : ℕ) (x : RequestResult) (r : Redis)
    → Reserved a total r
    → Reserved a total (put_result x r)
put-Reserved a total x r h = record {
  stock = h.stock;
  in_stock = h.in_stock;
  balance = h.balance;
  small = h.small;
  single = h.single;
}

save-Reserved :
    (a total : ℕ) (x : RequestResult) (r : Redis)
    → Reserved a total r
    → Reserved a total (set_result x r)
unfolding set_result
save-Reserved a total x r h = put-Reserved a total x r h

reserve-Reserved :
    (a total : ℕ) (b u : Int64) (n : String) (r : Redis)
    → Reserved a total r
    → Reserved a total (atomic_reserve b u n r).1
unfolding atomic_reserve
reserve-Reserved a total b u n r h = elim (Option-cases (get_marker b u r)) [
  | inr (m, found) ↦ rw found h
  | inl free ↦ elim (Option-cases (r.stocks b)) [
    | inl missing ↦ rw (free, missing) h
    | inr (s, found) ↦ elim (Bool-cases (le64 s 0)) [
      | inl empty ↦ rw (free, found, empty) h
      | inr positive ↦
          let t =
            taken-Reserved a total r h b u n s (none_marked b u r.markers free) found positive in
          rw (free, found, positive) t
    ]
  ]
]

repay-Reserved :
    (a total : ℕ) (b u : Int64) (x : RequestResult) (r : Redis)
    → Reserved a total r
    → Reserved a total (compensate b u x r)
unfolding compensate
repay-Reserved a total b u x r h =
    elim (Bool-cases (has_status x.status (r.statuses x.request_no))) [
      | inl repeated ↦ rw repeated h
      | inr first ↦ elim (Option-cases (get_marker b u r)) [
        | inl free ↦ rw (first, free) (put-Reserved a total x r h)
        | inr (m, found) ↦ elim (Bool-cases (str_eq m.request_no x.request_no)) [
          | inr other ↦ rw (first, found, other) (put-Reserved a total x r h)
          | inl own ↦
              let held = count_where-first_where (is_marker b u) r.markers m found in
              let t = returned-Reserved a total r h b u (ground arith) in
              rw (first, found, own) (put-Reserved a total x (give_back_unit b u r) t)
        ]
      ]
    ]

resolve-Reserved :
    (a total : ℕ) (b u : Int64) (n : String) (r : Redis)
    → Reserved a total r
    → Reserved a total (resolve_transaction b u n r).1
unfolding resolve_transaction
resolve-Reserved a total b u n r h = go (r.statuses n)
  where
    go : (s : Option RequestStatus) → Reserved a total (resolve_from b u n s r).1
    go (some failed) = h
    go (some processing) = h
    go (some order_creating) = h
    go (some success) = h
    go (some (RequestStatus.other x)) = h
    go none = elim (Bool-cases (marked_by n (get_marker b u r))) [
      | inl own ↦ rw own (put-Reserved a total (processing_result n) r h)
      | inr other ↦ rw other h
    ]

abbrev pub eval_all : List Script → Redis → Redis
eval_all [] r = r
eval_all (x ∷ xs) r = eval_all xs (eval x r)

-- Through any sequence of the scripts, the units of an activity in the stock of Redis and the users
-- with a marker of it make up the same total, and no user has two markers.
pub eval_all-Reserved :
    (a total : ℕ) (xs : List Script) (r : Redis)
    → Reserved a total r
    → Reserved a total (eval_all xs r)
eval_all-Reserved a total [] r h = h
eval_all-Reserved a total (reserve b u n ∷ xs) r h =
    eval_all-Reserved a total xs (atomic_reserve b u n r).1 (reserve-Reserved a total b u n r h)
eval_all-Reserved a total (repay b u x ∷ xs) r h =
    eval_all-Reserved a total xs (compensate b u x r) (repay-Reserved a total b u x r h)
eval_all-Reserved a total (resolve b u n ∷ xs) r h =
    eval_all-Reserved a total xs (resolve_transaction b u n r).1
      (resolve-Reserved a total b u n r h)
eval_all-Reserved a total (save x ∷ xs) r h =
    eval_all-Reserved a total xs (set_result x r) (save-Reserved a total x r h)

-- A compensation that comes again, with any reason, changes nothing.
pub compensate-repeat :
    (b u c v : Int64) (n reason again : String) (r : Redis)
    → compensate c v (failed_result n again) (compensate b u (failed_result n reason) r)
      ≡ compensate b u (failed_result n reason) r
unfolding compensate
compensate-repeat b u c v n reason again r = elim (Bool-cases (has_status failed (r.statuses n))) [
  | inl repeated ↦ rw (repeated, repeated) refl
  | inr first ↦ let self = str_eq_refl n in rw (first, self) refl
]
