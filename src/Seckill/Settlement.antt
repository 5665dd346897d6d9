-- ===== src/Seckill/Settlement.antt =====
-- What the handlers of infra/mq leave behind where they succeed, and with that have consumed their
-- message.
use douyin_mall.Base.{
  String, true, Option, none, some, ◌≡◌, ◌∙◌, refl, sym, ap, subst, ◌⊎◌, inl, inr, Int64, arith,
  Bool-cases, World, Result, ok, >>=-ok,
}
use douyin_mall.Seckill.{
  RequestStatus, processing, order_creating, success, failed, ◌==ʳ◌, Tables, Db, Event, Error,
  Redis, Shop, in_tables, compensate, set_result, compensate_and_clear, save_result, success_result,
  failed_result, finish, roll_back, complete_order_creating, rollback_order_creating,
  order_id_or_request_no,
}
use douyin_mall.Seckill.Soundness.{str_eq_refl}
use douyin_mall.Seckill.Rows.{Row, complete_order_creating-Row, rollback_order_creating-Row}

-- The request has come to its end, in the database as in Redis.
abbrev pub Settled : {R : Type 0} → String → Shop R → Type 0
Settled n s =
    (status : RequestStatus) × ((status ≡ success) ⊎ (status ≡ failed))
    × Row n status s.tables
    × (s.redis.statuses n ≡ some status)

is_failed : (s : RequestStatus) → (s ==ʳ failed) ≡ true → s ≡ failed
is_failed failed h = refl
is_failed processing h = absurd (ground arith)
is_failed order_creating h = absurd (ground arith)
is_failed success h = absurd (ground arith)
is_failed (RequestStatus.other x) h = absurd (ground arith)

compensate-status :
    (a u : Int64) (n reason : String) (r : Redis)
    → (compensate a u (failed_result n reason) r).statuses n ≡ some failed
unfolding compensate
compensate-status a u n reason r = go (r.statuses n) refl
  where
    go :
        (s : Option RequestStatus)
        → r.statuses n ≡ s
        → (compensate a u (failed_result n reason) r).statuses n ≡ some failed
    go none e = let self = str_eq_refl n in rw (e, self) refl
    go (some s) e = elim (Bool-cases (s ==ʳ failed)) [
      | inl dead ↦ rw (e, dead) (e ∙ ap some (is_failed s dead))
      | inr alive ↦ let self = str_eq_refl n in rw (e, alive, self) refl
    ]

set_result-status :
    (n : String) (id : Int64) (r : Redis)
    → (set_result (success_result n id) r).statuses n ≡ some success
unfolding set_result
set_result-status n id r = let self = str_eq_refl n in rw self refl

module _ {R : Type 0} where
  pub in_tables-ok :
      {A : Type 0} (m : Db A) (w v : World (Shop R)) (a : A)
      → in_tables m w ≡ (ok a, v)
      → (t : World Tables) × (m (record { store = w.store.tables; tick = w.tick; fails = w.fails })
          ≡ (ok a, t))
        × (v.store.tables ≡ t.store)
  in_tables-ok {A} m w v a h = go (m start) refl h
    where
      start : World Tables
      start = record { store = w.store.tables; tick = w.tick; fails = w.fails }

      back : Result Error A × World Tables → Result Error A × World (Shop R)
      back o = (
        o.0,
        record {
          store = record w.store { tables = o.1.store };
          tick = o.1.tick;
          fails = o.1.fails;
        },
      )

      go :
          (o : Result Error A × World Tables)
          → m start ≡ o
          → back o ≡ (ok a, v)
          → (t : World Tables) × (m start ≡ (ok a, t)) × (v.store.tables ≡ t.store)
      go (r, t) e k =
          let res : r ≡ ok a = ap (λ (o : Result Error A × World (Shop R)). o.0) k in
          (
            t,
            e ∙ ap (λ x. (x, t)) res,
            sym (ap (λ (o : Result Error A × World (Shop R)). o.1.store.tables) k),
          )

  -- The last call of each branch writes the status to Redis.
  pub cleared-Settled :
      (a u : Int64) (n reason : String) (w v : World (Shop R)) {x : Unit {0}}
      → Row n failed w.store.tables
      → compensate_and_clear a u (failed_result n reason) w ≡ (ok x, v)
      → Settled n v.store
  unfolding compensate_and_clear
  cleared-Settled a u n reason w v row h =
      let same : v.store.tables ≡ w.store.tables = ground arith in
      let kept : compensate a u (failed_result n reason) w.store.redis ≡ v.store.redis =
        ground arith in
      (
        failed,
        inr refl,
        subst (Row n failed) (sym same) row,
        subst (λ (r : Redis). r.statuses n ≡ some failed) kept
            (compensate-status a u n reason w.store.redis),
      )

  pub saved-Settled :
      (n : String) (id : Int64) (w v : World (Shop R)) {x : Unit {0}}
      → Row n success w.store.tables
      → save_result (success_result n id) w ≡ (ok x, v)
      → Settled n v.store
  saved-Settled n id w v row h =
      let same : v.store.tables ≡ w.store.tables = ground arith in
      let kept : set_result (success_result n id) w.store.redis ≡ v.store.redis = ground arith in
      (
        success,
        inl refl,
        subst (Row n success) (sym same) row,
        subst (λ (r : Redis). r.statuses n ≡ some success) kept
            (set_result-status n id w.store.redis),
      )

  pub finish-Settled :
      (e : Event) (w v : World (Shop R)) {x : Unit {0}}
      → finish e w ≡ (ok x, v)
      → Settled e.request_no v.store
  finish-Settled e w v {x} h =
      let (r, u, ran, rest) =
        >>=-ok (in_tables (complete_order_creating e))
          (λ r. save_result (success_result e.request_no (order_id_or_request_no r))) w v x h in
      let (t, done, end) = in_tables-ok (complete_order_creating e) w u r ran in
      saved-Settled e.request_no (order_id_or_request_no r) u v
        (subst (Row e.request_no success) (sym end) (
          complete_order_creating-Row e
            (record { store = w.store.tables; tick = w.tick; fails = w.fails }) t r done))
        rest

  pub roll_back-Settled :
      (e : Event) (reason : String) (w v : World (Shop R)) {x : Unit {0}}
      → roll_back e reason w ≡ (ok x, v)
      → Settled e.request_no v.store
  unfolding roll_back
  roll_back-Settled e reason w v {x} h =
      let (r, u, ran, rest) =
        >>=-ok (in_tables (rollback_order_creating e reason))
          (λ r.
            compensate_and_clear e.activity_id e.user_id (failed_result e.request_no r.fail_reason))
          w v x h in
      let (t, done, end) = in_tables-ok (rollback_order_creating e reason) w u r ran in
      cleared-Settled e.activity_id e.user_id e.request_no r.fail_reason u v
        (subst (Row e.request_no failed) (sym end) (
          rollback_order_creating-Row e reason
            (record { store = w.store.tables; tick = w.tick; fails = w.fails }) t r done))
        rest
