-- ===== src/Seckill/Refinement.antt =====
-- infra/repository/gorm.go implements the abstract machine: each operation is one step or nothing,
-- whatever fails, and so a run of them keeps the tables sound.
use douyin_mall.Base.{
  ℕ, String, some, List, [], ◌∷◌, ◌≡◌, ◌≤◌, ◌+◌, refl, sym, ap, subst, subst₂, inl, inr, ◌∙◌, All,
  Int64, first_where, count_where, first_where-holds, All-first_where, eq_iff, World, ok,
  transaction, transaction-cases, >>=-ok, ◌>>=◌,
}
use douyin_mall.Seckill.{
  ActivityStatus, processing, ActivityRow, RequestRow, Tables, Db, Event, Request, call_failed,
  has_activity_id, has_request_no, first_request, create_request, update_activity_status,
  advance_from, advance_processing, complete_from, complete_order_creating, rollback_from,
  rollback_order_creating, close_from, close_by_order_result, mark_fail,
}
use douyin_mall.Seckill.Machine.{Owner, Owned, Sound}
use douyin_mall.Seckill.Statements.{first_request-ok}
use douyin_mall.Seckill.Advance.{Moved, event_of, advance_from-Moved}
use douyin_mall.Seckill.Returns.{
  complete_from-Moved, rollback_from-Moved, close_from-Moved, mark_fail-Moved,
  update_activity_status-Moved, create_request-Moved,
}
use douyin_mall.Seckill.Reachable.{Step-Sound, is_sale, sales_le_total}

-- A transaction whose body is a step is one.
transaction-Moved :
    (o : Owner) {A : Type 0} (body : Db A) (w : World Tables)
    → ((a : A) (u v : World Tables)
        → u.store ≡ w.store
        → body u ≡ (ok a, v)
        → Moved o u.store v.store)
    → Moved o w.store (transaction call_failed body w).1.store
transaction-Moved o {A} body w step = elim (transaction-cases call_failed body w) [
  | inl (x, _, same) ↦ inl same
  | inr (a, u, v, _, start, _, ran, end) ↦ subst₂ (Moved o) start (sym end) (step a u v start ran)
]

-- The transactions begin with the locking read of a row, which has the number that was asked for.
read-Moved :
    (o : Owner) {A : Type 0} (n : String) (f : RequestRow → Db A) (a : A) (u v : World Tables)
    → ((m : RequestRow) (w : World Tables)
        → w.store ≡ u.store
        → m.request_no ≡ n
        → first_where (has_request_no m.request_no) w.store.requests ≡ some m
        → f m w ≡ (ok a, v)
        → Moved o w.store v.store)
    → (first_request n >>= f) u ≡ (ok a, v)
    → Moved o u.store v.store
read-Moved o n f a u v step h =
    let (m, w, ran, rest) = >>=-ok (first_request n) f u v a h in
    let (found, same) = first_request-ok n u w m ran in
    let number =
      (eq_iff m.request_no n).0 (first_where-holds (has_request_no n) u.store.requests m found) in
    let found_here : first_where (has_request_no m.request_no) w.store.requests ≡ some m =
      subst₂ (λ x (t : Tables). first_where (has_request_no x) t.requests ≡ some m) (sym number)
        (sym same) found in
    subst (λ t. Moved o t v.store) same (step m w same number found_here rest)

-- The event of a request names the activity and the user of its row.
own_event :
    (o : Owner) (t : Tables) (e : Event) (m : RequestRow)
    → Sound o t
    → o e.request_no ≡ (e.activity_id, e.user_id)
    → m.request_no ≡ e.request_no
    → first_where (has_request_no m.request_no) t.requests ≡ some m
    → e ≡ event_of e m
own_event o t e m h own number found =
    let of_row =
      All-first_where (Owned o) (has_request_no m.request_no) t.requests m h.owned found in
    let pair : ◌≡◌ {A = Int64 × Int64} (e.activity_id, e.user_id) (m.activity_id, m.user_id) =
      sym own ∙ (ap o (sym number) ∙ of_row) in
    ap (λ n. record e { request_no = n }) (sym number)
    ∙ ap
        (λ (p : Int64 × Int64). record e {
          request_no = m.request_no;
          activity_id = p.0;
          user_id = p.1;
        })
        pair

-- The operations that change the rows of requests, and the status of an activity.
pub data Operation : Type 0 where
  enter : Request → Operation
  advance : ℕ → Event → Operation
  complete : Event → Operation
  rollback : Event → String → Operation
  close : String → String → Operation
  fail : String → String → Operation
  turn : Int64 → ActivityStatus → Operation

-- The tables after an operation, which may have failed.
abbrev pub execute : Operation → World Tables → World Tables
execute (enter r) w = (create_request r w).1
execute (advance now e) w = (advance_processing now e w).1
execute (complete e) w = (complete_order_creating e w).1
execute (rollback e reason) w = (rollback_order_creating e reason w).1
execute (close n reason) w = (close_by_order_result n reason w).1
execute (fail n reason) w = (mark_fail n reason w).1
execute (turn id s) w = (update_activity_status id s w).1

-- What the callers see to: a number stands for one activity and one user in every message, and a
-- request begins as one that is processing.
abbrev pub IsGenuine : Owner → Operation → Type 0
IsGenuine o (enter r) = (r.status ≡ processing) × (o r.request_no ≡ (r.activity_id, r.user_id))
IsGenuine o (advance now e) = o e.request_no ≡ (e.activity_id, e.user_id)
IsGenuine o (complete e) = Unit
IsGenuine o (rollback e reason) = o e.request_no ≡ (e.activity_id, e.user_id)
IsGenuine o (close n reason) = Unit
IsGenuine o (fail n reason) = Unit
IsGenuine o (turn id s) = Unit

-- Whatever fails, a genuine operation on sound tables changes nothing or takes one step of the
-- abstract machine.
pub execute-Moved :
    (o : Owner) (op : Operation) (w : World Tables)
    → Sound o w.store
    → IsGenuine o op
    → Moved o w.store (execute op w).store
unfolding advance_processing complete_order_creating rollback_order_creating close_by_order_result
execute-Moved o (enter r) w h (status, own) = create_request-Moved o r w status own
execute-Moved o (advance now e) w h own =
    transaction-Moved o (first_request e.request_no >>= λ m. advance_from now e m m.status) w
      (λ a u v start ran.
        read-Moved o e.request_no (λ m. advance_from now e m m.status) a u v
          (λ m t same number found rest.
            let event =
              own_event o t.store e m (subst (Sound o) (sym (same ∙ start)) h) own number found in
            advance_from-Moved o now e m t v a m.status refl found
              (subst (λ x. advance_from now x m m.status t ≡ (ok a, v)) event rest))
          ran)
execute-Moved o (complete e) w h own =
    transaction-Moved o (first_request e.request_no >>= λ m. complete_from e m m.status) w
      (λ a u v start ran.
        read-Moved o e.request_no (λ m. complete_from e m m.status) a u v
          (λ m t same number found rest. complete_from-Moved o m t v e a m.status rest) ran)
execute-Moved o (rollback e reason) w h own =
    transaction-Moved o (first_request e.request_no >>= λ m. rollback_from e reason m m.status) w
      (λ a u v start ran.
        read-Moved o e.request_no (λ m. rollback_from e reason m m.status) a u v
          (λ m t same number found rest.
            let event =
              own_event o t.store e m (subst (Sound o) (sym (same ∙ start)) h) own number found in
            rollback_from-Moved o m t v e reason a m.status refl found
              (subst (λ x. rollback_from x reason m m.status t ≡ (ok a, v)) event rest))
          ran)
execute-Moved o (close n reason) w h own =
    transaction-Moved o (first_request n >>= λ m. close_from n reason m m.status) w
      (λ a u v start ran.
        read-Moved o n (λ m. close_from n reason m m.status) a u v
          (λ m t same number found rest.
            close_from-Moved o m t v reason a m.status refl found
              (subst (λ x. close_from x reason m m.status t ≡ (ok a, v)) (sym number) rest))
          ran)
execute-Moved o (fail n reason) w h own = mark_fail-Moved o n reason w
execute-Moved o (turn id s) w h own = update_activity_status-Moved o id s w

abbrev pub run : List Operation → World Tables → World Tables
run [] w = w
run (op ∷ ops) w = run ops (execute op w)

pub Moved-Sound : (o : Owner) (t u : Tables) → Moved o t u → Sound o t → Sound o u
Moved-Sound o t u (inl same) h = subst (Sound o) (sym same) h
Moved-Sound o t u (inr step) h = Step-Sound o step h

-- Whatever fails, any sequence of genuine operations keeps sound tables sound: the keys are unique,
-- every request with a unit has a qualification of its own, and of each activity the units in stock
-- and the qualifications make up the total.
pub run-Sound :
    (o : Owner) (ops : List Operation) (w : World Tables)
    → Sound o w.store
    → All (IsGenuine o) ops
    → Sound o (run ops w).store
run-Sound o [] w h g = h
run-Sound o (op ∷ ops) w h (g, gs) =
    run-Sound o ops (execute op w)
      (Moved-Sound o w.store (execute op w).store (execute-Moved o op w h g) h) gs

-- Whatever fails, after any sequence of genuine operations on sound tables, an activity has sold at
-- most its total stock: its stock in hand and the requests that hold a unit of it do not exceed the
-- total.
pub run-sales :
    (o : Owner) (ops : List Operation) (w : World Tables) (a : ActivityRow)
    → Sound o w.store
    → All (IsGenuine o) ops
    → first_where (has_activity_id a.id) (run ops w).store.activities ≡ some a
    → a.available_stock + count_where (is_sale a.id) (run ops w).store.requests ≤ a.total_stock
run-sales o ops w a h g found = sales_le_total o (run ops w).store a (run-Sound o ops w h g) found
