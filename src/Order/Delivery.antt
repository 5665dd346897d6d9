-- ===== src/Order/Delivery.antt =====
-- job/outbox_worker.go: what a batch does to the number of pending events.
use douyin_mall.Base.{
  ℕ, ◌≤◌, Bool, true, false, List, [], ◌∷◌, map, ltb, elem, ◌≡◌, sym, subst, inl, inr, arith, World,
  Result, ok, err, ◌>>=◌, ◌>>◌, pure, continue, count_where, first_where, update_where, Bool-cases,
  Option-cases, transaction, transaction-cases, attempt, ◌==◌,
}
use douyin_mall.Order.{
  OutboxEventModel, OrderStatusUpdateEvent, Error, Tables, Db, is_pending, increase_retry,
  mark_failed, bump, bump_row, read_retry, give_up, max_retry, send_message, failed_send, event_of,
  outbox_id, successes, set_sent, has_row_id, batch_mark_sent, send_messages, retry_failed,
  process_batch, log_error, statement_failed,
}

-- At most as many events are pending after a call as before it.
abbrev pub Settling : Tables → Tables → Type 0
Settling t u = count_where is_pending u.outbox ≤ count_where is_pending t.outbox

-- A call that has at most as many events pending at its end, however it ends.
abbrev pub IsSettling : {A : Type 0} → Db A → Type 0
IsSettling m = (w : World Tables) → Settling w.store (m w).1.store

then-IsSettling :
    {A B : Type 0} (m : Db A) (f : A → Db B)
    → IsSettling m
    → ((a : A) → IsSettling (f a))
    → IsSettling (m >>= f)
then-IsSettling {A} {B} m f first next w = go (m w) (first w)
  where
    go :
        (o : Result Error A × World Tables)
        → Settling w.store o.1.store
        → Settling w.store (continue f o.0 o.1).1.store
    go (ok a, u) h = let le = next a u in omega (arith, h, le)
    go (err x, u) h = h

update_where-pending :
    (q : OutboxEventModel → Bool) (f : OutboxEventModel → OutboxEventModel)
    (rs : List OutboxEventModel)
    → ((r : OutboxEventModel) → is_pending (f r) ≡ true → is_pending r ≡ true)
    → count_where is_pending (update_where q f rs) ≤ count_where is_pending rs
update_where-pending q f [] h = omega arith
update_where-pending q f (r ∷ rs) h = elim (Bool-cases (q r)) [
  | inl a ↦
      let rest = update_where-pending q f rs h in
      elim (Bool-cases (is_pending (f r))) [
        | inl b ↦ rw (a, b, h r b) omega (arith, rest)
        | inr b ↦ rw (a, b) ground (arith, rest)
      ]
  | inr a ↦ rw a omega (arith, update_where-pending q f rs h)
]

batch_mark_sent-IsSettling : (ids : List ℕ) → IsSettling (batch_mark_sent ids)
unfolding batch_mark_sent
batch_mark_sent-IsSettling [] w = omega arith
batch_mark_sent-IsSettling (id ∷ ids) w = elim (Bool-cases (w.fails w.tick)) [
  | inl down ↦ rw down omega arith
  | inr up ↦ rw up (
      update_where-pending (λ r. elem r.id (id ∷ ids)) set_sent w.store.outbox
        (λ r never. absurd (ground arith)))
]

transaction-IsSettling :
    {A : Type 0} (m : Db A) → IsSettling m → IsSettling (transaction statement_failed m)
transaction-IsSettling m h w = elim (transaction-cases statement_failed m w) [
  | inl (x, _, same) ↦ subst (Settling w.store) (sym same) (omega arith)
  | inr (a, u, v, _, start, _, ran, end) ↦ subst (Settling w.store) (sym end) (
      subst (λ t. Settling t v.store) start
        (subst (λ (o : Result Error _ × World Tables). Settling u.store o.1.store) ran (h u)))
]

bump_row-IsSettling : (id : ℕ) → IsSettling (bump_row id)
bump_row-IsSettling id w = elim (Bool-cases (w.fails w.tick)) [
  | inl down ↦ rw down omega arith
  | inr up ↦ elim (Bool-cases (count_where (has_row_id id) w.store.outbox == 0)) [
    | inl missing ↦ rw (up, missing) omega arith
    | inr found ↦
        rw (up, found) (update_where-pending (has_row_id id) bump w.store.outbox (λ r e. e))
  ]
]

read_retry-IsSettling : (id : ℕ) → IsSettling (read_retry id)
read_retry-IsSettling id w = elim (Bool-cases (w.fails w.tick)) [
  | inl down ↦ rw down omega arith
  | inr up ↦ elim (Option-cases (first_where (has_row_id id) w.store.outbox)) [
    | inl missing ↦ rw (up, missing) omega arith
    | inr (r, found) ↦ rw (up, found) omega arith
  ]
]

increase_retry-IsSettling : (id : ℕ) → IsSettling (increase_retry id)
unfolding increase_retry
increase_retry-IsSettling id = transaction-IsSettling (bump_row id >> read_retry id) (
    then-IsSettling (bump_row id) (λ _. read_retry id) (bump_row-IsSettling id)
      (λ _. read_retry-IsSettling id))

log_error-IsSettling : {A : Type 0} (m : Db A) → IsSettling m → IsSettling (log_error m)
log_error-IsSettling m h w = h w

give_up-IsSettling : (id : ℕ) (r : Result Error ℕ) → IsSettling (give_up id r)
unfolding mark_failed
give_up-IsSettling id (err x) w = omega arith
give_up-IsSettling id (ok n) w = elim (Bool-cases (ltb max_retry n)) [
  | inl a ↦ rw a omega arith
  | inr a ↦ rw a omega arith
]

retry_failed-IsSettling : (ids : List ℕ) (bs : List Bool) → IsSettling (retry_failed ids bs)
unfolding retry_failed
retry_failed-IsSettling (id ∷ ids) (true ∷ bs) =
    then-IsSettling (attempt (increase_retry id)) (λ n. give_up id n >> retry_failed ids bs)
      (λ w. increase_retry-IsSettling id w)
      (λ n.
        then-IsSettling (give_up id n) (λ _. retry_failed ids bs) (give_up-IsSettling id n)
          (λ _. retry_failed-IsSettling ids bs))
retry_failed-IsSettling (id ∷ ids) (false ∷ bs) = retry_failed-IsSettling ids bs
retry_failed-IsSettling [] bs = λ w. omega arith
retry_failed-IsSettling (id ∷ ids) [] = λ w. omega arith

send_message-IsSettling : (e : OrderStatusUpdateEvent) → IsSettling (send_message e)
unfolding send_message
send_message-IsSettling e w = elim (Bool-cases (w.fails w.tick)) [
  | inl down ↦ rw down omega arith
  | inr up ↦ rw up omega arith
]

send_messages-IsSettling : (es : List OrderStatusUpdateEvent) → IsSettling (send_messages es)
unfolding send_messages
send_messages-IsSettling [] = λ w. omega arith
send_messages-IsSettling (e ∷ es) =
    then-IsSettling (attempt (send_message e))
      (λ r. send_messages es >>= λ rest. pure (failed_send r ∷ rest))
      (λ w. send_message-IsSettling e w)
      (λ r.
        then-IsSettling (send_messages es) (λ rest. pure (failed_send r ∷ rest))
          (send_messages-IsSettling es) (λ rest w. omega arith))

pub process_batch-IsSettling : (rows : List OutboxEventModel) → IsSettling (process_batch rows)
unfolding process_batch
process_batch-IsSettling rows =
    then-IsSettling (send_messages (map event_of rows))
      (λ errs.
        retry_failed (map outbox_id rows) errs
        >> log_error (batch_mark_sent (successes (map outbox_id rows) errs)))
      (send_messages-IsSettling (map event_of rows))
      (λ errs.
        then-IsSettling (retry_failed (map outbox_id rows) errs)
          (λ _. log_error (batch_mark_sent (successes (map outbox_id rows) errs)))
          (retry_failed-IsSettling (map outbox_id rows) errs)
          (λ _. batch_mark_sent-IsSettling (successes (map outbox_id rows) errs)))
