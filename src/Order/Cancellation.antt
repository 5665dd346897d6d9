-- ===== src/Order/Cancellation.antt =====
-- `BatchCancelOrderUseCase`: what one call does to the tables.
use douyin_mall.Base.{
  ◌≡◌, refl, sym, ◌∙◌, ap, subst, subst₂, ◌⊎◌, inl, inr, List, [], ◌∷◌, ◌++◌, append-nil, map,
  arith, Int64, World, Result, ok, err, Bool-cases, count_where, update_where, length, >>=-rule,
  transaction-err, transaction-ok, ◌>>=◌, ◌>>◌, transaction, pure,
}
use douyin_mall.Order.{
  Order, Error, Tables, Db, Batch, batch_cancel_execute, cancel_candidates, cancel_ids,
  cancel_events, find_by_ids, batch_update_status, batch_add, pending_rows, row_id,
  is_listed_in_status, set_status, created, canceled, event_type_order_status_changed,
  statement_failed, OrderStatusUpdateEvent,
}
use douyin_mall.Order.Reads.{Read, none_left, find_by_ids-Read, find_by_ids-err}

-- From `t` to `u` every listed order has gone from created to canceled, all of them had that status,
-- and there is an outbox row for each event.
abbrev pub Cancels : List Int64 → List OrderStatusUpdateEvent → Tables → Tables → Type 0
Cancels ids events t u =
    (count_where (is_listed_in_status ids created) t.orders ≡ length ids)
    × (u.orders ≡ update_where (is_listed_in_status ids created) (set_status canceled) t.orders)
    × (u.outbox ≡ t.outbox ++ pending_rows t.next_outbox_id event_type_order_status_changed events)
    × (u.messages ≡ t.messages)

abbrev body : Int64 → List Int64 → List OrderStatusUpdateEvent → Db Batch
body id ids events =
    batch_update_status (id ∷ ids) created canceled
    >> (batch_add event_type_order_status_changed events >>= λ outbox_ids.
        pure (id ∷ ids, outbox_ids, events))

body-Cancels :
    (id : Int64) (ids : List Int64) (events : List OrderStatusUpdateEvent) (u v : World Tables)
    (b : Batch)
    → body id ids events u ≡ (ok b, v)
    → Cancels (id ∷ ids) events u.store v.store
      × (b ≡ (
        id ∷ ids,
        map row_id (pending_rows u.store.next_outbox_id event_type_order_status_changed events),
        events,
      ))
unfolding batch_update_status batch_add
body-Cancels id ids [] u v b h = ground (arith, append-nil u.store.outbox)
body-Cancels id ids (e ∷ es) u v b h = ground arith

abbrev Failed : (Tables → Tables) → World Tables → Result Error Batch × World Tables → Type 0
Failed others w o =
    (x : Error) × (o.0 ≡ err x) × ((o.1.store ≡ w.store) ⊎ (o.1.store ≡ others w.store))

abbrev Canceled :
    (Tables → Tables) → List Int64 → World Tables → Result Error Batch × World Tables → Type 0
Canceled others ids w o =
    (os : List Order) × Read w.store.orders ids os
    × (o.0
        ≡ ok (
          cancel_ids os,
          map row_id (
              pending_rows (others w.store).next_outbox_id event_type_order_status_changed
                (cancel_events os)),
          cancel_events os,
        ))
    × Cancels (cancel_ids os) (cancel_events os) (others w.store) o.1.store

abbrev Nothing : List Int64 → World Tables → Result Error Batch × World Tables → Type 0
Nothing ids w o =
    (os : List Order) × Read w.store.orders ids os
    × (cancel_ids os ≡ [])
    × (o.0 ≡ ok ([], [], []))
    × (o.1.store ≡ w.store)

abbrev pub Outcome :
    (Tables → Tables) → List Int64 → World Tables → Result Error Batch × World Tables → Type 0
Outcome others ids w o = Failed others w o ⊎ Nothing ids w o ⊎ Canceled others ids w o

candidates :
    (others : Tables → Tables) (ids : List Int64) (os : List Order) (w v : World Tables)
    → Read w.store.orders ids os
    → v.store ≡ w.store
    → (cs : List Int64) → cancel_ids os ≡ cs
    → Outcome others ids w (cancel_candidates others cs (cancel_events os) v)
unfolding cancel_candidates
candidates others ids os w v read same [] e = elim (Bool-cases (v.fails v.tick)) [
  | inl down ↦ rw down (inl (statement_failed, refl, inl same))
  | inr up ↦ rw up (inr (inl (os, read, e, refl, same)))
]
candidates others ids os w v read same (c ∷ cs) e =
    finish (transaction statement_failed (body c cs events) u) refl
  where
    events : List OrderStatusUpdateEvent
    events = cancel_events os

    u : World Tables
    u = record v { store = others v.store }

    base : others v.store ≡ others w.store
    base = ap others same

    Gives : Batch → Tables → List Int64 → Type 0
    Gives b t is = b ≡ (
      is,
      map row_id (pending_rows t.next_outbox_id event_type_order_status_changed events),
      events,
    )

    finish :
        (o : Result Error Batch × World Tables)
        → transaction statement_failed (body c cs events) u ≡ o
        → Outcome others ids w o
    finish (err x, t) h =
        inl (x, refl, inr (transaction-err statement_failed (body c cs events) u t x h ∙ base))
    finish (ok b, t) h =
        let (p, q, start, ran, end) = transaction-ok statement_failed (body c cs events) u t b h in
        let (moved, result) = body-Cancels c cs events p q b ran in
        inr (
          inr (
            os,
            read,
            ap ok (subst₂ (Gives b) (start ∙ base) (sym e) result),
            subst (λ is. Cancels is events (others w.store) t.store) (sym e)
                (subst₂ (Cancels (c ∷ cs) events) (start ∙ base) (sym end) moved),
          ))

-- One call of BatchCancelOrder, whatever fails and whatever other transactions do between its read
-- and its update. It fails, and has written nothing; or none of the orders was created, and it has
-- written nothing; or exactly the orders that it read as created have been canceled, all of which
-- still were created, and the outbox has one row for each of them.
pub batch_cancel_execute-Outcome :
    (others : Tables → Tables) (ids : List Int64) (w : World Tables)
    → Outcome others ids w (batch_cancel_execute others ids w)
unfolding batch_cancel_execute
batch_cancel_execute-Outcome others [] w = inr (inl ([], none_left, refl, refl, refl))
batch_cancel_execute-Outcome others (id ∷ ids) w =
    >>=-rule (Outcome others (id ∷ ids) w) (find_by_ids (id ∷ ids))
      (λ os. cancel_candidates others (cancel_ids os) (cancel_events os)) w
      (λ x v e. inl (x, refl, inl (find_by_ids-err id ids w v x e)))
      (λ os v e.
        let (read, same) = find_by_ids-Read id ids w v os e in
        candidates others (id ∷ ids) os w v read same (cancel_ids os) refl)
