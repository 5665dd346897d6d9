-- ===== src/Order/Outbox.antt =====
-- infra/repository/outbox.go over the table `outbox_events`.
use douyin_mall.Base.{
  ℕ, suc, ◌+◌, Bool, true, false, String, List, [], ◌∷◌, ◌++◌, map, ◌==◌, elem, pure, raise, gets,
  modify, raise_if, io, ◌>>=◌, ◌>>◌, transaction, all_where, update_where, count_where, first_where,
  take, drop,
}
use douyin_mall.Order.Domain.{OrderStatusUpdateEvent, record_not_found, statement_failed}
use douyin_mall.Order.Store.{OutboxEventModel, pending, sent, Tables, Db}
use douyin_mall.Order.Repository.{of_option}

abbrev pub event_type_order_status_changed : String
event_type_order_status_changed = "order.status.changed"

abbrev pub pending_row : ℕ → String → OrderStatusUpdateEvent → OutboxEventModel
pending_row id kind e = record {
  id = id;
  event_type = kind;
  payload = e;
  status = pending;
  retry_count = 0;
}

unfoldable pub add : String → OrderStatusUpdateEvent → Db ℕ
add kind e = do
  io statement_failed
  t ← gets (λ (t : Tables). t)
  modify (λ (t : Tables). record t {
    outbox = t.outbox ++ pending_row t.next_outbox_id kind e ∷ [];
    next_outbox_id = suc t.next_outbox_id;
  })
  pure t.next_outbox_id

abbrev pub pending_rows : ℕ → String → List OrderStatusUpdateEvent → List OutboxEventModel
pending_rows id kind [] = []
pending_rows id kind (e ∷ es) = pending_row id kind e ∷ pending_rows (suc id) kind es

abbrev pub row_id : OutboxEventModel → ℕ
row_id r = r.id

-- The INSERTs of `CreateInBatches`, 100 rows each, run in one transaction: all or none.
abbrev insert_batches : List OutboxEventModel → Db (Unit {0})
insert_batches rows = do
  io statement_failed
  modify (λ (t : Tables). record t { outbox = t.outbox ++ rows })

abbrev after_rows : ℕ → List OrderStatusUpdateEvent → ℕ
after_rows id [] = id
after_rows id (e ∷ es) = after_rows (suc id) es

unfoldable pub batch_add : String → List OrderStatusUpdateEvent → Db (List ℕ)
batch_add kind [] = pure []
batch_add kind (e ∷ es) = do
  t ← gets (λ (t : Tables). t)
  insert_batches (pending_rows t.next_outbox_id kind (e ∷ es))
  modify (λ (t : Tables). record t { next_outbox_id = after_rows t.next_outbox_id (e ∷ es) })
  pure (map row_id (pending_rows t.next_outbox_id kind (e ∷ es)))

abbrev pub is_pending : OutboxEventModel → Bool
is_pending r = elim r.status [ pending ↦ true | _ ↦ false ]

-- The order in which the database lists the rows at an offset, as there is no ORDER BY.
abbrev pub Listing : Type 0
Listing = ℕ → List OutboxEventModel → List OutboxEventModel

unfoldable pub list_pending : Listing → ℕ → ℕ → Db (List OutboxEventModel)
list_pending listing offset limit = do
  io statement_failed
  gets (λ (t : Tables). take limit (drop offset (listing offset (all_where is_pending t.outbox))))

-- `MarkSent` and `MarkFailed` name no model and no table, and gorm refuses such an UPDATE.
unfoldable pub mark_sent : ℕ → Db (Unit {0})
mark_sent id = raise statement_failed

unfoldable pub mark_failed : ℕ → Db (Unit {0})
mark_failed id = raise statement_failed

abbrev pub set_sent : OutboxEventModel → OutboxEventModel
set_sent r = record r { status = sent }

abbrev pub has_row_id : ℕ → OutboxEventModel → Bool
has_row_id id r = r.id == id

unfoldable pub batch_mark_sent : List ℕ → Db (Unit {0})
batch_mark_sent [] = pure tt
batch_mark_sent (id ∷ ids) = do
  io statement_failed
  modify (λ (t : Tables). record t {
    outbox = update_where (λ r. elem (row_id r) (id ∷ ids)) set_sent t.outbox;
  })

abbrev pub bump : OutboxEventModel → OutboxEventModel
bump r = record r { retry_count = r.retry_count + 1 }

abbrev pub bump_row : ℕ → Db (Unit {0})
bump_row id = do
  io statement_failed
  t ← gets (λ (t : Tables). t)
  raise_if (count_where (has_row_id id) t.outbox == 0) record_not_found
  modify (λ (t : Tables). record t { outbox = update_where (has_row_id id) bump t.outbox })

abbrev pub read_retry : ℕ → Db ℕ
read_retry id = do
  io statement_failed
  row ← gets (λ (t : Tables). first_where (has_row_id id) t.outbox)
  r ← of_option row record_not_found
  pure r.retry_count

unfoldable pub increase_retry : ℕ → Db ℕ
increase_retry id = transaction statement_failed (bump_row id >> read_retry id)
