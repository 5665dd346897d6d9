-- ===== src/Order/Repository.antt =====
-- infra/repository/order.go over the table `orders`. The Redis cache that it refreshes is a copy that
-- no operation below reads, and its errors are only logged.
use douyin_mall.Base.{
  ℕ, Bool, Option, none, some, List, [], ◌∷◌, ◌++◌, map, ◌==◌, ◌&&◌, Int64, elem, length,
  if◌then◌else◌, pure, raise, gets, modify, raise_if, io, ◌>>=◌, ◌>>◌, first_where, all_where,
  update_where, count_where, leb, ltb, take,
}
use douyin_mall.Order.Domain.{
  OrderStatus, Order, Error, record_not_found, duplicate_order, statement_failed, created, ◌==ˢ◌,
}
use douyin_mall.Order.Store.{OrderModel, Tables, Db, to_order_model, to_domain_order}

abbrev pub has_id : Int64 → OrderModel → Bool
has_id id m = m.id == id

abbrev pub of_option : {A : Type 0} → Option A → Error → Db A
of_option none e = raise e
of_option (some a) e = pure a

abbrev set_orders : List OrderModel → Db (Unit {0})
set_orders rows = modify λ t. record t { orders = rows }

-- The column AUTO_INCREMENT: an order without an id takes the one that the database has next.
abbrev pub id_or_next : Int64 → Int64 → Int64
id_or_next next id = if id == 0 then next else id

-- `Save` at the time `now`, with the id of the new row, which it writes back: the primary key refuses
-- a second order of the same id.
unfoldable pub save : ℕ → Int64 → Order → Db Int64
unfolding to_order_model
save now next o = do
  io statement_failed
  rows ← gets (λ (t : Tables). t.orders)
  let id = id_or_next next o.id
  raise_if (leb 1 (count_where (has_id id) rows)) duplicate_order
  let m = to_order_model o
  set_orders (rows ++ record m { id = id; created_at = now } ∷ [])
  pure id

unfoldable pub find_by_id : Int64 → Db Order
unfolding to_domain_order
find_by_id id = do
  io statement_failed
  row ← gets (λ (t : Tables). first_where (has_id id) t.orders)
  m ← of_option row record_not_found
  pure (to_domain_order m)

abbrev pub is_listed : List Int64 → OrderModel → Bool
is_listed ids m = elem m.id ids

-- The rows come in any order; they are put in the order of the ids, and a missing one is an error.
abbrev cons? : Option Order → Option (List Order) → Option (List Order)
cons? (some o) (some os) = some (o ∷ os)
cons? _ _ = none

unfoldable pub pick_all : List Int64 → List Order → Option (List Order)
pick_all [] found = some []
pick_all (id ∷ ids) found =
    cons? (first_where (λ (o : Order). o.id == id) found) (pick_all ids found)

unfoldable pub find_by_ids : List Int64 → Db (List Order)
unfolding pick_all to_domain_order
find_by_ids [] = pure []
find_by_ids (id ∷ ids) = do
  io statement_failed
  found ← gets (λ (t : Tables). map to_domain_order (all_where (is_listed (id ∷ ids)) t.orders))
  of_option (pick_all (id ∷ ids) found) record_not_found

abbrev pub set_status : OrderStatus → OrderModel → OrderModel
set_status s m = record m { status = s }

abbrev pub has_id_and_status : Int64 → OrderStatus → OrderModel → Bool
has_id_and_status id s m = m.id == id && m.status ==ˢ s

unfoldable pub update_status : Int64 → OrderStatus → OrderStatus → Db (Unit {0})
update_status id from to = do
  io statement_failed
  rows ← gets (λ (t : Tables). t.orders)
  raise_if (count_where (has_id_and_status id from) rows == 0) record_not_found
  set_orders (update_where (has_id_and_status id from) (set_status to) rows)

abbrev pub is_listed_in_status : List Int64 → OrderStatus → OrderModel → Bool
is_listed_in_status ids s m = elem m.id ids && m.status ==ˢ s

unfoldable pub batch_update_status : List Int64 → OrderStatus → OrderStatus → Db (Unit {0})
batch_update_status [] from to = pure tt
batch_update_status (id ∷ ids) from to = do
  io statement_failed
  rows ← gets (λ (t : Tables). t.orders)
  let p = is_listed_in_status (id ∷ ids) from
  set_orders (update_where p (set_status to) rows)
  if count_where p rows == length (id ∷ ids) then pure tt else raise record_not_found

-- Created orders past their time, at most `limit` of them where that is positive.
unfoldable pub find_expired_orders : ℕ → ℕ → Db (List Order)
unfolding to_domain_order
find_expired_orders now limit = do
  io statement_failed
  found ← gets (λ (t : Tables).
      all_where (λ (m : OrderModel). m.status ==ˢ created && ltb m.expired_at now) t.orders)
  pure (map to_domain_order (if limit == 0 then found else take limit found))
