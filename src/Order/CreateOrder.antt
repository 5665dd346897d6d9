-- ===== src/Order/CreateOrder.antt =====
-- usecase/create_order.go.
use douyin_mall.Base.{
  ℕ, ◌+◌, Bool, true, false, String, List, [], ◌∷◌, ◌==◌, ◌&&◌, str_eq, Int64, add64, sub64, mul64,
  le64, lt64, if◌then◌else◌, Result, ok, err, pure, raise, raise_if, attempt, ◌>>=◌, ◌>>◌,
}
use douyin_mall.Order.Domain.{
  created, Order, OrderItem, Address, Amount, Error, invalid_user, empty_order_items,
  seckill_activity_required, duplicate_order, order_kind_direct_buy, order_kind_seckill,
}
use douyin_mall.Order.Store.{Db}
use douyin_mall.Order.Repository.{save, find_by_id}

pub record CreateOrderCmd : Type 0 where
  pub order_id : Int64
  pub user_id : Int64
  pub currency : String
  pub remark : String
  pub address : Address
  pub order_kind : String
  pub activity_id : Int64
  pub payable_amount : Int64
  pub items : List OrderItem

unfoldable pub normalize_order_kind : String → String
normalize_order_kind kind = if str_eq kind "" then order_kind_direct_buy else kind

-- The loop over the items, with int64 arithmetic.
unfoldable pub total_from : Int64 → List OrderItem → Int64
total_from total [] = total
total_from total (i ∷ is) = total_from (add64 total (mul64 i.price i.quantity)) is

unfoldable pub payable_of : Int64 → Int64 → Int64
payable_of requested total = if le64 requested 0 then total else requested

unfoldable pub discount_of : Int64 → Int64 → Int64
discount_of total payable = if lt64 (sub64 total payable) 0 then 0 else sub64 total payable

-- Thirty minutes in nanoseconds.
abbrev pub expiry : ℕ
expiry = 1_800_000_000_000

abbrev amount : CreateOrderCmd → Int64 → Amount
amount cmd total = record { currency = cmd.currency; total = total }

-- `toDomainOrder` of the use case, at the time `now`.
unfoldable pub order_of_cmd : ℕ → CreateOrderCmd → Order
unfolding normalize_order_kind payable_of discount_of
order_of_cmd now cmd =
    let total = total_from 0 cmd.items in
    let payable = payable_of cmd.payable_amount total in
    record {
      id = cmd.order_id;
      user_id = cmd.user_id;
      remark = cmd.remark;
      addr = cmd.address;
      status = created;
      order_kind = normalize_order_kind cmd.order_kind;
      activity_id = cmd.activity_id;
      created_at = 0;
      expire_at = now + expiry;
      total_amount = amount cmd total;
      payable_amount = amount cmd payable;
      discount_amount = amount cmd (discount_of total payable);
      order_items = cmd.items;
    }

unfoldable pub same_create_order_intent : Order → CreateOrderCmd → Bool
unfolding normalize_order_kind
same_create_order_intent o cmd =
    o.id == cmd.order_id
    && o.user_id == cmd.user_id
    && o.activity_id == cmd.activity_id
    && str_eq o.order_kind (normalize_order_kind cmd.order_kind)

abbrev pub no_items : List OrderItem → Bool
no_items [] = true
no_items (i ∷ is) = false

-- After `Save`: a duplicate of the same intent counts as done.
abbrev pub on_found : CreateOrderCmd → Result Error Order → Db Int64
on_found cmd (err e) = raise duplicate_order
on_found cmd (ok o) = if same_create_order_intent o cmd then pure o.id else raise duplicate_order

abbrev pub after_save : CreateOrderCmd → Result Error Int64 → Db Int64
after_save cmd (ok id) = pure id
after_save cmd (err duplicate_order) = do
  found ← attempt (find_by_id cmd.order_id)
  on_found cmd found
after_save cmd (err e) = raise e

-- `Execute` of CreateOrderUseCase, where `next` is the id that the database has next; the delay queue is filled by a goroutine and not part of the store.
unfoldable pub create_execute : ℕ → Int64 → CreateOrderCmd → Db Int64
unfolding order_of_cmd same_create_order_intent
create_execute now next cmd = do
  raise_if (le64 cmd.user_id 0) invalid_user
  raise_if (no_items cmd.items) empty_order_items
  raise_if
      (str_eq (normalize_order_kind cmd.order_kind) order_kind_seckill && le64 cmd.activity_id 0)
      seckill_activity_required
  saved ← attempt (save now next (order_of_cmd now cmd))
  after_save cmd saved
