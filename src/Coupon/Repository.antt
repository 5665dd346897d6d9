-- ===== src/Coupon/Repository.antt =====
-- infra/db/model.go and infra/repository/coupon_repo.go over the table of the users' coupons.
use douyin_mall.Base.{
  ℕ, Bool, false, ◌&&◌, ◌==◌, Option, none, some, List, [], ◌∷◌, elem, length, leb, ltb, Int64,
  Action, pure, gets, modify, raise_if, io, ◌>>=◌, ◌>>◌, transaction, all_where, update_where,
  count_where, not,
}
use douyin_mall.Coupon.Domain.{
  CouponStatus, unused, locked, used, expired, ◌==ᶜ◌, Error, coupon_not_available, statement_failed,
}

-- `order_id` and `used_at` are NULL while the coupon is free.
pub record CouponModel : Type 0 where
  pub id : Int64
  pub user_id : Int64
  pub order_id : Option Int64
  pub template_id : Int64
  pub status : CouponStatus
  pub valid_from : ℕ
  pub valid_to : ℕ
  pub used_at : Option ℕ

pub record Tables : Type 0 where
  pub coupons : List CouponModel

abbrev pub Db : Type 0 → Type 0
Db A = Action Tables Error A

abbrev pub is_available : ℕ → Int64 → List Int64 → CouponModel → Bool
is_available now user_id ids m =
    elem m.id ids
    && m.user_id == user_id
    && m.status ==ᶜ unused
    && leb m.valid_from now
    && ltb now m.valid_to

unfoldable pub get_available_by_ids : ℕ → Int64 → List Int64 → Db (List CouponModel)
get_available_by_ids now user_id [] = pure []
get_available_by_ids now user_id (id ∷ ids) = do
  io statement_failed
  gets (λ (t : Tables). all_where (is_available now user_id (id ∷ ids)) t.coupons)

abbrev pub is_reservable : List Int64 → CouponModel → Bool
is_reservable ids m = elem m.id ids && m.status ==ᶜ unused

abbrev pub lock : Int64 → CouponModel → CouponModel
lock order_id m = record m { status = locked; order_id = some order_id }

abbrev pub reserve_rows : List Int64 → Int64 → Db (Unit {0})
reserve_rows ids order_id = do
  io statement_failed
  rows ← gets (λ (t : Tables). t.coupons)
  modify (λ (t : Tables). record t {
    coupons = update_where (is_reservable ids) (lock order_id) t.coupons;
  })
  raise_if (not (count_where (is_reservable ids) rows == length ids)) coupon_not_available

unfoldable pub batch_reserve : List Int64 → Int64 → Db (Unit {0})
batch_reserve [] order_id = pure tt
batch_reserve (id ∷ ids) order_id = transaction statement_failed (reserve_rows (id ∷ ids) order_id)

abbrev pub has_order : Option Int64 → Int64 → Bool
has_order none order_id = false
has_order (some id) order_id = id == order_id

abbrev pub is_held : Int64 → CouponStatus → CouponModel → Bool
is_held order_id s m = has_order m.order_id order_id && m.status ==ᶜ s

abbrev pub with_status : ℕ → CouponStatus → CouponModel → CouponModel
with_status now used m = record m { status = used; used_at = some now }
with_status now unused m = record m { status = unused; order_id = none; used_at = none }
with_status now s m = record m { status = s }

unfoldable pub update_status_by_order_id : ℕ → Int64 → CouponStatus → CouponStatus → Db (Unit {0})
update_status_by_order_id now order_id from to = do
  io statement_failed
  modify (λ (t : Tables). record t {
    coupons = update_where (is_held order_id from) (with_status now to) t.coupons;
  })

abbrev is_overdue : ℕ → CouponModel → Bool
is_overdue now m = m.status ==ᶜ unused && ltb m.valid_to now

abbrev expire : CouponModel → CouponModel
expire m = record m { status = expired }

unfoldable pub mark_expired_coupons : ℕ → Db ℕ
mark_expired_coupons now = do
  io statement_failed
  rows ← gets (λ (t : Tables). t.coupons)
  modify (λ (t : Tables). record t { coupons = update_where (is_overdue now) expire t.coupons })
  pure (count_where (is_overdue now) rows)
