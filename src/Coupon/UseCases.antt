-- ===== src/Coupon/UseCases.antt =====
-- usecase/reserve_coupon.go, usecase/commit_coupon.go, usecase/release_coupon.go and
-- usecase/refund_coupon.go.
use douyin_mall.Base.{
  ℕ, Option, none, some, List, [], ◌∷◌, elem, map, length, le64, Int64, if◌then◌else◌, Result, ok,
  err, pure, raise, raise_if, attempt, modify, ◌>>=◌, ◌>>◌,
}
use douyin_mall.Coupon.Domain.{unused, locked, used, Error, coupon_not_available, invalid_argument}
use douyin_mall.Coupon.Repository.{
  CouponModel, Tables, Db, get_available_by_ids, batch_reserve, update_status_by_order_id,
}

abbrev keep_new : Int64 → List Int64 → List Int64 → List Int64
keep_new id seen rest = if elem id seen then rest else id ∷ rest

abbrev and_rest : Int64 → List Int64 → Option (List Int64) → Option (List Int64)
and_rest id seen none = none
and_rest id seen (some rest) = some (keep_new id seen rest)

-- The loop of `normalizeCouponIDs`, with the ids that it has seen.
unfoldable pub normalize_from : List Int64 → List Int64 → Option (List Int64)
normalize_from seen [] = some []
normalize_from seen (id ∷ ids) =
    let rest = normalize_from (id ∷ seen) ids in if le64 id 0 then none else and_rest id seen rest

unfoldable pub normalize_coupon_ids : List Int64 → Option (List Int64)
unfolding normalize_from
normalize_coupon_ids ids = normalize_from [] ids

pub record ReserveCouponInput : Type 0 where
  pub user_id : Int64
  pub coupon_ids : List Int64
  pub order_id : Int64

-- Reserved, or the ids that could not be.
pub data ReserveCouponOutput : Type 0 where
  success : ℕ → ReserveCouponOutput
  failures : List Int64 → ReserveCouponOutput

abbrev row_id : CouponModel → Int64
row_id m = m.id

abbrev pub missing_from : List Int64 → List Int64 → List Int64
missing_from available [] = []
missing_from available (id ∷ ids) =
    let rest = missing_from available ids in if elem id available then rest else id ∷ rest

abbrev pub after_reserve : List Int64 → Result Error (Unit {0}) → Db ReserveCouponOutput
after_reserve ids (ok _) = pure (success (length ids))
after_reserve ids (err coupon_not_available) = pure (failures ids)
after_reserve ids (err e) = raise e

-- `others` is what other transactions do between the read and the reservation.
abbrev pub reserve_available :
    (Tables → Tables) → Int64 → List Int64 → List Int64 → Db ReserveCouponOutput
reserve_available others order_id ids [] =
    modify others >> (attempt (batch_reserve ids order_id) >>= after_reserve ids)
reserve_available others order_id ids (missing ∷ more) = pure (failures (missing ∷ more))

abbrev pub reserve_normalized :
    (Tables → Tables) → ℕ → ReserveCouponInput → Option (List Int64) → Db ReserveCouponOutput
reserve_normalized others now input none = raise invalid_argument
reserve_normalized others now input (some []) = raise invalid_argument
reserve_normalized others now input (some (id ∷ ids)) = do
  available ← get_available_by_ids now input.user_id (id ∷ ids)
  reserve_available others input.order_id (id ∷ ids)
      (missing_from (map row_id available) (id ∷ ids))

-- `Execute` of ReserveCouponUseCase.
unfoldable pub reserve_execute : (Tables → Tables) → ℕ → ReserveCouponInput → Db ReserveCouponOutput
unfolding normalize_coupon_ids
reserve_execute others now input = do
  raise_if (le64 input.user_id 0) invalid_argument
  raise_if (le64 input.order_id 0) invalid_argument
  reserve_normalized others now input (normalize_coupon_ids input.coupon_ids)

unfoldable pub commit_execute : ℕ → Int64 → Db (Unit {0})
commit_execute now order_id =
    raise_if (le64 order_id 0) invalid_argument
    >> update_status_by_order_id now order_id locked used

unfoldable pub release_execute : ℕ → Int64 → Db (Unit {0})
release_execute now order_id =
    raise_if (le64 order_id 0) invalid_argument
    >> update_status_by_order_id now order_id locked unused

unfoldable pub refund_execute : ℕ → Int64 → Db (Unit {0})
refund_execute now order_id =
    raise_if (le64 order_id 0) invalid_argument
    >> update_status_by_order_id now order_id used unused
