-- ===== src/Base/Table.antt =====
-- A table is the list of its rows in the order of insertion.
use Prim.Native.Nat.{ℕ, ◌+◌}
use mathlib.Core.Path.{◌≡◌, refl, subst}
use mathlib.Core.Logic.{inl, inr}
use mathlib.Core.Bool.{Bool, true}
use mathlib.Core.Option.{Option, none, some}
use mathlib.Core.List.{List, [], ◌∷◌, ◌++◌}
use native.Mathlib.Omega.{arith}
use douyin_mall.Base.Tests.{if◌then◌else◌, leb, Bool-cases}

module _ {ℓ} {R : Type ℓ} where
  -- `WHERE p ... LIMIT 1`
  abbrev pub first_where : (R → Bool) → List R → Option R
  first_where p [] = none
  first_where p (r ∷ rs) = if p r then some r else first_where p rs

  -- `WHERE p`
  abbrev pub all_where : (R → Bool) → List R → List R
  all_where p [] = []
  all_where p (r ∷ rs) = let rest = all_where p rs in if p r then r ∷ rest else rest

  -- `UPDATE ... SET f WHERE p`
  abbrev pub update_where : (R → Bool) → (R → R) → List R → List R
  update_where p f [] = []
  update_where p f (r ∷ rs) = (if p r then f r else r) ∷ update_where p f rs

  -- `DELETE ... WHERE p`
  abbrev pub delete_where : (R → Bool) → List R → List R
  delete_where p [] = []
  delete_where p (r ∷ rs) = let rest = delete_where p rs in if p r then rest else r ∷ rest

  -- `RowsAffected` of a statement.
  abbrev pub count_where : (R → Bool) → List R → ℕ
  count_where p [] = 0
  count_where p (r ∷ rs) = (if p r then 1 else 0) + count_where p rs

  -- The same where the new value can be refused: then the whole statement is.
  abbrev pub set_row : Option R → Option (List R) → Option (List R)
  set_row (some r) (some rs) = some (r ∷ rs)
  set_row _ _ = none

  abbrev pub try_update : (R → Bool) → (R → Option R) → List R → Option (List R)
  try_update p f [] = some []
  try_update p f (r ∷ rs) = set_row (if p r then f r else some r) (try_update p f rs)

  -- A statement that affects no row changes nothing.
  pub update_where-none :
      (p : R → Bool) (f : R → R) (rs : List R) → count_where p rs ≡ 0 → update_where p f rs ≡ rs
  update_where-none p f [] h = refl
  update_where-none p f (r ∷ rs) h = ground (arith, update_where-none p f rs)

  -- A row that a search finds counts, and a new row of its kind is found.
  pub count_where-first_where :
      (p : R → Bool) (rs : List R) (r : R)
      → first_where p rs ≡ some r
      → leb 1 (count_where p rs) ≡ true
  count_where-first_where p [] r h = absurd (ground arith)
  count_where-first_where p (s ∷ rs) r h = ground (arith, count_where-first_where p rs r)

  pub first_where-append :
      (p : R → Bool) (rs : List R) (r : R)
      → count_where p rs ≡ 0
      → p r ≡ true
      → first_where p (rs ++ r ∷ []) ≡ some r
  first_where-append p [] r h k = ground arith
  first_where-append p (s ∷ rs) r h k = ground (arith, first_where-append p rs r)

  pub first_where-holds :
      (p : R → Bool) (rs : List R) (r : R) → first_where p rs ≡ some r → p r ≡ true
  first_where-holds p [] r h = absurd (ground arith)
  first_where-holds p (s ∷ rs) r h = elim (Bool-cases (p s)) [
    | inl here ↦ let eq : s ≡ r = ground arith in subst (λ x. p x ≡ true) eq here
    | inr there ↦ first_where-holds p rs r (ground arith)
  ]
