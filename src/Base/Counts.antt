-- ===== src/Base/Counts.antt =====
-- What the statements on a table do to the rows that are counted.
use Prim.Native.Nat.{◌+◌, ◌≤◌}
use mathlib.Core.Path.{◌≡◌, refl, sym, subst}
use mathlib.Core.Logic.{◌≢◌, inl, inr}
use mathlib.Core.Bool.{Bool, true, false}
use mathlib.Core.Option.{Option, none, some}
use mathlib.Core.List.{List, [], ◌∷◌, ◌++◌}
use native.Mathlib.Omega.{arith}
use douyin_mall.Base.Tests.{if◌then◌else◌, Bool-cases}
use douyin_mall.Base.Lists.{All}
use douyin_mall.Base.Table.{
  first_where, update_where, delete_where, count_where, try_update, set_row,
}

module _ {ℓ} {R : Type ℓ} where
  pub count_where-append :
      (p : R → Bool) (rs : List R) (r : R)
      → count_where p (rs ++ r ∷ []) ≡ count_where p rs + (if p r then 1 else 0)
  count_where-append p [] r = omega arith
  count_where-append p (s ∷ rs) r = omega (arith, count_where-append p rs r)

  -- An UPDATE that does not touch what is counted.
  pub count_where-update_where :
      (p q : R → Bool) (f : R → R) (rs : List R)
      → ((r : R) → p (f r) ≡ p r)
      → count_where p (update_where q f rs) ≡ count_where p rs
  count_where-update_where p q f [] h = refl
  count_where-update_where p q f (r ∷ rs) h = elim (Bool-cases (q r)) [
    | inl a ↦ rw (a, h r, count_where-update_where p q f rs h) refl
    | inr a ↦ rw (a, count_where-update_where p q f rs h) refl
  ]

  -- A DELETE takes the rows of its own kind from a wider kind, and none of another.
  pub count_where-delete_where :
      (p q : R → Bool) (rs : List R)
      → ((r : R) → q r ≡ true → p r ≡ true)
      → count_where p (delete_where q rs) + count_where q rs ≡ count_where p rs
  count_where-delete_where p q [] h = refl
  count_where-delete_where p q (r ∷ rs) h = elim (Bool-cases (q r)) [
    | inl a ↦ rw (a, h r a) omega (arith, count_where-delete_where p q rs h)
    | inr a ↦ rw a omega (arith, count_where-delete_where p q rs h)
  ]

  pub count_where-delete_other :
      (p q : R → Bool) (rs : List R)
      → ((r : R) → q r ≡ true → p r ≡ false)
      → count_where p (delete_where q rs) ≡ count_where p rs
  count_where-delete_other p q [] h = refl
  count_where-delete_other p q (r ∷ rs) h = elim (Bool-cases (q r)) [
    | inl a ↦ rw (a, h r a) omega (arith, count_where-delete_other p q rs h)
    | inr a ↦ rw (a, count_where-delete_other p q rs h) refl
  ]

  pub count_where-delete_le :
      (p q : R → Bool) (rs : List R) → count_where p (delete_where q rs) ≤ count_where p rs
  count_where-delete_le p q [] = omega arith
  count_where-delete_le p q (r ∷ rs) = ground (arith, count_where-delete_le p q rs)

  -- A narrower kind counts at most as much.
  pub count_where-imp :
      (p q : R → Bool) (rs : List R)
      → ((r : R) → q r ≡ true → p r ≡ true)
      → count_where q rs ≤ count_where p rs
  count_where-imp p q [] h = omega arith
  count_where-imp p q (r ∷ rs) h = elim (Bool-cases (q r)) [
    | inl a ↦ rw (a, h r a) omega (arith, count_where-imp p q rs h)
    | inr a ↦ rw a omega (arith, count_where-imp p q rs h)
  ]

  pub delete_where-none :
      (p : R → Bool) (rs : List R) → count_where p rs ≡ 0 → delete_where p rs ≡ rs
  delete_where-none p [] h = refl
  delete_where-none p (r ∷ rs) h = ground (arith, delete_where-none p rs)

  pub delete_where-append :
      (p : R → Bool) (rs : List R) (r : R)
      → count_where p rs ≡ 0
      → p r ≡ true
      → delete_where p (rs ++ r ∷ []) ≡ rs
  delete_where-append p [] r h k = rw k refl
  delete_where-append p (s ∷ rs) r h k = ground (arith, delete_where-append p rs r)

  pub try_update-none :
      (p : R → Bool) (f : R → Option R) (rs : List R)
      → count_where p rs ≡ 0
      → try_update p f rs ≡ some rs
  try_update-none p f [] h = refl
  try_update-none p f (r ∷ rs) h = ground (arith, try_update-none p f rs)

  pub count_where-zero :
      (p : R → Bool) (rs : List R) → count_where p rs ≡ 0 → All (λ r. p r ≡ false) rs
  count_where-zero p [] h = tt
  count_where-zero p (r ∷ rs) h = (ground arith, count_where-zero p rs (ground arith))

  -- Where a kind has one row at most, the row that a search finds is the only one.
  pub unique-first_where :
      (p : R → Bool) (rs : List R) (r : R)
      → count_where p rs ≤ 1
      → first_where p rs ≡ some r
      → All (λ s. p s ≡ true → s ≡ r) rs
  unique-first_where p [] r h k = tt
  unique-first_where p (s ∷ rs) r h k = elim (Bool-cases (p s)) [
    | inl a ↦ ((λ _. ground arith), none_left p rs r (ground arith))
    | inr a ↦
        ((λ b. absurd (ground arith)), unique-first_where p rs r (ground arith) (ground arith))
  ]
    where
      none_left :
          (p : R → Bool) (rs : List R) (r : R)
          → count_where p rs ≡ 0
          → All (λ s. p s ≡ true → s ≡ r) rs
      none_left p [] r h = tt
      none_left p (s ∷ rs) r h = ((λ b. absurd (ground arith)), none_left p rs r (ground arith))

  pub All-zip {κ} : (P Q : R → Type κ) (rs : List R) → All P rs → All Q rs → All (λ r. P r × Q r) rs
  All-zip P Q [] h k = tt
  All-zip P Q (r ∷ rs) (h, hs) (k, ks) = ((h, k), All-zip P Q rs hs ks)

  pub All-first_where {κ} :
      (P : R → Type κ) (p : R → Bool) (rs : List R) (r : R)
      → All P rs
      → first_where p rs ≡ some r
      → P r
  All-first_where P p [] r h k = absurd (ground arith)
  All-first_where P p (s ∷ rs) r (h, hs) k = elim (Bool-cases (p s)) [
    | inl a ↦ let same : s ≡ r = ground arith in subst P same h
    | inr a ↦ All-first_where P p rs r hs (ground arith)
  ]

  pub All-update_where {κ} :
      (P Q : R → Type κ) (q : R → Bool) (f : R → R) (rs : List R)
      → ((r : R) → P r → q r ≡ true → Q (f r))
      → ((r : R) → P r → q r ≡ false → Q r)
      → All P rs
      → All Q (update_where q f rs)
  All-update_where P Q q f [] h k a = tt
  All-update_where P Q q f (r ∷ rs) h k (a, s) = elim (Bool-cases (q r)) [
    | inl b ↦ rw b (h r a b, All-update_where P Q q f rs h k s)
    | inr b ↦ rw b (k r a b, All-update_where P Q q f rs h k s)
  ]

  pub All-try_update {κ} :
      (P Q : R → Type κ) (q : R → Bool) (f : R → Option R) (rs rs' : List R)
      → ((r r' : R) → P r → q r ≡ true → f r ≡ some r' → Q r')
      → ((r : R) → P r → q r ≡ false → Q r)
      → try_update q f rs ≡ some rs'
      → All P rs
      → All Q rs'
  All-try_update P Q q f [] rs' h k e a = let nil : [] ≡ rs' = ground arith in subst (All Q) nil tt
  All-try_update P Q q f (r ∷ rs) rs' h k e (a, s) =
      go (λ ss v. All-try_update P Q q f rs ss h k v s) (if q r then f r else some r)
        (try_update q f rs) refl refl e
    where
      here : (r' : R) → (if q r then f r else some r) ≡ some r' → Q r'
      here r' e = elim (Bool-cases (q r)) [
        | inl b ↦ h r r' a b (ground arith)
        | inr b ↦ let same : r ≡ r' = ground arith in subst Q same (k r a b)
      ]

      go :
          ((ss : List R) → try_update q f rs ≡ some ss → All Q ss)
          → (x : Option R) (y : Option (List R)) → (if q r then f r else some r) ≡ x
          → try_update q f rs ≡ y
          → set_row x y ≡ some rs'
          → All Q rs'
      go rest (some r') (some ss) u v w =
          let cons : r' ∷ ss ≡ rs' = ground arith in subst (All Q) cons (here r' u, rest ss v)
      go rest none y u v w = absurd (ground arith)
      go rest (some r') none u v w = absurd (ground arith)

  -- An UPDATE that can be refused and does not touch what is counted.
  pub count_where-try_update :
      (p q : R → Bool) (f : R → Option R) (rs rs' : List R)
      → ((r r' : R) → f r ≡ some r' → p r' ≡ p r)
      → try_update q f rs ≡ some rs'
      → count_where p rs' ≡ count_where p rs
  count_where-try_update p q f [] rs' h e =
      let nil : [] ≡ rs' = ground arith in subst (λ x. count_where p x ≡ 0) nil refl
  count_where-try_update p q f (r ∷ rs) rs' h e =
      go (λ ss v. count_where-try_update p q f rs ss h v) (if q r then f r else some r)
        (try_update q f rs) refl refl e
    where
      here : (r' : R) → (if q r then f r else some r) ≡ some r' → p r' ≡ p r
      here r' e = elim (Bool-cases (q r)) [
        | inl b ↦ h r r' (ground arith)
        | inr b ↦ let same : r ≡ r' = ground arith in subst (λ x. p x ≡ p r) same refl
      ]

      go :
          ((ss : List R) → try_update q f rs ≡ some ss → count_where p ss ≡ count_where p rs)
          → (x : Option R) (y : Option (List R)) → (if q r then f r else some r) ≡ x
          → try_update q f rs ≡ y
          → set_row x y ≡ some rs'
          → count_where p rs' ≡ count_where p (r ∷ rs)
      go rest (some r') (some ss) u v w =
          let cons : r' ∷ ss ≡ rs' = ground arith in
          subst (λ x. count_where p x ≡ count_where p (r ∷ rs)) cons
            (rw (here r' u, rest ss v) refl)
      go rest none y u v w = absurd (ground arith)
      go rest (some r') none u v w = absurd (ground arith)

  -- Where a kind has one row at most, a narrower kind that has a row has that one.
  pub unique-narrow :
      (p q : R → Bool) (rs : List R)
      → ((r : R) → q r ≡ true → p r ≡ true)
      → count_where p rs ≤ 1
      → count_where q rs ≢ 0
      → All (λ r. p r ≡ true → q r ≡ true) rs
  unique-narrow p q [] i h k = tt
  unique-narrow p q (r ∷ rs) i h k = elim (Bool-cases (p r)) [
    | inl a ↦ elim (Bool-cases (q r)) [
      | inl b ↦ ((λ _. b), no_more rs (ground arith))
      | inr b ↦ let le = count_where-imp p q rs i in absurd (k (ground arith))
    ]
    | inr a ↦ elim (Bool-cases (q r)) [
      | inl b ↦ let c = i r b in absurd (ground arith)
      | inr b ↦ (
        (λ c. absurd (ground arith)),
        unique-narrow p q rs i (ground arith) (λ z. k (ground arith)),
      )
    ]
  ]
    where
      no_more : (rs : List R) → count_where p rs ≡ 0 → All (λ r. p r ≡ true → q r ≡ true) rs
      no_more [] h = tt
      no_more (s ∷ ss) h = ((λ b. absurd (ground arith)), no_more ss (ground arith))

  -- The row that a search finds, after an UPDATE that does not touch what is searched for, and after
  -- an INSERT.
  pub first_where-update_where :
      (p q : R → Bool) (f : R → R) (rs : List R) (r : R)
      → ((s : R) → p (f s) ≡ p s)
      → first_where p rs ≡ some r
      → first_where p (update_where q f rs) ≡ some (if q r then f r else r)
  first_where-update_where p q f [] r h k = absurd (ground arith)
  first_where-update_where p q f (s ∷ rs) r h k = elim (Bool-cases (p s)) [
    | inl a ↦
        let same : s ≡ r = ground arith in
        elim (Bool-cases (q s)) [
          | inl b ↦ rw (b, h s, a, sym same, b) refl
          | inr b ↦ rw (b, a, sym same, b) refl
        ]
    | inr a ↦
        let rest = first_where-update_where p q f rs r h (ground arith) in
        elim (Bool-cases (q s)) [ inl b ↦ rw (b, h s, a, rest) refl | inr b ↦ rw (b, a, rest) refl ]
  ]

  pub first_where-insert :
      (p : R → Bool) (rs : List R) (r x : R)
      → first_where p rs ≡ some r
      → first_where p (rs ++ x ∷ []) ≡ some r
  first_where-insert p [] r x h = absurd (ground arith)
  first_where-insert p (s ∷ rs) r x h = ground (arith, first_where-insert p rs r x)
