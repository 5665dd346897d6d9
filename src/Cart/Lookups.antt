-- ===== src/Cart/Lookups.antt =====
-- What the statements on a table do to the row that a search finds.
use douyin_mall.Base.{
  Bool, true, false, Option, none, some, List, [], ◌∷◌, ◌++◌, ◌≡◌, refl, subst, inl, inr, arith,
  All, if◌then◌else◌, Bool-cases, Option-cases, first_where, delete_where, count_where, try_update,
  set_row, ◌≤◌, try_update-none,
}

module _ {R : Type 0} where
  abbrev pub keep : Option R → Option (Option R)
  keep none = none
  keep (some r) = some (some r)

  -- An update that can be refused, of a row that may be missing.
  abbrev pub update_found : (R → Bool) → (R → Option R) → Option R → Option (Option R)
  update_found q f none = some none
  update_found q f (some r) = keep (if q r then f r else some r)

  pub first_where-none :
      (p : R → Bool) (rs : List R) → count_where p rs ≡ 0 → first_where p rs ≡ none
  first_where-none p [] h = refl
  first_where-none p (r ∷ rs) h = ground (arith, first_where-none p rs)

  pub count_where-none :
      (p : R → Bool) (rs : List R) → first_where p rs ≡ none → count_where p rs ≡ 0
  count_where-none p [] h = refl
  count_where-none p (r ∷ rs) h = ground (arith, count_where-none p rs)

  pub first_where-append_other :
      (p : R → Bool) (rs : List R) (r : R)
      → p r ≡ false
      → first_where p (rs ++ r ∷ []) ≡ first_where p rs
  first_where-append_other p [] r h = rw h refl
  first_where-append_other p (s ∷ rs) r h = ground (arith, first_where-append_other p rs r h)

  pub first_where-delete_all :
      (p q : R → Bool) (rs : List R)
      → ((r : R) → p r ≡ true → q r ≡ true)
      → first_where p (delete_where q rs) ≡ none
  first_where-delete_all p q [] h = refl
  first_where-delete_all p q (r ∷ rs) h = elim (Bool-cases (p r)) [
    | inl a ↦ rw (h r a) (first_where-delete_all p q rs h)
    | inr a ↦ elim (Bool-cases (q r)) [
      | inl b ↦ rw b (first_where-delete_all p q rs h)
      | inr b ↦ rw (b, a) (first_where-delete_all p q rs h)
    ]
  ]

  pub first_where-delete_other :
      (p q : R → Bool) (rs : List R)
      → ((r : R) → p r ≡ true → q r ≡ false)
      → first_where p (delete_where q rs) ≡ first_where p rs
  first_where-delete_other p q [] h = refl
  first_where-delete_other p q (r ∷ rs) h = elim (Bool-cases (p r)) [
    | inl a ↦ rw (h r a, a) refl
    | inr a ↦ elim (Bool-cases (q r)) [
      | inl b ↦ rw (b, a) (first_where-delete_other p q rs h)
      | inr b ↦ rw (b, a) (first_where-delete_other p q rs h)
    ]
  ]

  pub All-delete_where {κ} :
      (P : R → Type κ) (q : R → Bool) (rs : List R) → All P rs → All P (delete_where q rs)
  All-delete_where P q [] h = tt
  All-delete_where P q (r ∷ rs) (a, h) = elim (Bool-cases (q r)) [
    | inl b ↦ rw b (All-delete_where P q rs h)
    | inr b ↦ rw b (a, All-delete_where P q rs h)
  ]

  pub All-append {κ} :
      (P : R → Type κ) (rs : List R) (r : R) → All P rs → P r → All P (rs ++ r ∷ [])
  All-append P [] r h a = (a, tt)
  All-append P (s ∷ rs) r (b, h) a = (b, All-append P rs r h a)

  pub first_where-try_update :
      (p q : R → Bool) (f : R → Option R) (rs rs' : List R)
      → ((r r' : R) → f r ≡ some r' → p r' ≡ p r)
      → try_update q f rs ≡ some rs'
      → update_found q f (first_where p rs) ≡ some (first_where p rs')
  first_where-try_update p q f [] rs' h e = ground arith
  first_where-try_update p q f (r ∷ rs) rs' h e =
      go (λ ss v. first_where-try_update p q f rs ss h v) (if q r then f r else some r)
        (try_update q f rs) refl refl e
    where
      here : (r' : R) → (if q r then f r else some r) ≡ some r' → p r' ≡ p r
      here r' e = elim (Bool-cases (q r)) [
        | inl b ↦ h r r' (ground arith)
        | inr b ↦ let same : r ≡ r' = ground arith in subst (λ x. p x ≡ p r) same refl
      ]

      at_head :
          (r' : R) (ss : List R)
          → (if q r then f r else some r) ≡ some r'
          → update_found q f (first_where p rs) ≡ some (first_where p ss)
          → update_found q f (first_where p (r ∷ rs)) ≡ some (first_where p (r' ∷ ss))
      at_head r' ss u k = elim (Bool-cases (p r)) [
        | inl b ↦ rw (b, here r' u, b, u) refl
        | inr b ↦ rw (b, here r' u, b) k
      ]

      go :
          ((ss : List R)
            → try_update q f rs ≡ some ss
            → update_found q f (first_where p rs) ≡ some (first_where p ss))
          → (x : Option R) (y : Option (List R)) → (if q r then f r else some r) ≡ x
          → try_update q f rs ≡ y
          → set_row x y ≡ some rs'
          → update_found q f (first_where p (r ∷ rs)) ≡ some (first_where p rs')
      go rest (some r') (some ss) u v w =
          let cons : r' ∷ ss ≡ rs' = ground arith in
          subst (λ x. update_found q f (first_where p (r ∷ rs)) ≡ some (first_where p x)) cons
            (at_head r' ss u (rest ss v))
      go rest none y u v w = absurd (ground arith)
      go rest (some r') none u v w = absurd (ground arith)

  -- Of a kind with one row at most, an UPDATE is refused where that row is.
  pub try_update-refused :
      (p : R → Bool) (f : R → Option R) (rs : List R)
      → count_where p rs ≤ 1
      → try_update p f rs ≡ none
      → update_found p f (first_where p rs) ≡ none
  try_update-refused p f [] h e = absurd (ground arith)
  try_update-refused p f (r ∷ rs) h e = elim (Bool-cases (p r)) [
    | inl a ↦ elim (Option-cases (f r)) [
      | inl b ↦ rw (a, a, b) refl
      | inr (r', b) ↦ let rest = try_update-none p f rs (ground arith) in absurd (ground arith)
    ]
    | inr a ↦ rw a (try_update-refused p f rs (ground arith) (ground arith))
  ]
