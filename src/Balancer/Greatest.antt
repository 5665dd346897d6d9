-- ===== src/Balancer/Greatest.antt =====
-- The connection that the loop of `Pick` in wrr.go comes to.
use douyin_mall.Base.{
  ℕ, suc, ◌+◌, ◌≡◌, refl, subst, ◌⊎◌, inl, inr, arith, Bool, true, false, none, some, List, [], ◌∷◌,
  Int64, add64, lt64, ◌&&◌, get_elem?, All, Bool-cases, Option-cases,
}
use douyin_mall.Balancer.{Conn, look, is_greater, scan, Scan}

-- What a connection stands for in a pick.
abbrev pub raised : Conn → Int64
raised c = add64 c.weight c.current_weight

-- A connection that can be picked and stands for more than `m`.
abbrev pub beats : Int64 → Conn → Bool
beats m c = c.available && lt64 m (raised c)

lt64_trans : (a b c : Int64) → lt64 c b ≡ false → lt64 b a ≡ false → lt64 c a ≡ false
lt64_trans a b c h k = ground arith

lt64_asym : (a b : Int64) → lt64 a b ≡ true → lt64 b a ≡ false
lt64_asym a b h = ground arith

-- The greatest so far does not beat `m`.
abbrev AtMost : Scan → Int64 → Type 0
AtMost s m = (s.max_place ≡ none) ⊎ (lt64 m s.max_weight ≡ false)

look-AtMost :
    (place : ℕ) (c : Conn) (s : Scan) (m : Int64)
    → AtMost (look place c s) m
    → AtMost s m × (beats m c ≡ false)
look-AtMost place c s m h = elim (Bool-cases c.available) [
  | inr a ↦ (same a h, rw a refl)
  | inl a ↦ elim (Bool-cases (is_greater s.max_place s.max_weight (raised c))) [
    | inl b ↦ let top = here a b h in (below b top (Option-cases s.max_place), rw (a, top) refl)
    | inr b ↦
        let before = kept a b h in
        (inr before, rw (a, lt64_trans (raised c) s.max_weight m before (lower b)) refl)
  ]
]
  where
    same : c.available ≡ false → AtMost (look place c s) m → AtMost s m
    same a h = let kept : look place c s ≡ s = rw a refl in subst (λ t. AtMost t m) kept h

    here :
        c.available ≡ true
        → is_greater s.max_place s.max_weight (raised c) ≡ true
        → AtMost (look place c s) m
        → lt64 m (raised c) ≡ false
    here a b h = elim h [ inl none_left ↦ absurd (ground arith) | inr le ↦ ground arith ]

    kept :
        c.available ≡ true
        → is_greater s.max_place s.max_weight (raised c) ≡ false
        → AtMost (look place c s) m
        → lt64 m s.max_weight ≡ false
    kept a b h = elim h [ inl none_left ↦ absurd (ground arith) | inr le ↦ ground arith ]

    lower :
        is_greater s.max_place s.max_weight (raised c) ≡ false
        → lt64 s.max_weight (raised c) ≡ false
    lower b = elim (Option-cases s.max_place) [
      | inl x ↦ absurd (ground arith)
      | inr (p, x) ↦ ground arith
    ]

    below :
        is_greater s.max_place s.max_weight (raised c) ≡ true
        → lt64 m (raised c) ≡ false
        → (s.max_place ≡ none) ⊎ ((p : ℕ) × (s.max_place ≡ some p))
        → AtMost s m
    below b top (inl none_yet) = inl none_yet
    below b top (inr (p, some_yet)) = inr (
        lt64_trans s.max_weight (raised c) m top (lt64_asym s.max_weight (raised c) (ground arith)))

-- What the loop ends with beats nothing less than a connection that can be picked.
pub scan-AtMost :
    (place : ℕ) (cs : List Conn) (s : Scan)
    → AtMost s (scan place cs s).max_weight
      × All (λ c. beats (scan place cs s).max_weight c ≡ false) cs
scan-AtMost place [] s = (inr (ground arith), tt)
scan-AtMost place (c ∷ cs) s =
    let (top, rest) = scan-AtMost (suc place) cs (look place c s) in
    let (before, here) = look-AtMost place c s _ top in (before, (here, rest))

-- The connection at a place from which the loop has its greatest.
abbrev pub Source : ℕ → List Conn → ℕ → Int64 → Type 0
Source place cs p m =
    (i : ℕ) × (c : Conn) × (p ≡ place + i)
    × (get_elem? cs i ≡ some c)
    × (c.available ≡ true)
    × (m ≡ raised c)

abbrev Kept : Scan → ℕ → Int64 → Type 0
Kept s p m = (s.max_place ≡ some p) × (m ≡ s.max_weight)

look-Source :
    (place p : ℕ) (c : Conn) (s : Scan) (m : Int64)
    → Kept (look place c s) p m
    → Kept s p m ⊎ ((p ≡ place) × (c.available ≡ true) × (m ≡ raised c))
look-Source place p c s m (h, k) = elim (Bool-cases c.available) [
  | inr a ↦ inl (ground arith, ground arith)
  | inl a ↦ elim (Bool-cases (is_greater s.max_place s.max_weight (raised c))) [
    | inl b ↦ inr (ground arith, a, ground arith)
    | inr b ↦ inl (ground arith, ground arith)
  ]
]

pub scan-Source :
    (place p : ℕ) (cs : List Conn) (s : Scan)
    → (scan place cs s).max_place ≡ some p
    → Kept s p (scan place cs s).max_weight ⊎ Source place cs p (scan place cs s).max_weight
scan-Source place p [] s h = inl (h, refl)
scan-Source place p (c ∷ cs) s h = elim (scan-Source (suc place) p cs (look place c s) h) [
  | inr (i, d, at, found, up, top) ↦ inr (suc i, d, omega (arith, at), found, up, top)
  | inl kept ↦ elim (look-Source place p c s _ kept) [
    | inl before ↦ inl before
    | inr (at, up, top) ↦ inr (0, c, omega (arith, at), refl, up, top)
  ]
]
