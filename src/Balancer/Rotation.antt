-- ===== src/Balancer/Rotation.antt =====
-- The weights of a picker: what a pick adds to the connections it takes from the one that it picks.
use douyin_mall.Base.{
  ℕ, zero, suc, ◌+◌, ◌%◌, ◌<◌, ◌≡◌, ◌≢◌, refl, sym, ap, subst, ◌∙◌, ◌⊎◌, inl, inr, arith, true,
  false, Option, none, some, List, [], ◌∷◌, map, Int64, add64, get_elem?, length, length-map, All,
  Bool-cases, Option-cases, if◌then◌else◌, mod64,
}
use douyin_mall.Balancer.Greatest.{raised, beats, scan-AtMost, scan-Source}
use douyin_mall.Balancer.{
  Conn, grow, look, is_greater, scan, Scan, start, charge, Picked, picked, no_conn, panics,
  take_place, pick_from, pick,
}

-- The sum of the current weights, and of the weights of the connections that are available.
abbrev pub sum_of : List Conn → ℕ
sum_of [] = 0
sum_of (c ∷ cs) = c.current_weight + sum_of cs

abbrev pub weight_of : List Conn → ℕ
weight_of [] = 0
weight_of (c ∷ cs) = (if c.available then c.weight else 0) + weight_of cs

look-total :
    (place : ℕ) (c : Conn) (s : Scan)
    → (look place c s).total % mod64 ≡ (s.total + (if c.available then c.weight else 0)) % mod64
look-total place c s = elim (Bool-cases c.available) [
  | inr a ↦ rw a omega arith
  | inl a ↦
      elim (Bool-cases (is_greater s.max_place s.max_weight (add64 c.weight c.current_weight))) [
        | inl b ↦ rw (a, b) omega arith
        | inr b ↦ rw (a, b) omega arith
      ]
]

scan-total :
    (place : ℕ) (cs : List Conn) (s : Scan)
    → (scan place cs s).total % mod64 ≡ (s.total + weight_of cs) % mod64
scan-total place [] s = omega arith
scan-total place (c ∷ cs) s =
    let here = look-total place c s in
    let rest = scan-total (suc place) cs (look place c s) in omega (arith, here, rest)

scan-small :
    (place : ℕ) (cs : List Conn) (s : Scan) → s.total < mod64 → (scan place cs s).total < mod64
scan-small place [] s h = h
scan-small place (c ∷ cs) s h = scan-small (suc place) cs (look place c s) (small c)
  where
    small : (c : Conn) → (look place c s).total < mod64
    small c = elim (Bool-cases c.available) [
      | inr a ↦ rw a h
      | inl a ↦
          elim (Bool-cases
            (is_greater s.max_place s.max_weight (add64 c.weight c.current_weight))) [
              | inl b ↦ rw (a, b) omega arith
              | inr b ↦ rw (a, b) omega arith
            ]
    ]

sum_of-grow : (cs : List Conn) → sum_of (map grow cs) % mod64 ≡ (sum_of cs + weight_of cs) % mod64
sum_of-grow [] = omega arith
sum_of-grow (c ∷ cs) =
    let rest = sum_of-grow cs in
    elim (Bool-cases c.available) [
      | inl a ↦ rw a omega (arith, rest)
      | inr a ↦ rw a omega (arith, rest)
    ]

sum_of-charge :
    (place : ℕ) (t : Int64) (cs : List Conn)
    → t < mod64
    → place < length cs
    → (sum_of (charge place t cs) + t) % mod64 ≡ sum_of cs % mod64
sum_of-charge place t [] small h = absurd (ground arith)
sum_of-charge zero t (c ∷ cs) small h = omega (arith, small)
sum_of-charge (suc place) t (c ∷ cs) small h =
    let rest = sum_of-charge place t cs small (omega (arith, h)) in omega (arith, rest)

-- Where the scan ends, and what it has passed over where it ends with no connection.
abbrev Chosen : ℕ → List Conn → Scan → Option ℕ → Type 0
Chosen place cs s none = (s.max_place ≡ none) × All (λ c. c.available ≡ false) cs
Chosen place cs s (some p) = (s.max_place ≡ some p) ⊎ (p < place + length cs)

Chosen-none :
    (place : ℕ) (c : Conn) (s : Scan)
    → (look place c s).max_place ≡ none
    → (s.max_place ≡ none) × (c.available ≡ false)
Chosen-none place c s h = elim (Bool-cases c.available) [
  | inr a ↦ (ground arith, a)
  | inl a ↦ elim (Option-cases s.max_place) [
    | inl b ↦ absurd (ground arith)
    | inr (q, b) ↦ absurd (ground arith)
  ]
]

Chosen-some :
    (place p : ℕ) (c : Conn) (s : Scan)
    → (look place c s).max_place ≡ some p
    → (s.max_place ≡ some p) ⊎ (place ≡ p)
Chosen-some place p c s h = elim (Bool-cases c.available) [
  | inr a ↦ inl (ground arith)
  | inl a ↦
      elim (Bool-cases (is_greater s.max_place s.max_weight (add64 c.weight c.current_weight))) [
        | inl b ↦ inr (ground arith)
        | inr b ↦ inl (ground arith)
      ]
]

Chosen-step :
    (place : ℕ) (c : Conn) (cs : List Conn) (s : Scan) (o : Option ℕ)
    → Chosen (suc place) cs (look place c s) o
    → Chosen place (c ∷ cs) s o
Chosen-step place c cs s none (h, all) =
    let (before, dead) = Chosen-none place c s h in (before, (dead, all))
Chosen-step place c cs s (some p) (inr h) = inr (omega (arith, h))
Chosen-step place c cs s (some p) (inl h) = elim (Chosen-some place p c s h) [
  | inl before ↦ inl before
  | inr here ↦ inr (omega (arith, here))
]

scan-Chosen :
    (place : ℕ) (cs : List Conn) (s : Scan) → Chosen place cs s (scan place cs s).max_place
scan-Chosen place [] s = base s.max_place refl
  where
    base : (o : Option ℕ) → s.max_place ≡ o → Chosen place [] s o
    base none h = (h, tt)
    base (some p) h = inl h
scan-Chosen place (c ∷ cs) s =
    Chosen-step place c cs s (scan (suc place) cs (look place c s)).max_place
      (scan-Chosen (suc place) cs (look place c s))

length-charge : (place : ℕ) (t : Int64) (cs : List Conn) → length (charge place t cs) ≡ length cs
length-charge place t [] = refl
length-charge zero t (c ∷ cs) = refl
length-charge (suc place) t (c ∷ cs) = ap suc (length-charge place t cs)

-- How a pick ends: without a connection where there is none; in a panic where there are some and
-- none is available; or at an available connection that no available one beats, with the same sum
-- of current weights, modulo 2^64.
abbrev pub Outcome : List Conn → Picked × List Conn → Type 0
Outcome cs (no_conn, cs') = cs ≡ []
Outcome cs (panics, cs') = (cs ≢ []) × All (λ c. c.available ≡ false) cs
Outcome cs (picked p, cs') =
    (c : Conn) × (get_elem? cs p ≡ some c)
    × (c.available ≡ true)
    × All (λ d. beats (raised c) d ≡ false) cs
    × (length cs' ≡ length cs)
    × (sum_of cs' % mod64 ≡ sum_of cs % mod64)

pick_from-Outcome :
    (cs : List Conn) (o : Option ℕ)
    → cs ≢ []
    → (scan 0 cs start).max_place ≡ o
    → Outcome cs (pick_from (scan 0 cs start) cs)
pick_from-Outcome cs none some_conn h =
    let chosen = subst (Chosen 0 cs start) h (scan-Chosen 0 cs start) in
    subst (λ x. Outcome cs (take_place x (scan 0 cs start).total cs)) (sym h) (some_conn, chosen.1)
pick_from-Outcome cs (some p) some_conn h =
    elim (subst (Chosen 0 cs start) h (scan-Chosen 0 cs start)) [
      | inl before ↦ absurd (ground arith)
      | inr near ↦ elim (scan-Source 0 p cs start h) [
        | inl kept ↦ absurd (ground arith)
        | inr (i, c, at, found, up, top) ↦
            let total = (scan 0 cs start).total in
            let size = length-map cs grow in
            let small = scan-small 0 cs start (omega arith) in
            let place : p < length (map grow cs) = omega (arith, size, near) in
            let paid = sum_of-charge p total (map grow cs) small place in
            let grown = sum_of-grow cs in
            let sum = scan-total 0 cs start in
            let here : get_elem? cs p ≡ some c =
              let same : i ≡ p = omega (arith, at) in
              subst (λ n. get_elem? cs n ≡ some c) same found in
            subst (λ x. Outcome cs (take_place x total cs)) (sym h)
              (
                c,
                here,
                up,
                subst (λ m. All (λ d. beats m d ≡ false) cs) top (scan-AtMost 0 cs start).1,
                length-charge p total (map grow cs) ∙ size,
                omega (arith, paid, grown, sum, small),
              )
      ]
    ]

-- A pick finds no connection only in an empty list; it panics only where there are connections and
-- none is available; otherwise it picks an available connection such that no available one has a
-- greater sum, wrapped to an int64, of its weight and its current weight, and it keeps the number of
-- connections and, modulo 2^64, the sum of their current weights.
pub pick-Outcome : (cs : List Conn) → Outcome cs (pick cs)
unfolding pick
pick-Outcome [] = refl
pick-Outcome (c ∷ cs) =
    pick_from-Outcome (c ∷ cs) (scan 0 (c ∷ cs) start).max_place (λ e. absurd (ground arith)) refl
