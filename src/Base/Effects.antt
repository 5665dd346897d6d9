-- ===== src/Base/Effects.antt =====
-- Calls that can fail, over a store. `fails n` says whether the n-th call of the database or of
-- another service fails; a theorem that leaves it open covers every pattern of failures.
use Prim.Native.Nat.{ℕ, suc}
use mathlib.Core.Path.{◌≡◌, refl, sym, ap, subst, ◌∙◌}
use mathlib.Core.Logic.{◌⊎◌, inl, inr}
use native.Mathlib.Omega.{arith}
use mathlib.Core.Bool.{Bool, true, false}
use douyin_mall.Base.Tests.{if◌then◌else◌, Bool-cases}

pub data Result {ℓ κ} (E : Type ℓ) (A : Type κ) : Type (ℓ ⊔ κ) where
  ok : A → Result E A
  err : E → Result E A

pub record World (S : Type 0) : Type 0 where
  pub store : S
  pub tick : ℕ
  pub fails : ℕ → Bool

abbrev pub Action : Type 0 → Type 0 → Type 0 → Type 0
Action S E A = World S → Result E A × World S

module _ {S E A : Type 0} where
  abbrev pub pure : A → Action S E A
  pure a w = (ok a, w)

  abbrev pub raise : E → Action S E A
  raise e w = (err e, w)

  abbrev pub gets : (S → A) → Action S E A
  gets f w = (ok (f w.store), w)

  -- `if err := m; err != nil { ... }`: the error as a value.
  abbrev pub attempt : Action S E A → Action S E (Result E A)
  attempt m w = let (r, w') = m w in (ok r, w')

  -- A transaction: where the body or the commit fails, the store is as it was at the start.
  abbrev pub rollback : S → Result E A → World S → Result E A × World S
  rollback s (ok a) w = (ok a, w)
  rollback s (err e) w = (err e, record w { store = s })

module _ {S E : Type 0} where
  abbrev pub modify : (S → S) → Action S E (Unit {0})
  modify f w = (ok tt, record w { store = f w.store })

  abbrev pub raise_if : Bool → E → Action S E (Unit {0})
  raise_if c e w = (if c then err e else ok tt, w)

  -- A round trip to the database or to a service, which fails with `e`.
  abbrev pub io : E → Action S E (Unit {0})
  io e w = (if w.fails w.tick then err e else ok tt, record w { tick = suc w.tick })

abbrev pub continue :
    {S E A B : Type 0} → (A → Action S E B) → Result E A → World S → Result E B × World S
continue f (ok a) w = f a w
continue f (err e) w = (err e, w)

infixl 5 ◌>>=◌ ◌>>◌
abbrev pub ◌>>=◌ : {S E A B : Type 0} → Action S E A → (A → Action S E B) → Action S E B
◌>>=◌ m f w = let (r, w') = m w in continue f r w'

abbrev pub ◌>>◌ : {S E A B : Type 0} → Action S E A → Action S E B → Action S E B
m >> k = m >>= λ _. k

-- `db.Transaction(body)`: begin, body, commit.
abbrev pub transaction : {S E A : Type 0} → E → Action S E A → Action S E A
transaction e body w = let (r, w') = (do io e; a ← body; io e; pure a) w in rollback w.store r w'

-- To prove something of a chain, prove it where the first part fails and where it goes on.
pub >>=-rule {ℓ} :
    {S E A B : Type 0} (Q : Result E B × World S → Type ℓ) (m : Action S E A) (f : A → Action S E B)
    (w : World S)
    → ((e : E) (v : World S) → m w ≡ (err e, v) → Q (err e, v))
    → ((a : A) (v : World S) → m w ≡ (ok a, v) → Q (f a v))
    → Q ((m >>= f) w)
>>=-rule {S} {E} {A} {B} Q m f w bad good = go (m w) refl
  where
    go : (o : Result E A × World S) → m w ≡ o → Q (continue f o.0 o.1)
    go (ok a, v) h = good a v h
    go (err e, v) h = bad e v h

-- What a transaction does: it fails and the store is as before, or the body ran to its end from the
-- store as it was.
abbrev pub Aborted : {S E A : Type 0} → World S → Result E A × World S → Type 0
Aborted {E = E} w o = (e : E) × (o.0 ≡ err e) × (o.1.store ≡ w.store)

abbrev pub Committed : {S E A : Type 0} → Action S E A → World S → Result E A × World S → Type 0
Committed {S} {A = A} body w o =
    (a : A) × (u : World S) × (v : World S) × (o.0 ≡ ok a)
    × (u.store ≡ w.store)
    × (u.fails ≡ w.fails)
    × (body u ≡ (ok a, v))
    × (o.1.store ≡ v.store)

pub transaction-cases :
    {S E A : Type 0} (e : E) (body : Action S E A) (w : World S)
    → Aborted w (transaction e body w) ⊎ Committed body w (transaction e body w)
transaction-cases {S} {E} {A} e body w = begin (Bool-cases (w.fails w.tick))
  where
    u : World S
    u = record w { tick = suc w.tick }

    finish :
        (o : Result E A × World S)
        → body u ≡ o
        → (s : Bool) → o.1.fails o.1.tick ≡ s
        → let (r, v) = continue (λ a. io e >> pure a) o.0 o.1 in
          Aborted w (rollback w.store r v) ⊎ Committed body w (rollback w.store r v)
    finish (err x, v) h s k = inl (x, refl, refl)
    finish (ok a, v) h true k = rw k (inl (e, refl, refl))
    finish (ok a, v) h false k = rw k (inr (a, u, v, refl, refl, refl, h, refl))

    begin :
        (w.fails w.tick ≡ true) ⊎ (w.fails w.tick ≡ false)
        → Aborted w (transaction e body w) ⊎ Committed body w (transaction e body w)
    begin (inl down) = rw down (inl (e, refl, refl))
    begin (inr up) = rw up (finish (body u) refl _ refl)

-- The two results of a transaction.
pub transaction-err :
    {S E A : Type 0} (e : E) (body : Action S E A) (w v : World S) (x : E)
    → transaction e body w ≡ (err x, v)
    → v.store ≡ w.store
transaction-err {S} {E} {A} e body w v x h = go (transaction-cases e body w)
  where
    go :
        Aborted w (transaction e body w) ⊎ Committed body w (transaction e body w)
        → v.store ≡ w.store
    go (inl (y, _, same)) = subst (λ (o : Result E A × World S). o.1.store ≡ w.store) h same
    go (inr (a, u, t, r, _, _, _, _)) = absurd (cc (r, ap (λ (o : Result E A × World S). o.0) h))

pub transaction-ok :
    {S E A : Type 0} (e : E) (body : Action S E A) (w v : World S) (a : A)
    → transaction e body w ≡ (ok a, v)
    → (u : World S) × (t : World S) × (u.store ≡ w.store)
      × (body u ≡ (ok a, t))
      × (v.store ≡ t.store)
transaction-ok {S} {E} {A} e body w v a h = go (transaction-cases e body w)
  where
    go :
        Aborted w (transaction e body w) ⊎ Committed body w (transaction e body w)
        → (u : World S) × (t : World S) × (u.store ≡ w.store)
          × (body u ≡ (ok a, t))
          × (v.store ≡ t.store)
    go (inl (y, r, _)) = absurd (cc (r, ap (λ (o : Result E A × World S). o.0) h))
    go (inr (b, u, t, r, start, _, ran, end)) =
        let same : b ≡ a = cc (r, ap (λ (o : Result E A × World S). o.0) h) in
        (
          u,
          t,
          start,
          ran ∙ ap (λ c. (ok c, t)) same,
          sym (ap (λ (o : Result E A × World S). o.1.store) h) ∙ end,
        )

-- A chain that succeeds: its first part did, and so did what follows from there.
pub >>=-ok :
    {S E A B : Type 0} (m : Action S E A) (f : A → Action S E B) (w v : World S) (b : B)
    → (m >>= f) w ≡ (ok b, v)
    → (a : A) × (u : World S) × (m w ≡ (ok a, u)) × (f a u ≡ (ok b, v))
>>=-ok {S} {E} {A} {B} m f w v b h = go (m w) refl h
  where
    go :
        (o : Result E A × World S)
        → m w ≡ o
        → continue f o.0 o.1 ≡ (ok b, v)
        → (a : A) × (u : World S) × (m w ≡ (ok a, u)) × (f a u ≡ (ok b, v))
    go (ok a, u) e h = (a, u, e, h)
    go (err x, u) e h = absurd (ground arith)

pub attempt-ok :
    {S E A : Type 0} (m : Action S E A) (w v : World S) (r : Result E A)
    → attempt {E = E} m w ≡ (ok r, v)
    → m w ≡ (r, v)
attempt-ok {S} {E} {A} m w v r h = go (m w) refl h
  where
    attempted : Result E A × World S → Result E (Result E A) × World S
    attempted o = (ok o.0, o.1)

    go : (o : Result E A × World S) → m w ≡ o → attempted o ≡ (ok r, v) → m w ≡ (r, v)
    go (x, u) e h = ground arith
