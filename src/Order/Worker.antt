-- ===== src/Order/Worker.antt =====
-- The number of rounds of the loop of job/outbox_worker.go.
use douyin_mall.Base.{
  ℕ, zero, suc, ◌+◌, ◌*◌, ◌≤◌, ◌<◌, Bool, true, false, List, [], ◌∷◌, length, take, drop, ltb, ◌≡◌,
  refl, sym, ◌∙◌, ap, subst, inl, inr, arith, World, Result, ok, err, ◌>>=◌, pure, continue,
  count_where, all_where, Bool-cases, if◌then◌else◌,
}
use douyin_mall.Order.{
  OutboxEventModel, Error, Tables, Db, Listing, is_pending, list_pending, process_batch, run_from,
  next_round, batch_size,
}
use douyin_mall.Order.Delivery.{Settling, process_batch-IsSettling}

pub length-all_where :
    (p : OutboxEventModel → Bool) (rs : List OutboxEventModel)
    → length (all_where p rs) ≡ count_where p rs
length-all_where p [] = refl
length-all_where p (r ∷ rs) = ground (arith, length-all_where p rs)

-- A query lists each row that it finds as often as it is there, in any order.
abbrev pub IsListing : Listing → Type 0
IsListing listing =
    (offset : ℕ) (rs : List OutboxEventModel) (p : OutboxEventModel → Bool)
    → count_where p (listing offset rs) ≡ count_where p rs

length-count_where :
    (rs : List OutboxEventModel) → count_where (λ (_ : OutboxEventModel). true) rs ≡ length rs
length-count_where [] = refl
length-count_where (r ∷ rs) = omega (arith, length-count_where rs)

pub length-listing :
    (listing : Listing) (offset : ℕ) (rs : List OutboxEventModel)
    → IsListing listing
    → length (listing offset rs) ≡ length rs
length-listing listing offset rs h =
    sym (length-count_where (listing offset rs)) ∙ (h offset rs (λ _. true) ∙ length-count_where rs)

-- A full batch at an offset stands in a list that is as long.
length-take_le : (n : ℕ) (xs : List OutboxEventModel) → length (take n xs) ≤ length xs
length-take_le zero xs = omega arith
length-take_le (suc n) [] = omega arith
length-take_le (suc n) (x ∷ xs) = omega (arith, length-take_le n xs)

length-batch :
    (offset n : ℕ) (xs : List OutboxEventModel)
    → 1 ≤ length (take n (drop offset xs))
    → offset + length (take n (drop offset xs)) ≤ length xs
length-batch zero n xs h = omega (arith, length-take_le n xs)
length-batch (suc offset) n (x ∷ xs) h = omega (arith, length-batch offset n xs h)
length-batch (suc offset) zero [] h = absurd (ground arith)
length-batch (suc offset) (suc n) [] h = absurd (ground arith)

-- The events that are read at an offset, from tables that stay as they are.
list_pending-ok :
    (listing : Listing) (offset : ℕ) (w v : World Tables) (rows : List OutboxEventModel)
    → list_pending listing offset batch_size w ≡ (ok rows, v)
    → (rows ≡ take batch_size (drop offset (listing offset (all_where is_pending w.store.outbox))))
      × (v.store ≡ w.store)
unfolding list_pending
list_pending-ok listing offset w v rows h = ground arith

-- Two rounds that go on with calls that agree on the tables that a full batch leaves.
module _ (listing : Listing) (offset : ℕ) (lists : IsListing listing) (rest other : Db (Unit {0}))
    (w : World Tables)
    (agree : (u : World Tables)
      → offset + 100 ≤ count_where is_pending w.store.outbox
      → Settling w.store u.store
      → rest u ≡ other u) where
  after_batch :
      (r : OutboxEventModel) (rows : List OutboxEventModel) (v : World Tables)
      → v.store ≡ w.store
      → (ltb (length (r ∷ rows)) batch_size ≡ false
          → offset + 100 ≤ count_where is_pending w.store.outbox)
      → next_round (r ∷ rows) rest v ≡ next_round (r ∷ rows) other v
  after_batch r rows v same full = go (process_batch (r ∷ rows) v) (
      subst (λ t. Settling t (process_batch (r ∷ rows) v).1.store) same
        (process_batch-IsSettling (r ∷ rows) v))
    where
      choose : Db (Unit {0}) → Unit {0} → Db (Unit {0})
      choose k _ = if ltb (length (r ∷ rows)) batch_size then pure tt else k

      go :
          (o : Result Error (Unit {0}) × World Tables)
          → Settling w.store o.1.store
          → continue (choose rest) o.0 o.1 ≡ continue (choose other) o.0 o.1
      go (err x, u) le = refl
      go (ok x, u) le = elim (Bool-cases (ltb (length (r ∷ rows)) batch_size)) [
        | inl short ↦ rw short refl
        | inr long ↦ rw long (agree u (full long) le)
      ]

  equal_rounds :
      (list_pending listing offset batch_size >>= λ rows. next_round rows rest) w
      ≡ (list_pending listing offset batch_size >>= λ rows. next_round rows other) w
  equal_rounds = go (list_pending listing offset batch_size w) refl
    where
      go :
          (o : Result Error (List OutboxEventModel) × World Tables)
          → list_pending listing offset batch_size w ≡ o
          → continue (λ rows. next_round rows rest) o.0 o.1
            ≡ continue (λ rows. next_round rows other) o.0 o.1
      go (err x, v) e = refl
      go (ok [], v) e = refl
      go (ok (r ∷ rows), v) e =
          let (read, same) = list_pending-ok listing offset w v (r ∷ rows) e in
          after_batch r rows v same (λ long.
            let size : 100 ≤ length (r ∷ rows) = ground arith in
            let all =
              length-listing listing offset (all_where is_pending w.store.outbox) lists
              ∙ length-all_where is_pending w.store.outbox in
            let lengths : length (r ∷ rows)
                ≡ length (
                    take batch_size
                      (drop offset (listing offset (all_where is_pending w.store.outbox)))) =
              ap length read in
            let bound =
              length-batch offset batch_size (listing offset (all_where is_pending w.store.outbox))
                (omega (arith, lengths, size)) in
            omega (arith, bound, lengths, size, all))

-- Whatever fails, and in whatever order the database lists the pending events of each query, each as
-- often as it is there, the loop of the outbox worker does with any more fuel what it does with one
-- unit for each 100 events that are pending beyond its offset, and one more.
pub run_from-enough :
    (listing : Listing) (f g offset : ℕ) (w : World Tables)
    → IsListing listing
    → count_where is_pending w.store.outbox < offset + 100 * f + 100
    → f ≤ g
    → run_from listing (suc g) offset w ≡ run_from listing (suc f) offset w
unfolding run_from
run_from-enough listing zero g offset w lists h le =
    equal_rounds listing offset lists (run_from listing g (offset + batch_size))
      (run_from listing zero (offset + batch_size)) w (λ u full _. absurd (omega (arith, full, h)))
run_from-enough listing (suc f) zero offset w lists h le = absurd (omega (arith, le))
run_from-enough listing (suc f) (suc g) offset w lists h le =
    equal_rounds listing offset lists (run_from listing (suc g) (offset + batch_size))
      (run_from listing (suc f) (offset + batch_size)) w
      (λ u full fewer.
        run_from-enough listing f g (offset + batch_size) u lists (omega (arith, fewer, h))
          (omega (arith, le)))
