-- ===== src/Order/Progress.antt =====
-- A run of the outbox worker where no call fails.
use douyin_mall.Base.{
  ℕ, zero, suc, ◌<◌, Bool, true, false, List, [], ◌∷◌, map, length, take, ltb, leb, elem, ==_iff,
  ◌≡◌, refl, sym, ap, subst, ◌∙◌, inl, inr, arith, World, Result, ok, ◌>>◌, pure, continue,
  count_where, all_where, update_where, Bool-cases, if◌then◌else◌, All, All-map,
}
use douyin_mall.Order.{
  OutboxEventModel, OrderStatusUpdateEvent, Error, Tables, Listing, has_row_id, is_pending,
  list_pending, process_batch, run_from, next_round, log_error, batch_size, send_message,
  send_messages, retry_failed, successes, batch_mark_sent, set_sent, event_of, outbox_id, row_id,
}
use douyin_mall.Order.Worker.{IsListing, length-listing, length-all_where}

-- No call fails from here on.
abbrev pub calm : Tables → ℕ → World Tables
calm t k = record { store = t; tick = k; fails = λ _. false }

abbrev none_failed : {A : Type 0} → List A → List Bool
none_failed [] = []
none_failed (e ∷ es) = false ∷ none_failed es

-- The broker has the events, the last one first.
abbrev pub delivered :
    List OrderStatusUpdateEvent → List OrderStatusUpdateEvent → List OrderStatusUpdateEvent
delivered [] ms = ms
delivered (e ∷ es) ms = delivered es (e ∷ ms)

abbrev sent_all : List OrderStatusUpdateEvent → Tables → Tables
sent_all es t = record t { messages = delivered es t.messages }

send_messages-calm :
    (es : List OrderStatusUpdateEvent) (t : Tables) (k : ℕ)
    → (k' : ℕ) × (send_messages es (calm t k) ≡ (ok (none_failed es), calm (sent_all es t) k'))
unfolding send_messages send_message
send_messages-calm [] t k = (k, refl)
send_messages-calm (e ∷ es) t k =
    let (k', rest) = send_messages-calm es (record t { messages = e ∷ t.messages }) (suc k) in
    (
      k',
      ap
          (λ (o : Result Error (List Bool) × World Tables).
            continue (λ bs. pure (false ∷ bs)) o.0 o.1)
          rest,
    )

retry_failed-none :
    (rows : List OutboxEventModel) (w : World Tables)
    → retry_failed (map outbox_id rows) (none_failed (map event_of rows)) w ≡ (ok tt, w)
unfolding retry_failed
retry_failed-none [] w = refl
retry_failed-none (r ∷ rows) w = retry_failed-none rows w

successes-all :
    (rows : List OutboxEventModel)
    → successes (map outbox_id rows) (none_failed (map event_of rows)) ≡ map outbox_id rows
successes-all [] = refl
successes-all (r ∷ rows) = ap (λ ids. r.id ∷ ids) (successes-all rows)

-- The outbox after the rows have been marked.
abbrev marked : List ℕ → Tables → Tables
marked ids t = record t { outbox = update_where (λ r. elem (row_id r) ids) set_sent t.outbox }

process_batch-calm :
    (r : OutboxEventModel) (rows : List OutboxEventModel) (t : Tables) (k : ℕ)
    → (k' : ℕ) × (process_batch (r ∷ rows) (calm t k) ≡ (
      ok tt,
      calm (marked (map outbox_id (r ∷ rows)) (sent_all (map event_of (r ∷ rows)) t)) k',
    ))
unfolding process_batch batch_mark_sent
process_batch-calm r rows t k =
    let (k', sent) = send_messages-calm (map event_of (r ∷ rows)) t k in
    let ids = map outbox_id (r ∷ rows) in
    let errs = none_failed (map event_of (r ∷ rows)) in
    let w = calm (sent_all (map event_of (r ∷ rows)) t) k' in
    (
      suc k',
      ap
            (λ (o : Result Error (List Bool) × World Tables).
              continue (λ bs. retry_failed ids bs >> log_error (batch_mark_sent (successes ids bs)))
                o.0 o.1)
            sent
          ∙ (ap
                (λ (o : Result Error (Unit {0}) × World Tables).
                  continue (λ _. log_error (batch_mark_sent (successes ids errs))) o.0 o.1)
                (retry_failed-none (r ∷ rows) w)
              ∙ ap (λ l. log_error (batch_mark_sent l) w) (successes-all (r ∷ rows))),
    )

-- Every pending event is among those that are read.
abbrev IsListed : List ℕ → OutboxEventModel → Type 0
IsListed ids r = is_pending r ≡ true → elem (row_id r) ids ≡ true

listed_later : (a x : ℕ) (xs : List ℕ) → elem a xs ≡ true → elem a (x ∷ xs) ≡ true
listed_later a x xs h = ground arith

all-IsListed :
    (rs : List OutboxEventModel) → All (IsListed (map outbox_id (all_where is_pending rs))) rs
all-IsListed [] = tt
all-IsListed (r ∷ rs) = elim (Bool-cases (is_pending r)) [
  | inl a ↦
      let read : all_where is_pending (r ∷ rs) ≡ r ∷ all_where is_pending rs = rw a refl in
      subst (λ l. All (IsListed (map outbox_id l)) (r ∷ rs)) (sym read)
        (
          (λ _. let self = (==_iff r.id r.id).1 refl in ground arith),
          All-map
              (λ x k p.
                listed_later (row_id x) r.id (map outbox_id (all_where is_pending rs)) (k p))
              rs (all-IsListed rs),
        )
  | inr a ↦
      let read : all_where is_pending (r ∷ rs) ≡ all_where is_pending rs = rw a refl in
      subst (λ l. All (IsListed (map outbox_id l)) (r ∷ rs)) (sym read)
        ((λ b. absurd (ground arith)), all-IsListed rs)
]

elem-count_where :
    (a : ℕ) (rs : List OutboxEventModel)
    → elem a (map outbox_id rs) ≡ leb 1 (count_where (has_row_id a) rs)
elem-count_where a [] = refl
elem-count_where a (r ∷ rs) = ground (arith, elem-count_where a rs)

-- The same where the database lists them in another order.
listing-IsListed :
    (listing : Listing) (offset : ℕ) (read rs : List OutboxEventModel)
    → IsListing listing
    → All (IsListed (map outbox_id read)) rs
    → All (IsListed (map outbox_id (listing offset read))) rs
listing-IsListed listing offset read rs lists =
    All-map
      (λ r h p.
        elem-count_where r.id (listing offset read)
        ∙ (ap (λ n. leb 1 n) (lists offset read (has_row_id r.id))
            ∙ (sym (elem-count_where r.id read) ∙ h p)))
      rs

none_left :
    (ids : List ℕ) (rs : List OutboxEventModel)
    → All (IsListed ids) rs
    → count_where is_pending (update_where (λ r. elem (row_id r) ids) set_sent rs) ≡ 0
none_left ids [] h = refl
none_left ids (r ∷ rs) (h, hs) = elim (Bool-cases (elem (row_id r) ids)) [
  | inl a ↦ rw a omega (arith, none_left ids rs hs)
  | inr a ↦ elim (Bool-cases (is_pending r)) [
    | inl b ↦ let c = h b in absurd (ground arith)
    | inr b ↦ rw (a, b) omega (arith, none_left ids rs hs)
  ]
]

take-all : (n : ℕ) (xs : List OutboxEventModel) → length xs < n → take n xs ≡ xs
take-all zero xs h = absurd (omega (arith, h))
take-all (suc n) [] h = refl
take-all (suc n) (x ∷ xs) h = ap (λ l. x ∷ l) (take-all n xs (omega (arith, h)))

-- Where no call fails, fewer than 100 events are pending and the database lists them in some order,
-- each once, a run of the outbox worker gives the broker their events in that order and leaves no
-- event pending.
pub run_from-delivers :
    (listing : Listing) (fuel : ℕ) (t : Tables) (k : ℕ)
    → IsListing listing
    → count_where is_pending t.outbox < 100
    → (v : World Tables) × (run_from listing (suc fuel) 0 (calm t k) ≡ (ok tt, v))
      × (v.store.messages
          ≡ delivered (map event_of (listing 0 (all_where is_pending t.outbox))) t.messages)
      × (count_where is_pending v.store.outbox ≡ 0)
unfolding run_from list_pending
run_from-delivers listing fuel t k lists h = go found refl
  where
    found : List OutboxEventModel
    found = listing 0 (all_where is_pending t.outbox)

    End : List OutboxEventModel → Type 0
    End rows =
        (v : World Tables) × (next_round rows (run_from listing fuel 100) (calm t (suc k))
          ≡ (ok tt, v))
        × (v.store.messages ≡ delivered (map event_of found) t.messages)
        × (count_where is_pending v.store.outbox ≡ 0)

    number : length found ≡ count_where is_pending t.outbox
    number =
        length-listing listing 0 (all_where is_pending t.outbox) lists
        ∙ length-all_where is_pending t.outbox

    read : (rows : List OutboxEventModel) → found ≡ rows → take batch_size found ≡ rows
    read rows e = take-all 100 found (omega (arith, number, h)) ∙ e

    listed : All (IsListed (map outbox_id found)) t.outbox
    listed =
        listing-IsListed listing 0 (all_where is_pending t.outbox) t.outbox lists
          (all-IsListed t.outbox)

    go : (rows : List OutboxEventModel) → found ≡ rows → End (take batch_size found)
    go [] e = subst End (sym (read [] e)) (
      calm t (suc k),
      refl,
      sym (ap (λ l. delivered (map event_of l) t.messages) e),
      sym number ∙ ap length e,
    )
    go (r ∷ rows) e =
        let (k', ran) = process_batch-calm r rows t (suc k) in
        let ids = map outbox_id (r ∷ rows) in
        let size : length (r ∷ rows) < 100 = subst (λ n. n < 100) (sym number ∙ ap length e) h in
        let short : ltb (length (r ∷ rows)) batch_size ≡ true = ground arith in
        subst End (sym (read (r ∷ rows) e)) (
          calm (marked ids (sent_all (map event_of (r ∷ rows)) t)) k',
          ap
                (λ (o : Result Error (Unit {0}) × World Tables).
                  continue
                    (λ _.
                      if ltb (length (r ∷ rows)) batch_size
                      then pure tt
                      else run_from listing fuel 100)
                    o.0 o.1)
                ran
              ∙ rw short refl,
          sym (ap (λ l. delivered (map event_of l) t.messages) e),
          none_left ids t.outbox (subst (λ l. All (IsListed (map outbox_id l)) t.outbox) e listed),
        )
