-- ===== src/Order/StatusChange.antt =====
-- `ChangeOrderStatus`: what one call does to the tables, whatever fails and whoever interferes.
use douyin_mall.Base.{
  ℕ, ◌≡◌, refl, sym, subst, subst₂, ap, ◌∙◌, ◌⊎◌, inl, inr, ◌≢◌, Bool, none, some, [], ◌∷◌, ◌++◌,
  arith, Int64, World, Result, ok, err, >>=-rule, transaction-err, transaction-ok, Bool-cases,
  count_where, update_where, first_where, ◌>>=◌, ◌>>◌, transaction, raise_if, le64,
}
use douyin_mall.Order.{
  OrderStatus, OrderAction, Order, Error, Tables, OrderModel, change_execute, commit_change, Change,
  apply_order_action, find_by_id, has_id_and_status, set_status, pending_row, statement_failed,
  event_type_order_status_changed, build_order_status_update_event, update_or_lose, add, Db,
  change_from, update_status, to_domain_order, has_id, invalid_order_id, invalid_order_action,
  is_unknown, ◌==ˢ◌, order_status_unchanged,
}
use douyin_mall.Order.Transitions.{Edge, target, apply_order_action_iff}
use douyin_mall.Order.Reads.{find_by_id-store, find_by_id-ok}

-- From `t` to `u` the order `to.id` has gone from the status `s` to that of `to`, in every row that
-- has them, at least one, and its event stands in the outbox.
abbrev pub Moves : OrderStatus → Order → Tables → Tables → Type 0
Moves s to t u =
    (u.orders ≡ update_where (has_id_and_status to.id s) (set_status to.status) t.orders)
    × (count_where (has_id_and_status to.id s) t.orders ≢ 0)
    × (u.outbox
        ≡ t.outbox
          ++ pending_row t.next_outbox_id event_type_order_status_changed
              (build_order_status_update_event to)
            ∷ [])
    × (u.messages ≡ t.messages)

abbrev move_body : Order → Order → Db ℕ
move_body from to =
    update_or_lose from to
    >> add event_type_order_status_changed (build_order_status_update_event to)

move_body-Moves :
    (from to : Order) (u v : World Tables) (n : ℕ)
    → move_body from to u ≡ (ok n, v)
    → Moves from.status to u.store v.store × (n ≡ u.store.next_outbox_id)
unfolding add update_status
move_body-Moves from to u v n h = ground arith

-- The outcome of the transaction.
abbrev Committing : Order → Order → World Tables → Result Error Change × World Tables → Type 0
Committing from to w o =
    ((x : Error) × (o.0 ≡ err x) × (o.1.store ≡ w.store))
    ⊎ ((o.0 ≡ ok (some (w.store.next_outbox_id, build_order_status_update_event to)))
        × Moves from.status to w.store o.1.store)

commit_change-outcome :
    (from to : Order) (w : World Tables) → Committing from to w (commit_change from to w)
unfolding commit_change
commit_change-outcome from to w =
    >>=-rule (Committing from to w) (transaction statement_failed (move_body from to))
      (λ n v. (ok (some (n, build_order_status_update_event to)), v)) w
      (λ x v e. inl (x, refl, transaction-err statement_failed (move_body from to) w v x e))
      (λ n v e. inr (done n v (transaction-ok statement_failed (move_body from to) w v n e)))
  where
    done :
        (n : ℕ) (v : World Tables)
        → (u : World Tables) × (t : World Tables) × (u.store ≡ w.store)
          × (move_body from to u ≡ (ok n, t))
          × (v.store ≡ t.store)
        → (◌≡◌ {A = Result Error Change}
            (ok (some (n, build_order_status_update_event to)))
            (ok (some (w.store.next_outbox_id, build_order_status_update_event to))))
          × Moves from.status to w.store v.store
    done n v (u, t, start, ran, end) =
        let m = move_body-Moves from to u t n ran in
        (
          ap (λ k. ok (some (k, build_order_status_update_event to)))
              (m.1 ∙ ap (λ (s : Tables). s.next_outbox_id) start),
          subst₂ (Moves from.status to) start (sym end) m.0,
        )

raise_if-store :
    (b : Bool) (x : Error) (w v : World Tables) {r : Result Error (Unit {0})}
    → raise_if {S = Tables} b x w ≡ (r, v)
    → v.store ≡ w.store
raise_if-store b x w v h = sym (ap (λ (o : Result Error (Unit {0}) × World Tables). o.1.store) h)

-- The three ways in which a call ends.
abbrev Failed :
    {A : Type 0} → (Tables → Tables) → World Tables → Result Error A × World Tables → Type 0
Failed others w o =
    (x : Error) × (o.0 ≡ err x) × ((o.1.store ≡ w.store) ⊎ (o.1.store ≡ others w.store))

abbrev Unchanged : World Tables → Result Error Change × World Tables → Type 0
Unchanged w o = (o.0 ≡ ok none) × (o.1.store ≡ w.store)

abbrev Changed :
    (Tables → Tables)
    → Int64
    → OrderAction
    → World Tables
    → Result Error Change × World Tables
    → Type 0
Changed others id a w o =
    (m : OrderModel) × (to : Order) × (first_where (has_id id) w.store.orders ≡ some m)
    × (to ≡ record (to_domain_order m) { status = target a })
    × Edge (to_domain_order m).status a (target a)
    × (o.0 ≡ ok (some ((others w.store).next_outbox_id, build_order_status_update_event to)))
    × Moves (to_domain_order m).status to (others w.store) o.1.store

abbrev pub Outcome :
    (Tables → Tables)
    → Int64
    → OrderAction
    → World Tables
    → Result Error Change × World Tables
    → Type 0
Outcome others id a w o = Failed others w o ⊎ Unchanged w o ⊎ Changed others id a w o

change_from-Outcome :
    (others : Tables → Tables) (id : Int64) (a : OrderAction) (m : OrderModel) (w v : World Tables)
    → first_where (has_id id) w.store.orders ≡ some m
    → v.store ≡ w.store
    → (r : Result Error Order) → apply_order_action (to_domain_order m) a ≡ r
    → Outcome others id a w (change_from others (to_domain_order m) r v)
change_from-Outcome others id a m w v found same (err order_status_unchanged) e =
    inr (inl (refl, same))
change_from-Outcome others id a m w v found same (err x) e = inl (x, refl, inl same)
change_from-Outcome others id a m w v found same (ok to) e =
    elim (Bool-cases ((to_domain_order m).status ==ˢ to.status)) [
      | inl stays ↦ rw stays (inr (inl (refl, same)))
      | inr moves ↦ rw moves (
          finish (commit_change (to_domain_order m) to (record v { store = others v.store }))
            (commit_change-outcome (to_domain_order m) to (record v { store = others v.store })))
    ]
  where
    sound :
        Edge (to_domain_order m).status a (target a)
        × (to ≡ record (to_domain_order m) { status = target a })
    sound = (apply_order_action_iff (to_domain_order m) to a).0 e

    others_same : others v.store ≡ others w.store
    others_same = ap others same

    finish :
        (o : Result Error Change × World Tables)
        → Committing (to_domain_order m) to (record v { store = others v.store }) o
        → Outcome others id a w o
    finish o (inl (x, r, s)) = inl (x, r, inr (s ∙ others_same))
    finish o (inr (r, moved)) = inr (
        inr (
          m,
          to,
          found,
          sound.1,
          sound.0,
          r
              ∙ ap
                  (λ (t : Tables). ok (some (t.next_outbox_id, build_order_status_update_event to)))
                  others_same,
          subst (λ t. Moves (to_domain_order m).status to t o.1.store) others_same moved,
        ))

-- One call of ChangeOrderStatus, whatever fails and whatever other transactions do between its read
-- and its own transaction. It fails, and has written nothing; or it reports that nothing changed, and
-- has written nothing; or the order that it read has gone along an edge of the graph in the rows that
-- still had the status that was read, of which there is one at least, and one outbox row holds the
-- event of that change.
pub change_execute-Outcome :
    (others : Tables → Tables) (id : Int64) (action : OrderAction) (w : World Tables)
    → Outcome others id action w (change_execute others id action w)
unfolding change_execute
change_execute-Outcome others id action w =
    >>=-rule (Outcome others id action w) (raise_if (le64 id 0) invalid_order_id) rest w
      (λ x v e. inl (x, refl, inl (raise_if-store (le64 id 0) invalid_order_id w v e)))
      (λ a v e. step v (raise_if-store (le64 id 0) invalid_order_id w v e))
  where
    rest : Unit {0} → Db Change
    rest _ =
        raise_if (is_unknown action) invalid_order_action
        >> (find_by_id id >>= λ o. change_from others o (apply_order_action o action))

    read :
        (v : World Tables)
        → v.store ≡ w.store
        → Outcome others id action w
            ((find_by_id id >>= λ o. change_from others o (apply_order_action o action)) v)
    read v same =
        >>=-rule (Outcome others id action w) (find_by_id id)
          (λ o. change_from others o (apply_order_action o action)) v
          (λ x u e. inl (
            x,
            refl,
            inl (
                sym (ap (λ (o : Result Error Order × World Tables). o.1.store) e)
                ∙ find_by_id-store id v
                ∙ same),
          ))
          (λ o u e.
            let (m, found, eq) = find_by_id-ok id v u o e in
            subst
              (λ o'.
                Outcome others id action w (change_from others o' (apply_order_action o' action) u))
              (sym eq)
              (change_from-Outcome others id action m w u
                (subst (λ (t : Tables). first_where (has_id id) t.orders ≡ some m) same found)
                (sym (ap (λ (o : Result Error Order × World Tables). o.1.store) e)
                  ∙ find_by_id-store id v
                  ∙ same)
                (apply_order_action (to_domain_order m) action) refl))

    step : (v : World Tables) → v.store ≡ w.store → Outcome others id action w (rest tt v)
    step v same =
        >>=-rule (Outcome others id action w) (raise_if (is_unknown action) invalid_order_action)
          (λ _. find_by_id id >>= λ o. change_from others o (apply_order_action o action)) v
          (λ x u e.
            inl
              (x, refl, inl (raise_if-store (is_unknown action) invalid_order_action v u e ∙ same)))
          (λ a u e. read u (raise_if-store (is_unknown action) invalid_order_action v u e ∙ same))
