-- ===== src/Order/Creation.antt =====
-- `CreateOrderUseCase`: what one call does to the tables, and what a repeated call does.
use douyin_mall.Base.{
  ℕ, ◌≡◌, refl, sym, ◌∙◌, ap, ◌⊎◌, inl, inr, true, false, some, List, [], ◌∷◌, ◌++◌, map, arith,
  Int64, World, Result, ok, err, le64, Bool-cases, Option-cases, count_where, first_where,
  count_where-first_where, first_where-append, str_eq, eq_iff, ◌&&◌, attempt, subst, suc, ◌>>=◌,
  leb, ◌==◌,
}
use douyin_mall.Order.{
  Order, OrderItem, Error, Tables, OrderModel, CreateOrderCmd, create_execute, save, order_of_cmd,
  to_order_model, to_domain_order, same_create_order_intent, find_by_id, has_id, id_or_next,
  to_item_model, to_domain_item, normalize_order_kind, after_save, duplicate_order,
  statement_failed, no_items, invalid_user, empty_order_items, order_kind_seckill,
  seckill_activity_required,
}

-- The row that a command asks for, under an id.
abbrev pub created_row : ℕ → Int64 → CreateOrderCmd → OrderModel
created_row now id cmd = record (to_order_model (order_of_cmd now cmd)) {
  id = id;
  created_at = now;
}

abbrev Failed : World Tables → Result Error Int64 × World Tables → Type 0
Failed w o = (x : Error) × (o.0 ≡ err x) × (o.1.store ≡ w.store)

abbrev Added :
    ℕ → Int64 → CreateOrderCmd → World Tables → Result Error Int64 × World Tables → Type 0
Added now next cmd w o =
    (id : Int64) × (id ≡ id_or_next next cmd.order_id)
    × (o.0 ≡ ok id)
    × (count_where (has_id id) w.store.orders ≡ 0)
    × (o.1.store ≡ record w.store { orders = w.store.orders ++ created_row now id cmd ∷ [] })

abbrev Existing : CreateOrderCmd → World Tables → Result Error Int64 × World Tables → Type 0
Existing cmd w o =
    (m : OrderModel) × (o.0 ≡ ok cmd.order_id)
    × (first_where (has_id cmd.order_id) w.store.orders ≡ some m)
    × (same_create_order_intent (to_domain_order m) cmd ≡ true)
    × (o.1.store ≡ w.store)

abbrev pub Outcome :
    ℕ → Int64 → CreateOrderCmd → World Tables → Result Error Int64 × World Tables → Type 0
Outcome now next cmd w o = Failed w o ⊎ Added now next cmd w o ⊎ Existing cmd w o

-- A map there and back.
items_there_and_back : (is : List OrderItem) → map to_domain_item (map to_item_model is) ≡ is
items_there_and_back [] = refl
items_there_and_back (i ∷ is) = ap (λ rest. i ∷ rest) (items_there_and_back is)

-- An order whose amounts are in one currency is what its row is read back as, but for the time of
-- creation, which the table sets.
pub to_domain_order-to_order_model :
    (o : Order)
    → o.total_amount.currency ≡ o.payable_amount.currency
    → o.discount_amount.currency ≡ o.payable_amount.currency
    → to_domain_order (to_order_model o) ≡ record o { created_at = 0 }
unfolding to_domain_order to_order_model
to_domain_order-to_order_model o total discount = ground (arith, items_there_and_back o.order_items)

-- What the row of the id that stands in the way makes of a call.
after_save-duplicate :
    (now : ℕ) (next : Int64) (cmd : CreateOrderCmd) (w v : World Tables)
    → v.store ≡ w.store
    → Outcome now next cmd w (after_save cmd (err duplicate_order) v)
unfolding find_by_id same_create_order_intent to_domain_order
after_save-duplicate now next cmd w v same = elim (Bool-cases (v.fails v.tick)) [
  | inl down ↦ inl (duplicate_order, ground arith, ground arith)
  | inr up ↦ elim (Option-cases (first_where (has_id cmd.order_id) v.store.orders)) [
    | inl absent ↦ inl (duplicate_order, ground arith, ground arith)
    | inr (m, found) ↦ elim (Bool-cases (same_create_order_intent (to_domain_order m) cmd)) [
      | inl intent ↦ inr (inr (m, ground arith, ground arith, ground arith, ground arith))
      | inr other ↦ inl (duplicate_order, ground arith, ground arith)
    ]
  ]
]

after_save-Outcome :
    (now : ℕ) (next : Int64) (cmd : CreateOrderCmd) (w : World Tables)
    → Outcome now next cmd w
        ((attempt (save now next (order_of_cmd now cmd)) >>= λ r. after_save cmd r) w)
unfolding save order_of_cmd
after_save-Outcome now next cmd w = elim (Bool-cases (w.fails w.tick)) [
  | inl down ↦ inl (statement_failed, ground arith, ground arith)
  | inr up ↦
      elim (Bool-cases
        (leb 1 (count_where (has_id (id_or_next next cmd.order_id)) w.store.orders))) [
          | inl taken ↦
              rw (up, taken)
                (after_save-duplicate now next cmd w (record w { tick = suc w.tick }) refl)
          | inr free ↦
              rw (up, free)
                (inr (inl (id_or_next next cmd.order_id, refl, refl, ground arith, refl)))
        ]
]

-- One call of CreateOrder, whatever fails: it fails and writes nothing; or it adds the row of the
-- command, as a created order, under a free id, which is the command's or, where that is 0, the one
-- that the database has next, and answers that id; or an order of the same id and intent was there,
-- and nothing is written.
pub create_execute-Outcome :
    (now : ℕ) (next : Int64) (cmd : CreateOrderCmd) (w : World Tables)
    → Outcome now next cmd w (create_execute now next cmd w)
unfolding create_execute
create_execute-Outcome now next cmd w = elim (Bool-cases (le64 cmd.user_id 0)) [
  | inl x ↦ inl (invalid_user, ground arith, ground arith)
  | inr user ↦ elim (Bool-cases (no_items cmd.items)) [
    | inl x ↦ inl (empty_order_items, ground arith, ground arith)
    | inr items ↦
        elim (Bool-cases (
          str_eq (normalize_order_kind cmd.order_kind) order_kind_seckill
          && le64 cmd.activity_id 0)) [
            | inl x ↦ inl (seckill_activity_required, ground arith, ground arith)
            | inr activity ↦ rw (user, items, activity) (after_save-Outcome now next cmd w)
          ]
  ]
]

-- The guards that a command passes.
abbrev Valid : CreateOrderCmd → Type 0
Valid cmd =
    (le64 cmd.user_id 0 ≡ false)
    × (no_items cmd.items ≡ false)
    × ((str_eq (normalize_order_kind cmd.order_kind) order_kind_seckill && le64 cmd.activity_id 0)
        ≡ false)

create_execute-Valid :
    (now : ℕ) (next : Int64) (cmd : CreateOrderCmd) (w v : World Tables) (id : Int64)
    → create_execute now next cmd w ≡ (ok id, v)
    → Valid cmd
unfolding create_execute
create_execute-Valid now next cmd w v id h = elim (Bool-cases (le64 cmd.user_id 0)) [
  | inl x ↦ absurd (ground arith)
  | inr user ↦ elim (Bool-cases (no_items cmd.items)) [
    | inl x ↦ absurd (ground arith)
    | inr items ↦
        elim (Bool-cases (
          str_eq (normalize_order_kind cmd.order_kind) order_kind_seckill
          && le64 cmd.activity_id 0)) [
            | inl x ↦ absurd (ground arith)
            | inr activity ↦ (user, items, activity)
          ]
  ]
]

-- A valid command whose order is there.
create_execute-Existing :
    (now : ℕ) (next : Int64) (cmd : CreateOrderCmd) (v : World Tables) (m : OrderModel)
    → Valid cmd
    → (cmd.order_id == 0) ≡ false
    → v.fails v.tick ≡ false
    → v.fails (suc v.tick) ≡ false
    → first_where (has_id cmd.order_id) v.store.orders ≡ some m
    → same_create_order_intent (to_domain_order m) cmd ≡ true
    → create_execute now next cmd v ≡ (ok cmd.order_id, record v { tick = suc (suc v.tick) })
unfolding create_execute save find_by_id same_create_order_intent to_domain_order order_of_cmd
create_execute-Existing now next cmd v m (user, items, activity) given up up' found intent =
    let taken = count_where-first_where (has_id cmd.order_id) v.store.orders m found in
    rw (user, items, activity, up, given, taken, up', found) (ground arith)

created_row-intent :
    (now : ℕ) (cmd : CreateOrderCmd)
    → same_create_order_intent (to_domain_order (created_row now cmd.order_id cmd)) cmd ≡ true
unfolding same_create_order_intent to_domain_order order_of_cmd to_order_model
created_row-intent now cmd = ground (
  arith,
  (eq_iff (normalize_order_kind cmd.order_kind) (normalize_order_kind cmd.order_kind)).1 refl,
)

-- A call with an id other than 0 that has succeeded can be repeated while the database answers: it
-- succeeds again with the same order, and changes no row.
pub create_execute-repeat :
    (now later : ℕ) (next next' : Int64) (cmd : CreateOrderCmd) (w v : World Tables) (id : Int64)
    → (cmd.order_id == 0) ≡ false
    → create_execute now next cmd w ≡ (ok id, v)
    → v.fails v.tick ≡ false
    → v.fails (suc v.tick) ≡ false
    → create_execute later next' cmd v ≡ (ok id, record v { tick = suc (suc v.tick) })
unfolding order_of_cmd to_order_model
create_execute-repeat now later next next' cmd w v id given h up up' =
    go (subst (Outcome now next cmd w) h (create_execute-Outcome now next cmd w))
  where
    valid : Valid cmd
    valid = create_execute-Valid now next cmd w v id h

    again :
        (m : OrderModel)
        → (◌≡◌ {A = Result Error Int64} (ok id) (ok cmd.order_id))
        → first_where (has_id cmd.order_id) v.store.orders ≡ some m
        → same_create_order_intent (to_domain_order m) cmd ≡ true
        → create_execute later next' cmd v ≡ (ok id, record v { tick = suc (suc v.tick) })
    again m e found intent =
        create_execute-Existing later next' cmd v m valid given up up' found intent
        ∙ ap (λ r. (r, record v { tick = suc (suc v.tick) })) (sym e)

    added :
        count_where (has_id cmd.order_id) w.store.orders ≡ 0
        → v.store
          ≡ record w.store { orders = w.store.orders ++ created_row now cmd.order_id cmd ∷ [] }
        → first_where (has_id cmd.order_id) v.store.orders ≡ some (created_row now cmd.order_id cmd)
    added free s =
        subst
          (λ (t : Tables).
            first_where (has_id cmd.order_id) t.orders ≡ some (created_row now cmd.order_id cmd))
          (sym s)
          (first_where-append (has_id cmd.order_id) w.store.orders
            (created_row now cmd.order_id cmd) free (ground arith))

    go :
        Outcome now next cmd w (ok id, v)
        → create_execute later next' cmd v ≡ (ok id, record v { tick = suc (suc v.tick) })
    go (inl (x, e, _)) = absurd (ground arith)
    go (inr (inl (new, chosen, e, free, s))) =
        let same : new ≡ cmd.order_id = chosen ∙ rw given refl in
        let room = subst (λ n. count_where (has_id n) w.store.orders ≡ 0) same free in
        let row =
          subst
            (λ n.
              v.store ≡ record w.store { orders = w.store.orders ++ created_row now n cmd ∷ [] })
            same s in
        again (created_row now cmd.order_id cmd) (e ∙ ap ok same) (added room row)
          (created_row-intent now cmd)
    go (inr (inr (m, e, found, intent, s))) =
        again m e
          (subst (λ (t : Tables). first_where (has_id cmd.order_id) t.orders ≡ some m) (sym s)
            found)
          intent
