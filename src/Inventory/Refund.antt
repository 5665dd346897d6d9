-- ===== src/Inventory/Refund.antt =====
-- `RefundStock`: it takes back what a commit did.
mod Shift
use mathlib.Core.List.{append-nil}
use douyin_mall.Base.{
  ℕ, suc, ◌>>◌, ◌<◌, ◌≡◌, refl, sym, subst₂, ◌∙◌, ap, subst, ◌⊎◌, inl, inr, ◌≢◌, Bool, true, false,
  ◌&&◌, Option, none, some, String, List, [], ◌∷◌, ◌++◌, map, arith, All, ◌==◌, str_eq, eq_iff,
  World, Result, ok, err, >>=-rule, transaction-cases, Option-cases, Bool-cases, Int64, Int32,
  add64, neg64, neg32, to_int64, mod64, mod32, half32, sql_add, try_update, set_row, all_where,
  count_where, if◌then◌else◌,
}
use douyin_mall.Inventory.{
  StockChange, InventoryRow, OperationRow, Tables, Error, create_operations, commit_change,
  commit_changes, commit_stock, restore_row, restore_rows, refund_stock, operation_row, commit,
  move_row, has_stock, is_product, statement_failed, committed_by, refund_row, refund_transaction,
  commit_operation_id,
}
use douyin_mall.Inventory.Ledger.{IsQuantity, sale, IsWord, IsUnique, IsAbsent}
use douyin_mall.Inventory.Commit.{create_operations-ok, committed_operations, body}
use Shift.{
  sell, give_back, sell_all, give_back_all, sale_shifts, IsUnique-map-sell, give_back_all-sell_all,
  try_update-eq-map, move_row-shift, shift-other, enough, shift,
}

commit_change-sells :
    (c : StockChange) (w v : World Tables) (a : Unit {0})
    → IsUnique w.store.inventory
    → commit_change c w ≡ (ok a, v)
    → v.store.inventory ≡ map (sell c) w.store.inventory
unfolding commit_change
commit_change-sells c w v a u h = elim (Option-cases (sale c w.store.inventory)) [
  | inl refused ↦ ground arith
  | inr (rows, moved) ↦ ground (arith, sale_shifts c w.store.inventory rows u)
]

commit_changes-sells :
    (cs : List StockChange) (w v : World Tables) (a : Unit {0})
    → IsUnique w.store.inventory
    → commit_changes cs w ≡ (ok a, v)
    → v.store.inventory ≡ sell_all cs w.store.inventory
unfolding commit_changes sell_all
commit_changes-sells [] w v a u h = cc
commit_changes-sells (c ∷ cs) w v a u h =
    >>=-rule (λ o. o ≡ (ok a, v) → v.store.inventory ≡ sell_all cs (map (sell c) w.store.inventory))
      (commit_change c) (λ _. commit_changes cs) w (λ x t e k. absurd (cc k))
      (λ b t e k.
        let sold = commit_change-sells c w t b u e in
        commit_changes-sells cs t v a
          (subst IsUnique (sym sold) (IsUnique-map-sell c w.store.inventory u)) k
        ∙ ap (sell_all cs) sold)
      h

restore_row-gives_back :
    (op op' : String) (c : StockChange) (w v : World Tables) (a : Unit {0})
    → restore_row (refund_row op (operation_row op' commit "" c)) w ≡ (ok a, v)
    → v.store.inventory ≡ map (give_back c) w.store.inventory
unfolding restore_row
restore_row-gives_back op op' c w v a h =
    elim (Option-cases (try_update (is_product c.product_id) f w.store.inventory)) [
      | inl refused ↦ ground arith
      | inr (rows, moved) ↦ ground (
        arith,
        try_update-eq-map (is_product c.product_id) f (give_back c)
            (λ r r'. move_row-shift c.product_id by (neg64 by) r r')
            (shift-other c.product_id by (neg64 by)) w.store.inventory rows moved,
      )
    ]
  where
    by : Int64
    by = to_int64 (neg32 c.quantity)

    f : InventoryRow → Option InventoryRow
    f = move_row by (neg64 by)

abbrev refund_items : String → String → List StockChange → List OperationRow
refund_items op op' cs = map (refund_row op) (map (operation_row op' commit "") cs)

restore_rows-gives_back :
    (op op' : String) (cs : List StockChange) (w v : World Tables) (a : Unit {0})
    → restore_rows (refund_items op op' cs) w ≡ (ok a, v)
    → v.store.inventory ≡ give_back_all cs w.store.inventory
unfolding restore_rows give_back_all
restore_rows-gives_back op op' [] w v a h = cc
restore_rows-gives_back op op' (c ∷ cs) w v a h =
    >>=-rule
      (λ o.
        o ≡ (ok a, v) → v.store.inventory ≡ give_back_all cs (map (give_back c) w.store.inventory))
      (restore_row _) (λ _. restore_rows (refund_items op op' cs)) w (λ x t e k. absurd (cc k))
      (λ b t e k.
        restore_rows-gives_back op op' cs t v a k
        ∙ ap (give_back_all cs) (restore_row-gives_back op op' c w t b e))
      h

records-of_commit :
    (op : String) (old : List OperationRow) (cs : List StockChange)
    → all_where (committed_by op) old ≡ []
    → all_where (committed_by op) (old ++ map (operation_row op commit "") cs)
      ≡ map (operation_row op commit "") cs
records-of_commit op [] [] h = refl
records-of_commit op [] (c ∷ cs) h = ground (arith, eq_iff op op, records-of_commit op [] cs h)
records-of_commit op (r ∷ old) cs h = elim (Bool-cases (committed_by op r)) [
  | inl hit ↦ absurd (cc (rw hit at h))
  | inr miss ↦ rw miss (records-of_commit op old cs (rw miss at h))
]

refund_body-gives_back :
    (op op' : String) (cs : List StockChange) (u v : World Tables) (a : Unit {0})
    → (create_operations (refund_items op op' cs) >> restore_rows (refund_items op op' cs)) u
      ≡ (ok a, v)
    → v.store.inventory ≡ give_back_all cs u.store.inventory
refund_body-gives_back op op' cs u v a h =
    >>=-rule (λ o. o ≡ (ok a, v) → v.store.inventory ≡ give_back_all cs u.store.inventory)
      (create_operations (refund_items op op' cs)) (λ _. restore_rows (refund_items op op' cs)) u
      (λ x t e k. absurd (cc k))
      (λ b t e k.
        restore_rows-gives_back op op' cs t v a k
        ∙ ap (give_back_all cs) (create_operations-ok (refund_items op op' cs) u t b e).0)
      h

abbrev inventory_of : Tables → List InventoryRow
inventory_of t = t.inventory

refund_transaction-gives_back :
    (op op' : String) (cs : List StockChange) (w : World Tables)
    → (refund_transaction op (map (operation_row op' commit "") cs) w).0 ≡ ok tt
    → (refund_transaction op (map (operation_row op' commit "") cs) w).1.store.inventory
      ≡ give_back_all cs w.store.inventory
unfolding give_back_all
refund_transaction-gives_back op op' [] w h = refl
refund_transaction-gives_back op op' (c ∷ cs) w h =
    let items = refund_items op op' (c ∷ cs) in
    elim (transaction-cases statement_failed (create_operations items >> restore_rows items) w) [
      | inl (x, failed, _) ↦ absurd (cc)
      | inr (a, u, v, r, start, _, ran, end) ↦
          ap inventory_of end
          ∙ refund_body-gives_back op op' (c ∷ cs) u v a ran
          ∙ ap (λ t. give_back_all (c ∷ cs) (inventory_of t)) start
    ]

committed_inventory :
    (op : String) (changes : List StockChange) (w : World Tables)
    → IsUnique w.store.inventory
    → (commit_stock op changes w).0 ≡ ok tt
    → (commit_stock op changes w).1.store.inventory ≡ sell_all changes w.store.inventory
unfolding commit_stock
committed_inventory op changes w uniq h =
    elim (transaction-cases statement_failed (body op changes) w) [
      | inl (x, failed, _) ↦ absurd (cc)
      | inr (a, u, v, r, start, _, ran, end) ↦
          ap inventory_of end
          ∙ inside a u v start ran
          ∙ ap (λ t. sell_all changes (inventory_of t)) start
    ]
  where
    inside :
        (a : Unit {0}) (u v : World Tables)
        → u.store ≡ w.store
        → body op changes u ≡ (ok a, v)
        → v.store.inventory ≡ sell_all changes u.store.inventory
    inside a u v start ran =
        >>=-rule (λ o. o ≡ (ok a, v) → v.store.inventory ≡ sell_all changes u.store.inventory)
          (create_operations (map (operation_row op commit "") changes))
          (λ _. commit_changes changes) u (λ x t e k. absurd (cc k))
          (λ b t e k.
            let made =
              (create_operations-ok (map (operation_row op commit "") changes) u t b e).0 in
            commit_changes-sells changes t v a
              (subst IsUnique (sym (made ∙ ap inventory_of start)) uniq) k
            ∙ ap (sell_all changes) made)
          ran

-- A refund that succeeds is the transaction over the records of the commit.
refund_stock-records :
    (op : String) (records : List OperationRow) (v : World Tables)
    → all_where (committed_by (commit_operation_id op)) v.store.operations ≡ records
    → (refund_stock op v).0 ≡ ok tt
    → refund_stock op v ≡ refund_transaction op records (record v { tick = suc v.tick })
unfolding refund_stock
refund_stock-records op records v e h = elim (Bool-cases (v.fails v.tick)) [
  | inl down ↦ absurd (cc (rw down at h))
  | inr up ↦ rw (up, e)
]

-- A refund takes back its commit. If a commit of stock succeeded for an operation that the journal did
-- not know, in a table with one row for each product, and the refund of that operation then succeeds
-- on the tables as the commit left them, the inventory is, row by row, what it was before the commit.
-- `refund_op` is the id from which `RefundStock` derives the id of the commit.
pub refund-commit :
    (op refund_op : String) (changes : List StockChange) (w v : World Tables)
    → All IsQuantity changes
    → All IsWord w.store.inventory
    → IsUnique w.store.inventory
    → all_where (committed_by op) w.store.operations ≡ []
    → commit_operation_id refund_op ≡ op
    → (commit_stock op changes w).0 ≡ ok tt
    → v.store ≡ (commit_stock op changes w).1.store
    → (refund_stock refund_op v).0 ≡ ok tt
    → (refund_stock refund_op v).1.store.inventory ≡ w.store.inventory
refund-commit op refund_op changes w v q b u fresh derived done same paid =
    ap (λ o. inventory_of o.1.store) run
    ∙ refund_transaction-gives_back refund_op op changes v' (ap (λ o. o.0) (sym run) ∙ paid)
    ∙ ap (give_back_all changes) (ap inventory_of same ∙ committed_inventory op changes w u done)
    ∙ give_back_all-sell_all changes w.store.inventory q b
  where
    v' : World Tables
    v' = record v { tick = suc v.tick }

    journal : v.store.operations ≡ w.store.operations ++ map (operation_row op commit "") changes
    journal = ap (λ (t : Tables). t.operations) same ∙ committed_operations op changes w q done

    run :
        refund_stock refund_op v
        ≡ refund_transaction refund_op (map (operation_row op commit "") changes) v'
    run =
        refund_stock-records refund_op _ v
          (rw (derived, journal) (records-of_commit op w.store.operations changes fresh)) paid
