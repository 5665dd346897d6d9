-- ===== src/Inventory/Commit.antt =====
-- `CommitStock` as a whole: what a call leaves in the tables, and what a repeated call does.
use mathlib.Core.List.{append_assoc, append-nil}
use douyin_mall.Base.{
  ◌≡◌, suc, refl, sym, subst₂, ◌∙◌, ap, subst, ◌⊎◌, inl, inr, ◌≢◌, true, false, some, String, List,
  [], ◌∷◌, ◌++◌, map, arith, All, eq_iff, World, ok, err, Action, >>=-rule, transaction-cases,
  Option-cases, Bool-cases, ◌>>◌,
}
use douyin_mall.Inventory.{
  StockChange, OperationRow, Tables, Error, create_operations, commit_changes, commit_stock,
  insert_all, conflicts, same_key, operation_row, commit, duplicate_operation, statement_failed,
}
use douyin_mall.Inventory.Ledger.{units, IsNatural, IsQuantity, Kept, commit_changes-Kept}

pub insert_all-append :
    (rows table table' : List OperationRow)
    → insert_all rows table ≡ some table'
    → table' ≡ table ++ rows
insert_all-append [] table table' h = let e : table ≡ table' = cc in sym e ∙ sym (append-nil table)
insert_all-append (a ∷ rows) table table' h = elim (Bool-cases (conflicts a table)) [
  | inl met ↦ absurd (cc (rw met at h))
  | inr new ↦
      let h' : insert_all rows (table ++ a ∷ []) ≡ some table' = rw new at h in
      insert_all-append rows (table ++ a ∷ []) table' h' ∙ append_assoc table (a ∷ []) rows
]

-- A call of `Create` that succeeds has added all its rows, and touched nothing else.
pub create_operations-ok :
    (rows : List OperationRow) (w v : World Tables) (a : Unit {0})
    → create_operations rows w ≡ (ok a, v)
    → (v.store.inventory ≡ w.store.inventory)
      × (insert_all rows w.store.operations ≡ some v.store.operations)
unfolding create_operations
create_operations-ok rows w v a h = elim (Option-cases (insert_all rows w.store.operations)) [
  | inl met ↦ ground arith
  | inr (table, new) ↦ ground arith
]

abbrev pub body : String → List StockChange → Action Tables Error (Unit {0})
body op changes =
    create_operations (map (operation_row op commit "") changes) >> commit_changes changes

-- The same for the body of the transaction.
abbrev Done : String → List StockChange → Tables → Tables → Type 0
Done op changes s t =
    (t.operations ≡ s.operations ++ map (operation_row op commit "") changes)
    × (map units t.inventory ≡ map units s.inventory)
    × (All IsNatural s.inventory → All IsNatural t.inventory)

body-Done :
    (op : String) (changes : List StockChange) (u v : World Tables) (a : Unit {0})
    → All IsQuantity changes
    → body op changes u ≡ (ok a, v)
    → Done op changes u.store v.store
body-Done op changes u v a q h =
    >>=-rule (λ o. o ≡ (ok a, v) → Done op changes u.store v.store) (create_operations _)
      (λ _. commit_changes changes) u (λ x t e k. absurd (cc k))
      (λ b t e k.
        let made = create_operations-ok _ u t b e in
        let kept = subst (λ o. Kept t o.1) k (commit_changes-Kept changes t q) in
        (
          kept.same_operations
              ∙ insert_all-append (map (operation_row op commit "") changes) u.store.operations _
                  made.1,
          kept.same_units ∙ ap (map units) made.0,
          λ n. kept.natural (subst (All IsNatural) (sym made.0) n),
        ))
      h

commit_cases :
    (op : String) (changes : List StockChange) (w : World Tables)
    → All IsQuantity changes
    → let (r, w') = commit_stock op changes w in
      ((e : Error) × (r ≡ err e) × (w'.store ≡ w.store))
      ⊎ ((r ≡ ok tt)
          × (w'.store.operations ≡ w.store.operations ++ map (operation_row op commit "") changes)
          × (map units w'.store.inventory ≡ map units w.store.inventory)
          × (All IsNatural w.store.inventory → All IsNatural w'.store.inventory))
unfolding commit_stock
commit_cases op changes w q = elim (transaction-cases statement_failed (body op changes) w) [
  | inl aborted ↦ inl aborted
  | inr (a, u, v, r, start, _, ran, end) ↦
      let d = subst₂ (Done op changes) start (sym end) (body-Done op changes u v a q ran) in
      inr (r, d.0, d.1, d.2)
]

-- A commit of stock is all or nothing. Where it fails, for whatever reason, the tables are as they
-- were. Where it succeeds, the journal has gained exactly its entries, and each product accounts for as
-- many units (in stock or sold) as before. The quantities are int32 words other than the least one,
-- which has no negative.
pub commit_stock-outcome :
    (op : String) (changes : List StockChange) (w : World Tables)
    → All IsQuantity changes
    → let (r, w') = commit_stock op changes w in
      ((e : Error) × (r ≡ err e) × (w'.store ≡ w.store))
      ⊎ ((r ≡ ok tt)
          × (w'.store.operations ≡ w.store.operations ++ map (operation_row op commit "") changes)
          × (map units w'.store.inventory ≡ map units w.store.inventory))
commit_stock-outcome op changes w q = elim (commit_cases op changes w q) [
  | inl failed ↦ inl failed
  | inr (r, journal, kept, _) ↦ inr (r, journal, kept)
]

-- No commit of stock takes a stock below zero, whatever fails and whatever the quantities, which are
-- int32 words other than the least one.
pub commit_stock-IsNatural :
    (op : String) (changes : List StockChange) (w : World Tables)
    → All IsQuantity changes
    → All IsNatural w.store.inventory
    → All IsNatural (commit_stock op changes w).1.store.inventory
commit_stock-IsNatural op changes w q natural = elim (commit_cases op changes w q) [
  | inl (_, _, same) ↦ subst (λ (t : Tables). All IsNatural t.inventory) (sym same) natural
  | inr (_, _, _, keeps) ↦ keeps natural
]

same_key_self :
    (a b : OperationRow)
    → a.operation_id ≡ b.operation_id
    → a.product_id ≡ b.product_id
    → same_key a b ≡ true
same_key_self a b o p = ground (arith, eq_iff a.operation_id b.operation_id)

conflicts-append :
    (a b : OperationRow) (table rest : List OperationRow)
    → same_key a b ≡ true
    → conflicts a (table ++ b ∷ rest) ≡ true
conflicts-append a b [] rest h = ground arith
conflicts-append a b (x ∷ table) rest h = ground (arith, conflicts-append a b table rest h)

-- The journal after a commit that succeeded.
pub committed_operations :
    (op : String) (changes : List StockChange) (w : World Tables)
    → All IsQuantity changes
    → (commit_stock op changes w).0 ≡ ok tt
    → (commit_stock op changes w).1.store.operations
      ≡ w.store.operations ++ map (operation_row op commit "") changes
committed_operations op changes w q done = elim (commit_stock-outcome op changes w q) [
  | inl (x, e, _) ↦ absurd (cc)
  | inr (_, o, _) ↦ o
]

repeat_cases :
    (op : String) (c c' : StockChange) (cs cs' : List StockChange) (later : List OperationRow)
    (w v : World Tables)
    → All IsQuantity (c ∷ cs)
    → (commit_stock op (c ∷ cs) w).0 ≡ ok tt
    → v.store.operations ≡ (commit_stock op (c ∷ cs) w).1.store.operations ++ later
    → c'.product_id ≡ c.product_id
    → let (r, v') = commit_stock op (c' ∷ cs') v in
      (r ≢ ok tt)
      × (v'.store ≡ v.store)
      × (v.fails v.tick ≡ false → v.fails (suc v.tick) ≡ false → r ≡ err duplicate_operation)
unfolding commit_stock create_operations
repeat_cases op c c' cs cs' later w v q done grown same =
    let row = operation_row op commit "" c in
    let row' = operation_row op commit "" c' in
    let met : conflicts row' v.store.operations ≡ true =
      rw (grown, committed_operations op (c ∷ cs) w q done, append_assoc)
        (conflicts-append row' row w.store.operations _ (same_key_self row' row refl same)) in
    ground arith

-- Once a commit has succeeded, a repetition of the operation for its first product finds the
-- operation in the journal, whatever has been added since: it never succeeds and changes nothing.
pub commit_stock-repeat :
    (op : String) (c c' : StockChange) (cs cs' : List StockChange) (later : List OperationRow)
    (w v : World Tables)
    → All IsQuantity (c ∷ cs)
    → (commit_stock op (c ∷ cs) w).0 ≡ ok tt
    → v.store.operations ≡ (commit_stock op (c ∷ cs) w).1.store.operations ++ later
    → c'.product_id ≡ c.product_id
    → ((commit_stock op (c' ∷ cs') v).0 ≢ ok tt)
      × ((commit_stock op (c' ∷ cs') v).1.store ≡ v.store)
commit_stock-repeat op c c' cs cs' later w v q done grown same =
    let r = repeat_cases op c c' cs cs' later w v q done grown same in (r.0, r.1)

-- Where no call fails, the error of the repetition is the one that reports a duplicate.
pub commit_stock-duplicate :
    (op : String) (c c' : StockChange) (cs cs' : List StockChange) (later : List OperationRow)
    (w v : World Tables)
    → All IsQuantity (c ∷ cs)
    → (commit_stock op (c ∷ cs) w).0 ≡ ok tt
    → v.store.operations ≡ (commit_stock op (c ∷ cs) w).1.store.operations ++ later
    → c'.product_id ≡ c.product_id
    → v.fails v.tick ≡ false
    → v.fails (suc v.tick) ≡ false
    → (commit_stock op (c' ∷ cs') v).0 ≡ err duplicate_operation
commit_stock-duplicate op c c' cs cs' later w v q done grown same up up' =
    (repeat_cases op c c' cs cs' later w v q done grown same).2 up up'
