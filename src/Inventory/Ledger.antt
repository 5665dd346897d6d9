-- ===== src/Inventory/Ledger.antt =====
-- What the operations of the repository keep: the units of each product and the sign of its stock.
use douyin_mall.Base.{
  ◌⊎◌, >>=-rule, ◌<◌, ◌≡◌, refl, ◌≢◌, subst, sym, ◌∙◌, inl, inr, Bool, true, Option, none, some,
  List, [], ◌∷◌, map, arith, All, add64, neg32, to_int64, Int64, Int32, mod64, mod32, half32,
  half64, World, Option-cases, Bool-cases, try_update, set_row, le64,
}
use douyin_mall.Inventory.{
  StockChange, InventoryRow, Tables, move_row, has_stock, commit_change, commit_changes,
}

-- The units of a product that the table accounts for, on the shelf or sold.
abbrev pub units : InventoryRow → Int64
units r = add64 r.stock r.sold

abbrev pub IsNatural : InventoryRow → Type 0
IsNatural r = r.stock < half64

-- The words of a quantity other than the least int32, -2147483648, which has no negative.
abbrev pub IsQuantity : StockChange → Type 0
IsQuantity c = (c.quantity < mod32) × (c.quantity ≢ half32)

abbrev pub IsWord : InventoryRow → Type 0
IsWord r = (r.stock < mod64) × (r.sold < mod64)

-- The unique index on the product: no other row has it.
abbrev pub IsAbsent : Int64 → List InventoryRow → Type 0
IsAbsent p [] = Unit
IsAbsent p (r ∷ rs) = (r.product_id ≢ p) × IsAbsent p rs

abbrev pub IsUnique : List InventoryRow → Type 0
IsUnique [] = Unit
IsUnique (r ∷ rs) = IsAbsent r.product_id rs × IsUnique rs

move_row-units :
    (q : Int32) (r r' : InventoryRow)
    → q < mod32
    → q ≢ half32
    → move_row (to_int64 q) (to_int64 (neg32 q)) r ≡ some r'
    → units r' ≡ units r
unfolding move_row
move_row-units q r r' h k e = ground arith

move_row-IsNatural :
    (q : Int32) (r r' : InventoryRow)
    → q < mod32
    → q ≢ half32
    → IsNatural r
    → le64 (to_int64 (neg32 q)) r.stock ≡ true
    → move_row (to_int64 q) (to_int64 (neg32 q)) r ≡ some r'
    → IsNatural r'
unfolding move_row
move_row-IsNatural q r r' h k n g e = ground arith

-- A statement over the table keeps what each row it changes keeps.
module _ {A : Type 0} (view : InventoryRow → A) (p : InventoryRow → Bool)
    (f : InventoryRow → Option InventoryRow)
    (keep : (r r' : InventoryRow) → f r ≡ some r' → view r' ≡ view r) where
  set_row-map :
      (r : InventoryRow) (rs : List InventoryRow) (o : Option InventoryRow)
      (os : Option (List InventoryRow)) {rows : List InventoryRow}
      → set_row o os ≡ some rows
      → ((r' : InventoryRow) → o ≡ some r' → view r' ≡ view r)
      → ((rs' : List InventoryRow) → os ≡ some rs' → map view rs' ≡ map view rs)
      → map view rows ≡ map view (r ∷ rs)
  set_row-map r rs (some r') (some rs') h k l = ground (arith, k r' refl, l rs' refl)
  set_row-map r rs (some r') none h k l = cc
  set_row-map r rs none os h k l = cc

  try_update-map :
      (rows rows' : List InventoryRow)
      → try_update p f rows ≡ some rows'
      → map view rows' ≡ map view rows
  try_update-map [] rows' h = ground arith
  try_update-map (r ∷ rs) rows' h =
      set_row-map r rs _ _ h
        (λ r' e. elim (Bool-cases (p r)) [
          | inl yes' ↦ ground (arith, keep r r')
          | inr no' ↦ ground arith
        ])
        (λ rs' e. try_update-map rs rs' e)

module _ {P : InventoryRow → Type 0} (p : InventoryRow → Bool)
    (f : InventoryRow → Option InventoryRow)
    (keep : (r r' : InventoryRow) → p r ≡ true → P r → f r ≡ some r' → P r') where
  set_row-All :
      (o : Option InventoryRow) (os : Option (List InventoryRow)) {rows : List InventoryRow}
      → set_row o os ≡ some rows
      → ((r' : InventoryRow) → o ≡ some r' → P r')
      → ((rs' : List InventoryRow) → os ≡ some rs' → All P rs')
      → All P rows
  set_row-All (some r') (some rs') h k l =
      let e : r' ∷ rs' ≡ _ = cc in subst (All P) e (k r' refl, l rs' refl)
  set_row-All (some r') none h k l = absurd (cc h)
  set_row-All none os h k l = absurd (cc h)

  try_update-All :
      (rows rows' : List InventoryRow) → All P rows → try_update p f rows ≡ some rows' → All P rows'
  try_update-All [] rows' a h = let e : [] ≡ rows' = cc in subst (All P) e tt
  try_update-All (r ∷ rs) rows' a h =
      set_row-All _ _ h
        (λ r' e. elim (Bool-cases (p r)) [
          | inl yes' ↦ keep r r' yes' a.0 (rw yes' at e)
          | inr no' ↦ let e' : r ≡ r' = ground arith in subst P e' a.0
        ])
        (λ rs' e. try_update-All rs rs' a.1 e)

-- The whole loop of `CommitStock`, also where it stops at an error.
commit_change-units :
    (c : StockChange) (w : World Tables)
    → IsQuantity c
    → map units (commit_change c w).1.store.inventory ≡ map units w.store.inventory
unfolding commit_change
commit_change-units c w h =
    let p = has_stock c.product_id (to_int64 (neg32 c.quantity)) in
    let f = move_row (to_int64 c.quantity) (to_int64 (neg32 c.quantity)) in
    elim (Option-cases (try_update p f w.store.inventory)) [
      | inl refused ↦ ground arith
      | inr (rows, moved) ↦ ground (
        arith,
        try_update-map units p f (λ r r'. move_row-units c.quantity r r' h.0 h.1) w.store.inventory
            rows moved,
      )
    ]

-- The inventory after a round of the loop: as before, or as its UPDATE left it.
abbrev pub sale : StockChange → List InventoryRow → Option (List InventoryRow)
sale c =
    try_update (has_stock c.product_id (to_int64 (neg32 c.quantity)))
      (move_row (to_int64 c.quantity) (to_int64 (neg32 c.quantity)))

commit_change-inventory :
    (c : StockChange) (w : World Tables)
    → ((commit_change c w).1.store.inventory ≡ w.store.inventory)
      ⊎ (sale c w.store.inventory ≡ some (commit_change c w).1.store.inventory)
unfolding commit_change
commit_change-inventory c w = elim (Option-cases (sale c w.store.inventory)) [
  | inl refused ↦ ground arith
  | inr (rows, moved) ↦ ground arith
]

commit_change-IsNatural :
    (c : StockChange) (w : World Tables)
    → IsQuantity c
    → All IsNatural w.store.inventory
    → All IsNatural (commit_change c w).1.store.inventory
commit_change-IsNatural c w h n = elim (commit_change-inventory c w) [
  | inl same ↦ subst (All IsNatural) (sym same) n
  | inr sold ↦
      try_update-All _ _
        (λ r r' m b e. move_row-IsNatural c.quantity r r' h.0 h.1 b (ground arith) e)
        w.store.inventory _ n sold
]

commit_change-operations :
    (c : StockChange) (w : World Tables)
    → (commit_change c w).1.store.operations ≡ w.store.operations
unfolding commit_change
commit_change-operations c w = elim (Option-cases (sale c w.store.inventory)) [
  | inl refused ↦ ground arith
  | inr (rows, moved) ↦ ground arith
]

-- What the loop of `CommitStock` keeps, also where it stops at an error.
pub record Kept (w w' : World Tables) : Type 0 where
  pub same_units : map units w'.store.inventory ≡ map units w.store.inventory
  pub same_operations : w'.store.operations ≡ w.store.operations
  pub natural : All IsNatural w.store.inventory → All IsNatural w'.store.inventory

commit_change-Kept :
    (c : StockChange) (w : World Tables) → IsQuantity c → Kept w (commit_change c w).1
commit_change-Kept c w h = record {
  same_units = commit_change-units c w h;
  same_operations = commit_change-operations c w;
  natural = commit_change-IsNatural c w h;
}

Kept-trans : {u v w : World Tables} → Kept u v → Kept v w → Kept u w
Kept-trans k l = record {
  same_units = l.same_units ∙ k.same_units;
  same_operations = l.same_operations ∙ k.same_operations;
  natural = λ n. l.natural (k.natural n);
}

pub commit_changes-Kept :
    (cs : List StockChange) (w : World Tables) → All IsQuantity cs → Kept w (commit_changes cs w).1
unfolding commit_changes
commit_changes-Kept [] w h = record { same_units = refl; same_operations = refl; natural = λ n. n }
commit_changes-Kept (c ∷ cs) w h =
    >>=-rule (λ o. Kept w o.1) (commit_change c) (λ _. commit_changes cs) w
      (λ x v e. subst (λ o. Kept w o.1) e (commit_change-Kept c w h.0))
      (λ a v e.
        Kept-trans (subst (λ o. Kept w o.1) e (commit_change-Kept c w h.0))
          (commit_changes-Kept cs v h.1))
