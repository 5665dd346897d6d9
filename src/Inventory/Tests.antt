-- ===== src/Inventory/Tests.antt =====
-- Tests of the inventory service, and its theorems at a small table.
use douyin_mall.Base.{
  suc, ◌≡◌, ◌≢◌, ◌⊎◌, refl, false, [], ◌∷◌, ◌++◌, map, World, ok, err, All, arith,
}
use douyin_mall.Inventory.{
  Tables, StockChange, Error, commit, commit_operation_id, commit_stock, refund_stock,
  operation_row, duplicate_operation, create_operations, commit_changes, commit_change, move_row,
  restore_rows, restore_row,
}
use douyin_mall.Inventory.Ledger.{units, IsNatural, IsQuantity}
use douyin_mall.Inventory.Commit.{
  commit_stock-outcome, commit_stock-IsNatural, commit_stock-repeat, commit_stock-duplicate,
}
use douyin_mall.Inventory.Refund.{refund-commit}

commit_operation_id_order : commit_operation_id "order_12_refund" ≡ "order_12_commit"
unfolding commit_operation_id
commit_operation_id_order = refl

abbrev shelf : World Tables
shelf = record {
  store = record {
    inventory = record { product_id = 1; stock = 10; sold = 4 } ∷ [];
    operations = [];
  };
  tick = 0;
  fails = λ n. false;
}

abbrev three : StockChange
three = record { product_id = 1; quantity = 3 }

three-IsQuantity : All IsQuantity (three ∷ [])
three-IsQuantity = ground arith

commit_done : (commit_stock "order_1_commit" (three ∷ []) shelf).0 ≡ ok tt
unfolding commit_stock create_operations commit_changes commit_change move_row
commit_done = refl

commit_stock-outcome_example :
    let (r, w') = commit_stock "order_1_commit" (three ∷ []) shelf in
    ((e : Error) × (r ≡ err e) × (w'.store ≡ shelf.store))
    ⊎ ((r ≡ ok tt)
        × (w'.store.operations
            ≡ shelf.store.operations ++ map (operation_row "order_1_commit" commit "") (three ∷ []))
        × (map units w'.store.inventory ≡ map units shelf.store.inventory))
commit_stock-outcome_example =
    commit_stock-outcome "order_1_commit" (three ∷ []) shelf three-IsQuantity

commit_stock-IsNatural_example :
    All IsNatural (commit_stock "order_1_commit" (three ∷ []) shelf).1.store.inventory
commit_stock-IsNatural_example =
    commit_stock-IsNatural "order_1_commit" (three ∷ []) shelf three-IsQuantity (ground arith)

abbrev committed : World Tables
committed = (commit_stock "order_1_commit" (three ∷ []) shelf).1

committed_journal : committed.store.operations ≡ committed.store.operations ++ []
unfolding commit_stock create_operations commit_changes commit_change move_row
committed_journal = refl

commit_stock-repeat_example :
    ((commit_stock "order_1_commit" (three ∷ []) committed).0 ≢ ok tt)
    × ((commit_stock "order_1_commit" (three ∷ []) committed).1.store ≡ committed.store)
commit_stock-repeat_example =
    commit_stock-repeat "order_1_commit" three three [] [] [] shelf committed three-IsQuantity
      commit_done committed_journal refl

committed_up : committed.fails committed.tick ≡ false
unfolding commit_stock create_operations commit_changes commit_change move_row
committed_up = refl

committed_up_next : committed.fails (suc committed.tick) ≡ false
unfolding commit_stock create_operations commit_changes commit_change move_row
committed_up_next = refl

commit_stock-duplicate_example :
    (commit_stock "order_1_commit" (three ∷ []) committed).0 ≡ err duplicate_operation
commit_stock-duplicate_example =
    commit_stock-duplicate "order_1_commit" three three [] [] [] shelf committed three-IsQuantity
      commit_done committed_journal refl committed_up committed_up_next

refund_derived : commit_operation_id "order_1_refund" ≡ "order_1_commit"
unfolding commit_operation_id
refund_derived = refl

refund_done : (refund_stock "order_1_refund" committed).0 ≡ ok tt
unfolding commit_stock create_operations commit_changes commit_change move_row refund_stock
    commit_operation_id restore_rows restore_row
refund_done = refl

refund-commit_example :
    (refund_stock "order_1_refund" committed).1.store.inventory ≡ shelf.store.inventory
refund-commit_example =
    refund-commit "order_1_commit" "order_1_refund" (three ∷ []) shelf committed three-IsQuantity
      (ground arith) (tt, tt) refl refund_derived commit_done refl refund_done
