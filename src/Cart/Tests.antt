-- ===== src/Cart/Tests.antt =====
-- Runs of the cart's table, and the theorems at them.
use douyin_mall.Base.{List, [], ◌∷◌, ◌≡◌, refl, arith, Int64, World, err, ◌==◌}
use douyin_mall.Cart.{CartItem, upsert_increment, upsert, decrement_quantity, record_not_found}
use douyin_mall.Cart.Changes.{Command, add, add_all, put, decrement, execute}
use douyin_mall.Cart.Refinement.{Implements, execute-Implements}
use douyin_mall.Cart.Lines.{IsValid}
use douyin_mall.Cart.Invariant.{run, run-IsValid}
use douyin_mall.Cart.Refusal.{Refused, execute-Refused}

abbrev item_of : Int64 → Int64 → CartItem
item_of sku quantity = record { user_id = 7; product_id = 1; sku_id = sku; quantity = quantity }

abbrev two_lines : World (List CartItem)
two_lines = record { store = item_of 3 2 ∷ item_of 4 1 ∷ []; tick = 0; fails = λ n. n == 2 }

abbrev commands : List Command
commands = add (item_of 3 0) ∷ decrement 7 4 ∷ put (item_of 4 5) ∷ add_all 7 (item_of 5 1 ∷ []) ∷ []

test_add : (execute (add (item_of 3 0)) two_lines).1.store ≡ item_of 3 3 ∷ item_of 4 1 ∷ []
unfolding upsert_increment
test_add = refl

test_decrement_last : (execute (decrement 7 4) two_lines).0 ≡ err record_not_found
unfolding decrement_quantity
test_decrement_last = refl

test_put : (execute (put (item_of 4 9)) two_lines).1.store ≡ item_of 3 2 ∷ item_of 4 9 ∷ []
unfolding upsert
test_put = refl

two_lines-IsValid : IsValid (item_of 3 2 ∷ item_of 4 1 ∷ [])
two_lines-IsValid =
    ((λ u s. ground arith), ((omega arith, omega arith), ((omega arith, omega arith), tt)))

execute-Implements_example :
    let (r, v) = execute (add (item_of 3 0)) two_lines in
    Implements (add (item_of 3 0)) two_lines.store r v.store
execute-Implements_example = execute-Implements (add (item_of 3 0)) two_lines

run-IsValid_example : IsValid (run commands two_lines).store
run-IsValid_example =
    run-IsValid commands two_lines (omega arith, (tt, (omega arith, ((omega arith, tt), tt))))
      two_lines-IsValid

execute-Refused_example : Refused (decrement 7 4) two_lines.store record_not_found
execute-Refused_example =
    execute-Refused (decrement 7 4) two_lines record_not_found tt two_lines-IsValid refl
      test_decrement_last
