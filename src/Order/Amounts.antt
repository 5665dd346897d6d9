-- ===== src/Order/Amounts.antt =====
-- The amounts of a new order against sums of natural numbers.
use douyin_mall.Base.{
  ℕ, ◌+◌, ◌*◌, ◌<◌, ◌≤◌, ◌≡◌, arith, ◌∙◌, ◌%◌, ◌∷◌, [], List, half64, mod64, if◌then◌else◌, ◌==◌,
  add64,
}
use douyin_mall.Order.{OrderItem, CreateOrderCmd, total_from, order_of_cmd, payable_of, discount_of}

-- What the items cost.
abbrev pub cost : List OrderItem → ℕ
cost [] = 0
cost (i ∷ is) = i.price * i.quantity + cost is

sum_below : (t x rest : ℕ) → t + (x + rest) < mod64 → add64 t (x % mod64) ≡ t + x
sum_below t x rest h = ground arith

total_from-cost :
    (t : ℕ) (is : List OrderItem) → t + cost is < mod64 → total_from t is ≡ t + cost is
unfolding total_from
total_from-cost t [] h = ground arith
total_from-cost t (i ∷ is) h =
    rw (sum_below t (i.price * i.quantity) (cost is) h)
      (total_from-cost (t + i.price * i.quantity) is (omega (arith, h)) ∙ omega arith)

-- Of a command whose items cost less than 2^63 and whose requested amount is at most that, the order
-- has the cost as total, the requested amount or else the whole cost as payable, and the two differ
-- by the discount.
pub order_of_cmd-amounts :
    (now : ℕ) (cmd : CreateOrderCmd)
    → cost cmd.items < half64
    → cmd.payable_amount ≤ cost cmd.items
    → ((order_of_cmd now cmd).total_amount.total ≡ cost cmd.items)
      × ((order_of_cmd now cmd).payable_amount.total
          ≡ (if cmd.payable_amount == 0 then cost cmd.items else cmd.payable_amount))
      × ((order_of_cmd now cmd).payable_amount.total + (order_of_cmd now cmd).discount_amount.total
          ≡ cost cmd.items)
unfolding order_of_cmd payable_of discount_of
order_of_cmd-amounts now cmd bound paid =
    let total = total_from-cost 0 cmd.items (omega (arith, bound)) in ground arith
