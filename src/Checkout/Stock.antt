-- ===== src/Checkout/Stock.antt =====
-- The quantities that a checkout asks the inventory for.
use douyin_mall.Base.{
  ℕ, ◌+◌, ◌%◌, ◌<◌, ◌≡◌, ◌≤◌, refl, false, ◌∙◌, ap, inl, inr, List, [], ◌∷◌, arith, Int64, Int32,
  mod32, ◌==◌, if◌then◌else◌, Bool-cases,
}
use douyin_mall.Checkout.{
  CheckoutItem, StockItem, to_inventory_stock_items, stock_items_from, put_item,
}

-- What the items ask for of a product, and what the request has of it.
abbrev pub asked : Int64 → List CheckoutItem → ℕ
asked p [] = 0
asked p (i ∷ is) = (if i.product_id == p then i.quantity else 0) + asked p is

abbrev pub quantity_of : Int64 → List StockItem → ℕ
quantity_of p [] = 0
quantity_of p (s ∷ ss) = (if s.product_id == p then s.quantity else 0) + quantity_of p ss

-- The number of the entries of a product, and its first entry.
abbrev pub entries : Int64 → List StockItem → ℕ
entries p [] = 0
entries p (s ∷ ss) = (if s.product_id == p then 1 else 0) + entries p ss

abbrev first_of : Int64 → List StockItem → ℕ
first_of p [] = 0
first_of p (s ∷ ss) = if s.product_id == p then s.quantity else first_of p ss

first_of-absent : (p : Int64) (ss : List StockItem) → entries p ss ≡ 0 → quantity_of p ss ≡ 0
first_of-absent p [] h = refl
first_of-absent p (s ∷ ss) h = ground (arith, first_of-absent p ss)

-- Where a product has one entry at most, that is all that is asked for of it.
first_of-quantity_of :
    (p : Int64) (ss : List StockItem) → entries p ss ≤ 1 → quantity_of p ss ≡ first_of p ss
first_of-quantity_of p [] h = refl
first_of-quantity_of p (s ∷ ss) h = elim (Bool-cases (s.product_id == p)) [
  | inl its_own ↦ let rest = first_of-absent p ss (ground arith) in ground arith
  | inr other ↦ let rest = first_of-quantity_of p ss (ground arith) in ground arith
]

-- An item of another product.
entries-put_other :
    (p q : Int64) (n : Int32) (ss : List StockItem)
    → (q == p) ≡ false
    → entries p (put_item q n ss) ≡ entries p ss
entries-put_other p q n [] h = rw h refl
entries-put_other p q n (s ∷ ss) h = elim (Bool-cases (s.product_id == q)) [
  | inl its_own ↦ rw its_own refl
  | inr other ↦
      rw other (ap (λ m. (if s.product_id == p then 1 else 0) + m) (entries-put_other p q n ss h))
]

entries-put_item :
    (p q : Int64) (n : Int32) (ss : List StockItem)
    → entries p ss ≤ 1
    → entries p (put_item q n ss) ≤ 1
entries-put_item p q n [] h = ground arith
entries-put_item p q n (s ∷ ss) h = elim (Bool-cases (s.product_id == q)) [
  | inl its_own ↦ rw its_own h
  | inr other ↦ elim (Bool-cases (s.product_id == p)) [
    | inl asked_for ↦
        let far = entries-put_other p q n ss (ground arith) in rw (other, asked_for) (ground arith)
    | inr passed ↦
        let rest = entries-put_item p q n ss (ground arith) in rw (other, passed) (ground arith)
  ]
]

entries-stock_items_from :
    (p : Int64) (acc : List StockItem) (items : List CheckoutItem)
    → entries p acc ≤ 1
    → entries p (stock_items_from acc items) ≤ 1
unfolding stock_items_from
entries-stock_items_from p acc [] h = h
entries-stock_items_from p acc (i ∷ is) h =
    entries-stock_items_from p (put_item i.product_id (i.quantity % mod32) acc) is
      (entries-put_item p i.product_id (i.quantity % mod32) acc h)

-- A product's entry after one more item.
first_of-put_item :
    (p q : Int64) (n : Int32) (ss : List StockItem)
    → n < mod32
    → first_of p ss < mod32
    → first_of p (put_item q n ss) ≡ (first_of p ss + (if q == p then n else 0)) % mod32
first_of-put_item p q n [] small bound = ground arith
first_of-put_item p q n (s ∷ ss) small bound = elim (Bool-cases (s.product_id == q)) [
  | inl its_own ↦ ground arith
  | inr other ↦ elim (Bool-cases (s.product_id == p)) [
    | inl asked_for ↦ ground arith
    | inr passed ↦ let ih = first_of-put_item p q n ss small (ground arith) in ground arith
  ]
]

first_of-stock_items_from :
    (p : Int64) (acc : List StockItem) (items : List CheckoutItem)
    → first_of p acc < mod32
    → first_of p (stock_items_from acc items) ≡ (first_of p acc + asked p items) % mod32
unfolding stock_items_from
first_of-stock_items_from p acc [] bound = omega (arith, bound)
first_of-stock_items_from p acc (i ∷ is) bound =
    let put = first_of-put_item p i.product_id (i.quantity % mod32) acc (omega arith) bound in
    let ih =
      first_of-stock_items_from p (put_item i.product_id (i.quantity % mod32) acc) is
        (ground arith) in
    ground arith

-- The request has one entry at most for each product, and asks the inventory, for each product, for
-- the sum of the quantities of its items, modulo 2^32.
pub quantity_of-to_inventory_stock_items :
    (p : Int64) (items : List CheckoutItem)
    → (entries p (to_inventory_stock_items items) ≤ 1)
      × (quantity_of p (to_inventory_stock_items items) ≡ asked p items % mod32)
unfolding to_inventory_stock_items
quantity_of-to_inventory_stock_items p items =
    let one = entries-stock_items_from p [] items (omega arith) in
    (
      one,
      first_of-quantity_of p (stock_items_from [] items) one
          ∙ (first_of-stock_items_from p [] items (omega arith)
              ∙ ap (λ n. n % mod32) (omega arith)),
    )
