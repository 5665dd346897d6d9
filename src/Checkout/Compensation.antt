-- ===== src/Checkout/Compensation.antt =====
-- What `PlaceOrder` leaves behind in the other services, from the commit of the stock on.
use douyin_mall.Base.{
  suc, ◌≡◌, refl, sym, subst, ◌⊎◌, inl, inr, List, ◌∷◌, arith, Int64, String, World, Result, ok,
  err, Bool-cases, if◌then◌else◌, ◌==◌,
}
use douyin_mall.Checkout.{
  Call, commit_stock, reserve_coupon, create_order, refund_stock, release_coupon, native_prepay,
  Shop, Replies, PlaceOrderInput, PlaceOrderOutput, order_from, to_inventory_stock_items, no_ids,
  Error, insufficient_stock, commit_stock_failed, rpc_failed, coupons_unavailable,
  order_create_failed, create_from,
}

abbrev Out : Type 0
Out = Result Error PlaceOrderOutput × World Shop

-- The calls for the stock and for the coupons, the latest first.
abbrev pub opening : PlaceOrderInput → Int64 → List Call → List Call
opening input id cs =
    let committed = commit_stock id (to_inventory_stock_items input.items) ∷ cs in
    if no_ids input.coupon_ids then committed else reserve_coupon id ∷ committed

-- The inventory has not taken the stock, or its answer was lost.
abbrev pub Rejected : PlaceOrderInput → Int64 → World Shop → Out → Type 0
Rejected input id w o =
    (x : Error) × (o.0 ≡ err x)
    × (o.1.store.calls ≡ commit_stock id (to_inventory_stock_items input.items) ∷ w.store.calls)

-- The coupons are refused: only the refund of the stock is asked for.
abbrev pub Refused : PlaceOrderInput → Int64 → World Shop → Out → Type 0
Refused input id w o =
    (o.0 ≡ err coupons_unavailable)
    × (o.1.store.calls ≡ refund_stock id ∷ opening input id w.store.calls)

-- The answer for the coupons or for the order is an error: the refund of the stock and the release
-- of the coupons are asked for.
abbrev pub Undone : PlaceOrderInput → String → Int64 → Int64 → World Shop → Out → Type 0
Undone input kind id total w o =
    (x : Error) × (o.0 ≡ err x)
    × ((o.1.store.calls ≡ release_coupon id ∷ refund_stock id ∷ opening input id w.store.calls)
        ⊎ (o.1.store.calls
            ≡ release_coupon id
              ∷ refund_stock id
              ∷ create_order id kind total
              ∷ opening input id w.store.calls))

-- The order stands, whatever becomes of the prepayment.
abbrev pub Placed : PlaceOrderInput → String → Int64 → Int64 → World Shop → Out → Type 0
Placed input kind id total w o =
    (out : PlaceOrderOutput) × (o.0 ≡ ok out)
    × (out.order_id ≡ id)
    × (out.total_amount ≡ total)
    × (o.1.store.calls
        ≡ native_prepay id total ∷ create_order id kind total ∷ opening input id w.store.calls)

abbrev pub Outcome : PlaceOrderInput → String → Int64 → Int64 → World Shop → Out → Type 0
Outcome input kind id total w o =
    Rejected input id w o
    ⊎ Refused input id w o
    ⊎ Undone input kind id total w o
    ⊎ Placed input kind id total w o

finishing :
    (r : Replies) (input : PlaceOrderInput) (kind : String) (id total : Int64) (w u : World Shop)
    → u.store.calls ≡ opening input id w.store.calls
    → Undone input kind id total w (create_from r kind id total u)
      ⊎ Placed input kind id total w (create_from r kind id total u)
finishing r input kind id total w u same = elim (Bool-cases (u.fails u.tick)) [
  | inl lost ↦ inl (order_create_failed, ground arith, inr (ground arith))
  | inr created ↦ elim (Bool-cases (u.fails (suc u.tick))) [
    | inl unpaid ↦ inr (
      record { order_id = id; payment_url = ""; total_amount = total },
      ground arith,
      refl,
      refl,
      ground arith,
    )
    | inr prepaid ↦ inr (
      record { order_id = id; payment_url = r.code_url; total_amount = total },
      ground arith,
      refl,
      refl,
      ground arith,
    )
  ]
]

-- From the commit of the stock on, whatever calls fail, `PlaceOrder` ends in one of four ways, in each
-- of which the calls that it has made, successful or not, are known: the commit is not confirmed, and
-- nothing more is called; the coupons are refused, and the refund of the stock is called; the coupons or
-- the order cannot be confirmed, and the refund of the stock and then the release of the coupons are
-- called; or the order is created, and its prepayment is called, whose failure does not undo it.
pub order_from-Outcome :
    (r : Replies) (input : PlaceOrderInput) (kind : String) (id total : Int64) (w : World Shop)
    → Outcome input kind id total w (order_from r input kind id total w)
unfolding order_from
order_from-Outcome r input kind id total w = elim (Bool-cases (w.fails w.tick)) [
  | inl lost ↦ inl (rpc_failed, ground arith, ground arith)
  | inr sent ↦ elim (Bool-cases (r.commit_status == 0)) [
    | inr refused ↦ elim (Bool-cases r.says_insufficient) [
      | inl short ↦ inl (insufficient_stock, ground arith, ground arith)
      | inr other ↦ inl (commit_stock_failed, ground arith, ground arith)
    ]
    | inl taken ↦ elim (Bool-cases (no_ids input.coupon_ids)) [
      | inl without ↦
          via
            (record w {
              store = record {
                calls = commit_stock id (to_inventory_stock_items input.items) ∷ w.store.calls;
              };
              tick = suc w.tick;
            })
            (rw (sent, taken) (rw without refl)) (rw without refl)
      | inr with_coupons ↦ elim (Bool-cases (w.fails (suc w.tick))) [
        | inl unknown ↦ inr (inr (inl (rpc_failed, ground arith, inl (ground arith))))
        | inr known ↦ elim (Bool-cases r.reserve_success) [
          | inr not_reserved ↦ inr (inl (ground arith, ground arith))
          | inl reserved ↦
              via
                (record w {
                  store = record {
                    calls =
                        reserve_coupon id
                        ∷ commit_stock id (to_inventory_stock_items input.items)
                        ∷ w.store.calls;
                  };
                  tick = suc (suc w.tick);
                })
                (rw (sent, taken) (rw (with_coupons, known) (rw reserved refl)))
                (rw with_coupons refl)
        ]
      ]
    ]
  ]
]
  where
    via :
        (u : World Shop)
        → order_from r input kind id total w ≡ create_from r kind id total u
        → u.store.calls ≡ opening input id w.store.calls
        → Outcome input kind id total w (order_from r input kind id total w)
    via u runs same =
        subst (Outcome input kind id total w) (sym runs)
          (inr (inr (finishing r input kind id total w u same)))
