-- ===== src/Order/Transitions.antt =====
-- The life of an order as a graph, and `applyOrderAction` against it.
use douyin_mall.Base.{◌≡◌, ◌∙◌, ap, refl, sym, ◌↔◌, arith, ok, err}
use douyin_mall.Order.{
  OrderStatus, OrderAction, created, paid, shipped, completed, canceled, refunded, pay, ship,
  complete, cancel, refund, Order, apply_order_action, order_status_unchanged,
}

-- The transitions that the service allows.
pub data Edge : OrderStatus → OrderAction → OrderStatus → Type 0 where
  paying : Edge created pay paid
  shipping : Edge paid ship shipped
  completing : Edge shipped complete completed
  canceling : Edge created cancel canceled
  refunding_paid : Edge paid refund refunded
  refunding_shipped : Edge shipped refund refunded

pub ruleset edges = (paying, shipping, completing, canceling, refunding_paid, refunding_shipped)

-- The status that an action aims at.
abbrev pub target : OrderAction → OrderStatus
target pay = paid
target ship = shipped
target complete = completed
target cancel = canceled
target refund = refunded
target OrderAction.unknown = OrderStatus.unknown

apply_sound :
    (o o' : Order) (s : OrderStatus) (a : OrderAction)
    → o.status ≡ s
    → apply_order_action o a ≡ ok o'
    → Edge s a (target a) × (o' ≡ record o { status = target a })
unfolding apply_order_action
apply_sound o o' created pay e h = (paying, ground arith)
apply_sound o o' paid ship e h = (shipping, ground arith)
apply_sound o o' shipped complete e h = (completing, ground arith)
apply_sound o o' created cancel e h = (canceling, ground arith)
apply_sound o o' paid refund e h = (refunding_paid, ground arith)
apply_sound o o' shipped refund e h = (refunding_shipped, ground arith)
apply_sound o o' s a e h = absurd (ground arith)

apply_complete :
    (o : Order) {s t : OrderStatus} {a : OrderAction}
    → Edge s a t
    → o.status ≡ s
    → apply_order_action o a ≡ ok (record o { status = t })
unfolding apply_order_action
apply_complete o paying e = ground arith
apply_complete o shipping e = ground arith
apply_complete o completing e = ground arith
apply_complete o canceling e = ground arith
apply_complete o refunding_paid e = ground arith
apply_complete o refunding_shipped e = ground arith

-- An action is applied exactly along the edges of the graph, and then only the status changes.
pub apply_order_action_iff :
    (o o' : Order) (a : OrderAction)
    → (apply_order_action o a ≡ ok o')
      ↔ (Edge o.status a (target a) × (o' ≡ record o { status = target a }))
apply_order_action_iff o o' a =
    (apply_sound o o' o.status a refl, λ h. apply_complete o h.0 refl ∙ ap ok (sym h.1))

-- An action that has been applied is reported as "unchanged" when it comes again, so that a message
-- delivered twice does no harm.
pub apply_order_action_again :
    (o o' : Order) (a : OrderAction)
    → apply_order_action o a ≡ ok o'
    → apply_order_action o' a ≡ err order_status_unchanged
unfolding apply_order_action
apply_order_action_again o o' pay h = ground arith
apply_order_action_again o o' ship h = ground arith
apply_order_action_again o o' complete h = ground arith
apply_order_action_again o o' cancel h = ground arith
apply_order_action_again o o' refund h = ground arith
apply_order_action_again o o' OrderAction.unknown h = ground arith

-- Zero or more transitions.
pub data History (s : OrderStatus) : OrderStatus → Type 0 where
  here : History s s
  next : {t u : OrderStatus} {a : OrderAction} → History s t → Edge t a u → History s u
