-- ===== src/Order/Fill.antt =====
-- `Order::match`: what a fill does on each branch of include/order.h.
use cpp_orderbook.Prelude.{
  ◌+◌, ◌-◌, ◌≤◌, ◌<◌, ◌≡◌, ◌↔◌, true, false, ◌==◌, u64_mod, ok, throws, arith,
}
use cpp_orderbook.Core.{Quantity}
use cpp_orderbook.Clock.{Clock, now}
use cpp_orderbook.Order.{Order, OrderStatus, fully_filled, partially_filled, match}

-- The fill and the quantity of an order that was never overfilled.
pub record IsFillable (o : Order) : Type 0 where
  pub bounded : o.quantity < u64_mod
  pub within : o.quantity_filled ≤ o.quantity

-- The status that a fill leaves.
abbrev pub filled_status : Quantity → Quantity → OrderStatus
filled_status filled quantity = elim (filled == quantity) [
  | true ↦ fully_filled
  | false ↦ partially_filled
]

-- The order that a fill leaves.
abbrev pub filled_by : Order → Quantity → Clock → Order
filled_by o fill c = record o {
  quantity_filled = o.quantity_filled + fill;
  updated_time = (now c).0;
  status = filled_status (o.quantity_filled + fill) o.quantity;
}

-- A fill of no more than what is left returns: the filled amount grows by exactly the fill with
-- no wrap, the clock is read once, the status is FULLY_FILLED if and only if nothing is left and
-- PARTIALLY_FILLED otherwise, and every other field stays.
pub match_lem :
    (o : Order) (fill : Quantity) (c : Clock)
    → IsFillable o
    → fill ≤ o.quantity - o.quantity_filled
    → match o fill c ≡ ok (filled_by o fill c, (now c).1)
unfolding match
match_lem o fill c v h = ground arith

-- A fill keeps the order fillable.
pub match-IsFillable :
    (o : Order) (fill : Quantity) (c : Clock) {o' : Order} {c' : Clock}
    → IsFillable o
    → match o fill c ≡ ok (o', c')
    → IsFillable o'
unfolding match
match-IsFillable o fill c v e = ground arith

-- A fill whose sum does not wrap throws exactly when it exceeds what is left.
pub match-throws_iff :
    (o : Order) (fill : Quantity) (c : Clock)
    → IsFillable o
    → o.quantity_filled + fill < u64_mod
    → (match o fill c ≡ throws) ↔ (o.quantity - o.quantity_filled < fill)
unfolding match
match-throws_iff o fill c v h = (λ e. ground arith, λ e. ground arith)
