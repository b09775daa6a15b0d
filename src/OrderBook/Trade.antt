-- ===== src/OrderBook/Trade.antt =====
-- `match_orders` of include/orderbook.h: one trade between two resting orders.
use cpp_orderbook.Prelude.{◌-◌, ◌≤◌, ◌≡◌, ◌≢◌, refl, ◌∙◌, ◌⊎◌, min, sub64, some, ok, arith, false}
use cpp_orderbook.Core.{Quantity}
use cpp_orderbook.Clock.{Clock, now}
use cpp_orderbook.Order.{Order, is_fully_filled, is_closed, fully_filled}
use cpp_orderbook.Order.Fill.{IsFillable, filled_by, match_lem}
use cpp_orderbook.OrderPool.{OrderPool, OrderPtr, peek, poke}
use cpp_orderbook.OrderPool.Slots.{load-ok, store-ok, peek-poke_ne}
use cpp_orderbook.OrderBook.Resting.{in_buffer_of_peek}
use cpp_orderbook.OrderBook.Matching.{match_orders}

-- What an order still wants.
abbrev pub available : Order → Quantity
available o = o.quantity - o.quantity_filled

-- The size of the trade.
abbrev pub traded : Order → Order → Quantity
traded bid ask = min (available bid) (available ask)

-- The pool after the trade, the bid filled at the first reading of the clock, the ask at the next.
abbrev pub traded_pool : OrderPool → OrderPtr → OrderPtr → Order → Order → Clock → OrderPool
traded_pool pool b a bid ask c =
    poke (poke pool b (filled_by bid (traded bid ask) c)) a
      (filled_by ask (traded bid ask) (now c).1)

sub64-available : (o : Order) → IsFillable o → sub64 o.quantity o.quantity_filled ≡ available o
sub64-available o v = omega arith

-- A trade between two fillable orders behind different pointers never throws: it fills both by the
-- lesser of the amounts that they still want, and writes nothing else.
pub match_orders_lem :
    (pool : OrderPool) (b a : OrderPtr) (bid ask : Order) (c : Clock)
    → peek pool b ≡ some bid
    → peek pool a ≡ some ask
    → b ≢ a
    → IsFillable bid
    → IsFillable ask
    → match_orders b a pool c ≡ ok (traded_pool pool b a bid ask c, (now (now c).1).1)
unfolding match_orders
match_orders_lem pool b a bid ask c at_b at_a ne fb fa =
    let qty = traded bid ask in
    let bid' = filled_by bid qty c in
    let pool₁ = poke pool b bid' in
    let still : peek pool₁ a ≡ some ask =
      peek-poke_ne pool b a bid' ne (in_buffer_of_peek pool b at_b) ∙ at_a in
    rw
      (
        load-ok pool b at_b,
        load-ok pool a at_a,
        sub64-available bid fb,
        sub64-available ask fa,
        match_lem bid qty c fb (omega arith),
        store-ok pool b bid' at_b,
        load-ok pool₁ a still,
        match_lem ask qty (now c).1 fa (omega arith),
        store-ok pool₁ a _ still,
      )
      refl

-- At least one side of the trade is done.
pub trade_fills_one :
    (bid ask : Order) (c d : Clock)
    → IsFillable bid
    → IsFillable ask
    → ((filled_by bid (traded bid ask) c).status ≡ fully_filled)
      ⊎ ((filled_by ask (traded bid ask) d).status ≡ fully_filled)
trade_fills_one bid ask c d fb fa = ground arith

-- A fill within what is available leaves a fillable order, done or still open.
pub filled_by-IsFillable :
    (o : Order) (q : Quantity) (c : Clock)
    → q ≤ available o
    → IsFillable o
    → IsFillable (filled_by o q c)
filled_by-IsFillable o q c h v = omega arith

pub filled_by_open :
    (o : Order) (q : Quantity) (c : Clock)
    → ((filled_by o q c).status ≡ fully_filled)
      ⊎ ((is_fully_filled (filled_by o q c).status ≡ false)
          × (is_closed (filled_by o q c).status ≡ false))
filled_by_open o q c = ground arith
