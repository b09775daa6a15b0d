-- ===== src/OrderPool/Tests.antt =====
-- Pools at concrete inputs.
use cpp_orderbook.Prelude.{◌≡◌, refl, [], ◌∷◌, arith}
use cpp_orderbook.Clock.{Clock}
use cpp_orderbook.Order.{Order, default_order}
use cpp_orderbook.OrderPool.{OrderPool, OrderPtr, make_pool}
use cpp_orderbook.OrderPool.Realloc.{Invalidates, allocate-Invalidates}

abbrev ticking : Clock
ticking = record { reading = λ n. n; reads = 0 }

abbrev blank : Order
blank = (default_order ticking).0

abbrev two_slots : OrderPool
two_slots = record {
  next_free_index = 1;
  orders = record { buffer = 0; capacity = 2; elements = blank ∷ blank ∷ [] };
}

abbrev used_up : OrderPool
used_up = record two_slots { next_free_index = 2 }

make_pool_two :
    (make_pool 2 ticking).0.orders.elements
    ≡ (default_order ticking).0 ∷ (default_order (record ticking { reads = 1 })).0 ∷ []
unfolding make_pool default_order
make_pool_two = refl

allocate-Invalidates_example : (r : OrderPtr × OrderPool × Clock) × Invalidates used_up ticking r
allocate-Invalidates_example = allocate-Invalidates used_up ticking (omega arith)
