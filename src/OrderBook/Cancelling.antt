-- ===== src/OrderBook/Cancelling.antt =====
-- include/orderbook.h: `cancel_order`.
use cpp_orderbook.Prelude.{Bool, true, false, none, some, Outcome, ok, defined, ◌>>=◌}
use cpp_orderbook.Core.{OrderId}
use cpp_orderbook.Clock.{Clock}
use cpp_orderbook.Order
use cpp_orderbook.Order.{
  Order, OrderSide, buy, sell, is_closed, copy_from_client, set_price, set_quantity,
}
use cpp_orderbook.OrderPool.{OrderPtr, load, store}
use cpp_orderbook.FlatMap
use cpp_orderbook.FlatMap.{FlatMaps, FlatMap}
use cpp_orderbook.SortedMap
use cpp_orderbook.SortedMap.{SortedMap, Compare, less, greater, begin}
use cpp_orderbook.PriceLevel
use cpp_orderbook.PriceLevel.{PriceLevel, make_level}
use cpp_orderbook.OrderBook.Book.{
  OrderBook, compare_of, levels_of, with_levels, remove_price_level_if_empty,
}

module _ ⦃F : FlatMaps⦄ where
  unfoldable pub cancel_order_dispatcher : OrderSide → OrderPtr → OrderBook → Outcome OrderBook
  cancel_order_dispatcher s ptr b = do
    order ← load b.order_pool ptr
    level ← defined (SortedMap.find (compare_of s) order.price (levels_of s b))
    (_, level') ← PriceLevel.remove_order order.id level
    remove_price_level_if_empty s order.price
        (with_levels s (SortedMap.put (compare_of s) order.price level' (levels_of s b)) b)

  -- `cancel_order` of an order that the registry has.
  unfoldable pub cancel_registered :
      OrderPtr → OrderBook → Clock → Outcome (Bool × OrderBook × Clock)
  cancel_registered ptr b c = do
    order ← load b.order_pool ptr
    let (cancel_success, order', c') = Order.cancel order c
    pool ← store b.order_pool ptr order'
    elim cancel_success [
      | false ↦ ok (false, record b { order_pool = pool }, c')
      | true ↦ cancel_order_dispatcher order'.side ptr (record b { order_pool = pool }) >>= λ b'.
          ok (true, b', c')
    ]

  -- Nothing in the dispatcher throws, so the handlers of the source are never entered.
  unfoldable pub cancel_order : OrderId → OrderBook → Clock → Outcome (Bool × OrderBook × Clock)
  cancel_order id b c = elim (FlatMap.find id b.order_registry) [
    | none ↦ ok (false, b, c)
    | some ptr ↦ cancel_registered ptr b c
  ]
