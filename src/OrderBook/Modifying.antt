-- ===== src/OrderBook/Modifying.antt =====
-- include/orderbook.h: `modify_order`.
use cpp_orderbook.Prelude.{
  Bool, false, not, ◌&&◌, ◌||◌, ltb, leb, ◌==◌, if◌then◌else◌, none, some, Outcome, ok, defined,
  ◌>>=◌,
}
use cpp_orderbook.Prelude.Int
use cpp_orderbook.Prelude.Int.{pos}
use cpp_orderbook.Core.{OrderId, Price, Quantity}
use cpp_orderbook.Clock.{Clock}
use cpp_orderbook.Order.{Order, OrderSide, is_closed, set_price, set_quantity}
use cpp_orderbook.OrderPool.{OrderPtr, load, store}
use cpp_orderbook.FlatMap
use cpp_orderbook.FlatMap.{FlatMaps, FlatMap}
use cpp_orderbook.SortedMap
use cpp_orderbook.SortedMap.{SortedMap, Compare, less, greater, begin}
use cpp_orderbook.PriceLevel
use cpp_orderbook.PriceLevel.{PriceLevel, make_level}
use cpp_orderbook.OrderBook.Book.{
  OrderBook, compare_of, levels_of, with_levels, remove_price_level_if_empty,
}

-- `new_price <= 0.0 || new_qty <= get_quantity_filled()` refuses.
unfoldable pub validate_modify_order : Order → Price → Quantity → Bool
validate_modify_order order new_price new_qty =
    not (Int.leb new_price (pos 0) || leb new_qty order.quantity_filled)

module _ ⦃F : FlatMaps⦄ where
  -- The part of `modify_order_dispatcher` under `if (price_changed)`.
  unfoldable pub move_order :
      OrderSide → OrderPtr → Price → OrderBook → Clock → Outcome (OrderBook × Clock)
  move_order s ptr new_price b c = do
    order ← load b.order_pool ptr
    old_level ← defined (SortedMap.find (compare_of s) order.price (levels_of s b))
    (_, old_level') ← PriceLevel.remove_order order.id old_level
    let (order', c') = set_price order new_price c
    pool ← store b.order_pool ptr order'
    let emplaced =
        SortedMap.try_emplace (compare_of s) new_price (make_level new_price)
          (SortedMap.put (compare_of s) order.price old_level' (levels_of s b))
    new_level ← defined (SortedMap.find (compare_of s) new_price emplaced.1)
    new_level' ← PriceLevel.add_order pool ptr new_level
    ok (
      record (with_levels s (SortedMap.put (compare_of s) new_price new_level' emplaced.1) b) {
        try_match_flag = emplaced.0;
        order_pool = pool;
      },
      c',
    )

  -- `remove_order` and `add_order` on the level at a price: the order goes to the end.
  unfoldable pub requeue_order : OrderSide → OrderPtr → Price → OrderBook → Outcome OrderBook
  requeue_order s ptr p b = do
    order ← load b.order_pool ptr
    level ← defined (SortedMap.find (compare_of s) p (levels_of s b))
    (_, level₁) ← PriceLevel.remove_order order.id level
    level₂ ← PriceLevel.add_order b.order_pool ptr level₁
    ok (with_levels s (SortedMap.put (compare_of s) p level₂ (levels_of s b)) b)

  -- The part of `modify_order_dispatcher` under `if (quantity_changed)`.
  unfoldable pub resize_order :
      OrderSide → OrderPtr → Price → Quantity → Bool → OrderBook → Outcome OrderBook
  resize_order s ptr old_price new_qty price_changed b = do
    order ← load b.order_pool ptr
    pool ← store b.order_pool ptr (set_quantity order new_qty)
    if ltb order.quantity new_qty && not price_changed
        then requeue_order s ptr old_price (record b { order_pool = pool })
        else ok (record b { order_pool = pool })

  -- What `modify_order_dispatcher` does to an order that passed `validate_modify_order`. The iterator
  -- at the end is the one of the old price: the `it` of the inner block is another variable.
  unfoldable pub apply_modify :
      OrderSide
      → OrderPtr
      → Price
      → Quantity
      → OrderBook
      → Clock
      → Outcome (Bool × OrderBook × Clock)
  apply_modify s ptr new_price new_qty b c = do
    order ← load b.order_pool ptr
    let old_price = order.price
    let price_changed = not (Int.eqb old_price new_price)
    let quantity_changed = not (order.quantity == new_qty)
    (b₁, c') ← (if price_changed then move_order s ptr new_price b c else ok (b, c))
    b₂ ← (if quantity_changed then resize_order s ptr old_price new_qty price_changed b₁ else ok b₁)
    b₃ ← remove_price_level_if_empty s old_price b₂
    ok (price_changed || quantity_changed, b₃, c')

  unfoldable pub modify_order_dispatcher :
      OrderSide
      → OrderPtr
      → Price
      → Quantity
      → OrderBook
      → Clock
      → Outcome (Bool × OrderBook × Clock)
  modify_order_dispatcher s ptr new_price new_qty b c = do
    order ← load b.order_pool ptr
    if validate_modify_order order new_price new_qty
        then apply_modify s ptr new_price new_qty b c
        else ok (false, b, c)

  -- `modify_order` of an order that the registry has. Both cases of the `switch` return: the
  -- `try_match` below it in the source is not reached.
  unfoldable pub modify_registered :
      OrderPtr → Price → Quantity → OrderBook → Clock → Outcome (Bool × OrderBook × Clock)
  modify_registered ptr price quantity b c = do
    order ← load b.order_pool ptr
    if is_closed order.status
        then ok (false, b, c)
        else modify_order_dispatcher order.side ptr price quantity b c

  unfoldable pub modify_order :
      OrderId → Price → Quantity → OrderBook → Clock → Outcome (Bool × OrderBook × Clock)
  modify_order id price quantity b c = elim (FlatMap.find id b.order_registry) [
    | none ↦ ok (false, b, c)
    | some ptr ↦ modify_registered ptr price quantity b c
  ]
