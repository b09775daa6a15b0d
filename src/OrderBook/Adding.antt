-- ===== src/OrderBook/Adding.antt =====
-- include/orderbook.h: `add_order`. Those methods that draw order ids or read the clock take and
-- return the allocator, which all books share, and the clock.
use cpp_orderbook.Prelude.{◌==◌, if◌then◌else◌, add64, Outcome, ok, defined, ◌>>=◌}
use cpp_orderbook.Core.{OrderId}
use cpp_orderbook.Order.{Order, OrderSide, copy_from_client}
use cpp_orderbook.OrderPool.{OrderPtr, allocate, load, store}
use cpp_orderbook.IdAllocator.{get_next_id_block}
use cpp_orderbook.FlatMap
use cpp_orderbook.FlatMap.{FlatMaps, FlatMap}
use cpp_orderbook.SortedMap
use cpp_orderbook.SortedMap.{SortedMap, Compare, less, greater, begin}
use cpp_orderbook.PriceLevel
use cpp_orderbook.PriceLevel.{PriceLevel, make_level}
use cpp_orderbook.OrderBook.Book.{OrderBook, Surroundings, compare_of, levels_of, with_levels}
use cpp_orderbook.OrderBook.Matching.{try_match}

module _ ⦃F : FlatMaps⦄ where
  -- `get_order_id`: a used-up block is replaced first.
  unfoldable pub get_order_id : OrderBook → Surroundings → OrderId × OrderBook × Surroundings
  get_order_id b w =
      let (block, allocator) = get_next_id_block w.id_allocator in
      if b.next_available_order_id == b.order_id_block.end
      then (
        block.start,
        record b { order_id_block = block; next_available_order_id = add64 block.start 1 },
        record w { id_allocator = allocator },
      )
      else (
        b.next_available_order_id,
        record b { next_available_order_id = add64 b.next_available_order_id 1 },
        w,
      )

  unfoldable pub add_order_dispatcher : OrderSide → OrderPtr → OrderBook → Outcome OrderBook
  add_order_dispatcher s ptr b = do
    order ← load b.order_pool ptr
    let emplaced =
        SortedMap.try_emplace (compare_of s) order.price (make_level order.price) (levels_of s b)
    p_level ← defined (SortedMap.find (compare_of s) order.price emplaced.1)
    p_level' ← PriceLevel.add_order b.order_pool ptr p_level
    ok (record (with_levels s (SortedMap.put (compare_of s) order.price p_level' emplaced.1) b) {
      try_match_flag = emplaced.0;
      order_registry = FlatMap.assign order.id ptr b.order_registry;
    })

  -- `add_order`: a slot of the pool becomes the order, which joins its side, and the book matches.
  unfoldable pub add_order :
      Order → OrderBook → Surroundings → Outcome (OrderId × OrderBook × Surroundings)
  add_order client b w = do
    (ptr, pool, c) ← allocate b.order_pool w.clock
    let (id, b₁, w₁) = get_order_id b w
    slot ← load pool ptr
    pool₁ ← store pool ptr (copy_from_client slot client id)
    order ← load pool₁ ptr
    b₂ ← add_order_dispatcher order.side ptr (record b₁ { order_pool = pool₁ })
    (_, b₃, c') ← try_match b₂ c
    ok (order.id, b₃, record w₁ { clock = c' })
