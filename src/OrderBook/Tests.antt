-- ===== src/OrderBook/Tests.antt =====
-- tests/test_orderbook.cpp, run on the model with a pool of eight orders.
use cpp_orderbook.Prelude.{ℕ, ◌≡◌, refl, List, [], ◌∷◌, Outcome, ok, undefined, ◌>>=◌}
use cpp_orderbook.Core.{Price, Quantity, OrderId, price_of, minus_one}
use cpp_orderbook.Order.{
  OrderSide, buy, sell, client_order, default_order, copy_from_client, match, cancel, set_price,
  set_quantity,
}
use cpp_orderbook.OrderPool.{
  make_pool, reserve, emplace_back, emplace_defaults, allocate, load, store,
}
use cpp_orderbook.IdAllocator.{make_allocator, default_allocator, get_next_id_block}
use cpp_orderbook.SortedMap
use cpp_orderbook.FlatMap.Listed.{listed}
use cpp_orderbook.PriceLevel.{running}
use cpp_orderbook.OrderBook.Book.{
  OrderBook, Surroundings, make_book_of, remove_price_level_if_empty, total_orders,
  get_total_bid_orders, get_total_ask_orders, get_best_bid, get_best_ask,
}
use cpp_orderbook.OrderBook.Matching.{match_orders, match_best, match_loop, try_match}
use cpp_orderbook.OrderBook.Adding.{get_order_id, add_order_dispatcher, add_order}
use cpp_orderbook.OrderBook.Cancelling.{cancel_order_dispatcher, cancel_registered, cancel_order}
use cpp_orderbook.OrderBook.Modifying.{
  validate_modify_order, move_order, requeue_order, resize_order, apply_modify,
  modify_order_dispatcher, modify_registered, modify_order,
}

-- Unfolds all that a book computes with.
book_running : Unit {0}
unfolding running client_order default_order copy_from_client match cancel set_price set_quantity
    make_pool reserve emplace_back emplace_defaults allocate load store make_allocator
    default_allocator get_next_id_block SortedMap.find SortedMap.try_emplace SortedMap.put
    SortedMap.erase make_book_of remove_price_level_if_empty total_orders get_total_bid_orders
    get_total_ask_orders get_best_bid get_best_ask match_orders match_best match_loop try_match
    get_order_id add_order_dispatcher add_order cancel_order_dispatcher cancel_registered
    cancel_order validate_modify_order move_order requeue_order resize_order apply_modify
    modify_order_dispatcher modify_registered modify_order
book_running = tt

-- What a client asks of a book.
data Request : Type 0 where
  adds : OrderSide → ℕ → Quantity → Request
  modifies : OrderId → ℕ → Quantity → Request
  cancels : OrderId → Request

abbrev start : Surroundings
start = record {
  id_allocator = record { block_size = 1_000_000; global_counter = 1 };
  clock = record { reading = λ n. n; reads = 0 };
}

perform : Request → OrderBook × Surroundings → Outcome (OrderBook × Surroundings)
unfolding book_running
perform (adds s p q) (b, w) = do
  let (o, c) = client_order "SPY" s (price_of p) q w.clock
  (_, b', w') ← add_order o b (record w { clock = c })
  ok (b', w')
perform (modifies id p q) (b, w) = do
  (_, b', c) ← modify_order id (price_of p) q b w.clock
  ok (b', record w { clock = c })
perform (cancels id) (b, w) = do
  (_, b', c) ← cancel_order id b w.clock
  ok (b', record w { clock = c })

performs : List Request → OrderBook × Surroundings → Outcome (OrderBook × Surroundings)
performs [] s = ok s
performs (r ∷ rs) s = perform r s >>= performs rs

-- The best bid and ask, and the numbers of bids, asks and trades, after the requests.
report : List Request → Outcome (Price × Price × ℕ × ℕ × ℕ)
unfolding performs perform book_running
report rs = do
  (b, _) ← performs rs (make_book_of 8 "SPY" 4 start)
  ok (
    get_best_bid b,
    get_best_ask b,
    get_total_bid_orders b,
    get_total_ask_orders b,
    b.trades_completed,
  )

-- TEST(OrderBook, Basic)
basic :
    report (
      adds buy 100 300
      ∷ adds buy 103 200
      ∷ adds buy 102 100
      ∷ adds sell 105 3000
      ∷ adds sell 104 200
      ∷ adds sell 104 100
      ∷ [])
    ≡ ok (price_of 103, price_of 104, 3, 3, 0)
unfolding report
basic = refl

-- TEST(OrderBook, Match)
matching :
    report (
      adds buy 100 300
      ∷ adds sell 100 200
      ∷ adds buy 101 100
      ∷ adds sell 100 200
      ∷ adds buy 100 500
      ∷ adds sell 101 500
      ∷ [])
    ≡ ok (price_of 100, price_of 101, 1, 1, 3)
unfolding report
matching = refl

-- TEST(OrderBook, CancelOrder)
cancelling :
    report (
      adds buy 100 300
      ∷ adds buy 99 300
      ∷ adds buy 99 500
      ∷ adds buy 99 1000
      ∷ cancels 3
      ∷ cancels 1
      ∷ cancels 2
      ∷ [])
    ≡ ok (price_of 99, minus_one, 1, 0, 0)
unfolding report
cancelling = refl

-- TEST(OrderBook, ModifyOrder), with a sale of what the order of the second id offers.
modifying :
    report (
      adds buy 100 300
      ∷ modifies 1 99 300
      ∷ adds buy 99 300
      ∷ modifies 1 99 200
      ∷ modifies 1 99 300
      ∷ [])
    ≡ ok (price_of 99, minus_one, 2, 0, 0)
unfolding report
modifying = refl

-- A modified order that crosses the other side is not matched, nor are later orders at its price.
modified_crosses :
    report (adds buy 99 300 ∷ adds sell 101 300 ∷ modifies 1 102 300 ∷ adds buy 102 50 ∷ [])
    ≡ ok (price_of 102, price_of 101, 2, 1, 0)
unfolding report
modified_crosses = refl

-- An order alone at its price asks for more, another one joins it, and both are sold to.
stale_head :
    report (adds buy 99 200 ∷ modifies 1 99 300 ∷ adds buy 99 100 ∷ adds sell 99 350 ∷ [])
    ≡ undefined
unfolding report
stale_head = refl
