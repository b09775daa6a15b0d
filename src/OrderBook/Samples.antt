-- ===== src/OrderBook/Samples.antt =====
-- What is proved of books of include/orderbook.h, at books with a bid and an offer.
use cpp_orderbook.Prelude.{inl, suc, ◌≡◌, refl, inr, [], Bool, true, false, ok, arith}
use cpp_orderbook.Prelude.{◌≤◌}
use cpp_orderbook.Clock.{Clock, now}
use cpp_orderbook.Core.{OrderId, price_of}
use cpp_orderbook.Order.{sell}
use cpp_orderbook.OrderPool.{peek, poke}
use cpp_orderbook.FlatMap.Listed.{listed, running_maps}
use cpp_orderbook.OrderBook.Book.{OrderBook, Surroundings}
use cpp_orderbook.OrderBook.Matching.{match_orders, match_best, try_match}
use cpp_orderbook.OrderBook.Adding.{add_order}
use cpp_orderbook.OrderBook.Cancelling.{cancel_order}
use cpp_orderbook.OrderBook.Modifying.{modify_order}
use cpp_orderbook.OrderBook.Trade.{traded_pool, match_orders_lem}
use cpp_orderbook.OrderBook.Round.{Rounded, match_best-Rounded}
use cpp_orderbook.OrderBook.Accepting.{Consistent, Accepted, add_order-Accepted}
use cpp_orderbook.OrderBook.Loop.{orders_in, IsUncrossed, Matched, try_match_lem}
use cpp_orderbook.OrderBook.SampleBooks.{
  start, bid_order, ask_order, resting_order, slot, crossed_pool, sole_level, crossed_book,
  crossed_book-BookOk, roomy_pool, bid_book, later, bid_book-Consistent,
}
use cpp_orderbook.OrderBook.Withdrawing.{cancelled_at}
use cpp_orderbook.OrderBook.Refusing.{modify_order_refuses}
use cpp_orderbook.OrderBook.Revising.{modify_order_shrinks}
use cpp_orderbook.OrderBook.Cancelled.{
  SameRoom, cancel_order_total, cancel_order-Consistent, cancel_order_refuses,
}

match_orders_lem_example :
    match_orders (slot 0) (slot 1) crossed_pool start.clock
    ≡ ok (
      traded_pool crossed_pool (slot 0) (slot 1) bid_order ask_order start.clock,
      (now (now start.clock).1).1,
    )
unfolding peek
match_orders_lem_example =
    match_orders_lem crossed_pool (slot 0) (slot 1) bid_order ask_order start.clock refl refl
      (λ e. cc) (record { bounded = omega arith; within = omega arith })
      (record { bounded = omega arith; within = omega arith })

match_best-Rounded_example :
    (b' : OrderBook) × (c' : Clock) × (match_best
        (price_of 101, sole_level 101 1 (slot 0))
        (price_of 100, sole_level 100 2 (slot 1))
        crossed_book
        start.clock
      ≡ ok (b', c'))
    × Rounded crossed_book b'
match_best-Rounded_example =
    match_best-Rounded crossed_book (price_of 101, sole_level 101 1 (slot 0))
      (price_of 100, sole_level 100 2 (slot 1)) [] [] start.clock crossed_book-BookOk refl refl

try_match_lem_example :
    (r : Bool × OrderBook × Clock) × (try_match crossed_book start.clock ≡ ok r)
    × Matched crossed_book false r
try_match_lem_example = try_match_lem crossed_book start.clock crossed_book-BookOk refl

add_order-Accepted_example :
    (id : OrderId) × (b' : OrderBook) × (w' : Surroundings) × (add_order
        (resting_order sell 100 200 0)
        bid_book
        later
      ≡ ok (id, b', w'))
    × Consistent b' w'
    × IsUncrossed b'
    × Accepted bid_book later id b' w'
add_order-Accepted_example =
    add_order-Accepted (resting_order sell 100 200 0) bid_book later bid_book-Consistent tt
      (record { room = omega arith; fits = omega arith })
      (record { some_ids = omega arith; no_wrap = omega arith }) (omega arith)

cancel_order-Consistent_example :
    (b' : OrderBook) × (cancel_order 1 bid_book later.clock ≡ ok (true, b', (now later.clock).1))
    × Consistent b' (record later { clock = (now later.clock).1 })
    × IsUncrossed b'
    × (b'.order_pool ≡ poke roomy_pool (slot 0) (cancelled_at bid_order later.clock))
    × (orders_in bid_book ≡ suc (orders_in b'))
    × (b'.order_registry ≡ bid_book.order_registry)
    × (cancel_order 1 b' (now later.clock).1 ≡ ok (false, b', (now later.clock).1))
unfolding running_maps peek
cancel_order-Consistent_example =
    cancel_order-Consistent 1 (slot 0) bid_order bid_book later bid_book-Consistent tt refl refl
      refl

cancel_order_refuses_example :
    cancel_order 7 bid_book later.clock ≡ ok (false, bid_book, later.clock)
unfolding running_maps
cancel_order_refuses_example = cancel_order_refuses 7 bid_book later.clock (inl refl)

modify_order_refuses_example :
    modify_order 1 (price_of 101) 0 bid_book later.clock ≡ ok (false, bid_book, later.clock)
unfolding running_maps peek
modify_order_refuses_example =
    modify_order_refuses 1 (price_of 101) 0 bid_book later.clock
      (inr (slot 0, bid_order, refl, refl, inr (inr (omega arith))))

abbrev smaller_book : OrderBook
smaller_book = record bid_book {
  order_pool = poke roomy_pool (slot 0) (record bid_order { quantity = 120 });
}

modify_order_shrinks_example :
    (modify_order 1 (price_of 101) 120 bid_book later.clock ≡ ok (true, smaller_book, later.clock))
    × Consistent smaller_book later
unfolding running_maps peek
modify_order_shrinks_example =
    modify_order_shrinks 1 (slot 0) bid_order bid_book later 120 bid_book-Consistent refl refl refl
      refl (omega arith) (omega arith)

cancel_order_total_example :
    (success : Bool) × (b' : OrderBook) × (c' : Clock) × (cancel_order 9 bid_book later.clock
      ≡ ok (success, b', c'))
    × Consistent b' (record later { clock = c' })
    × IsUncrossed b'
    × (orders_in b' ≤ orders_in bid_book)
    × (b'.order_registry ≡ bid_book.order_registry)
    × SameRoom bid_book b'
cancel_order_total_example = cancel_order_total 9 bid_book later bid_book-Consistent tt
