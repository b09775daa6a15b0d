-- ===== src/Worker/Tests.antt =====
-- Workers at concrete inputs.
use Prim.Native.String.{String}
use cpp_orderbook.Core.{OrderId}
use cpp_orderbook.Prelude.{some, ◌≢◌, ◌≡◌, refl, [], ◌∷◌, true, false, ok, arith}
use cpp_orderbook.Core.{price_of}
use cpp_orderbook.Order.{OrderCommand, CommandType, buy, fresh, add, cancels, shutdown}
use cpp_orderbook.FlatMap
use cpp_orderbook.FlatMap.Listed.{listed, running_maps}
use cpp_orderbook.OrderBook.Book.{OrderBook, Surroundings}
use cpp_orderbook.OrderBook.Cancelling.{cancel_order}
use cpp_orderbook.Worker.{
  BookMap, find_book, emplace_book, put_book, take_books, process_at, process_command, run,
  run_queue,
}
use cpp_orderbook.Prelude.{List, Bool, length}
use cpp_orderbook.Order.{sell}
use cpp_orderbook.IdAllocator.{get_next_id_block}
use cpp_orderbook.OrderBook.Book.{make_book_of}
use cpp_orderbook.OrderBook.Loop.{IsUncrossed}
use cpp_orderbook.OrderBook.Accepting.{Consistent, Accepted}
use cpp_orderbook.OrderBook.Opening.{make_book_of-Consistent}
use cpp_orderbook.Worker.Serving.{Ready, HasBlocks}
use cpp_orderbook.Worker.Total.{AllBooks, AllReady, commands_for, has_shutdown, run_total}
use cpp_orderbook.SpscQueue.{SpscQueue, pop}
use cpp_orderbook.Worker.Polling.{run_queue_lem}
use cpp_orderbook.Worker.Run.{run-append_shutdown}
use cpp_orderbook.Worker.Accepting.{process_command-Accepted}

abbrev start : Surroundings
start = record {
  id_allocator = record { block_size = 1_000_000; global_counter = 1 };
  clock = record { reading = λ n. n; reads = 0 };
}

-- An empty book.
abbrev spy_book : OrderBook
spy_book = record {
  instrument = "SPY";
  bids = [];
  asks = [];
  order_registry = FlatMap.new;
  order_pool = record {
    next_free_index = 0;
    orders = record { buffer = 0; capacity = 0; elements = [] };
  };
  order_id_block = record { start = 1; end = 1_000_001 };
  next_available_order_id = 1;
  trades_completed = 0;
  space_reserve_price_level = 4;
  try_match_flag = false;
}

abbrev qqq_book : OrderBook
qqq_book = record spy_book { instrument = "QQQ" }

abbrev books : BookMap
books = ("SPY", spy_book) ∷ ("QQQ", qqq_book) ∷ []

abbrev command : CommandType → OrderCommand
command t = record {
  type = t;
  order = record {
    instrument = "SPY";
    side = buy;
    price = price_of 99;
    quantity = 300;
    id = 7;
    quantity_filled = 0;
    status = fresh;
    time_submitted = 0;
    updated_time = 0;
  };
}

takes_first :
    take_books (spy_book ∷ record spy_book { trades_completed = 1 } ∷ []) []
    ≡ ("SPY", spy_book) ∷ []
unfolding take_books emplace_book find_book
takes_first = refl

-- An unknown id is no failure of the worker.
unknown_id : process_command (command cancels) books start ≡ ok (true, books, start)
unfolding process_command process_at put_book find_book cancel_order running_maps
unknown_id = refl

run-append_shutdown_example :
    run (command cancels ∷ command shutdown ∷ command add ∷ []) books start
    ≡ run (command cancels ∷ command shutdown ∷ []) books start
run-append_shutdown_example =
    run-append_shutdown (command cancels ∷ []) (command add ∷ []) (command shutdown) books start
      refl

-- A book just made, with four slots.
abbrev made : OrderBook × Surroundings
made = make_book_of 4 "SPY" 4 start

made-Ready : Ready 3 made.1 made.0
made-Ready =
    let (consistent, uncrossed, unused, slots) =
      make_book_of-Consistent 4 "SPY" 4 start
        (record { some_ids = omega arith; no_wrap = omega arith }) in
    record {
      consistent = consistent;
      uncrossed = uncrossed;
      slots = omega (arith, unused, slots);
      fits = omega (arith, slots);
    }

made-HasBlocks : HasBlocks 3 made.1
unfolding make_book_of get_next_id_block
made-HasBlocks = record { some_ids = omega arith; no_wrap = omega arith }

-- A bid, an offer that crosses it, and a cancellation.
abbrev session : List OrderCommand
session =
    command add
    ∷ record { type = add; order = record (command add).order { side = sell; quantity = 100 } }
    ∷ record { type = cancels; order = record (command add).order { id = 1 } }
    ∷ []

-- That book beside one of another instrument, and a bid that it accepts.
abbrev two_books : BookMap
two_books = ("QQQ", qqq_book) ∷ ("SPY", made.0) ∷ []

process_command-Accepted_example :
    (id : OrderId) × (b' : OrderBook) × (m' : BookMap) × (w' : Surroundings) × (process_command
        (command add)
        two_books
        made.1
      ≡ ok (true, m', w'))
    × (find_book "SPY" m' ≡ some b')
    × Consistent b' w'
    × IsUncrossed b'
    × Accepted made.0 made.1 id b' w'
    × ((k : String) → "SPY" ≢ k → find_book k m' ≡ find_book k two_books)
unfolding find_book
process_command-Accepted_example =
    process_command-Accepted (command add) made.0 two_books made.1 refl (omega arith) refl
      made-Ready.consistent made-Ready.uncrossed
      (record { room = omega (arith, made-Ready.slots); fits = made-Ready.fits })
      (record {
        some_ids = made-HasBlocks.some_ids;
        no_wrap = omega (arith, made-HasBlocks.no_wrap);
      })

run_total_example :
    (ended : Bool) × (m' : BookMap) × (w' : Surroundings) × (run session
        (("SPY", made.0) ∷ [])
        made.1
      ≡ ok (ended, m', w'))
    × (ended ≡ has_shutdown session)
    × AllBooks (λ k b. Consistent b w' × IsUncrossed b) m'
unfolding AllReady commands_for
run_total_example =
    run_total session (("SPY", made.0) ∷ []) made.1 (omega arith, (omega arith, (tt, tt)))
      (made-Ready, tt) made-HasBlocks

make_book_of-Consistent_example :
    Consistent made.0 made.1
    × IsUncrossed made.0
    × (made.0.order_pool.next_free_index ≡ 0)
    × (length made.0.order_pool.orders.elements ≡ 4)
make_book_of-Consistent_example =
    make_book_of-Consistent 4 "SPY" 4 start
      (record { some_ids = omega arith; no_wrap = omega arith })

-- A queue of three slots with a cancellation and a shutdown.
abbrev polled : SpscQueue OrderCommand
polled = record {
  buffer = command cancels ∷ command shutdown ∷ command add ∷ [];
  head = 2;
  tail = 0;
}

run_queue_lem_example :
    (q' : SpscQueue OrderCommand) × (run_queue 2 polled books start ≡ ok (q', books, start))
unfolding pop run process_command process_at put_book find_book cancel_order running_maps
run_queue_lem_example =
    run_queue_lem 2 (command cancels ∷ command shutdown ∷ []) polled books books start start
      (record polled { tail = 1 }, refl, (record polled { tail = 2 }, refl, tt)) (omega arith) refl
