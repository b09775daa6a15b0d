-- ===== src/Lib.antt =====
-- A model of the order book engine, with the theorems that make its parts correct.
--
-- A client's commands go through a producer into the lock-free queue of one worker, which hands
-- them to the book of their instrument; a book keeps its orders in a pool, in a map of price levels
-- for each side, and in a registry by order id, and matches bids with asks.
--
--   include/core.h            Core
--   include/order.h           Order; Order/Fill proves `match`, Order/Lifecycle `cancel`;
--                             Order/Printing is the insertion into streams
--   include/order_pool.h      OrderPool; Slots proves reads, writes and `allocate`, Realloc growth
--   include/id_allocator.h    IdAllocator; Blocks proves that blocks of ids do not overlap
--   include/price_level_v2.h  PriceLevel; Valid has its invariant, Index the map of indices; Add,
--                             Remove and Pop prove the operations, Requeue a flaw; Printing is the
--                             insertion into streams
--   include/price_level.h     FirstPriceLevel, on which nothing else depends; Nodes is about the list
--                             and its iterators, Same compares it with PriceLevel, Printing its
--                             output, Stale is a flaw
--   include/orderbook.h       OrderBook/Book (state, constructor, reports), Matching (`try_match`),
--                             Adding (`add_order`), Cancelling, Modifying. Resting has the
--                             invariant of the sides, Priority the order in which their orders
--                             trade, Registered that of the registry; Trade, Side, Exchanging, Round
--                             and Loop prove one trade, what it leaves of a side and of the two
--                             orders, a round of the loop, and the loop; Opening proves the constructor; Kept, Entering, NewSlot,
--                             Drawing, Taking, Uncrossed, Settling and Recording are the steps of
--                             `add_order`, which Accepting puts together; Leaving, Pruning,
--                             Standing, Withdrawing and Amending those of `cancel_order`, which
--                             Cancelled puts together; Refusing and Revising are about
--                             `modify_order`; Printing is `operator<<`, Columns and Printed prove
--                             how wide its lines are
--   include/spsc_queue.h      SpscQueue; Steps takes the methods apart into loads and stores, Ring
--                             and Inv have the invariant, Fifo and Calls what it gives, and Filled
--                             follows a queue that is filled and then emptied
--   include/order_routing_system.h  Routing: contexts of workers, and the router, whose hash map is
--                             the parameter RouterMap; Assigned proves the loop that deals out the
--                             instruments, Reached that each gets to a worker with its book
--   include/worker.h          Worker; Books proves what the constructor takes over, Run the loop,
--                             Accepting, Serving and Total that it gets through commands that add
--                             and cancel, Polling the loop over the queue itself
--   include/producer.h        Producer; Submitted follows a command to its worker, Shutdown proves
--                             that `submit_all_shutdown_commands` ends
--   src/bench_insert_s.cpp, src/bench_match20_s.cpp  Bench: the programs on one thread; Named is
--                             about the instruments, Submitting and Building about the only queue
--                             and the books, Whole about what both do; Inserting and Trading are
--                             about each, the latter up to the worker
--   std::ostream, std::to_string  Texts: texts as lists of codes, and how numbers, prices and times
--                             are written, of which nothing is assumed
--   std::map                  SortedMap, a list of pairs in the order of the comparison; Split cuts
--                             it at a key
--   boost::unordered_flat_map FlatMap: a parameter, the record FlatMaps of its operations and of what
--                             its documentation says of them, and the std::unordered_map of
--                             include/price_level.h alike; Holds relates it to the list of pairs
--                             (Pairs) that it holds, Listed has an instance on which to run
--   std::chrono clocks        Clock, a stream of readings of which nothing is assumed
--   Prelude                   shared names, lists, words of 64 bits, integers, outcomes
--
-- Objects are records and methods return the new object. A call comes to an `Outcome`: a result, a
-- thrown error, undefined behaviour, or `unfinished`, where the fuel of a loop ran out. Order
-- pointers go through the pool, so that two of them may name one order; a pointer into a buffer
-- that the pool has left is dangling, and its use undefined. Quantities, ids and the counters are
-- 64-bit words that wrap; sizes of containers are plain numbers, since a container in memory has
-- fewer than 2^64 elements. A price is a finite double, as the whole multiple of 2^-1074 that it is.
-- The loop of `try_match` has one round of fuel more than there are orders in the book; every round
-- takes at least one order out.
--
-- `submit_all_shutdown_commands` waits for the workers: what they have done to a queue when it is
-- tried is a parameter, and its fuel counts the rounds.
--
-- The loop of `run` goes over the commands in the order in which the queue gives them, or over the
-- queue itself on fuel, one round for each command. The programs of src/ share their fuel between
-- the rounds of the shutdown and of the worker.
--
-- Not modelled: timing (`print_time`) and the worker's closing report, the programs on several threads
-- and those of benchmark/, moves of objects (which copy here, as nothing reads a moved-from value),
-- alignment, and NaN and infinite prices.
pub mod Prelude
pub mod Core
pub mod Texts
pub mod Clock
pub mod Order
pub mod OrderPool
pub mod IdAllocator
pub mod Pairs
pub mod FlatMap
pub mod PriceLevel
pub mod FirstPriceLevel
pub mod SortedMap
pub mod OrderBook
pub mod SpscQueue
pub mod Routing
pub mod Worker
pub mod Producer
pub mod Bench
