-- ===== src/OrderBook/Book.antt =====
-- include/orderbook.h: the state of an `OrderBook`, its constructor, and what it reports.
-- A side of the book stands for the map that the source's templates are given.
use Prim.Native.String.{String}
use cpp_orderbook.Prelude.{ℕ, ◌+◌, [], ◌∷◌, Bool, false, if◌then◌else◌, Outcome, ok, defined, ◌>>=◌}
use cpp_orderbook.Core.{OrderId, Price, minus_one, space_reserve}
use cpp_orderbook.Clock.{Clock}
use cpp_orderbook.Order.{OrderSide, buy, sell}
use cpp_orderbook.OrderPool.{OrderPtr, OrderPool, make_pool}
use cpp_orderbook.IdAllocator.{OrderIdBlock, IdAllocator, get_next_id_block}
use cpp_orderbook.FlatMap
use cpp_orderbook.FlatMap.{FlatMaps, FlatMap}
use cpp_orderbook.SortedMap
use cpp_orderbook.SortedMap.{SortedMap, Compare, less, greater, begin}
use cpp_orderbook.PriceLevel
use cpp_orderbook.PriceLevel.{PriceLevel, make_level}

-- What a book shares with its surroundings.
pub record Surroundings : Type 0 where
  pub id_allocator : IdAllocator
  pub clock : Clock

-- The comparison of a side.
abbrev pub compare_of : OrderSide → Compare
compare_of buy = greater
compare_of sell = less

module _ ⦃F : FlatMaps⦄ where
  pub record OrderBook : Type 0 where
    pub instrument : String
    pub bids : SortedMap PriceLevel
    pub asks : SortedMap PriceLevel
    pub order_registry : FlatMap OrderPtr
    pub order_pool : OrderPool
    pub order_id_block : OrderIdBlock
    pub next_available_order_id : OrderId
    pub trades_completed : ℕ
    pub space_reserve_price_level : ℕ
    pub try_match_flag : Bool

  -- `OrderBook(instrument, id_allocator, space)`, over a pool of `pool_size` orders; the source has
  -- `SPACE_RESERVE` for it.
  unfoldable pub make_book_of : ℕ → String → ℕ → Surroundings → OrderBook × Surroundings
  make_book_of pool_size instrument space w =
      let (block, allocator) = get_next_id_block w.id_allocator in
      let (pool, clock) = make_pool pool_size w.clock in
      (
        record {
          instrument = instrument;
          bids = [];
          asks = [];
          order_registry = FlatMap.new;
          order_pool = pool;
          order_id_block = block;
          next_available_order_id = block.start;
          trades_completed = 0;
          space_reserve_price_level = space;
          try_match_flag = false;
        },
        record { id_allocator = allocator; clock = clock },
      )

  unfoldable pub make_book : String → ℕ → Surroundings → OrderBook × Surroundings
  make_book = make_book_of space_reserve

  -- The side that a `switch` on `get_side()` picks: its levels, and the book with other levels on
  -- that side.
  abbrev pub levels_of : OrderSide → OrderBook → SortedMap PriceLevel
  levels_of buy b = b.bids
  levels_of sell b = b.asks

  abbrev pub with_levels : OrderSide → SortedMap PriceLevel → OrderBook → OrderBook
  with_levels buy m b = record b { bids = m }
  with_levels sell m b = record b { asks = m }

  -- At the level that an iterator of side `s` points to.
  unfoldable pub remove_price_level_if_empty : OrderSide → Price → OrderBook → Outcome OrderBook
  remove_price_level_if_empty s p b = do
    level ← defined (SortedMap.find (compare_of s) p (levels_of s b))
    ok (
        if PriceLevel.empty level
        then with_levels s (SortedMap.erase (compare_of s) p (levels_of s b)) b
        else b)

  -- `get_total_bid_orders` and `get_total_ask_orders`, over the levels of a side.
  unfoldable pub total_orders : SortedMap PriceLevel → ℕ
  total_orders [] = 0
  total_orders ((p, l) ∷ m) = PriceLevel.size l + total_orders m

  unfoldable pub get_total_bid_orders : OrderBook → ℕ
  get_total_bid_orders b = total_orders b.bids

  unfoldable pub get_total_ask_orders : OrderBook → ℕ
  get_total_ask_orders b = total_orders b.asks

  -- `get_best_bid` and `get_best_ask`, of a side: -1.0 where it is empty.
  abbrev pub best_price : SortedMap PriceLevel → Price
  best_price [] = minus_one
  best_price ((p, _) ∷ _) = p

  unfoldable pub get_best_bid : OrderBook → Price
  get_best_bid b = best_price b.bids

  unfoldable pub get_best_ask : OrderBook → Price
  get_best_ask b = best_price b.asks
