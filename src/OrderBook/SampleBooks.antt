-- ===== src/OrderBook/SampleBooks.antt =====
-- Books of include/orderbook.h with a bid and an offer, and that they are in order.
use cpp_orderbook.Prelude.{
  none, inl, Bool-cases, ◌==◌, ◌<◌, if◌then◌else◌, ℕ, zero, suc, ◌≤◌, get_elem?, some, ◌≡◌, refl,
  inr, [], ◌∷◌, true, false, arith,
}
use cpp_orderbook.Core.{Quantity, OrderId, price_of}
use cpp_orderbook.Order.{Order, fresh, OrderSide, buy, sell}
use cpp_orderbook.OrderPool.{OrderPool, OrderPtr, peek}
use cpp_orderbook.FlatMap
use cpp_orderbook.FlatMap.Listed.{listed, running_maps}
use cpp_orderbook.PriceLevel.{PriceLevel, entry}
use cpp_orderbook.OrderBook.Book.{OrderBook, Surroundings}
use cpp_orderbook.OrderBook.Resting.{id_or_zero, LevelOk}
use cpp_orderbook.Prelude.{ap, sym, subst}
use cpp_orderbook.OrderBook.Registered.{Placed}
use cpp_orderbook.OrderBook.Round.{BookOk}
use cpp_orderbook.OrderBook.Kept.{PoolOk}
use cpp_orderbook.OrderBook.Accepting.{Consistent}

abbrev pub start : Surroundings
start = record {
  id_allocator = record { block_size = 1_000_000; global_counter = 1 };
  clock = record { reading = λ n. n; reads = 0 };
}

-- A bid for 300 at 101 in slot 0 and an offer of 200 at 100 in slot 1.
abbrev pub resting_order : OrderSide → ℕ → Quantity → OrderId → Order
resting_order s p q id = record {
  instrument = "SPY";
  side = s;
  price = price_of p;
  quantity = q;
  id = id;
  quantity_filled = 0;
  status = fresh;
  time_submitted = 0;
  updated_time = 0;
}

abbrev pub bid_order : Order
bid_order = resting_order buy 101 300 1

abbrev pub ask_order : Order
ask_order = resting_order sell 100 200 2

abbrev pub slot : ℕ → OrderPtr
slot i = record { buffer = 0; index = i }

abbrev pub crossed_pool : OrderPool
crossed_pool = record {
  next_free_index = 2;
  orders = record { buffer = 0; capacity = 2; elements = bid_order ∷ ask_order ∷ [] };
}

abbrev pub sole_level : ℕ → OrderId → OrderPtr → PriceLevel
sole_level p id ptr = record {
  price = price_of p;
  order_entries = entry ptr ∷ [];
  queue_head_index = 0;
  orders_map = FlatMap.assign id 0 FlatMap.new;
}

abbrev pub crossed_book : OrderBook
crossed_book = record {
  instrument = "SPY";
  bids = (price_of 101, sole_level 101 1 (slot 0)) ∷ [];
  asks = (price_of 100, sole_level 100 2 (slot 1)) ∷ [];
  order_registry = FlatMap.assign 2 (slot 1) (FlatMap.assign 1 (slot 0) FlatMap.new);
  order_pool = crossed_pool;
  order_id_block = record { start = 1; end = 1_000_001 };
  next_available_order_id = 3;
  trades_completed = 0;
  space_reserve_price_level = 4;
  try_match_flag = true;
}

pub bid_level-LevelOk : LevelOk crossed_pool buy (price_of 101) (sole_level 101 1 (slot 0))
unfolding running_maps peek
bid_level-LevelOk = record {
  valid = record {
    tracked = record {
      indexed = record { same = λ k. refl; sized = refl };
      distinct = (refl, tt);
      skipped = tt;
    };
    headed = inr (1, [], refl);
  };
  some_order = λ e. cc;
  resting = (
    record {
      order = bid_order;
      there = refl;
      in_use = omega arith;
      side_is = refl;
      price_is = refl;
      open_still = refl;
      fillable = record { bounded = omega arith; within = omega arith };
    },
    tt,
  );
}

pub ask_level-LevelOk : LevelOk crossed_pool sell (price_of 100) (sole_level 100 2 (slot 1))
unfolding running_maps peek
ask_level-LevelOk = record {
  valid = record {
    tracked = record {
      indexed = record { same = λ k. refl; sized = refl };
      distinct = (refl, tt);
      skipped = tt;
    };
    headed = inr (2, [], refl);
  };
  some_order = λ e. cc;
  resting = (
    record {
      order = ask_order;
      there = refl;
      in_use = omega arith;
      side_is = refl;
      price_is = refl;
      open_still = refl;
      fillable = record { bounded = omega arith; within = omega arith };
    },
    tt,
  );
}

pub crossed_book-BookOk : BookOk crossed_book
crossed_book-BookOk = record {
  bids_ok = record { ordered = (tt, tt); levels = (bid_level-LevelOk, tt) };
  asks_ok = record { ordered = (tt, tt); levels = (ask_level-LevelOk, tt) };
}

-- The bid alone, with a slot to spare, and an offer that a client makes.
abbrev pub spare : Order
spare = record {
  instrument = "";
  side = buy;
  price = price_of 0;
  quantity = 0;
  id = 0;
  quantity_filled = 0;
  status = fresh;
  time_submitted = 0;
  updated_time = 0;
}

abbrev pub roomy_pool : OrderPool
roomy_pool = record {
  next_free_index = 1;
  orders = record { buffer = 0; capacity = 2; elements = bid_order ∷ spare ∷ [] };
}

abbrev pub bid_book : OrderBook
bid_book = record crossed_book {
  asks = [];
  order_registry = FlatMap.assign 1 (slot 0) FlatMap.new;
  order_pool = roomy_pool;
  next_available_order_id = 2;
  try_match_flag = false;
}

abbrev pub later : Surroundings
later = record {
  id_allocator = record { block_size = 1_000_000; global_counter = 1_000_001 };
  clock = record { reading = λ n. n; reads = 0 };
}

pub spare_free :
    (i : ℕ) (o : Order)
    → 1 ≤ i
    → get_elem? (bid_order ∷ spare ∷ []) i ≡ some o
    → (o.status ≡ fresh) × (o.quantity_filled ≡ 0)
spare_free zero o h e = absurd (omega arith)
spare_free (suc zero) o h e = (ground arith, ground arith)
spare_free (suc (suc i)) o h e = absurd (cc)

pub handed_low :
    (b i : ℕ)
    → i < 1
    → id_or_zero (if b == 0 then get_elem? (bid_order ∷ spare ∷ []) i else none) < 2
handed_low b zero h = elim (Bool-cases (b == 0)) [
  | inl here ↦ rw here (omega arith)
  | inr elsewhere ↦ rw elsewhere (omega arith)
]
handed_low b (suc i) h = absurd (omega arith)

pub roomy_pool-PoolOk : PoolOk 2 roomy_pool
unfolding peek
roomy_pool-PoolOk = record {
  free = λ q o h e. elim (Bool-cases (q.buffer == 0)) [
    | inl here ↦ spare_free q.index o h (rw here at e)
    | inr elsewhere ↦ absurd (cc (rw elsewhere at e))
  ];
  drawn = λ q h. handed_low q.buffer q.index h;
}

pub roomy_level-LevelOk : LevelOk roomy_pool buy (price_of 101) (sole_level 101 1 (slot 0))
unfolding running_maps peek
roomy_level-LevelOk = record {
  valid = record {
    tracked = record {
      indexed = record { same = λ k. refl; sized = refl };
      distinct = (refl, tt);
      skipped = tt;
    };
    headed = inr (1, [], refl);
  };
  some_order = λ e. cc;
  resting = (
    record {
      order = bid_order;
      there = refl;
      in_use = omega arith;
      side_is = refl;
      price_is = refl;
      open_still = refl;
      fillable = record { bounded = omega arith; within = omega arith };
    },
    tt,
  );
}

bid_registered :
    (id : OrderId) (ptr : OrderPtr)
    → FlatMap.find id bid_book.order_registry ≡ some ptr
    → (id ≡ 1) × (ptr ≡ slot 0)
unfolding running_maps
bid_registered id ptr found = elim (Bool-cases (1 == id)) [
  | inl e ↦ (ground arith, cc (rw e at found))
  | inr e ↦ absurd (cc (rw e at found))
]

bid_in_use :
    (id : OrderId) (ptr : OrderPtr)
    → FlatMap.find id bid_book.order_registry ≡ some ptr
    → ptr.index < 1
bid_in_use id ptr found =
    omega (arith, ap (λ (p : OrderPtr). p.index) (bid_registered id ptr found).1)

bid-Placed :
    (id : OrderId) (ptr : OrderPtr)
    → FlatMap.find id bid_book.order_registry ≡ some ptr
    → Placed bid_book id ptr
unfolding peek
bid-Placed id ptr found =
    let (own, at) = bid_registered id ptr found in
    subst (λ i. Placed bid_book i ptr) (sym own)
      (subst (Placed bid_book 1) (sym at)
        (record { order = bid_order; there = refl; owner = refl; placed = inr (inl refl) }))

pub bid_book-Consistent : Consistent bid_book later
bid_book-Consistent = record {
  book_ok = record {
    bids_ok = record { ordered = (tt, tt); levels = (roomy_level-LevelOk, tt) };
    asks_ok = record { ordered = tt; levels = tt };
  };
  pool_ok = roomy_pool-PoolOk;
  ids_ok = record { within = omega arith; below = omega arith };
  registry_ok = record { in_use = bid_in_use; entries = bid-Placed };
}
