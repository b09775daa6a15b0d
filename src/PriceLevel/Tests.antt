-- ===== src/PriceLevel/Tests.antt =====
-- Price levels at concrete inputs.
use cpp_orderbook.Prelude.{ℕ, ◌+◌, ◌≡◌, refl, inr, [], ◌∷◌, true, false, ok, undefined, arith}
use cpp_orderbook.Core.{OrderId, price_of}
use cpp_orderbook.Order.{Order, buy, fresh, fully_filled}
use cpp_orderbook.OrderPool.{OrderPool, OrderPtr, load}
use cpp_orderbook.FlatMap.Listed.{listed, running_maps}
use cpp_orderbook.FlatMap
use cpp_orderbook.PriceLevel.{
  PriceLevel, entry, add_order, remove_order, front, pop_front_order_if_filled, running, total_qty,
}
use cpp_orderbook.PriceLevel.Valid.{queue, IsTracked, IsValid}
use cpp_orderbook.PriceLevel.Add.{Added, add_order-Added}
use cpp_orderbook.PriceLevel.Remove.{Removed, remove_order-Removed}
use cpp_orderbook.PriceLevel.Pop.{pop_filled}
use cpp_orderbook.PriceLevel.Requeue.{Stale, requeue_sole, Stale-pop_undefined}

abbrev slot : ℕ → OrderPtr
slot i = record { buffer = 0; index = i }

-- In the pool below the order in slot `i` has the id `i + 1`.
abbrev id_of : OrderPtr → OrderId
id_of p = p.index + 1

abbrev bid : OrderId → Order
bid id = record {
  instrument = "SPY";
  side = buy;
  price = price_of 99;
  quantity = 300;
  id = id;
  quantity_filled = 100;
  status = fresh;
  time_submitted = 0;
  updated_time = 0;
}

abbrev pool : OrderPool
pool = record {
  next_free_index = 3;
  orders = record { buffer = 0; capacity = 3; elements = bid 1 ∷ bid 2 ∷ bid 3 ∷ [] };
}

abbrev filled : Order
filled = record (bid 1) { quantity_filled = 300; status = fully_filled }

abbrev pool_filled : OrderPool
pool_filled = record pool { orders = record pool.orders { elements = filled ∷ bid 2 ∷ bid 3 ∷ [] } }

-- The first two orders, and a removed entry before them.
abbrev level : PriceLevel
level = record {
  price = price_of 99;
  order_entries =
      record { is_valid = false; order = slot 2 } ∷ entry (slot 0) ∷ entry (slot 1) ∷ [];
  queue_head_index = 1;
  orders_map = FlatMap.assign 2 2 (FlatMap.assign 1 1 FlatMap.new);
}

level-IsTracked : IsTracked id_of level
unfolding running_maps
level-IsTracked = record {
  indexed = record { same = λ k. refl; sized = refl };
  distinct = (refl, (refl, tt));
  skipped = (refl, tt);
}

level-IsValid : IsValid id_of level
level-IsValid = record { tracked = level-IsTracked; headed = inr (1, (2, 2) ∷ [], refl) }

-- One order.
abbrev sole : PriceLevel
sole = record {
  price = price_of 99;
  order_entries = entry (slot 0) ∷ [];
  queue_head_index = 0;
  orders_map = FlatMap.assign 1 0 FlatMap.new;
}

sole-IsValid : IsValid id_of sole
unfolding running_maps
sole-IsValid = record {
  tracked = record {
    indexed = record { same = λ k. refl; sized = refl };
    distinct = (refl, tt);
    skipped = tt;
  };
  headed = inr (1, [], refl);
}

-- The sole order removed and added again.
abbrev stale : PriceLevel
stale = record {
  price = price_of 99;
  order_entries = record { is_valid = false; order = slot 0 } ∷ entry (slot 0) ∷ [];
  queue_head_index = 0;
  orders_map = FlatMap.assign 1 1 FlatMap.new;
}

stale-Stale : Stale id_of (slot 0) stale
unfolding running_maps
stale-Stale = record {
  es = record { is_valid = false; order = slot 0 } ∷ [];
  e = record { is_valid = false; order = slot 0 };
  entries = refl;
  removed = refl;
  head_entry = refl;
  own = refl;
  map_only = record { same = λ k. refl; sized = refl };
  skipped = tt;
}

total_two : total_qty pool level ≡ ok 400
unfolding running
total_two = refl

add_order-Added_example : (l' : PriceLevel) × Added id_of pool (slot 2) level l'
unfolding load running_maps
add_order-Added_example =
    add_order-Added id_of pool (slot 2) (bid 3) level refl refl refl level-IsTracked

remove_order-Removed_example :
    (l' : PriceLevel) × (remove_order 1 level ≡ ok (true, l')) × Removed id_of 1 level l'
unfolding running_maps
remove_order-Removed_example = remove_order-Removed id_of level 1 level-IsTracked refl

pop_filled_example :
    (l' : PriceLevel) × (pop_front_order_if_filled pool_filled level ≡ ok l')
    × Removed id_of 1 level l'
    × (queue l' ≡ slot 1 ∷ [])
unfolding load running_maps
pop_filled_example =
    pop_filled id_of pool_filled level (slot 0) (slot 1 ∷ []) filled level-IsValid refl refl refl
      refl

requeue_sole_example :
    (l₁ l₂ : PriceLevel) × (remove_order 1 sole ≡ ok (true, l₁))
    × (add_order pool (slot 0) l₁ ≡ ok l₂)
    × Stale id_of (slot 0) l₂
unfolding load running_maps
requeue_sole_example = requeue_sole id_of pool sole (slot 0) (bid 1) sole-IsValid refl refl refl

Stale-pop_undefined_example :
    (l₁ l₂ : PriceLevel) × (add_order pool (slot 1) stale ≡ ok l₁)
    × (pop_front_order_if_filled pool_filled l₁ ≡ ok l₂)
    × (front l₂ ≡ ok (slot 0))
    × (pop_front_order_if_filled pool_filled l₂ ≡ undefined)
unfolding load running_maps
Stale-pop_undefined_example =
    Stale-pop_undefined id_of pool pool_filled stale (slot 0) (slot 1) filled (bid 2) stale-Stale
      refl (omega arith) refl refl refl
