-- ===== src/FirstPriceLevel/Tests.antt =====
-- First price levels at concrete inputs, and beside them second ones.
use cpp_orderbook.Prelude.{
  ℕ, ◌+◌, ◌≡◌, refl, inr, [], ◌∷◌, true, ok, undefined, arith, ◌>>=◌, Outcome,
}
use cpp_orderbook.Core.{OrderId, Quantity, price_of}
use cpp_orderbook.Order.{Order, buy, fresh, fully_filled}
use cpp_orderbook.OrderPool.{OrderPool, OrderPtr, load}
use cpp_orderbook.FlatMap
use cpp_orderbook.FlatMap.Listed.{listed, running_maps}
use cpp_orderbook.PriceLevel
use cpp_orderbook.PriceLevel.{PriceLevel, entry}
use cpp_orderbook.PriceLevel.Valid.{queue, IsTracked, IsValid}
use cpp_orderbook.FirstPriceLevel
use cpp_orderbook.FirstPriceLevel.{Node, FirstPriceLevel, make_level, running}
use cpp_orderbook.FirstPriceLevel.Same.{
  IsLinked, SameQueue, add_order-SameQueue, remove_order-SameQueue,
  pop_front_order_if_filled-SameQueue,
}
use cpp_orderbook.Texts.{Formats, codes}
use cpp_orderbook.PriceLevel.Printing.{print_level}
use cpp_orderbook.FirstPriceLevel.Printing.{print_first_level, print-SameQueue}
use cpp_orderbook.FirstPriceLevel.Stale.{pop_remove_undefined}

abbrev slot : ℕ → OrderPtr
slot i = record { buffer = 0; index = i }

-- In the pool below the order in slot `i` has the id `i + 1`.
abbrev id_of : OrderPtr → OrderId
id_of p = p.index + 1

abbrev bid : OrderId → Order
bid id = record {
  instrument = "SPY";
  side = buy;
  price = price_of 99;
  quantity = 300;
  id = id;
  quantity_filled = 100;
  status = fresh;
  time_submitted = 0;
  updated_time = 0;
}

abbrev filled : Order
filled = record (bid 1) { quantity_filled = 300; status = fully_filled }

abbrev pool : OrderPool
pool = record {
  next_free_index = 3;
  orders = record { buffer = 0; capacity = 3; elements = filled ∷ bid 2 ∷ bid 3 ∷ [] };
}

abbrev node : ℕ → Node
node i = record { number = i; order = slot i }

abbrev first_level : FirstPriceLevel
first_level = record {
  price = price_of 99;
  orders_list = node 0 ∷ node 1 ∷ [];
  next_node = 2;
  orders_map = FlatMap.assign 2 1 (FlatMap.assign 1 0 FlatMap.new);
}

abbrev second_level : PriceLevel
second_level = record {
  price = price_of 99;
  order_entries = entry (slot 0) ∷ entry (slot 1) ∷ [];
  queue_head_index = 0;
  orders_map = FlatMap.assign 2 1 (FlatMap.assign 1 0 FlatMap.new);
}

-- Three orders are added, the second is removed, and the first, which is filled, is popped.
abbrev day : Outcome (ℕ × Quantity)
day = do
  l₁ ← FirstPriceLevel.add_order pool (slot 0) (make_level (price_of 99))
  l₂ ← FirstPriceLevel.add_order pool (slot 1) l₁
  l₃ ← FirstPriceLevel.add_order pool (slot 2) l₂
  (_, l₄) ← FirstPriceLevel.remove_order 2 l₃
  l₅ ← FirstPriceLevel.pop_front_order_if_filled pool l₄
  qty ← FirstPriceLevel.total_qty pool l₅
  ok (FirstPriceLevel.size l₅, qty)

a_day : day ≡ ok (1, 200)
unfolding running
a_day = refl

first_level-IsLinked : IsLinked id_of first_level
unfolding running_maps
first_level-IsLinked = record {
  rising = (omega arith, (omega arith, omega arith));
  mapped = (refl, (refl, tt));
}

second_level-IsTracked : IsTracked id_of second_level
unfolding running_maps
second_level-IsTracked = record {
  indexed = record { same = λ k. refl; sized = refl };
  distinct = (refl, (refl, tt));
  skipped = tt;
}

second_level-IsValid : IsValid id_of second_level
second_level-IsValid = record {
  tracked = second_level-IsTracked;
  headed = inr (1, (2, 1) ∷ [], refl);
}

both-SameQueue : SameQueue id_of first_level second_level
both-SameQueue = record {
  linked = first_level-IsLinked;
  tracked = second_level-IsTracked;
  same_price = refl;
  same = refl;
}

add_order-SameQueue_example :
    (f' : FirstPriceLevel) × (l' : PriceLevel) × (FirstPriceLevel.add_order pool
        (slot 2)
        first_level
      ≡ ok f')
    × (PriceLevel.add_order pool (slot 2) second_level ≡ ok l')
    × SameQueue id_of f' l'
unfolding running_maps load
add_order-SameQueue_example =
    add_order-SameQueue id_of pool (slot 2) (bid 3) first_level second_level both-SameQueue refl
      refl refl

remove_order-SameQueue_example :
    (f' : FirstPriceLevel) × (l' : PriceLevel) × (FirstPriceLevel.remove_order 2 first_level
      ≡ ok (true, f'))
    × (PriceLevel.remove_order 2 second_level ≡ ok (true, l'))
    × SameQueue id_of f' l'
unfolding running_maps
remove_order-SameQueue_example =
    remove_order-SameQueue id_of first_level second_level 2 {i = 1} both-SameQueue refl

pop_front_order_if_filled-SameQueue_example :
    (f' : FirstPriceLevel) × (l' : PriceLevel) × (FirstPriceLevel.pop_front_order_if_filled pool
        first_level
      ≡ ok f')
    × (PriceLevel.pop_front_order_if_filled pool second_level ≡ ok l')
    × SameQueue id_of f' l'
    × (queue l' ≡ slot 1 ∷ [])
unfolding load
pop_front_order_if_filled-SameQueue_example =
    pop_front_order_if_filled-SameQueue id_of pool first_level second_level (slot 0) (slot 1 ∷ [])
      filled both-SameQueue second_level-IsValid refl refl refl

pop_remove_undefined_example :
    (f' : FirstPriceLevel) × (FirstPriceLevel.pop_front_order_if_filled pool first_level ≡ ok f')
    × (FirstPriceLevel.remove_order 1 f' ≡ undefined)
unfolding load
pop_remove_undefined_example =
    pop_remove_undefined id_of pool first_level (node 0) (node 1 ∷ []) filled first_level-IsLinked
      refl refl refl

abbrev formats : Formats
formats = record {
  to_string = λ n. codes "1";
  price_to_string = λ p. codes "99.00";
  stream_price = λ p. codes "99";
  stream_time = λ t. codes "0";
}

print-SameQueue_example :
    print_first_level formats pool first_level ≡ print_level formats pool second_level
print-SameQueue_example = print-SameQueue id_of formats pool first_level second_level both-SameQueue
