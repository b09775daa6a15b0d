-- ===== src/PriceLevel.antt =====
-- include/price_level_v2.h: the orders at one price, oldest first, as a vector of entries of which
-- a removed one only loses its mark, with the index of the first marked entry and a map from order
-- ids to indices. `add_order` and `total_qty` read the orders through the pool.
-- Sizes and indices are plain numbers: a vector in memory has fewer than 2^64 elements.
pub mod Index
pub mod Valid
pub mod Add
pub mod Remove
pub mod Pop
pub mod Requeue
pub mod Printing
mod Tests
use cpp_orderbook.Prelude.{
  ℕ, ◌+◌, ◌-◌, List, [], ◌∷◌, ◌++◌, length, get_elem?, set, drop, Bool, true, false, not,
  if◌then◌else◌, add64, sub64, none, some, Outcome, ok, undefined, defined, ◌>>=◌,
}
use cpp_orderbook.Core.{OrderId, Price, Quantity}
use cpp_orderbook.Order.{Order, is_fully_filled}
use cpp_orderbook.OrderPool.{OrderPtr, OrderPool, load}
use cpp_orderbook.FlatMap
use cpp_orderbook.FlatMap.{FlatMaps, FlatMap}
use cpp_orderbook.FlatMap.Listed.{running_maps}

pub record OrderEntry : Type 0 where
  pub is_valid : Bool
  pub order : OrderPtr

-- `OrderEntry(order)`.
abbrev pub entry : OrderPtr → OrderEntry
entry ptr = record { is_valid = true; order = ptr }

-- The loop of `increment_to_valid`, over the entries from index `i` on. To run past the last entry
-- is undefined.
unfoldable pub skip_invalid : List OrderEntry → ℕ → Outcome ℕ
skip_invalid [] i = undefined
skip_invalid (e ∷ es) i = if e.is_valid then ok i else skip_invalid es (i + 1)

-- `_order_entries[i].is_valid = false`.
unfoldable pub invalidate : List OrderEntry → ℕ → Outcome (List OrderEntry)
invalidate es i = do e ← defined (get_elem? es i); ok (set es i (record e { is_valid = false }))

-- The loop of `total_qty`; sum and difference wrap.
unfoldable pub sum_qty : OrderPool → List OrderEntry → Quantity → Outcome Quantity
sum_qty pool [] qty = ok qty
sum_qty pool (e ∷ es) qty = elim e.is_valid [
  | false ↦ sum_qty pool es qty
  | true ↦ do
    o ← load pool e.order
    sum_qty pool es (add64 qty (sub64 o.quantity o.quantity_filled))
]

module _ ⦃F : FlatMaps⦄ where
  pub record PriceLevel : Type 0 where
    pub price : Price
    pub order_entries : List OrderEntry
    pub queue_head_index : ℕ
    pub orders_map : FlatMap ℕ

  -- `PriceLevel(price, space_reserve)`; the reserved space is a matter of speed alone.
  unfoldable pub make_level : Price → PriceLevel
  make_level p = record {
    price = p;
    order_entries = [];
    queue_head_index = 0;
    orders_map = FlatMap.new;
  }

  unfoldable pub empty : PriceLevel → Bool
  empty l = FlatMap.is_empty l.orders_map

  unfoldable pub size : PriceLevel → ℕ
  size l = FlatMap.size l.orders_map

  unfoldable pub add_order : OrderPool → OrderPtr → PriceLevel → Outcome PriceLevel
  add_order pool ptr l = do
    order ← load pool ptr
    let entries = l.order_entries ++ entry ptr ∷ []
    ok (record l {
      order_entries = entries;
      orders_map = FlatMap.assign order.id (length entries - 1) l.orders_map;
    })

  unfoldable pub increment_to_valid : PriceLevel → Outcome PriceLevel
  increment_to_valid l = if empty l then ok l else do
    i ← skip_invalid (drop l.queue_head_index l.order_entries) l.queue_head_index
    ok (record l { queue_head_index = i })

  unfoldable pub remove_order : OrderId → PriceLevel → Outcome (Bool × PriceLevel)
  remove_order id l = elim (FlatMap.find id l.orders_map) [
    | none ↦ ok (false, l)
    | some i ↦ do
      entries ← invalidate l.order_entries i
      l' ←
          increment_to_valid
            (record l { order_entries = entries; orders_map = FlatMap.erase id l.orders_map })
      ok (true, l')
  ]

  unfoldable pub total_qty : OrderPool → PriceLevel → Outcome Quantity
  total_qty pool l = sum_qty pool l.order_entries 0

  -- Both overloads of `front`. Nothing says that the entry is marked.
  unfoldable pub front : PriceLevel → Outcome OrderPtr
  front l = do e ← defined (get_elem? l.order_entries l.queue_head_index); ok e.order

  -- `_orders_map.erase(_orders_map.find(id))`: undefined where there is no such key.
  unfoldable pub erase_found : OrderId → FlatMap ℕ → Outcome (FlatMap ℕ)
  erase_found id m = do _ ← defined (FlatMap.find id m); ok (FlatMap.erase id m)

  -- What `pop_front_order_if_filled` does to a level whose front order, of this id, is filled.
  unfoldable pub pop_front : OrderId → PriceLevel → Outcome PriceLevel
  pop_front id l = do
    m ← erase_found id l.orders_map
    entries ← invalidate l.order_entries l.queue_head_index
    increment_to_valid (record l { order_entries = entries; orders_map = m })

  -- The part of `pop_front_order_if_filled` after its early return.
  unfoldable pub pop_if_filled : OrderPool → PriceLevel → Outcome PriceLevel
  pop_if_filled pool l = do
    e ← defined (get_elem? l.order_entries l.queue_head_index)
    o ← load pool e.order
    if is_fully_filled o.status then pop_front o.id l else ok l

  unfoldable pub pop_front_order_if_filled : OrderPool → PriceLevel → Outcome PriceLevel
  pop_front_order_if_filled pool l = if empty l then ok l else pop_if_filled pool l

  -- Unfolds all that a level computes with, for a run on concrete values.
  unfoldable pub running : Unit {0}
  unfolding running_maps make_level empty size add_order skip_invalid increment_to_valid invalidate
      remove_order sum_qty total_qty front erase_found pop_front pop_if_filled
      pop_front_order_if_filled load
  running = tt
