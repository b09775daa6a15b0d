-- ===== src/FirstPriceLevel.antt =====
-- include/price_level.h: the first price level, a std::list of orders, oldest first, with a hash map
-- from order ids to iterators. An iterator is the number of the node that it points to; a node has its
-- number for good, and a number is never used again. An iterator is used as the source does without
-- a test, so that one of an erased node makes the call undefined.
pub mod Nodes
pub mod Same
pub mod Stale
pub mod Printing
mod Tests
use cpp_orderbook.Prelude.{
  ℕ, ◌+◌, List, [], ◌∷◌, ◌++◌, length, Bool, true, false, ◌==◌, if◌then◌else◌, add64, sub64, Option,
  none, some, Outcome, ok, undefined, defined, ◌>>=◌,
}
use cpp_orderbook.Core.{OrderId, Price, Quantity}
use cpp_orderbook.Order.{Order, is_fully_filled}
use cpp_orderbook.OrderPool.{OrderPtr, OrderPool, load}
use cpp_orderbook.FlatMap
use cpp_orderbook.FlatMap.{FlatMaps, FlatMap}
use cpp_orderbook.FlatMap.Listed.{running_maps}

pub record Node : Type 0 where
  pub number : ℕ
  pub order : OrderPtr

-- `*it`.
unfoldable pub node_at : ℕ → List Node → Option Node
node_at it [] = none
node_at it (n ∷ ns) = if n.number == it then some n else node_at it ns

-- `_orders_list.erase(it)`.
unfoldable pub erase_node : ℕ → List Node → Outcome (List Node)
erase_node it [] = undefined
erase_node it (n ∷ ns) =
    let rest = erase_node it ns in if n.number == it then ok ns else rest >>= λ ms. ok (n ∷ ms)

-- The loop of `total_qty`; sum and difference wrap.
unfoldable pub sum_nodes : OrderPool → List Node → Quantity → Outcome Quantity
sum_nodes pool [] qty = ok qty
sum_nodes pool (n ∷ ns) qty = do
  o ← load pool n.order
  sum_nodes pool ns (add64 qty (sub64 o.quantity o.quantity_filled))

module _ ⦃F : FlatMaps⦄ where
  pub record FirstPriceLevel : Type 0 where
    pub price : Price
    pub orders_list : List Node
    pub next_node : ℕ
    pub orders_map : FlatMap ℕ

  -- `PriceLevel(price)`.
  unfoldable pub make_level : Price → FirstPriceLevel
  make_level p = record { price = p; orders_list = []; next_node = 0; orders_map = FlatMap.new }

  unfoldable pub add_order : OrderPool → OrderPtr → FirstPriceLevel → Outcome FirstPriceLevel
  add_order pool ptr l = do
    order ← load pool ptr
    ok (record l {
      orders_list = l.orders_list ++ record { number = l.next_node; order = ptr } ∷ [];
      next_node = l.next_node + 1;
      orders_map = FlatMap.assign order.id l.next_node l.orders_map;
    })

  unfoldable pub remove_order : OrderId → FirstPriceLevel → Outcome (Bool × FirstPriceLevel)
  remove_order id l = elim (FlatMap.find id l.orders_map) [
    | none ↦ ok (false, l)
    | some it ↦ do
      nodes ← erase_node it l.orders_list
      ok (true, record l { orders_list = nodes; orders_map = FlatMap.erase id l.orders_map })
  ]

  unfoldable pub remove_order_on_it : OrderPool → ℕ → FirstPriceLevel → Outcome FirstPriceLevel
  remove_order_on_it pool it l = do
    n ← defined (node_at it l.orders_list)
    order ← load pool n.order
    nodes ← erase_node it l.orders_list
    ok (record l { orders_list = nodes; orders_map = FlatMap.erase order.id l.orders_map })

  unfoldable pub size : FirstPriceLevel → ℕ
  size l = length l.orders_list

  unfoldable pub empty : FirstPriceLevel → Bool
  empty l = elim l.orders_list [ [] ↦ true | _ ∷ _ ↦ false ]

  unfoldable pub total_qty : OrderPool → FirstPriceLevel → Outcome Quantity
  total_qty pool l = sum_nodes pool l.orders_list 0

  -- `begin()`, where there is one.
  abbrev pub first_node : List Node → Option Node
  first_node [] = none
  first_node (n ∷ _) = some n

  -- Both overloads of `front`.
  unfoldable pub front : FirstPriceLevel → Outcome OrderPtr
  front l = do n ← defined (first_node l.orders_list); ok n.order

  -- `pop_front()` of the list.
  abbrev pub without_first : List Node → List Node
  without_first [] = []
  without_first (_ ∷ ns) = ns

  -- The map keeps the id of an order that is popped.
  unfoldable pub pop_front_order_if_filled : OrderPool → FirstPriceLevel → Outcome FirstPriceLevel
  pop_front_order_if_filled pool l = if empty l then ok l else do
    ptr ← front l
    order ← load pool ptr
    if is_fully_filled order.status
        then ok (record l { orders_list = without_first l.orders_list })
        else ok l

  -- Unfolds all that a level computes with, for a run on concrete values.
  unfoldable pub running : Unit {0}
  unfolding running_maps node_at erase_node sum_nodes make_level add_order remove_order
      remove_order_on_it size empty total_qty front pop_front_order_if_filled load
  running = tt
