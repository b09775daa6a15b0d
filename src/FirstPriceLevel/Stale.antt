-- ===== src/FirstPriceLevel/Stale.antt =====
-- A flaw of include/price_level.h: `pop_front_order_if_filled` leaves the id of the order that it
-- pops in the map, with an iterator to a node that is gone.
use cpp_orderbook.Prelude.{
  ℕ, suc, ◌≤◌, ◌≡◌, refl, ◌∙◌, List, [], ◌∷◌, All, ◌==◌, false, some, ok, undefined, arith,
}
use cpp_orderbook.Core.{OrderId}
use cpp_orderbook.Order.{Order, fully_filled}
use cpp_orderbook.OrderPool.{OrderPool, OrderPtr, load}
use cpp_orderbook.FlatMap
use cpp_orderbook.FlatMap.{FlatMaps}
use cpp_orderbook.FirstPriceLevel
use cpp_orderbook.FirstPriceLevel.{Node, FirstPriceLevel, erase_node}
use cpp_orderbook.FirstPriceLevel.Nodes.{IsRising-All}
use cpp_orderbook.FirstPriceLevel.Same.{IsLinked, linked_parts, first_pops}

erase_node_gone :
    (it : ℕ) (ns : List Node)
    → All (λ (n : Node). suc it ≤ n.number) ns
    → erase_node it ns ≡ undefined
unfolding erase_node
erase_node_gone it [] h = refl
erase_node_gone it (n ∷ ns) h =
    let other : (n.number == it) ≡ false = ground (arith, h.0) in
    rw (other, erase_node_gone it ns h.1) refl

module _ ⦃F : FlatMaps⦄ where
  remove_stale :
      (f : FirstPriceLevel) (id : OrderId) {it : ℕ}
      → FlatMap.find id f.orders_map ≡ some it
      → erase_node it f.orders_list ≡ undefined
      → FirstPriceLevel.remove_order id f ≡ undefined
  unfolding FirstPriceLevel.remove_order
  remove_stale f id found gone = rw (FirstPriceLevel.remove_order, found, gone) refl

  -- On a linked level whose front order is filled, `pop_front_order_if_filled` returns, and
  -- `remove_order` of the id of the order that it popped is then undefined.
  pub pop_remove_undefined :
      (id_of : OrderPtr → OrderId) (pool : OrderPool) (f : FirstPriceLevel) (n : Node)
      (ns : List Node) (o : Order)
      → IsLinked id_of f
      → f.orders_list ≡ n ∷ ns
      → load pool n.order ≡ ok o
      → o.status ≡ fully_filled
      → (f' : FirstPriceLevel) × (FirstPriceLevel.pop_front_order_if_filled pool f ≡ ok f')
        × (FirstPriceLevel.remove_order (id_of n.order) f' ≡ undefined)
  pop_remove_undefined id_of pool f n ns o h parts loaded full =
      let linked = linked_parts id_of f n ns h parts in
      (
        record f { orders_list = ns },
        first_pops pool f n ns o parts loaded ∙ rw full refl,
        remove_stale (record f { orders_list = ns }) (id_of n.order) linked.1.0
            (erase_node_gone n.number ns (IsRising-All (suc n.number) f.next_node ns linked.0.1)),
      )
