-- ===== src/OrderBook/Taking.antt =====
-- The order that `add_order` of include/orderbook.h makes of a client's, in its slot and on its side.
use cpp_orderbook.Prelude.{◌≤◌, ◌<◌, ◌≡◌, ◌≢◌, refl, ap, some, u64_mod, arith}
use cpp_orderbook.Core.{OrderId}
use cpp_orderbook.Order.{Order, OrderSide, buy, sell, is_closed, copy_from_client}
use cpp_orderbook.IdAllocator.{OrderIdBlock}
use cpp_orderbook.OrderPool.{OrderPool, peek, poke}
use cpp_orderbook.FlatMap.{FlatMaps}
use cpp_orderbook.SortedMap.{SortedMap}
use cpp_orderbook.PriceLevel.{PriceLevel}
use cpp_orderbook.OrderBook.Book.{OrderBook, levels_of}
use cpp_orderbook.OrderBook.Resting.{id_in, id_or_zero, RestsAt, SideOk}
use cpp_orderbook.OrderBook.Kept.{PoolOk}
use cpp_orderbook.OrderBook.NewSlot.{next_slot, filled_with, now_there, rests_on}
use cpp_orderbook.OrderBook.Entering.{Entered, SideOk-Entered, SideOk-moves, SideOk-AllOrders}
use cpp_orderbook.OrderBook.Round.{BookOk}

module _ ⦃F : FlatMaps⦄ where
  -- The order that `add_order` makes of a client's in a slot.
  abbrev pub taken : Order → Order → OrderId → Order
  taken slot client id = copy_from_client slot client id

  -- The order in its slot.
  pub taken-RestsAt :
      (b : OrderBook) (client slot : Order) (id : OrderId)
      → PoolOk b.next_available_order_id b.order_pool
      → peek b.order_pool (next_slot b.order_pool) ≡ some slot
      → client.quantity < u64_mod
      → RestsAt
          (filled_with b.order_pool (taken slot client id))
          client.side
          client.price
          (next_slot b.order_pool)
  unfolding copy_from_client poke
  taken-RestsAt b client slot id v at fits =
      let (new, unfilled) = v.free (next_slot b.order_pool) slot (omega arith) at in
      record {
        order = taken slot client id;
        there = now_there b.order_pool (taken slot client id) at;
        in_use = omega arith;
        side_is = refl;
        price_is = refl;
        open_still = ap is_closed new;
        fillable = record { bounded = fits; within = omega (arith, unfilled) };
      }

  pub side_of : (s : OrderSide) (b : OrderBook) → BookOk b → SideOk b.order_pool s (levels_of s b)
  side_of buy b v = v.bids_ok
  side_of sell b v = v.asks_ok

  -- The levels do not depend on the pool and the ids.
  pub levels_same :
      (s : OrderSide) (b : OrderBook) (block : OrderIdBlock) (next : OrderId) (pool : OrderPool)
      → levels_of s b
        ≡ levels_of s
            (record b { order_id_block = block; next_available_order_id = next; order_pool = pool })
  levels_same buy b block next pool = refl
  levels_same sell b block next pool = refl

  -- The order on its side, of a book that rests on in the pool with the filled slot.
  pub taken-Entered :
      (b : OrderBook) (client slot : Order) (id : OrderId)
      → BookOk b
      → PoolOk b.next_available_order_id b.order_pool
      → b.next_available_order_id ≤ id
      → peek b.order_pool (next_slot b.order_pool) ≡ some slot
      → client.quantity < u64_mod
      → (m' : SortedMap PriceLevel) × Entered
          (filled_with b.order_pool (taken slot client id))
          client.side
          client.price
          (next_slot b.order_pool)
          (levels_of client.side b)
          m'
  unfolding copy_from_client
  taken-Entered b client slot id v pool_ok above at fits =
      let pool = b.order_pool in
      let s = client.side in
      let o = taken slot client id in
      let owner : id_in (filled_with pool o) (next_slot pool) ≡ o.id =
        ap id_or_zero (now_there pool o at) in
      SideOk-Entered (next_slot pool) (levels_of s b)
        (SideOk-moves s (rests_on pool o at s) (levels_of s b) (side_of s b v))
        (SideOk-AllOrders
          (λ q. id_in (filled_with pool o) q ≢ id_in (filled_with pool o) (next_slot pool))
          (levels_of s b)
          (λ q p r e.
            let same = (rests_on pool o at s q p r).1 in
            absurd (omega (arith, same, pool_ok.drawn q r.in_use, owner, e)))
          (side_of s b v))
        (taken-RestsAt b client slot id pool_ok at fits)

  pub taken-BookOk :
      (b : OrderBook) (o : Order) {slot : Order}
      → BookOk b
      → peek b.order_pool (next_slot b.order_pool) ≡ some slot
      → BookOk (record b { order_pool = filled_with b.order_pool o })
  taken-BookOk b o v at = record {
    bids_ok = SideOk-moves buy (rests_on b.order_pool o at buy) b.bids v.bids_ok;
    asks_ok = SideOk-moves sell (rests_on b.order_pool o at sell) b.asks v.asks_ok;
  }
