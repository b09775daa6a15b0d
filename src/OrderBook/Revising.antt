-- ===== src/OrderBook/Revising.antt =====
-- `modify_order` of include/orderbook.h where it makes an order smaller.
use cpp_orderbook.Prelude.{
  inr, ◌≤◌, ◌<◌, ◌≡◌, refl, sym, ap, ◌∙◌, subst, true, false, ltb, ◌==◌, some, ok, arith,
}
use cpp_orderbook.Prelude.Int
use cpp_orderbook.Prelude.Int.{pos}
use cpp_orderbook.Core.{OrderId, Price, Quantity}
use cpp_orderbook.Clock.{Clock}
use cpp_orderbook.Order.{Order, OrderSide, buy, sell, is_closed, set_quantity}
use cpp_orderbook.Order.Fill.{IsFillable}
use cpp_orderbook.OrderPool.{OrderPool, OrderPtr, peek, poke}
use cpp_orderbook.OrderPool.Slots.{load-ok, store-ok, peek-poke_self, next_free-poke}
use cpp_orderbook.FlatMap
use cpp_orderbook.FlatMap.{FlatMaps}
use cpp_orderbook.SortedMap
use cpp_orderbook.SortedMap.{SortedMap}
use cpp_orderbook.PriceLevel
use cpp_orderbook.PriceLevel.{PriceLevel}
use cpp_orderbook.PriceLevel.Valid.{not_empty_of_queue}
use cpp_orderbook.OrderBook.Book.{
  OrderBook, Surroundings, compare_of, levels_of, remove_price_level_if_empty,
}
use cpp_orderbook.OrderBook.Modifying.{
  validate_modify_order, apply_modify, resize_order, modify_order_dispatcher, modify_order,
}
use cpp_orderbook.OrderBook.Resting.{id_in, id_in-poke, RestsAt, RestsAt-poke, OrderPtr-discrete}
use cpp_orderbook.OrderBook.Kept.{poke-PoolKept, PoolKept-PoolOk}
use cpp_orderbook.OrderBook.Entering.{SideOk-moves}
use cpp_orderbook.OrderBook.Taking.{levels_same}
use cpp_orderbook.OrderBook.Accepting.{Consistent}
use cpp_orderbook.OrderBook.Priority.{Among, in_priority}
use cpp_orderbook.OrderBook.Registered.{on_both_sides, open-Among}
use cpp_orderbook.OrderBook.Amending.{RegistryOk-amended}
use cpp_orderbook.OrderBook.Standing.{Among-Stands, Stands, Stands-LevelOk, Stands-RestsAt}
use cpp_orderbook.OrderBook.Refusing.{open_dispatched}

validate_accepts :
    (o : Order) (p : Price) (q : Quantity)
    → Int.leb p (pos 0) ≡ false
    → o.quantity_filled < q
    → validate_modify_order o p q ≡ true
unfolding validate_modify_order
validate_accepts o p q h k = ground arith

module _ ⦃F : FlatMaps⦄ where
  dispatcher_accepts :
      (s : OrderSide) (p : Price) (q : Quantity) (b : OrderBook) (c : Clock) (ptr : OrderPtr)
      (o : Order)
      → peek b.order_pool ptr ≡ some o
      → validate_modify_order o p q ≡ true
      → modify_order_dispatcher s ptr p q b c ≡ apply_modify s ptr p q b c
  unfolding modify_order_dispatcher
  dispatcher_accepts s p q b c ptr o there good = rw (load-ok b.order_pool ptr there, good) refl

  apply_shrinks :
      (s : OrderSide) (ptr : OrderPtr) (b : OrderBook) (c : Clock) (o : Order) (q : Quantity)
      {l : PriceLevel}
      → peek b.order_pool ptr ≡ some o
      → q < o.quantity
      → SortedMap.find (compare_of s) o.price (levels_of s b) ≡ some l
      → PriceLevel.empty l ≡ false
      → apply_modify s ptr o.price q b c
        ≡ ok (true, record b { order_pool = poke b.order_pool ptr (record o { quantity = q }) }, c)
  unfolding apply_modify resize_order set_quantity remove_price_level_if_empty
  apply_shrinks s ptr b c o q there less found full =
      let same_price : Int.eqb o.price o.price ≡ true = ground arith in
      let differ : (o.quantity == q) ≡ false = ground arith in
      let no_more : ltb o.quantity q ≡ false = ground arith in
      let pool' = poke b.order_pool ptr (record o { quantity = q }) in
      let found' =
        ap (SortedMap.find (compare_of s) o.price)
          (sym (levels_same s b b.order_id_block b.next_available_order_id pool'))
        ∙ found in
      rw
        (
          load-ok b.order_pool ptr there,
          same_price,
          differ,
          load-ok b.order_pool ptr there,
          store-ok b.order_pool ptr (record o { quantity = q }) there,
          no_more,
          found',
          full,
        )
        refl

  -- An order that is written with another quantity rests where it did, and so do the others.
  resized_rests :
      {pool : OrderPool} (ptr : OrderPtr) (o : Order) (n : Quantity)
      → peek pool ptr ≡ some o
      → o.quantity_filled ≤ n
      → n < o.quantity
      → (s : OrderSide) (r : OrderPtr) (p : Price) → RestsAt pool s p r
      → RestsAt (poke pool ptr (record o { quantity = n })) s p r
  resized_rests {pool} ptr o n there enough less s r p rests = elim (OrderPtr-discrete ptr r) [
    | yes e ↦
        let o' = record o { quantity = n } in
        let same : rests.order ≡ o =
          let at : peek pool r ≡ some o = subst (λ x. peek pool x ≡ some o) e there in
          ground (arith, at, rests.there) in
        subst (RestsAt (poke pool ptr o') s p) e (record {
          order = o';
          there = peek-poke_self pool ptr o' there;
          in_use =
              subst (λ k. ptr.index < k) (sym (next_free-poke pool ptr o'))
                (subst (λ (x : OrderPtr). x.index < pool.next_free_index) (sym e) rests.in_use);
          side_is = ap (λ (x : Order). x.side) (sym same) ∙ rests.side_is;
          price_is = ap (λ (x : Order). x.price) (sym same) ∙ rests.price_is;
          open_still = subst (λ (x : Order). is_closed x.status ≡ false) same rests.open_still;
          fillable = record {
            bounded = omega (arith, (subst IsFillable same rests.fillable).bounded);
            within = enough;
          };
        })
    | no ne ↦ RestsAt-poke ptr r (record o { quantity = n }) there ne rests
  ]

  shrinks_standing :
      (id : OrderId) (ptr : OrderPtr) (b : OrderBook) (w : Surroundings) (n : Quantity)
      → Consistent b w
      → FlatMap.find id b.order_registry ≡ some ptr
      → (t : Stands b ptr) → Among ptr (in_priority (levels_of t.order.side b))
      → Int.leb t.order.price (pos 0) ≡ false
      → t.order.quantity_filled < n
      → n < t.order.quantity
      → (modify_order id t.order.price n b w.clock
          ≡ ok (
            true,
            record b { order_pool = poke b.order_pool ptr (record t.order { quantity = n }) },
            w.clock,
          ))
        × Consistent
            (record b { order_pool = poke b.order_pool ptr (record t.order { quantity = n }) })
            w
  shrinks_standing id ptr b w n v registered t among positive more less =
      let o = t.order in
      let o' = record o { quantity = n } in
      let (r, same) = Stands-RestsAt b ptr v.book_ok t in
      let level_ok = Stands-LevelOk b ptr v.book_ok t in
      let is_open = subst (λ (x : Order). is_closed x.status ≡ false) same r.open_still in
      let enough : o.quantity_filled ≤ n = omega arith in
      let p = v.registry_ok.entries id ptr registered in
      let one_order : o ≡ p.order = ground (arith, t.there, p.there) in
      let own : o.id ≡ id = ap (λ (x : Order). x.id) one_order ∙ p.owner in
      let same_levels =
        on_both_sides b (record b { order_pool = poke b.order_pool ptr o' }) {P = λ _. Unit {0}}
          (λ q _ h. h) (λ q _ h. h) in
      let ids = id_in-poke b.order_pool ptr o' t.there refl in
      (
        open_dispatched id o.price n b w.clock ptr o registered t.there is_open
            ∙ dispatcher_accepts o.side o.price n b w.clock ptr o t.there
                (validate_accepts o o.price n positive more)
            ∙ apply_shrinks o.side ptr b w.clock o n t.there less t.found (
                not_empty_of_queue (id_in b.order_pool) t.level level_ok.valid.tracked
                  level_ok.some_order),
        record {
          book_ok = record {
            bids_ok =
                SideOk-moves buy
                  (λ q p rests. (
                    resized_rests ptr o n t.there enough less buy q p rests,
                    ap (λ (f : OrderPtr → OrderId). f q) (sym ids),
                  ))
                  b.bids v.book_ok.bids_ok;
            asks_ok =
                SideOk-moves sell
                  (λ q p rests. (
                    resized_rests ptr o n t.there enough less sell q p rests,
                    ap (λ (f : OrderPtr → OrderId). f q) (sym ids),
                  ))
                  b.asks v.book_ok.asks_ok;
          };
          pool_ok =
              PoolKept-PoolOk (poke-PoolKept b.order_pool ptr o' t.there r.in_use refl) v.pool_ok;
          ids_ok = record { within = v.ids_ok.within; below = v.ids_ok.below };
          registry_ok =
              RegistryOk-amended b (record b { order_pool = poke b.order_pool ptr o' }) ptr o o'
                t.there refl refl refl (inr (same_levels o.side ptr tt among))
                (λ s q _ h. same_levels s q tt h)
                (subst (λ i. FlatMap.find i b.order_registry ≡ some ptr) (sym own) registered)
                v.registry_ok;
        },
      )

  -- `modify_order` on a consistent book, of an id that is registered for an order that is neither
  -- filled nor cancelled and has a positive price, at the price that it has and to a lesser quantity
  -- than it has, but more than is filled of it: it returns true, writes the quantity, and changes
  -- neither the levels nor the place of the order in its queue; the book is consistent again.
  pub modify_order_shrinks :
      (id : OrderId) (ptr : OrderPtr) (o : Order) (b : OrderBook) (w : Surroundings) (n : Quantity)
      → Consistent b w
      → FlatMap.find id b.order_registry ≡ some ptr
      → peek b.order_pool ptr ≡ some o
      → is_closed o.status ≡ false
      → Int.leb o.price (pos 0) ≡ false
      → o.quantity_filled < n
      → n < o.quantity
      → (modify_order id o.price n b w.clock
          ≡ ok (
            true,
            record b { order_pool = poke b.order_pool ptr (record o { quantity = n }) },
            w.clock,
          ))
        × Consistent (record b { order_pool = poke b.order_pool ptr (record o { quantity = n }) }) w
  modify_order_shrinks id ptr o b w n v registered there is_open positive more less =
      let among = open-Among id ptr o b v.registry_ok registered there is_open in
      let (t, is_o) = Among-Stands b ptr o v.book_ok there among in
      subst
        (λ (x : Order).
          (modify_order id x.price n b w.clock
            ≡ ok (
              true,
              record b { order_pool = poke b.order_pool ptr (record x { quantity = n }) },
              w.clock,
            ))
          × Consistent (record b { order_pool = poke b.order_pool ptr (record x { quantity = n }) })
              w)
        is_o
        (shrinks_standing id ptr b w n v registered t
          (subst (λ (x : Order). Among ptr (in_priority (levels_of x.side b))) (sym is_o) among)
          (subst (λ (x : Order). Int.leb x.price (pos 0) ≡ false) (sym is_o) positive)
          (subst (λ (x : Order). x.quantity_filled < n) (sym is_o) more)
          (subst (λ (x : Order). n < x.quantity) (sym is_o) less))
