-- ===== src/OrderBook/Accepting.antt =====
-- `add_order` of include/orderbook.h, whole: on a book whose orders rest it returns, and leaves such a
-- book, uncrossed.
use cpp_orderbook.Prelude.{
  suc, ◌+◌, ◌≤◌, ◌<◌, ◌≡◌, refl, sym, ap, ◌∙◌, subst, Bool, length, length-set, some, ok, u64_mod,
  arith,
}
use cpp_orderbook.Core.{OrderId}
use cpp_orderbook.Clock.{Clock}
use cpp_orderbook.Order.{Order, OrderSide, copy_from_client}
use cpp_orderbook.IdAllocator.{OrderIdBlock}
use cpp_orderbook.OrderPool.{OrderPool, OrderPtr, peek, poke}
use cpp_orderbook.OrderPool.Slots.{HasRoom, allocate_lem, load-ok, store-ok}
use cpp_orderbook.FlatMap
use cpp_orderbook.FlatMap.{FlatMaps, FlatMap}
use cpp_orderbook.SortedMap.{SortedMap}
use cpp_orderbook.PriceLevel.{PriceLevel}
use cpp_orderbook.OrderBook.Book.{OrderBook, Surroundings, levels_of, with_levels}
use cpp_orderbook.OrderBook.Matching.{try_match}
use cpp_orderbook.OrderBook.Adding.{add_order_dispatcher, add_order}
use cpp_orderbook.OrderBook.Resting.{id_in, id_or_zero}
use cpp_orderbook.OrderBook.Kept.{PoolOk, PoolKept-PoolOk}
use cpp_orderbook.OrderBook.NewSlot.{
  next_slot, handed, filled_with, slot_there, at_handed, now_there, filled_with-PoolOk,
}
use cpp_orderbook.OrderBook.Entering.{Entered}
use cpp_orderbook.OrderBook.Drawing.{IdsOk, HasIds, Drawn, get_order_id-Drawn}
use cpp_orderbook.OrderBook.Round.{BookOk}
use cpp_orderbook.OrderBook.Loop.{IsUncrossed, orders_in}
use cpp_orderbook.OrderBook.Priority.{Among, in_priority}
use cpp_orderbook.OrderBook.Registered.{RegistryOk}
use cpp_orderbook.OrderBook.Recording.{Recorded, RegistryOk-recorded, RegistryOk-kept}
use cpp_orderbook.OrderBook.Settling.{EnteredBook, Settled, enters_book, settles}
use cpp_orderbook.OrderBook.Taking.{taken, levels_same, taken-Entered, taken-BookOk}

module _ ⦃F : FlatMaps⦄ where
  -- The steps of `add_order_dispatcher`, and of `add_order` before and after it.
  dispatcher_run :
      (b : OrderBook) (s : OrderSide) (ptr : OrderPtr) (o : Order) {m' : SortedMap PriceLevel}
      → peek b.order_pool ptr ≡ some o
      → (t : Entered b.order_pool s o.price ptr (levels_of s b) m')
      → add_order_dispatcher s ptr b
        ≡ ok (record (with_levels s m' b) {
          try_match_flag = t.inserted;
          order_registry = FlatMap.assign o.id ptr b.order_registry;
        })
  unfolding add_order_dispatcher
  dispatcher_run b s ptr o there t =
      rw (load-ok b.order_pool ptr there, t.emplaces, t.finds, t.adds, t.puts) refl

  add_order_run :
      (client : Order) (b : OrderBook) (w : Surroundings) (d : Drawn b w) {slot : Order}
      {b₂ : OrderBook} {r : Bool × OrderBook × Clock}
      → HasRoom b.order_pool
      → peek b.order_pool (next_slot b.order_pool) ≡ some slot
      → add_order_dispatcher client.side (next_slot b.order_pool) (record b {
        order_id_block = d.block;
        next_available_order_id = d.next;
        order_pool = filled_with b.order_pool (taken slot client d.id);
      })
        ≡ ok b₂
      → try_match b₂ w.clock ≡ ok r
      → add_order client b w ≡ ok (d.id, r.1, record d.w₁ { clock = r.2 })
  unfolding add_order copy_from_client
  add_order_run client b w d {slot} room at dispatched matched =
      let pool = b.order_pool in
      let o = taken slot client d.id in
      rw
        (
          allocate_lem pool w.clock room,
          d.runs,
          load-ok (handed pool) (next_slot pool) (at_handed pool o at),
          store-ok (handed pool) (next_slot pool) o (at_handed pool o at),
          load-ok (filled_with pool o) (next_slot pool) (now_there pool o at),
          dispatched,
          matched,
        )
        refl

  -- What the book and its allocator are between two calls: its orders rest, free slots are new, and
  -- the ids to come are above those that were handed out.
  pub record Consistent (b : OrderBook) (w : Surroundings) : Type 0 where
    pub book_ok : BookOk b
    pub pool_ok : PoolOk b.next_available_order_id b.order_pool
    pub ids_ok : IdsOk b w
    pub registry_ok : RegistryOk b

  pub record Accepted (b : OrderBook) (w : Surroundings) (id : OrderId) (b' : OrderBook)
      (w' : Surroundings) : Type 0 where
    pub new_id : b.next_available_order_id ≤ id
    pub one_slot : b'.order_pool.next_free_index ≡ b.order_pool.next_free_index + 1
    pub same_size : length b'.order_pool.orders.elements ≡ length b.order_pool.orders.elements
    pub same_block_size : w'.id_allocator.block_size ≡ w.id_allocator.block_size
    pub counter_grows : w.id_allocator.global_counter ≤ w'.id_allocator.global_counter
    pub one_block :
        w'.id_allocator.global_counter ≤ w.id_allocator.global_counter + w.id_allocator.block_size
    pub at_most_one : orders_in b' ≤ suc (orders_in b)
    pub registered : FlatMap.find id b'.order_registry ≡ some (next_slot b.order_pool)
    pub owner : id_in b'.order_pool (next_slot b.order_pool) ≡ id

  -- The book with the new id drawn and the order in its slot.
  abbrev drawn_book : (b : OrderBook) (w : Surroundings) → Drawn b w → Order → OrderBook
  drawn_book b w d o = record b {
    order_id_block = d.block;
    next_available_order_id = d.next;
    order_pool = filled_with b.order_pool o;
  }

  -- Once the order has entered its side and `try_match` is done, the book is consistent.
  Settled-Consistent :
      (b : OrderBook) (w : Surroundings) (d : Drawn b w) (o : Order) {slot : Order}
      (b₂ b₃ : OrderBook) (c : Clock) {s : OrderSide} {inserted : Bool}
      → Consistent b w
      → peek b.order_pool (next_slot b.order_pool) ≡ some slot
      → o.id ≡ d.id
      → EnteredBook
          (drawn_book b w d o)
          b₂
          s
          (next_slot b.order_pool)
          inserted
          (FlatMap.assign o.id (next_slot b.order_pool) b.order_registry)
      → Recorded b b₂ o
      → Settled b₂ b₃
      → Consistent b₃ (record d.w₁ { clock = c })
  Settled-Consistent b w d o b₂ b₃ c v at own e recorded st =
      let block_end = ap (λ (k : OrderIdBlock). k.end) (st.kept.id_block ∙ e.same_block) in
      let next : b₃.next_available_order_id ≡ d.next = st.kept.next_id ∙ e.same_next in
      let slots =
        filled_with-PoolOk b.order_pool o at d.next v.pool_ok
          (subst (λ i. b.next_available_order_id ≤ i) (sym own) d.above)
          (subst (λ i. i < d.next) (sym own) d.next_above) in
      record {
        book_ok = st.book_ok;
        pool_ok =
            subst (λ n. PoolOk n b₃.order_pool) (sym next)
              (PoolKept-PoolOk st.kept.pool (subst (PoolOk d.next) (sym e.same_pool) slots));
        ids_ok = record {
          within = omega (arith, next, block_end, d.within);
          below = omega (arith, block_end, d.below);
        };
        registry_ok =
            RegistryOk-kept b₂ b₃ (RegistryOk-recorded b b₂ o recorded at v.registry_ok)
              st.keeps_placed st.kept;
      }

  -- `add_order` on a consistent, uncrossed book whose pool has room, of an order whose quantity fits
  -- 64 bits, while the allocator can give another block: it returns; the book is consistent and
  -- uncrossed again, its pool has one slot less, it has at most one order more, at most one block of ids
  -- is drawn, and the id that is returned is above all that were drawn before and registered at the
  -- order.
  pub add_order-Accepted :
      (client : Order) (b : OrderBook) (w : Surroundings)
      → Consistent b w
      → IsUncrossed b
      → HasRoom b.order_pool
      → HasIds w
      → client.quantity < u64_mod
      → (id : OrderId) × (b' : OrderBook) × (w' : Surroundings) × (add_order client b w
          ≡ ok (id, b', w'))
        × Consistent b' w'
        × IsUncrossed b'
        × Accepted b w id b' w'
  unfolding copy_from_client poke
  add_order-Accepted client b w v uncrossed room ids fits =
      let pool = b.order_pool in
      let d = get_order_id-Drawn b w v.ids_ok ids in
      let (slot, at) = slot_there pool room in
      let o = taken slot client d.id in
      let b₁ = drawn_book b w d o in
      let (m', entered) = taken-Entered b client slot d.id v.book_ok v.pool_ok d.above at fits in
      let t : Entered b₁.order_pool client.side client.price (next_slot pool)
          (levels_of client.side b₁) m' =
        subst (λ l. Entered b₁.order_pool client.side client.price (next_slot pool) l m')
          (levels_same client.side b d.block d.next b₁.order_pool) entered in
      let registry = FlatMap.assign d.id (next_slot pool) b.order_registry in
      let kept_ok = taken-BookOk b o v.book_ok at in
      let e =
        enters_book client.side b₁ m' t.inserted registry (next_slot pool)
          (record { bids_ok = kept_ok.bids_ok; asks_ok = kept_ok.asks_ok }) t.side_ok t.one_more
          t.same_best t.joins t.stay in
      let b₂ : OrderBook = record (with_levels client.side m' b₁) {
        try_match_flag = t.inserted;
        order_registry = registry;
      } in
      let (r, matched, st) =
        settles b₂ w.clock e.book_ok (λ down. e.still_uncrossed (sym e.flagged ∙ down) uncrossed) in
      let recorded : Recorded b b₂ o = record {
        pool_is = e.same_pool;
        registry_is = e.new_registry;
        joins = e.joins;
        stay = λ s q among. e.stay s q (
            subst (λ m. Among q (in_priority m)) (levels_same s b d.block d.next b₁.order_pool)
              among);
      } in
      let orders_same : orders_in b₁ ≡ orders_in b = refl in
      (
        d.id,
        r.1,
        record d.w₁ { clock = r.2 },
        add_order_run client b w d room at
            (dispatcher_run b₁ client.side (next_slot pool) o (now_there pool o at) t) matched,
        Settled-Consistent b w d o b₂ r.1 r.2 v at refl e recorded st,
        st.uncrossed,
        record {
          new_id = d.above;
          one_slot = st.kept.pool.same_free ∙ ap (λ (p : OrderPool). p.next_free_index) e.same_pool;
          same_size =
              st.kept.pool.same_size
              ∙ ap (λ (p : OrderPool). length p.orders.elements) e.same_pool
              ∙ length-set pool.orders.elements pool.next_free_index o;
          same_block_size = d.same_block_size;
          counter_grows = d.counter_grows;
          one_block = d.one_block;
          at_most_one = omega (arith, st.no_more, e.one_more, orders_same);
          registered =
              ap (FlatMap.find d.id) (st.kept.registry ∙ e.new_registry)
              ∙ F.find_assign_self d.id (next_slot pool) b.order_registry;
          owner =
              ap (λ (f : OrderPtr → OrderId). f (next_slot pool))
                (st.kept.pool.ids ∙ ap id_in e.same_pool)
              ∙ ap id_or_zero (now_there pool o at);
        },
      )
