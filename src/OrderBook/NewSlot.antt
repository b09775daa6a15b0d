-- ===== src/OrderBook/NewSlot.antt =====
-- The slot that a book of include/orderbook.h gives a new order, and that the orders of the book rest on
-- when it is filled.
use native.Mathlib.Decide.{dec_lt}
use cpp_orderbook.Prelude.{
  ◌+◌, ◌≤◌, ◌<◌, ◌≡◌, ◌≢◌, refl, sym, ap, ◌∙◌, get_elem?-lt, none, some, arith,
}
use cpp_orderbook.Core.{OrderId, Price}
use cpp_orderbook.Order.{Order, OrderSide}
use cpp_orderbook.OrderPool.{OrderPool, OrderPtr, peek, poke}
use cpp_orderbook.OrderPool.Slots.{HasRoom, peek-poke_self, peek-poke_ne}
use cpp_orderbook.OrderBook.Resting.{
  OrderPtr-discrete, id_in, id_or_zero, RestsAt, OrderPtr-discrete, in_buffer_of_peek,
}
use cpp_orderbook.OrderBook.Kept.{PoolOk}

-- The slot that `allocate` hands out, and the pool with the order in it.
module _ (pool : OrderPool) where
  abbrev pub next_slot : OrderPtr
  next_slot = record { buffer = pool.orders.buffer; index = pool.next_free_index }

  abbrev pub handed : OrderPool
  handed = record pool { next_free_index = pool.next_free_index + 1 }

  abbrev pub filled_with : Order → OrderPool
  filled_with o = poke handed next_slot o

  pub peek-handed : (q : OrderPtr) → peek handed q ≡ peek pool q
  unfolding peek
  peek-handed q = refl

  peek_elsewhere : (q : OrderPtr) → q.buffer ≢ pool.orders.buffer → peek pool q ≡ none
  unfolding peek
  peek_elsewhere q ne = ground arith

  same_ptr :
      (q : OrderPtr)
      → pool.orders.buffer ≡ q.buffer
      → pool.next_free_index ≡ q.index
      → next_slot ≡ q
  same_ptr q e f = λ i. record { buffer = e i; index = f i }

  pub slot_there : HasRoom pool → (o : Order) × (peek pool next_slot ≡ some o)
  unfolding peek
  slot_there h =
      let (o, at) = get_elem?-lt pool.orders.elements pool.next_free_index h.room in
      (o, ground (arith, at))

  module _ {slot : Order} (o : Order) (at : peek pool next_slot ≡ some slot) where
    pub at_handed : peek handed next_slot ≡ some slot
    at_handed = peek-handed next_slot ∙ at

    pub now_there : peek (filled_with o) next_slot ≡ some o
    now_there = peek-poke_self handed next_slot o at_handed

    pub other_slot : (q : OrderPtr) → next_slot ≢ q → peek (filled_with o) q ≡ peek pool q
    other_slot q ne =
        peek-poke_ne handed next_slot q o ne (in_buffer_of_peek handed next_slot at_handed)
        ∙ peek-handed q

    pub used_differs : (q : OrderPtr) → q.index < pool.next_free_index → next_slot ≢ q
    used_differs q h = λ (e : next_slot ≡ q). omega (arith, ap (λ (r : OrderPtr). r.index) e)

    -- The orders that rest in the pool rest on.
    pub rests_on :
        (s : OrderSide) (q : OrderPtr) (p : Price)
        → RestsAt pool s p q
        → RestsAt (filled_with o) s p q × (id_in pool q ≡ id_in (filled_with o) q)
    unfolding poke
    rests_on s q p r =
        let same = other_slot q (used_differs q r.in_use) in
        (
          record {
            order = r.order;
            there = same ∙ r.there;
            in_use = omega (arith, r.in_use);
            side_is = r.side_is;
            price_is = r.price_is;
            open_still = r.open_still;
            fillable = r.fillable;
          },
          ap id_or_zero (sym same),
        )

    -- The id behind any other pointer whose index is handed out.
    low_id :
        {n n' : OrderId}
        → PoolOk n pool
        → n < n'
        → (q : OrderPtr) → q.index < pool.next_free_index + 1
        → next_slot ≢ q
        → id_in pool q < n'
    low_id v h q used ne = elim (dec_lt q.index pool.next_free_index) [
      | yes low ↦ omega (arith, v.drawn q low)
      | no last ↦
          let elsewhere : q.buffer ≢ pool.orders.buffer =
            λ e. ne (same_ptr q (sym e) (omega arith)) in
          omega (arith, ap id_or_zero (peek_elsewhere q elsewhere))
    ]

    pub filled_with-PoolOk :
        {n : OrderId} (n' : OrderId)
        → PoolOk n pool
        → n ≤ o.id
        → o.id < n'
        → PoolOk n' (filled_with o)
    unfolding poke
    filled_with-PoolOk {n} n' v above next = record {
      free = λ q r free there. v.free q r (omega (arith, free)) (
          sym (
            other_slot q
              (λ (e : next_slot ≡ q). omega (arith, free, ap (λ (r : OrderPtr). r.index) e)))
          ∙ there);
      drawn = λ q used. elim (OrderPtr-discrete next_slot q) [
        | yes e ↦
            let own : id_in (filled_with o) q ≡ o.id =
              ap (id_in (filled_with o)) (sym e) ∙ ap id_or_zero now_there in
            omega (arith, own)
        | no ne ↦
            let same : id_in (filled_with o) q ≡ id_in pool q = ap id_or_zero (other_slot q ne) in
            omega (arith, same, low_id {n' = n'} v (omega arith) q used ne)
      ];
    }
