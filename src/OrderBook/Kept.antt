-- ===== src/OrderBook/Kept.antt =====
-- What matching leaves alone in a book of include/orderbook.h: the slots that the pool has not handed
-- out, the ids of the orders, the registry and the ids still to be drawn.
use cpp_orderbook.Prelude.{
  ◌≤◌, ◌<◌, ◌≡◌, refl, sym, ap, ◌∙◌, subst, length, length-set, some, arith,
}
use cpp_orderbook.Core.{OrderId}
use cpp_orderbook.Order.{Order, fresh}
use cpp_orderbook.OrderPool.{OrderPool, OrderPtr, peek, poke}
use cpp_orderbook.OrderPool.Slots.{peek-poke_ne}
use cpp_orderbook.FlatMap.{FlatMaps}
use cpp_orderbook.OrderBook.Book.{OrderBook}
use cpp_orderbook.OrderBook.Resting.{id_in, id_in-poke, in_buffer_of_peek}

pub record PoolKept (pool pool' : OrderPool) : Type 0 where
  pub same_free : pool'.next_free_index ≡ pool.next_free_index
  pub same_size : length pool'.orders.elements ≡ length pool.orders.elements
  pub same_buffer : pool'.orders.buffer ≡ pool.orders.buffer
  pub ids : id_in pool' ≡ id_in pool
  pub free_slots : (q : OrderPtr) → pool.next_free_index ≤ q.index → peek pool' q ≡ peek pool q

pub PoolKept-refl : (pool : OrderPool) → PoolKept pool pool
PoolKept-refl pool = record {
  same_free = refl;
  same_size = refl;
  same_buffer = refl;
  ids = refl;
  free_slots = λ q h. refl;
}

pub PoolKept-trans : {a b c : OrderPool} → PoolKept a b → PoolKept b c → PoolKept a c
PoolKept-trans h k = record {
  same_free = k.same_free ∙ h.same_free;
  same_size = k.same_size ∙ h.same_size;
  same_buffer = k.same_buffer ∙ h.same_buffer;
  ids = k.ids ∙ h.ids;
  free_slots = λ q free. k.free_slots q (omega (arith, h.same_free)) ∙ h.free_slots q free;
}

-- A write of an order with the same id at a slot that is handed out.
pub poke-PoolKept :
    (pool : OrderPool) (ptr : OrderPtr) {o : Order} (o' : Order)
    → peek pool ptr ≡ some o
    → ptr.index < pool.next_free_index
    → o'.id ≡ o.id
    → PoolKept pool (poke pool ptr o')
unfolding poke
poke-PoolKept pool ptr o' there used same = record {
  same_free = refl;
  same_size = length-set pool.orders.elements ptr.index o';
  same_buffer = refl;
  ids = id_in-poke pool ptr o' there same;
  free_slots = λ q free.
      peek-poke_ne pool ptr q o' (λ (e : ptr ≡ q). omega (arith, ap (λ (r : OrderPtr). r.index) e))
        (in_buffer_of_peek pool ptr there);
}

-- The slots still free hold new orders, and all ids handed out are below `n`.
pub record PoolOk (n : OrderId) (pool : OrderPool) : Type 0 where
  pub free :
      (q : OrderPtr) (o : Order)
      → pool.next_free_index ≤ q.index
      → peek pool q ≡ some o
      → (o.status ≡ fresh) × (o.quantity_filled ≡ 0)
  pub drawn : (q : OrderPtr) → q.index < pool.next_free_index → id_in pool q < n

pub PoolKept-PoolOk :
    {n : OrderId} {pool pool' : OrderPool} → PoolKept pool pool' → PoolOk n pool → PoolOk n pool'
PoolKept-PoolOk {n} k v = record {
  free = λ q o free there.
      v.free q o (omega (arith, k.same_free))
        (sym (k.free_slots q (omega (arith, k.same_free))) ∙ there);
  drawn = λ q used.
      subst (λ i. i < n) (sym (ap (λ (f : OrderPtr → OrderId). f q) k.ids))
        (v.drawn q (omega (arith, k.same_free)));
}

module _ ⦃F : FlatMaps⦄ where
  -- A book after some matching.
  pub record BookKept (b b' : OrderBook) : Type 0 where
    pub pool : PoolKept b.order_pool b'.order_pool
    pub next_id : b'.next_available_order_id ≡ b.next_available_order_id
    pub id_block : b'.order_id_block ≡ b.order_id_block
    pub registry : b'.order_registry ≡ b.order_registry

  pub BookKept-refl : (b : OrderBook) → BookKept b b
  BookKept-refl b = record {
    pool = PoolKept-refl b.order_pool;
    next_id = refl;
    id_block = refl;
    registry = refl;
  }

  pub BookKept-trans : {a b c : OrderBook} → BookKept a b → BookKept b c → BookKept a c
  BookKept-trans h k = record {
    pool = PoolKept-trans h.pool k.pool;
    next_id = k.next_id ∙ h.next_id;
    id_block = k.id_block ∙ h.id_block;
    registry = k.registry ∙ h.registry;
  }
