-- ===== src/OrderBook/Recording.antt =====
-- The registry of include/orderbook.h when `add_order` records a new order.
use native.Mathlib.Decide.{ℕ_discrete}
use cpp_orderbook.Prelude.{◌+◌, ◌≡◌, ◌≢◌, ◌<◌, refl, sym, ap, ◌∙◌, subst, inl, inr, some, arith}
use cpp_orderbook.Core.{OrderId}
use cpp_orderbook.Order.{Order, OrderSide}
use cpp_orderbook.OrderPool.{OrderPool, OrderPtr, peek}
use cpp_orderbook.OrderPool.Slots.{next_free-poke}
use cpp_orderbook.FlatMap
use cpp_orderbook.FlatMap.{FlatMaps, FlatMap}
use cpp_orderbook.OrderBook.Book.{OrderBook, levels_of}
use cpp_orderbook.OrderBook.Priority.{Among, in_priority}
use cpp_orderbook.OrderBook.Kept.{BookKept}
use cpp_orderbook.OrderBook.NewSlot.{
  next_slot, handed, filled_with, now_there, other_slot, used_differs,
}
use cpp_orderbook.OrderBook.Registered.{Placed, RegistryOk, KeepsPlaced}

module _ ⦃F : FlatMaps⦄ where
  pub RegistryOk-kept :
      (b b' : OrderBook) → RegistryOk b → KeepsPlaced b b' → BookKept b b' → RegistryOk b'
  RegistryOk-kept b b' v k same = record {
    in_use = λ id ptr found.
        let was = v.in_use id ptr (ap (FlatMap.find id) (sym same.registry) ∙ found) in
        omega (arith, same.pool.same_free);
    entries = λ id ptr found.
        k.moves id ptr (v.entries id ptr (ap (FlatMap.find id) (sym same.registry) ∙ found));
  }

  -- A book with one more order, in the next slot, and in the registry under its id.
  pub record Recorded (b b₂ : OrderBook) (o : Order) : Type 0 where
    pub pool_is : b₂.order_pool ≡ filled_with b.order_pool o
    pub registry_is :
        b₂.order_registry ≡ FlatMap.assign o.id (next_slot b.order_pool) b.order_registry
    pub joins : Among (next_slot b.order_pool) (in_priority (levels_of o.side b₂))
    pub stay :
        (s : OrderSide) (q : OrderPtr)
        → Among q (in_priority (levels_of s b))
        → Among q (in_priority (levels_of s b₂))

  module _ (b b₂ : OrderBook) (o : Order) (r : Recorded b b₂ o) {slot : Order}
      (at : peek b.order_pool (next_slot b.order_pool) ≡ some slot) where
    new-Placed : Placed b₂ o.id (next_slot b.order_pool)
    new-Placed = record {
      order = o;
      there = ap (λ p. peek p (next_slot b.order_pool)) r.pool_is ∙ now_there b.order_pool o at;
      owner = refl;
      placed = inr r.joins;
    }

    old-Placed :
        (id : OrderId) (ptr : OrderPtr)
        → ptr.index < b.order_pool.next_free_index
        → Placed b id ptr
        → Placed b₂ id ptr
    old-Placed id ptr used p = record {
      order = p.order;
      there =
          ap (λ l. peek l ptr) r.pool_is
          ∙ other_slot b.order_pool o at ptr (used_differs b.order_pool o at ptr used)
          ∙ p.there;
      owner = p.owner;
      placed = elim p.placed [
        | inl closed ↦ inl closed
        | inr among ↦ inr (r.stay p.order.side ptr among)
      ];
    }

    one_more_slot : b₂.order_pool.next_free_index ≡ b.order_pool.next_free_index + 1
    one_more_slot =
        ap (λ (p : OrderPool). p.next_free_index) r.pool_is
        ∙ next_free-poke (handed b.order_pool) (next_slot b.order_pool) o

    pub RegistryOk-recorded : RegistryOk b → RegistryOk b₂
    RegistryOk-recorded v = record {
      in_use = λ id ptr found. elim (ℕ_discrete o.id id) [
        | yes e ↦
            let new : ptr ≡ next_slot b.order_pool = is_new id ptr e found in
            omega (arith, one_more_slot, ap (λ (p : OrderPtr). p.index) new)
        | no ne ↦ omega (arith, one_more_slot, v.in_use id ptr (is_old id ptr ne found))
      ];
      entries = λ id ptr found. elim (ℕ_discrete o.id id) [
        | yes e ↦
            subst (Placed b₂ id) (sym (is_new id ptr e found))
              (subst (λ i. Placed b₂ i (next_slot b.order_pool)) e new-Placed)
        | no ne ↦
            let was = is_old id ptr ne found in
            old-Placed id ptr (v.in_use id ptr was) (v.entries id ptr was)
      ];
    }
      where
        is_old :
            (id : OrderId) (ptr : OrderPtr)
            → o.id ≢ id
            → FlatMap.find id b₂.order_registry ≡ some ptr
            → FlatMap.find id b.order_registry ≡ some ptr
        is_old id ptr ne found =
            sym (F.find_assign_ne o.id id (next_slot b.order_pool) b.order_registry ne)
            ∙ ap (FlatMap.find id) (sym r.registry_is)
            ∙ found

        is_new :
            (id : OrderId) (ptr : OrderPtr)
            → o.id ≡ id
            → FlatMap.find id b₂.order_registry ≡ some ptr
            → ptr ≡ next_slot b.order_pool
        is_new id ptr e found =
            let own : FlatMap.find id b₂.order_registry ≡ some (next_slot b.order_pool) =
              ap (FlatMap.find id) r.registry_is
              ∙ subst
                  (λ i.
                    FlatMap.find i (FlatMap.assign o.id (next_slot b.order_pool) b.order_registry)
                    ≡ some (next_slot b.order_pool))
                  e (F.find_assign_self o.id (next_slot b.order_pool) b.order_registry) in
            cc (own, found)
