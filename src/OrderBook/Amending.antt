-- ===== src/OrderBook/Amending.antt =====
-- The registry of include/orderbook.h when an order is cancelled, or written in its place.
use native.Mathlib.Decide.{ℕ_discrete}
use cpp_orderbook.Prelude.{◌≡◌, ◌≢◌, ◌<◌, sym, ap, ◌∙◌, subst, inl, inr, some, arith}
use cpp_orderbook.Core.{OrderId}
use cpp_orderbook.Order.{Order, OrderSide}
use cpp_orderbook.OrderPool.{OrderPool, OrderPtr, peek, poke}
use cpp_orderbook.OrderPool.Slots.{peek-poke_self, peek-poke_ne, next_free-poke}
use cpp_orderbook.FlatMap
use cpp_orderbook.FlatMap.{FlatMaps}
use cpp_orderbook.OrderBook.Book.{OrderBook, levels_of}
use cpp_orderbook.OrderBook.Resting.{id_in, id_or_zero, in_buffer_of_peek}
use cpp_orderbook.OrderBook.Priority.{Among, in_priority}
use cpp_orderbook.OrderBook.Registered.{Placed, RegistryOk, IsPlaced}

module _ ⦃F : FlatMaps⦄ (b b₂ : OrderBook) (ptr : OrderPtr) (o o' : Order)
    (there : peek b.order_pool ptr ≡ some o) (same_id : o'.id ≡ o.id)
    (pool_is : b₂.order_pool ≡ poke b.order_pool ptr o')
    (same_registry : b₂.order_registry ≡ b.order_registry) where
  now_there : peek b₂.order_pool ptr ≡ some o'
  now_there = ap (λ p. peek p ptr) pool_is ∙ peek-poke_self b.order_pool ptr o' there

  others_there : (q : OrderPtr) → ptr ≢ q → peek b₂.order_pool q ≡ peek b.order_pool q
  others_there q ne =
      ap (λ p. peek p q) pool_is
      ∙ peek-poke_ne b.order_pool ptr q o' ne (in_buffer_of_peek b.order_pool ptr there)

  in_use_still :
      (q : OrderPtr)
      → q.index < b.order_pool.next_free_index
      → q.index < b₂.order_pool.next_free_index
  in_use_still q h =
      omega (
        arith,
        ap (λ (p : OrderPool). p.next_free_index) pool_is,
        next_free-poke b.order_pool ptr o',
      )

  written-Placed : (id : OrderId) → Placed b id ptr → IsPlaced b₂ ptr o' → Placed b₂ id ptr
  written-Placed id p h =
      let same : o ≡ p.order = ground (arith, there, p.there) in
      record {
        order = o';
        there = now_there;
        owner = same_id ∙ ap (λ (x : Order). x.id) same ∙ p.owner;
        placed = h;
      }

  -- The order becomes `o'`, which is placed, and all other orders stay where they are.
  pub RegistryOk-amended :
      IsPlaced b₂ ptr o'
      → ((s : OrderSide) (q : OrderPtr)
          → id_in b.order_pool q ≢ id_in b.order_pool ptr
          → Among q (in_priority (levels_of s b))
          → Among q (in_priority (levels_of s b₂)))
      → FlatMap.find o.id b.order_registry ≡ some ptr
      → RegistryOk b
      → RegistryOk b₂
  RegistryOk-amended placed stay registered v = record {
    in_use = λ id q found.
        in_use_still q (v.in_use id q (ap (FlatMap.find id) (sym same_registry) ∙ found));
    entries = λ id q found.
        let was = ap (FlatMap.find id) (sym same_registry) ∙ found in
        let p = v.entries id q was in
        elim (ℕ_discrete o.id id) [
          | yes e ↦
              let same : ptr ≡ q =
                let here = subst (λ i. FlatMap.find i b.order_registry ≡ some ptr) e registered in
                cc (here, was) in
              subst (Placed b₂ id) same
                (written-Placed id (subst (Placed b id) (sym same) p) placed)
          | no ne ↦
              let apart : id_in b.order_pool q ≢ id_in b.order_pool ptr =
                λ e. ne (sym (ap id_or_zero there) ∙ sym e ∙ ap id_or_zero p.there ∙ p.owner) in
              record {
                order = p.order;
                there = others_there q (λ e. apart (ap (id_in b.order_pool) (sym e))) ∙ p.there;
                owner = p.owner;
                placed = elim p.placed [
                  | inl closed ↦ inl closed
                  | inr among ↦ inr (stay p.order.side q apart among)
                ];
              }
        ];
  }
