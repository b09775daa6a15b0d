-- ===== src/OrderBook/Cancelled.antt =====
-- What `cancel_order` of include/orderbook.h promises.
use cpp_orderbook.Prelude.{
  suc, ◌≤◌, length, length-set, Bool, Bool-cases, Option-cases, ◌≡◌, refl, sym, ap, ◌∙◌, subst, ◌⊎◌,
  inl, inr, set-same, true, false, none, some, ok, arith,
}
use cpp_orderbook.Core.{OrderId}
use cpp_orderbook.Clock.{Clock, now}
use cpp_orderbook.IdAllocator.{OrderIdBlock}
use cpp_orderbook.Order
use cpp_orderbook.Order.{Order, is_closed}
use cpp_orderbook.OrderPool.{OrderPool, OrderPtr, peek, poke}
use cpp_orderbook.OrderPool.Slots.{load-ok, store-ok, peek-poke_self}
use cpp_orderbook.FlatMap
use cpp_orderbook.FlatMap.{FlatMaps}
use cpp_orderbook.SortedMap.{SortedMap}
use cpp_orderbook.PriceLevel
use cpp_orderbook.PriceLevel.{PriceLevel}
use cpp_orderbook.OrderBook.Book.{OrderBook, Surroundings, levels_of, with_levels}
use cpp_orderbook.OrderBook.Cancelling.{cancel_order_dispatcher, cancel_registered, cancel_order}
use cpp_orderbook.OrderBook.Resting.{id_or_zero, RestsAt}
use cpp_orderbook.OrderBook.Kept.{poke-PoolKept, PoolKept-PoolOk, PoolOk}
use cpp_orderbook.OrderBook.Loop.{IsUncrossed, orders_in}
use cpp_orderbook.OrderBook.Accepting.{Consistent}
use cpp_orderbook.OrderBook.Pruning.{Left, leave-Left}
use cpp_orderbook.OrderBook.Withdrawing.{cancelled_at, dispatcher_run, leaves_book, cancel_run}
use cpp_orderbook.OrderBook.Registered.{open-Among}
use cpp_orderbook.OrderBook.Amending.{RegistryOk-amended}
use cpp_orderbook.OrderBook.Standing.{Among-Stands, Stands, Stands-RestsAt}
use cpp_orderbook.OrderBook.Taking.{side_of}

-- A slot that takes what it holds.
poke-same :
    (pool : OrderPool) (ptr : OrderPtr) {o : Order}
    → peek pool ptr ≡ some o
    → poke pool ptr o ≡ pool
unfolding peek poke
poke-same pool ptr {o} h =
    ap (λ es. record pool { orders = record pool.orders { elements = es } })
      (set-same pool.orders.elements ptr.index (ground arith))

cancel_closed :
    (o : Order) (c : Clock) → is_closed o.status ≡ true → Order.cancel o c ≡ (false, o, c)
unfolding Order.cancel
cancel_closed o c h = rw h refl

module _ ⦃F : FlatMaps⦄ where
  unknown_refused :
      (id : OrderId) (b : OrderBook) (c : Clock)
      → FlatMap.find id b.order_registry ≡ none
      → cancel_order id b c ≡ ok (false, b, c)
  unfolding cancel_order
  unknown_refused id b c h = rw (cancel_order, h) refl

  closed_refused :
      (id : OrderId) (ptr : OrderPtr) (b : OrderBook) (c : Clock) (o : Order)
      → FlatMap.find id b.order_registry ≡ some ptr
      → peek b.order_pool ptr ≡ some o
      → is_closed o.status ≡ true
      → cancel_order id b c ≡ ok (false, b, c)
  unfolding cancel_order cancel_registered
  closed_refused id ptr b c o registered there closed =
      rw
        (
          cancel_order,
          registered,
          load-ok b.order_pool ptr there,
          cancel_closed o c closed,
          store-ok b.order_pool ptr o there,
          cancel_closed o c closed,
        )
        (ap (λ p. ok (false, record b { order_pool = p }, c)) (poke-same b.order_pool ptr there))

  -- The dispatcher on the order in its level.
  dispatched :
      (b : OrderBook) (ptr : OrderPtr) (t : Stands b ptr) (c : Clock)
      (r : RestsAt b.order_pool t.order.side t.order.price ptr) (same : t.order.id ≡ r.order.id)
      {m' : SortedMap PriceLevel}
      → Left ptr r (cancelled_at t.order c) same (levels_of t.order.side b) m'
      → cancel_order_dispatcher t.order.side ptr
          (record b { order_pool = poke b.order_pool ptr (cancelled_at t.order c) })
        ≡ ok (
            with_levels t.order.side m'
              (record b { order_pool = poke b.order_pool ptr (cancelled_at t.order c) }))
  dispatched b ptr t c r same left =
      let o' = cancelled_at t.order c in
      dispatcher_run t.order.side ptr b (poke b.order_pool ptr o') o'
        (peek-poke_self b.order_pool ptr o' t.there) left.finds
        (subst (λ i. PriceLevel.remove_order i left.level ≡ ok (true, left.level'))
          (ap id_or_zero t.there) left.removes)
        left.finds_again left.prunes

  cancel_standing :
      (id : OrderId) (ptr : OrderPtr) (b : OrderBook) (w : Surroundings)
      → Consistent b w
      → IsUncrossed b
      → FlatMap.find id b.order_registry ≡ some ptr
      → (t : Stands b ptr)
      → (b' : OrderBook) × (cancel_order id b w.clock ≡ ok (true, b', (now w.clock).1))
        × Consistent b' (record w { clock = (now w.clock).1 })
        × IsUncrossed b'
        × (b'.order_pool ≡ poke b.order_pool ptr (cancelled_at t.order w.clock))
        × (orders_in b ≡ suc (orders_in b'))
        × (b'.order_registry ≡ b.order_registry)
        × (cancel_order id b' (now w.clock).1 ≡ ok (false, b', (now w.clock).1))
  cancel_standing id ptr b w v apart registered t =
      let s = t.order.side in
      let o' = cancelled_at t.order w.clock in
      let (r, same) = Stands-RestsAt b ptr v.book_ok t in
      let same_id : o'.id ≡ r.order.id = ap (λ (o : Order). o.id) (sym same) in
      let pool' = poke b.order_pool ptr o' in
      let (m', left) =
        leave-Left ptr r o' same_id (levels_of s b) (side_of s b v.book_ok) t.found t.among in
      let z = leaves_book b s t.order.price ptr r o' same_id v.book_ok apart left in
      let b₁ : OrderBook = record b { order_pool = pool' } in
      let b₂ = with_levels s m' b₁ in
      let p = v.registry_ok.entries id ptr registered in
      let one_order : t.order ≡ p.order = ground (arith, t.there, p.there) in
      let own : t.order.id ≡ id = ap (λ (o : Order). o.id) one_order ∙ p.owner in
      let marked : peek b₂.order_pool ptr ≡ some o' =
        ap (λ p. peek p ptr) z.same_pool ∙ peek-poke_self b.order_pool ptr o' t.there in
      (
        b₂,
        cancel_run id ptr b w.clock t.order registered t.there
            (subst (λ (o : Order). is_closed o.status ≡ false) same r.open_still)
            (dispatched b ptr t w.clock r same_id left),
        record {
          book_ok = z.book_ok;
          pool_ok =
              subst (λ p. PoolOk b₂.next_available_order_id p) (sym z.same_pool)
                (subst (λ n. PoolOk n pool') (sym z.same_next)
                  (PoolKept-PoolOk (poke-PoolKept b.order_pool ptr o' r.there r.in_use same_id)
                    v.pool_ok));
          ids_ok = record {
            within = omega (
              arith,
              v.ids_ok.within,
              z.same_next,
              ap (λ (k : OrderIdBlock). k.end) z.same_block,
            );
            below = omega (arith, v.ids_ok.below, ap (λ (k : OrderIdBlock). k.end) z.same_block);
          };
          registry_ok =
              RegistryOk-amended b b₂ ptr t.order o' t.there refl z.same_pool z.same_registry
                (inl refl) z.stay
                (subst (λ i. FlatMap.find i b.order_registry ≡ some ptr) (sym own) registered)
                v.registry_ok;
        },
        z.uncrossed,
        z.same_pool,
        z.one_less,
        z.same_registry,
        closed_refused id ptr b₂ (now w.clock).1 o'
            (ap (FlatMap.find id) z.same_registry ∙ registered) marked refl,
      )

  -- `cancel_order` on a consistent, uncrossed book, of an id that is registered for an order that is
  -- neither filled nor cancelled: it returns true; the book is consistent and uncrossed again, the
  -- order is marked cancelled at the time read and no other slot of the pool changes, one order less
  -- is in the book, the registry stays, and to cancel the id again returns false and changes nothing.
  pub cancel_order-Consistent :
      (id : OrderId) (ptr : OrderPtr) (o : Order) (b : OrderBook) (w : Surroundings)
      → Consistent b w
      → IsUncrossed b
      → FlatMap.find id b.order_registry ≡ some ptr
      → peek b.order_pool ptr ≡ some o
      → is_closed o.status ≡ false
      → (b' : OrderBook) × (cancel_order id b w.clock ≡ ok (true, b', (now w.clock).1))
        × Consistent b' (record w { clock = (now w.clock).1 })
        × IsUncrossed b'
        × (b'.order_pool ≡ poke b.order_pool ptr (cancelled_at o w.clock))
        × (orders_in b ≡ suc (orders_in b'))
        × (b'.order_registry ≡ b.order_registry)
        × (cancel_order id b' (now w.clock).1 ≡ ok (false, b', (now w.clock).1))
  cancel_order-Consistent id ptr o b w v apart registered there is_open =
      let among = open-Among id ptr o b v.registry_ok registered there is_open in
      let (t, is_o) = Among-Stands b ptr o v.book_ok there among in
      let (b', runs, ok', uncrossed, pool_is, less, registry, again) =
        cancel_standing id ptr b w v apart registered t in
      (
        b',
        runs,
        ok',
        uncrossed,
        pool_is ∙ ap (λ x. poke b.order_pool ptr (cancelled_at x w.clock)) is_o,
        less,
        registry,
        again,
      )

  -- `cancel_order` of an id that the registry does not have, or whose order is filled or cancelled,
  -- returns false, changes nothing and does not read the clock.
  pub cancel_order_refuses :
      (id : OrderId) (b : OrderBook) (c : Clock)
      → (FlatMap.find id b.order_registry ≡ none)
        ⊎ ((ptr : OrderPtr) × (o : Order) × (FlatMap.find id b.order_registry ≡ some ptr)
            × (peek b.order_pool ptr ≡ some o)
            × (is_closed o.status ≡ true))
      → cancel_order id b c ≡ ok (false, b, c)
  cancel_order_refuses id b c h = elim h [
    | inl unknown ↦ unknown_refused id b c unknown
    | inr (ptr, o, registered, there, closed) ↦ closed_refused id ptr b c o registered there closed
  ]

  -- The pool has as many slots as before, and as many are left.
  pub record SameRoom (b b' : OrderBook) : Type 0 where
    pub same_free : b'.order_pool.next_free_index ≡ b.order_pool.next_free_index
    pub same_size : length b'.order_pool.orders.elements ≡ length b.order_pool.orders.elements

  SameRoom-refl : (b : OrderBook) → SameRoom b b
  SameRoom-refl b = record { same_free = refl; same_size = refl }

  SameRoom-poke :
      (b b' : OrderBook) (ptr : OrderPtr) (o : Order)
      → b'.order_pool ≡ poke b.order_pool ptr o
      → SameRoom b b'
  unfolding poke
  SameRoom-poke b b' ptr o pool_is = record {
    same_free = ap (λ (p : OrderPool). p.next_free_index) pool_is;
    same_size =
        ap (λ (p : OrderPool). length p.orders.elements) pool_is
        ∙ length-set b.order_pool.orders.elements ptr.index o;
  }

  -- `cancel_order` on a consistent, uncrossed book, of any id: it returns, and the book is consistent
  -- and uncrossed again, with at most as many orders as before, the same registry, and as many slots
  -- left in its pool.
  pub cancel_order_total :
      (id : OrderId) (b : OrderBook) (w : Surroundings)
      → Consistent b w
      → IsUncrossed b
      → (success : Bool) × (b' : OrderBook) × (c' : Clock) × (cancel_order id b w.clock
          ≡ ok (success, b', c'))
        × Consistent b' (record w { clock = c' })
        × IsUncrossed b'
        × (orders_in b' ≤ orders_in b)
        × (b'.order_registry ≡ b.order_registry)
        × SameRoom b b'
  cancel_order_total id b w v apart = elim (Option-cases (FlatMap.find id b.order_registry)) [
    | inl unknown ↦ (
      false,
      b,
      w.clock,
      unknown_refused id b w.clock unknown,
      v,
      apart,
      omega arith,
      refl,
      SameRoom-refl b,
    )
    | inr (ptr, registered) ↦
        let p = v.registry_ok.entries id ptr registered in
        elim (Bool-cases (is_closed p.order.status)) [
          | inl closed ↦ (
            false,
            b,
            w.clock,
            closed_refused id ptr b w.clock p.order registered p.there closed,
            v,
            apart,
            omega arith,
            refl,
            SameRoom-refl b,
          )
          | inr is_open ↦
              let (b', runs, ok', uncrossed, pool_is, less, registry, _) =
                cancel_order-Consistent id ptr p.order b w v apart registered p.there is_open in
              (
                true,
                b',
                (now w.clock).1,
                runs,
                ok',
                uncrossed,
                omega (arith, less),
                registry,
                SameRoom-poke b b' ptr (cancelled_at p.order w.clock) pool_is,
              )
        ]
  ]
