-- ===== src/OrderBook/Withdrawing.antt =====
-- `cancel_order` of include/orderbook.h, whole.
use cpp_orderbook.Prelude.{
  suc, ◌≡◌, ◌≢◌, refl, ap, inl, inr, true, false, Bool-cases, Option, none, some, ok, arith,
  if◌then◌else◌,
}
use cpp_orderbook.Core.{OrderId, Price}
use cpp_orderbook.Clock.{Clock, now}
use cpp_orderbook.Order
use cpp_orderbook.Order.{Order, OrderSide, buy, sell, is_closed, cancelled}
use cpp_orderbook.OrderPool.{OrderPool, OrderPtr, peek, poke}
use cpp_orderbook.OrderPool.Slots.{load-ok, store-ok}
use cpp_orderbook.FlatMap
use cpp_orderbook.FlatMap.{FlatMaps}
use cpp_orderbook.SortedMap
use cpp_orderbook.SortedMap.{SortedMap}
use cpp_orderbook.PriceLevel
use cpp_orderbook.PriceLevel.{PriceLevel}
use cpp_orderbook.OrderBook.Book.{
  OrderBook, compare_of, levels_of, with_levels, remove_price_level_if_empty,
}
use cpp_orderbook.OrderBook.Cancelling.{cancel_order_dispatcher, cancel_registered, cancel_order}
use cpp_orderbook.OrderBook.Resting.{id_in, RestsAt}
use cpp_orderbook.OrderBook.Entering.{first_key}
use cpp_orderbook.OrderBook.Round.{BookOk}
use cpp_orderbook.OrderBook.Loop.{IsUncrossed, orders_in}
use cpp_orderbook.OrderBook.Uncrossed.{Below, Below-IsUncrossed, IsUncrossed-Below}
use cpp_orderbook.OrderBook.Priority.{Among, in_priority}
use cpp_orderbook.OrderBook.Registered.{on_both_sides}
use cpp_orderbook.OrderBook.Leaving.{written, SideOk-other}
use cpp_orderbook.OrderBook.Pruning.{NoBetter, Left}

-- The order as `cancel` leaves it.
abbrev pub cancelled_at : Order → Clock → Order
cancelled_at o c = record o { updated_time = (now c).0; status = cancelled }

cancel_open :
    (o : Order) (c : Clock)
    → is_closed o.status ≡ false
    → Order.cancel o c ≡ (true, cancelled_at o c, (now c).1)
unfolding Order.cancel
cancel_open o c h = rw h refl

module _ ⦃F : FlatMaps⦄ where
  worse_bid : (q q' a : Option Price) → NoBetter buy q' q → Below q a → Below q' a
  worse_bid q none a n h = tt
  worse_bid none (some p') a n h = absurd n
  worse_bid (some p) (some p') none n h = tt
  worse_bid (some p) (some p') (some x) n h = ground arith

  worse_ask : (q q' b : Option Price) → NoBetter sell q' q → Below b q → Below b q'
  worse_ask q q' none n h = tt
  worse_ask q none (some x) n h = tt
  worse_ask none (some p') (some x) n h = absurd n
  worse_ask (some p) (some p') (some x) n h = ground arith

  pub dispatcher_run :
      (s : OrderSide) (ptr : OrderPtr) (b : OrderBook) (pool : OrderPool) (o : Order)
      {l l' : PriceLevel} {m' : SortedMap PriceLevel}
      → peek pool ptr ≡ some o
      → SortedMap.find (compare_of s) o.price (levels_of s b) ≡ some l
      → PriceLevel.remove_order o.id l ≡ ok (true, l')
      → SortedMap.find
          (compare_of s)
          o.price
          (SortedMap.put (compare_of s) o.price l' (levels_of s b))
        ≡ some l'
      → (if PriceLevel.empty l'
          then SortedMap.erase
              (compare_of s)
              o.price
              (SortedMap.put (compare_of s) o.price l' (levels_of s b))
          else SortedMap.put (compare_of s) o.price l' (levels_of s b))
        ≡ m'
      → cancel_order_dispatcher s ptr (record b { order_pool = pool })
        ≡ ok (with_levels s m' (record b { order_pool = pool }))
  unfolding cancel_order_dispatcher remove_price_level_if_empty
  dispatcher_run buy ptr b pool o {l} {l'} there finds removes again prunes =
      rw (load-ok pool ptr there, finds, removes, again)
        (elim (Bool-cases (PriceLevel.empty l')) [
          | inl e ↦ rw e (ap (λ m. ok (record b { order_pool = pool; bids = m })) (rw e at prunes))
          | inr e ↦ rw e (ap (λ m. ok (record b { order_pool = pool; bids = m })) (rw e at prunes))
        ])
  dispatcher_run sell ptr b pool o {l} {l'} there finds removes again prunes =
      rw (load-ok pool ptr there, finds, removes, again)
        (elim (Bool-cases (PriceLevel.empty l')) [
          | inl e ↦ rw e (ap (λ m. ok (record b { order_pool = pool; asks = m })) (rw e at prunes))
          | inr e ↦ rw e (ap (λ m. ok (record b { order_pool = pool; asks = m })) (rw e at prunes))
        ])

  -- The book without the order, over the pool in which it is marked.
  pub record LeftBook (ptr : OrderPtr) (b₁ b₂ b : OrderBook) : Type 0 where
    pub book_ok : BookOk b₂
    pub uncrossed : IsUncrossed b₂
    pub one_less : orders_in b ≡ suc (orders_in b₂)
    pub same_pool : b₂.order_pool ≡ b₁.order_pool
    pub same_next : b₂.next_available_order_id ≡ b.next_available_order_id
    pub same_block : b₂.order_id_block ≡ b.order_id_block
    pub same_registry : b₂.order_registry ≡ b.order_registry
    pub stay :
        (t : OrderSide) (q : OrderPtr)
        → id_in b.order_pool q ≢ id_in b.order_pool ptr
        → Among q (in_priority (levels_of t b))
        → Among q (in_priority (levels_of t b₂))

  pub leaves_book :
      (b : OrderBook) (s : OrderSide) (p : Price) (ptr : OrderPtr)
      (r : RestsAt b.order_pool s p ptr) (o' : Order) (same : o'.id ≡ r.order.id)
      → BookOk b
      → IsUncrossed b
      → {m' : SortedMap PriceLevel} → Left ptr r o' same (levels_of s b) m'
      → LeftBook ptr
          (record b { order_pool = written ptr r o' same })
          (with_levels s m' (record b { order_pool = written ptr r o' same }))
          b
  leaves_book b buy p ptr r o' same v apart {m'} t = record {
    book_ok = record {
      bids_ok = t.side_ok;
      asks_ok = SideOk-other ptr r o' same b.asks (λ e. cc) v.asks_ok;
    };
    uncrossed =
        Below-IsUncrossed (record b { order_pool = written ptr r o' same; bids = m' })
          (worse_bid (first_key b.bids) (first_key m') (first_key b.asks) t.best
            (IsUncrossed-Below b apart));
    one_less = omega (arith, t.one_less);
    same_pool = refl;
    same_next = refl;
    same_block = refl;
    same_registry = refl;
    stay =
        on_both_sides b (record b { order_pool = written ptr r o' same; bids = m' })
          {P = λ q. id_in b.order_pool q ≢ id_in b.order_pool ptr} t.stay (λ q _ h. h);
  }
  leaves_book b sell p ptr r o' same v apart {m'} t = record {
    book_ok = record {
      bids_ok = SideOk-other ptr r o' same b.bids (λ e. cc) v.bids_ok;
      asks_ok = t.side_ok;
    };
    uncrossed =
        Below-IsUncrossed (record b { order_pool = written ptr r o' same; asks = m' })
          (worse_ask (first_key b.asks) (first_key m') (first_key b.bids) t.best
            (IsUncrossed-Below b apart));
    one_less = omega (arith, t.one_less);
    same_pool = refl;
    same_next = refl;
    same_block = refl;
    same_registry = refl;
    stay =
        on_both_sides b (record b { order_pool = written ptr r o' same; asks = m' })
          {P = λ q. id_in b.order_pool q ≢ id_in b.order_pool ptr} (λ q _ h. h) t.stay;
  }

  pub cancel_run :
      (id : OrderId) (ptr : OrderPtr) (b : OrderBook) (c : Clock) (o : Order) {b₂ : OrderBook}
      → FlatMap.find id b.order_registry ≡ some ptr
      → peek b.order_pool ptr ≡ some o
      → is_closed o.status ≡ false
      → cancel_order_dispatcher o.side ptr
          (record b { order_pool = poke b.order_pool ptr (cancelled_at o c) })
        ≡ ok b₂
      → cancel_order id b c ≡ ok (true, b₂, (now c).1)
  unfolding cancel_order cancel_registered
  cancel_run id ptr b c o registered there is_open dispatched =
      rw
        (
          cancel_order,
          registered,
          load-ok b.order_pool ptr there,
          cancel_open o c is_open,
          store-ok b.order_pool ptr (cancelled_at o c) there,
          cancel_open o c is_open,
          dispatched,
        )
        refl
