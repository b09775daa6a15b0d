-- ===== src/OrderBook/Exchanging.antt =====
-- The two orders that trade in a round of the loop of `try_match` of include/orderbook.h.
use cpp_orderbook.FlatMap.{FlatMaps}
use cpp_orderbook.Prelude.{
  ◌+◌, ◌-◌, ◌≤◌, ◌↔◌, min, ◌<◌, ◌≡◌, ◌≢◌, refl, sym, ◌∙◌, subst, List, ◌∷◌, ◌⊎◌, false, some, arith,
}
use cpp_orderbook.Core.{Price, Quantity}
use cpp_orderbook.Clock.{Clock, now}
use cpp_orderbook.Order.{Order, OrderSide, buy, sell, is_closed, is_fully_filled, fully_filled}
use cpp_orderbook.Order.Fill.{IsFillable, filled_by}
use cpp_orderbook.OrderPool.{OrderPool, OrderPtr, peek, poke}
use cpp_orderbook.OrderPool.Slots.{next_free-poke, peek-poke_self, peek-poke_ne}
use cpp_orderbook.OrderBook.Priority.{in_priority, after_trade}
use cpp_orderbook.OrderBook.Book.{OrderBook}
use cpp_orderbook.OrderBook.Resting.{
  id_in, RestsAt, sides_differ, id_in-poke, RestsAt-poke, in_buffer_of_peek,
}
use cpp_orderbook.OrderBook.Trade.{traded, traded_pool, filled_by-IsFillable, filled_by_open}
use cpp_orderbook.OrderBook.Kept.{PoolKept, PoolKept-trans, poke-PoolKept}
use cpp_orderbook.OrderBook.Side.{Traded}

-- The two resting orders of a trade.
module _ {pool : OrderPool} {p q : Price} (b a : OrderPtr) (c : Clock) (rb : RestsAt pool buy p b)
    (ra : RestsAt pool sell q a) where
  abbrev bid' : Order
  bid' = filled_by rb.order (traded rb.order ra.order) c

  abbrev ask' : Order
  ask' = filled_by ra.order (traded rb.order ra.order) (now c).1

  abbrev pool' : OrderPool
  pool' = traded_pool pool b a rb.order ra.order c

  pub apart : b ≢ a
  apart = sides_differ rb ra (λ e. cc)

  ask_still : peek (poke pool b bid') a ≡ some ra.order
  ask_still = peek-poke_ne pool b a bid' apart (in_buffer_of_peek pool b rb.there) ∙ ra.there

  ids_kept : id_in pool' ≡ id_in pool
  ids_kept =
      id_in-poke (poke pool b bid') a ask' ask_still refl ∙ id_in-poke pool b bid' rb.there refl

  in_use_still : (r : OrderPtr) → r.index < pool.next_free_index → r.index < pool'.next_free_index
  in_use_still r h =
      subst (λ n. r.index < n)
        (sym (next_free-poke (poke pool b bid') a ask' ∙ next_free-poke pool b bid')) h

  pub trade-PoolKept : PoolKept pool pool'
  trade-PoolKept = PoolKept-trans (poke-PoolKept pool b bid' rb.there rb.in_use refl) (
      poke-PoolKept (poke pool b bid') a ask' ask_still
        (subst (λ n. a.index < n) (sym (next_free-poke pool b bid')) ra.in_use) refl)

  pub trade_others : (r : OrderPtr) → b ≢ r → a ≢ r → peek pool' r ≡ peek pool r
  trade_others r not_b not_a =
      peek-poke_ne (poke pool b bid') a r ask' not_a
        (in_buffer_of_peek (poke pool b bid') a ask_still)
      ∙ peek-poke_ne pool b r bid' not_b (in_buffer_of_peek pool b rb.there)

  pub bid-Traded : Traded pool pool' buy p b bid'
  bid-Traded = record {
    ids = ids_kept;
    there =
        peek-poke_ne (poke pool b bid') a b ask' (λ e. apart (sym e))
          (in_buffer_of_peek (poke pool b bid') a ask_still)
        ∙ peek-poke_self pool b bid' rb.there;
    in_use = in_use_still b rb.in_use;
    side_is = rb.side_is;
    price_is = rb.price_is;
    fillable = filled_by-IsFillable rb.order (traded rb.order ra.order) c (omega arith) rb.fillable;
    done_or_open = filled_by_open rb.order (traded rb.order ra.order) c;
    others = λ r t rr ne.
        RestsAt-poke a r ask' ask_still (sides_differ ra rr (λ e. cc))
          (RestsAt-poke b r bid' rb.there ne rr);
  }

  pub ask-Traded : Traded pool pool' sell q a ask'
  ask-Traded = record {
    ids = ids_kept;
    there = peek-poke_self (poke pool b bid') a ask' ask_still;
    in_use = in_use_still a ra.in_use;
    side_is = ra.side_is;
    price_is = ra.price_is;
    fillable =
        filled_by-IsFillable ra.order (traded rb.order ra.order) (now c).1 (omega arith)
          ra.fillable;
    done_or_open = filled_by_open ra.order (traded rb.order ra.order) (now c).1;
    others = λ r t rr ne.
        RestsAt-poke a r ask' ask_still ne
          (RestsAt-poke b r bid' rb.there (sides_differ rb rr (λ e. cc)) rr);
  }

module _ ⦃F : FlatMaps⦄ where
  -- What a trade of that size does to the order of one side: that order stays in the pool, with so
  -- much more filled, which makes it filled when it wants nothing more, and leaves it open otherwise.
  pub record Filled (size : Quantity) (pool pool' : OrderPool) (s : OrderSide) (ptr : OrderPtr)
      (o o' : Order) : Type 0 where
    pub was : peek pool ptr ≡ some o
    pub now_is : peek pool' ptr ≡ some o'
    pub same_id : o'.id ≡ o.id
    pub side_is : o'.side ≡ s
    pub same_price : o'.price ≡ o.price
    pub same_quantity : o'.quantity ≡ o.quantity
    pub fills : o'.quantity_filled ≡ o.quantity_filled + size
    pub within : o'.quantity_filled ≤ o.quantity
    pub done_when : (o'.status ≡ fully_filled) ↔ (o'.quantity_filled ≡ o.quantity)
    pub done_or_open :
        (o'.status ≡ fully_filled)
        ⊎ ((is_fully_filled o'.status ≡ false) × (is_closed o'.status ≡ false))

  filled_done :
      (o : Order) (q : Quantity) (c : Clock)
      → ((filled_by o q c).status ≡ fully_filled) ↔ (o.quantity_filled + q ≡ o.quantity)
  filled_done o q c = (λ e. ground arith, λ e. ground arith)

  pub trade-Filled :
      {pool pool' : OrderPool} {s : OrderSide} {p : Price} {ptr : OrderPtr} (o : Order)
      (q : Quantity) (c : Clock)
      → peek pool ptr ≡ some o
      → Traded pool pool' s p ptr (filled_by o q c)
      → q ≤ o.quantity - o.quantity_filled
      → IsFillable o
      → Filled q pool pool' s ptr o (filled_by o q c)
  trade-Filled o q c there t low v = record {
    was = there;
    now_is = t.there;
    same_id = refl;
    side_is = t.side_is;
    same_price = refl;
    same_quantity = refl;
    fills = refl;
    within = omega (arith, v.within);
    done_when = filled_done o q c;
    done_or_open = t.done_or_open;
  }

  -- Which orders traded: the first of each side in price-time order, by the lesser of the amounts that
  -- they still wanted. Each leaves its side if it is filled, and no other order moves or changes.
  pub record Exchanged (b b' : OrderBook) : Type 0 where
    pub bid_ptr : OrderPtr
    pub ask_ptr : OrderPtr
    pub bids_behind : List OrderPtr
    pub asks_behind : List OrderPtr
    pub bid : Order
    pub ask : Order
    pub bid' : Order
    pub ask' : Order
    pub size : Quantity
    pub lesser :
        size ≡ min (bid.quantity - bid.quantity_filled) (ask.quantity - ask.quantity_filled)
    pub best_bid : in_priority b.bids ≡ bid_ptr ∷ bids_behind
    pub best_ask : in_priority b.asks ≡ ask_ptr ∷ asks_behind
    pub bid_filled : Filled size b.order_pool b'.order_pool buy bid_ptr bid bid'
    pub ask_filled : Filled size b.order_pool b'.order_pool sell ask_ptr ask ask'
    pub bids_left : in_priority b'.bids ≡ after_trade bid'.status (in_priority b.bids)
    pub asks_left : in_priority b'.asks ≡ after_trade ask'.status (in_priority b.asks)
    pub others :
        (q : OrderPtr) → bid_ptr ≢ q → ask_ptr ≢ q → peek b'.order_pool q ≡ peek b.order_pool q
