-- ===== src/OrderBook/Round.antt =====
-- One round of the loop of `try_match` of include/orderbook.h, on a book whose orders rest.
use cpp_orderbook.FlatMap.{FlatMaps}
use cpp_orderbook.Prelude.{
  ◌+◌, ◌<◌, ◌≡◌, refl, sym, ap as ap_path, ◌∙◌, subst, inl, inr, List, [], ◌∷◌, ◌++◌, All, ok,
  add64, arith,
}
use cpp_orderbook.Core.{Price}
use cpp_orderbook.Clock.{Clock, now}
use cpp_orderbook.Order.{OrderSide, buy, sell}
use cpp_orderbook.Order.Fill.{filled_by}
use cpp_orderbook.OrderPool.{OrderPool, OrderPtr}
use cpp_orderbook.SortedMap
use cpp_orderbook.SortedMap.{SortedMap, less, greater}
use cpp_orderbook.PriceLevel
use cpp_orderbook.PriceLevel.{PriceLevel}
use cpp_orderbook.PriceLevel.Valid.{queue}
use cpp_orderbook.PriceLevel.Pop.{queue-AtHead}
use cpp_orderbook.OrderBook.Priority.{in_priority, after_trade}
use cpp_orderbook.OrderBook.Book.{OrderBook, compare_of, total_orders, remove_price_level_if_empty}
use cpp_orderbook.OrderBook.Matching.{match_orders, match_best}
use cpp_orderbook.OrderBook.Resting.{id_in, RestsAt, LevelOk, SideOk, compare_irrefl, sides_differ}
use cpp_orderbook.OrderBook.Trade.{traded, traded_pool, match_orders_lem, trade_fills_one}
use cpp_orderbook.OrderBook.Exchanging.{
  trade-PoolKept, trade_others, bid-Traded, ask-Traded, trade-Filled, Exchanged,
}
use cpp_orderbook.OrderBook.Kept.{BookKept}
use cpp_orderbook.OrderBook.Side.{pruned, trade-Left}

module _ ⦃F : FlatMaps⦄ where
  -- The orders of both sides rest.
  pub record BookOk (b : OrderBook) : Type 0 where
    pub bids_ok : SideOk b.order_pool buy b.bids
    pub asks_ok : SideOk b.order_pool sell b.asks

  -- The best level is found, replaced and erased at the head of the map.
  put_head :
      (s : OrderSide) (p : Price) (l l' : PriceLevel) (rest : SortedMap PriceLevel)
      → SortedMap.put (compare_of s) p l' ((p, l) ∷ rest) ≡ (p, l') ∷ rest
  unfolding SortedMap.put
  put_head s p l l' rest = rw (compare_irrefl s p) refl

  remove_head_bid :
      (b : OrderBook) (p : Price) (l : PriceLevel) (rest : SortedMap PriceLevel)
      → remove_price_level_if_empty buy p (record b { bids = (p, l) ∷ rest })
        ≡ ok (record b { bids = pruned p l rest })
  unfolding remove_price_level_if_empty SortedMap.find SortedMap.erase
  remove_head_bid b p l rest = ground (arith, compare_irrefl buy p)

  remove_head_ask :
      (b : OrderBook) (p : Price) (l : PriceLevel) (rest : SortedMap PriceLevel)
      → remove_price_level_if_empty sell p (record b { asks = (p, l) ∷ rest })
        ≡ ok (record b { asks = pruned p l rest })
  unfolding remove_price_level_if_empty SortedMap.find SortedMap.erase
  remove_head_ask b p l rest = ground (arith, compare_irrefl sell p)

  -- The steps of a round put together.
  match_best_run :
      (b : OrderBook) (bp ap : Price) (bl al : PriceLevel) (bm am : SortedMap PriceLevel)
      (c : Clock) {bptr aptr : OrderPtr} {pool' : OrderPool} {c' : Clock} {bl' al' : PriceLevel}
      → PriceLevel.front bl ≡ ok bptr
      → PriceLevel.front al ≡ ok aptr
      → match_orders bptr aptr b.order_pool c ≡ ok (pool', c')
      → PriceLevel.pop_front_order_if_filled pool' bl ≡ ok bl'
      → PriceLevel.pop_front_order_if_filled pool' al ≡ ok al'
      → b.bids ≡ (bp, bl) ∷ bm
      → b.asks ≡ (ap, al) ∷ am
      → match_best (bp, bl) (ap, al) b c
        ≡ ok (
          record b {
            trades_completed = add64 b.trades_completed 1;
            order_pool = pool';
            bids = pruned bp bl' bm;
            asks = pruned ap al' am;
          },
          c',
        )
  unfolding match_best
  match_best_run b bp ap bl al bm am c {pool' = pool'} {bl' = bl'} {al' = al'} fb fa traded pb pa eb
        ea =
      let b₀ : OrderBook = record b {
        trades_completed = add64 b.trades_completed 1;
        order_pool = pool';
        asks = (ap, al') ∷ am;
      } in
      let puts_b : SortedMap.put greater bp bl' b.bids ≡ (bp, bl') ∷ bm =
        ap_path (SortedMap.put greater bp bl') eb ∙ put_head buy bp bl bl' bm in
      let puts_a : SortedMap.put less ap al' b.asks ≡ (ap, al') ∷ am =
        ap_path (SortedMap.put less ap al') ea ∙ put_head sell ap al al' am in
      rw
        (
          fb,
          fa,
          traded,
          pb,
          pa,
          puts_b,
          puts_a,
          remove_head_bid b₀ bp bl' bm,
          remove_head_ask (record b₀ { bids = pruned bp bl' bm }) ap al' am,
        )
        refl

  -- What a round leaves: the orders rest, fewer of them than before, one more trade is counted, and
  -- ids, free slots and the registry are as they were.
  pub record Rounded (b b' : OrderBook) : Type 0 where
    pub book_ok : BookOk b'
    pub fewer :
        total_orders b'.bids + total_orders b'.asks < total_orders b.bids + total_orders b.asks
    pub counted : b'.trades_completed ≡ add64 b.trades_completed 1
    pub kept : BookKept b b'
    pub exchanged : Exchanged b b'

  -- The front order of the best level of a side.
  record Best (pool : OrderPool) (s : OrderSide) (p : Price) (l : PriceLevel) : Type 0 where
    ptr : OrderPtr
    behind : List OrderPtr
    queued : queue l ≡ ptr ∷ behind
    rests : RestsAt pool s p ptr
    reads : PriceLevel.front l ≡ ok ptr

  LevelOk-Best :
      {pool : OrderPool} {s : OrderSide} {p : Price} (l : PriceLevel)
      → LevelOk pool s p l
      → Best pool s p l
  LevelOk-Best {pool} {s} {p} l v = by_queue (queue l) refl
    where
      by_queue : (ps : List OrderPtr) → queue l ≡ ps → Best pool s p l
      by_queue [] e = absurd (v.some_order e)
      by_queue (ptr ∷ ptrs) e = record {
        ptr = ptr;
        behind = ptrs;
        queued = e;
        rests = (subst (All (RestsAt pool s p)) e v.resting).0;
        reads = (queue-AtHead (id_in pool) l ptr ptrs v.valid e).reads;
      }

  -- On a book whose orders rest, a round at its best levels returns. The first bid and the first offer
  -- in price-time order trade: both are filled by the lesser of the amounts that they still wanted, and
  -- are marked filled exactly when they want nothing more. Each leaves its side if it is filled, and no
  -- other order moves or changes. The orders left still rest, there are fewer of them than before, and
  -- the count of trades goes up by one.
  pub match_best-Rounded :
      (b : OrderBook) (bid ask : Price × PriceLevel) (bm am : SortedMap PriceLevel) (c : Clock)
      → BookOk b
      → b.bids ≡ bid ∷ bm
      → b.asks ≡ ask ∷ am
      → (b' : OrderBook) × (c' : Clock) × (match_best bid ask b c ≡ ok (b', c')) × Rounded b b'
  match_best-Rounded b (bp, bl) (ap, al) bm am c v eb ea =
      let bids_ok : SideOk b.order_pool buy ((bp, bl) ∷ bm) =
        subst (SideOk b.order_pool buy) eb v.bids_ok in
      let asks_ok : SideOk b.order_pool sell ((ap, al) ∷ am) =
        subst (SideOk b.order_pool sell) ea v.asks_ok in
      let best_b = LevelOk-Best bl bids_ok.levels.0 in
      let best_a = LevelOk-Best al asks_ok.levels.0 in
      let rb = best_b.rests in
      let ra = best_a.rests in
      let tb = bid-Traded best_b.ptr best_a.ptr c rb ra in
      let ta = ask-Traded best_b.ptr best_a.ptr c rb ra in
      let left_b = trade-Left tb bl bm best_b.behind bids_ok best_b.queued in
      let left_a = trade-Left ta al am best_a.behind asks_ok best_a.queued in
      let one_done = trade_fills_one rb.order ra.order c (now c).1 rb.fillable ra.fillable in
      (
        record b {
          trades_completed = add64 b.trades_completed 1;
          order_pool = traded_pool b.order_pool best_b.ptr best_a.ptr rb.order ra.order c;
          bids = pruned bp left_b.l' bm;
          asks = pruned ap left_a.l' am;
        },
        (now (now c).1).1,
        match_best_run b bp ap bl al bm am c best_b.reads best_a.reads
            (match_orders_lem b.order_pool best_b.ptr best_a.ptr rb.order ra.order c rb.there
              ra.there (sides_differ rb ra (λ e. cc)) rb.fillable ra.fillable)
            left_b.pops left_a.pops eb ea,
        record {
          book_ok = record { bids_ok = left_b.side_ok; asks_ok = left_a.side_ok };
          fewer = elim one_done [
            | inl d ↦ omega (
              arith,
              left_b.fewer d,
              left_a.no_more,
              ap_path total_orders eb,
              ap_path total_orders ea,
            )
            | inr d ↦ omega (
              arith,
              left_a.fewer d,
              left_b.no_more,
              ap_path total_orders eb,
              ap_path total_orders ea,
            )
          ];
          counted = refl;
          kept = record {
            pool = trade-PoolKept best_b.ptr best_a.ptr c rb ra;
            next_id = refl;
            id_block = refl;
            registry = refl;
          };
          exchanged = record {
            bid_ptr = best_b.ptr;
            ask_ptr = best_a.ptr;
            bids_behind = best_b.behind ++ in_priority bm;
            asks_behind = best_a.behind ++ in_priority am;
            bid = rb.order;
            ask = ra.order;
            bid' = filled_by rb.order (traded rb.order ra.order) c;
            ask' = filled_by ra.order (traded rb.order ra.order) (now c).1;
            size = traded rb.order ra.order;
            lesser = refl;
            best_bid = ap_path in_priority eb ∙ ap_path (λ qs. qs ++ in_priority bm) best_b.queued;
            best_ask = ap_path in_priority ea ∙ ap_path (λ qs. qs ++ in_priority am) best_a.queued;
            bid_filled =
                trade-Filled rb.order (traded rb.order ra.order) c rb.there tb (omega arith)
                  rb.fillable;
            ask_filled =
                trade-Filled ra.order (traded rb.order ra.order) (now c).1 ra.there ta (omega arith)
                  ra.fillable;
            bids_left =
                left_b.traded_first
                ∙ ap_path
                    (λ m.
                      after_trade (filled_by rb.order (traded rb.order ra.order) c).status
                        (in_priority m))
                    (sym eb);
            asks_left =
                left_a.traded_first
                ∙ ap_path
                    (λ m.
                      after_trade (filled_by ra.order (traded rb.order ra.order) (now c).1).status
                        (in_priority m))
                    (sym ea);
            others = trade_others best_b.ptr best_a.ptr c rb ra;
          };
        },
      )
