-- ===== src/OrderBook/Matching.antt =====
-- include/orderbook.h: `match_orders` and `try_match`.
use cpp_orderbook.FlatMap.{FlatMaps}
use cpp_orderbook.Prelude.{
  ℕ, zero, suc, ◌+◌, min, [], ◌∷◌, Bool, true, false, if◌then◌else◌, add64, sub64, Option, none,
  some, Outcome, ok, unfinished, ◌>>=◌,
}
use cpp_orderbook.Prelude.Int
use cpp_orderbook.Prelude.Int.{pos}
use cpp_orderbook.Core.{Price}
use cpp_orderbook.Clock.{Clock}
use cpp_orderbook.Order
use cpp_orderbook.Order.{
  Order, OrderSide, buy, sell, is_closed, copy_from_client, set_price, set_quantity,
}
use cpp_orderbook.OrderPool.{OrderPtr, OrderPool, load, store}
use cpp_orderbook.SortedMap
use cpp_orderbook.SortedMap.{SortedMap, Compare, less, greater, begin}
use cpp_orderbook.PriceLevel
use cpp_orderbook.PriceLevel.{PriceLevel, make_level}
use cpp_orderbook.OrderBook.Book.{
  OrderBook, remove_price_level_if_empty, get_total_bid_orders, get_total_ask_orders,
}

-- `match_orders`: what both sides still want is filled on both, the bid first.
unfoldable pub match_orders : OrderPtr → OrderPtr → OrderPool → Clock → Outcome (OrderPool × Clock)
match_orders bid_order ask_order pool c = do
  bid ← load pool bid_order
  ask ← load pool ask_order
  let match_qty =
      min (sub64 bid.quantity bid.quantity_filled) (sub64 ask.quantity ask.quantity_filled)
  (bid', c₁) ← Order.match bid match_qty c
  pool₁ ← store pool bid_order bid'
  ask₁ ← load pool₁ ask_order
  (ask', c₂) ← Order.match ask₁ match_qty c₁
  pool₂ ← store pool₁ ask_order ask'
  ok (pool₂, c₂)

module _ ⦃F : FlatMaps⦄ where
  -- The body of the loop of `try_match` at crossing best levels.
  unfoldable pub match_best :
      Price × PriceLevel → Price × PriceLevel → OrderBook → Clock → Outcome (OrderBook × Clock)
  match_best (bid_price, bid_level) (ask_price, ask_level) b c = do
    bid_order ← PriceLevel.front bid_level
    ask_order ← PriceLevel.front ask_level
    (pool, c') ← match_orders bid_order ask_order b.order_pool c
    bid_level' ← PriceLevel.pop_front_order_if_filled pool bid_level
    ask_level' ← PriceLevel.pop_front_order_if_filled pool ask_level
    b₁ ← remove_price_level_if_empty buy bid_price (record b {
      trades_completed = add64 b.trades_completed 1;
      order_pool = pool;
      bids = SortedMap.put greater bid_price bid_level' b.bids;
      asks = SortedMap.put less ask_price ask_level' b.asks;
    })
    b₂ ← remove_price_level_if_empty sell ask_price b₁
    ok (b₂, c')

  -- The best levels, where both sides have one.
  abbrev pub best_levels : OrderBook → Option ((Price × PriceLevel) × (Price × PriceLevel))
  best_levels b = elim b.bids [
    | [] ↦ none
    | bid ∷ _ ↦ elim b.asks [ [] ↦ none | ask ∷ _ ↦ some (bid, ask) ]
  ]

  -- The loop of `try_match`, on fuel. It leaves the flag as it is where a side is empty.
  unfoldable pub match_loop : ℕ → Bool → OrderBook → Clock → Outcome (Bool × OrderBook × Clock)
  match_loop zero order_matched b c = unfinished
  match_loop (suc fuel) order_matched b c = elim (best_levels b) [
    | none ↦ ok (order_matched, b, c)
    | some (bid, ask) ↦ elim (Int.leb ask.0 bid.0) [
      | false ↦ ok (order_matched, record b { try_match_flag = false }, c)
      | true ↦ match_best bid ask b c >>= λ r. match_loop fuel true r.0 r.1
    ]
  ]

  -- A round of the loop takes at least one order out, so there are fewer rounds than this.
  abbrev pub match_fuel : OrderBook → ℕ
  match_fuel b = suc (get_total_bid_orders b + get_total_ask_orders b)

  unfoldable pub try_match : OrderBook → Clock → Outcome (Bool × OrderBook × Clock)
  try_match b c = if b.try_match_flag then match_loop (match_fuel b) false b c else ok (false, b, c)
