-- ===== src/OrderBook/Loop.antt =====
-- The loop of `try_match` of include/orderbook.h: it ends within its fuel, at an uncrossed book.
use cpp_orderbook.FlatMap.{FlatMaps}
use cpp_orderbook.Prelude.{
  ℕ, zero, suc, ◌+◌, ◌≤◌, ◌<◌, ◌≡◌, refl, sym, ap, subst, ◌∙◌, ◌⊎◌, inl, inr, [], ◌∷◌, Bool, true,
  false, ◌||◌, Bool-cases, Option, none, some, ok, arith, if◌then◌else◌,
}
use cpp_orderbook.Prelude.Int
use cpp_orderbook.Prelude.Int.{◌<ℤ◌}
use cpp_orderbook.Core.{Price}
use cpp_orderbook.Clock.{Clock}
use cpp_orderbook.SortedMap.{SortedMap}
use cpp_orderbook.PriceLevel.{PriceLevel}
use cpp_orderbook.OrderBook.Book.{
  OrderBook, total_orders, get_total_bid_orders, get_total_ask_orders,
}
use cpp_orderbook.OrderBook.Matching.{best_levels, match_best, match_loop, match_fuel, try_match}
use cpp_orderbook.OrderBook.Kept.{BookKept, BookKept-trans, PoolKept-refl}
use cpp_orderbook.OrderBook.Registered.{
  KeepsPlaced, KeepsPlaced-refl, KeepsPlaced-trans, KeepsPlaced-flag, Exchanged-KeepsPlaced,
}
use cpp_orderbook.OrderBook.Round.{BookOk, match_best-Rounded}

or_false : (b : Bool) → b ≡ (b || false)
or_false true = refl
or_false false = refl

or_true : (b : Bool) → (b || true) ≡ true
or_true true = refl
or_true false = refl

below : (p q : Price) → Int.leb q p ≡ false → p <ℤ q
below p q h = ground arith

module _ ⦃F : FlatMaps⦄ where
  -- The best bid is below the best ask, where there are both.
  abbrev pub Apart : Option ((Price × PriceLevel) × (Price × PriceLevel)) → Type 0
  Apart none = Unit {0}
  Apart (some (bid, ask)) = bid.0 <ℤ ask.0

  abbrev pub IsUncrossed : OrderBook → Type 0
  IsUncrossed b = Apart (best_levels b)

  -- Whether the best levels cross, as the loop tests it.
  abbrev pub crossing : Option ((Price × PriceLevel) × (Price × PriceLevel)) → Bool
  crossing none = false
  crossing (some (bid, ask)) = Int.leb ask.0 bid.0

  abbrev pub orders_in : OrderBook → ℕ
  orders_in b = total_orders b.bids + total_orders b.asks

  -- Both sides have a best level, or the loop ends.
  pub best_cases :
      (b : OrderBook)
      → (best_levels b ≡ none)
        ⊎ ((bid ask : Price × PriceLevel) × (bm am : SortedMap PriceLevel) × (b.bids ≡ bid ∷ bm)
            × (b.asks ≡ ask ∷ am)
            × (best_levels b ≡ some (bid, ask)))
  best_cases b = by_sides b.bids b.asks refl refl
    where
      by_sides :
          (m n : SortedMap PriceLevel)
          → b.bids ≡ m
          → b.asks ≡ n
          → (best_levels b ≡ none)
            ⊎ ((bid ask : Price × PriceLevel) × (bm am : SortedMap PriceLevel) × (b.bids ≡ bid ∷ bm)
                × (b.asks ≡ ask ∷ am)
                × (best_levels b ≡ some (bid, ask)))
      by_sides [] n em en = inl (ground arith)
      by_sides (bid ∷ bm) [] em en = inl (ground arith)
      by_sides (bid ∷ bm) (ask ∷ am) em en = inr (bid, ask, bm, am, em, en, ground arith)

  -- What the loop leaves of a book: the orders rest and the book is uncrossed, at most as many orders
  -- as before, and it reports whether it matched.
  pub record Matched (b : OrderBook) (before : Bool) (r : Bool × OrderBook × Clock) : Type 0 where
    pub book_ok : BookOk r.1
    pub uncrossed : IsUncrossed r.1
    pub no_more : orders_in r.1 ≤ orders_in b
    pub kept : BookKept b r.1
    pub keeps_placed : KeepsPlaced b r.1
    pub reports : r.0 ≡ (before || crossing (best_levels b))

  loop_stops :
      (fuel : ℕ) (before : Bool) (b : OrderBook) (c : Clock)
      → best_levels b ≡ none
      → match_loop (suc fuel) before b c ≡ ok (before, b, c)
  unfolding match_loop
  loop_stops fuel before b c e = ground arith

  loop_settles :
      (fuel : ℕ) (before : Bool) (b : OrderBook) (c : Clock) {bid ask : Price × PriceLevel}
      → best_levels b ≡ some (bid, ask)
      → Int.leb ask.0 bid.0 ≡ false
      → match_loop (suc fuel) before b c ≡ ok (before, record b { try_match_flag = false }, c)
  unfolding match_loop
  loop_settles fuel before b c e apart = ground arith

  loop_matches :
      (fuel : ℕ) (before : Bool) (b : OrderBook) (c : Clock) {bid ask : Price × PriceLevel}
      {b' : OrderBook} {c' : Clock}
      → best_levels b ≡ some (bid, ask)
      → Int.leb ask.0 bid.0 ≡ true
      → match_best bid ask b c ≡ ok (b', c')
      → match_loop (suc fuel) before b c ≡ match_loop fuel true b' c'
  unfolding match_loop
  loop_matches fuel before b c e cross run = ground arith

  -- A change of the flag alone.
  book_same : (b : OrderBook) {flag : Bool} → BookKept b (record b { try_match_flag = flag })
  book_same b = record {
    pool = PoolKept-refl b.order_pool;
    next_id = refl;
    id_block = refl;
    registry = refl;
  }

  -- With more fuel than orders the loop ends.
  pub match_loop-Matched :
      (fuel : ℕ) (before : Bool) (b : OrderBook) (c : Clock)
      → BookOk b
      → orders_in b < fuel
      → (r : Bool × OrderBook × Clock) × (match_loop fuel before b c ≡ ok r) × Matched b before r
  match_loop-Matched zero before b c v h = absurd (omega arith)
  match_loop-Matched (suc fuel) before b c v h = elim (best_cases b) [
    | inl e ↦ (
      (before, b, c),
      loop_stops fuel before b c e,
      record {
        book_ok = v;
        kept = book_same b;
        keeps_placed = KeepsPlaced-refl b;
        uncrossed = subst Apart (sym e) tt;
        no_more = omega arith;
        reports = or_false before ∙ ap (λ o. before || crossing o) (sym e);
      },
    )
    | inr (bid, ask, bm, am, eb, ea, e) ↦ elim (Bool-cases (Int.leb ask.0 bid.0)) [
      | inl cross ↦
          let (b', c', run, round) = match_best-Rounded b bid ask bm am c v eb ea in
          let (r, runs, m) =
            match_loop-Matched fuel true b' c' round.book_ok (omega (arith, round.fewer)) in
          (
            r,
            loop_matches fuel before b c e cross run ∙ runs,
            record {
              book_ok = m.book_ok;
              kept = BookKept-trans round.kept m.kept;
              keeps_placed =
                  KeepsPlaced-trans (Exchanged-KeepsPlaced b b' round.exchanged) m.keeps_placed;
              uncrossed = m.uncrossed;
              no_more = omega (arith, m.no_more, round.fewer);
              reports =
                  m.reports
                  ∙ sym (
                      ap (λ o. before || crossing o) e
                      ∙ ap (λ x. before || x) cross
                      ∙ or_true before);
            },
          )
      | inr apart ↦ (
        (before, record b { try_match_flag = false }, c),
        loop_settles fuel before b c e apart,
        record {
          book_ok = record { bids_ok = v.bids_ok; asks_ok = v.asks_ok };
          kept = book_same b;
          keeps_placed = KeepsPlaced-flag b false;
          uncrossed = subst Apart (sym e) (below bid.0 ask.0 apart);
          no_more = omega arith;
          reports =
              or_false before
              ∙ sym (ap (λ o. before || crossing o) e ∙ ap (λ x. before || x) apart);
        },
      )
    ]
  ]

  -- `try_match` on a book whose orders rest, with the flag up: it returns, never throws, never runs out
  -- of fuel and meets nothing undefined; it leaves an uncrossed book whose orders rest, no more of them
  -- than before, and returns whether the best levels crossed; an order that stood in the book, or was
  -- closed, does or is so after.
  pub try_match_lem :
      (b : OrderBook) (c : Clock)
      → BookOk b
      → b.try_match_flag ≡ true
      → (r : Bool × OrderBook × Clock) × (try_match b c ≡ ok r) × Matched b false r
  unfolding try_match get_total_bid_orders get_total_ask_orders
  try_match_lem b c v up =
      let (r, runs, m) = match_loop-Matched (suc (orders_in b)) false b c v (omega arith) in
      (
        r,
        ap (λ f. if f then match_loop (match_fuel b) false b c else ok (false, b, c)) up ∙ runs,
        m,
      )
