-- ===== src/OrderBook/Uncrossed.antt =====
-- Books of include/orderbook.h with the same best prices are uncrossed alike.
use cpp_orderbook.Prelude.{◌≡◌, refl, sym, subst, inl, inr, [], ◌∷◌, Option, none, some, arith}
use cpp_orderbook.Prelude.Int.{◌<ℤ◌}
use cpp_orderbook.Core.{Price}
use cpp_orderbook.FlatMap.{FlatMaps}
use cpp_orderbook.SortedMap.{SortedMap}
use cpp_orderbook.PriceLevel.{PriceLevel}
use cpp_orderbook.OrderBook.Book.{OrderBook}
use cpp_orderbook.OrderBook.Matching.{best_levels}
use cpp_orderbook.OrderBook.Entering.{first_key}
use cpp_orderbook.OrderBook.Loop.{Apart, best_cases, IsUncrossed}

module _ ⦃F : FlatMaps⦄ where
  -- The best prices do not cross.
  abbrev pub Below : Option Price → Option Price → Type 0
  Below none q = Unit {0}
  Below (some p) none = Unit {0}
  Below (some p) (some q) = p <ℤ q

  pub best_of :
      (b : OrderBook) {bid ask : Price × PriceLevel} {m n : SortedMap PriceLevel}
      → b.bids ≡ bid ∷ m
      → b.asks ≡ ask ∷ n
      → best_levels b ≡ some (bid, ask)
  best_of b e f = ground arith

  pub Below-IsUncrossed :
      (b : OrderBook) → Below (first_key b.bids) (first_key b.asks) → IsUncrossed b
  Below-IsUncrossed b h = elim (best_cases b) [
    | inl e ↦ subst Apart (sym e) tt
    | inr (bid, ask, m, n, em, en, e) ↦ subst Apart (sym e) (
        subst (λ k. Below (first_key k) (first_key (ask ∷ n))) em
          (subst (λ k. Below (first_key b.bids) (first_key k)) en h))
  ]

  pub IsUncrossed-Below :
      (b : OrderBook) → IsUncrossed b → Below (first_key b.bids) (first_key b.asks)
  IsUncrossed-Below b h = by_sides b.bids b.asks refl refl
    where
      by_sides :
          (m n : SortedMap PriceLevel) → b.bids ≡ m → b.asks ≡ n → Below (first_key m) (first_key n)
      by_sides [] n em en = tt
      by_sides (bid ∷ m) [] em en = tt
      by_sides (bid ∷ m) (ask ∷ n) em en = subst Apart (best_of b em en) h

  -- The same best prices on both sides.
  pub IsUncrossed-same :
      (b b' : OrderBook)
      → first_key b'.bids ≡ first_key b.bids
      → first_key b'.asks ≡ first_key b.asks
      → IsUncrossed b
      → IsUncrossed b'
  IsUncrossed-same b b' e f h = Below-IsUncrossed b' (
      subst (λ k. Below k (first_key b'.asks)) (sym e)
        (subst (λ k. Below (first_key b.bids) k) (sym f) (IsUncrossed-Below b h)))
