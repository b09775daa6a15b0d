-- ===== src/OrderBook/Priority.antt =====
-- The orders of a side of the book of include/orderbook.h in price-time order: best price first, and
-- at one price in the order in which they came.
use cpp_orderbook.Prelude.{◌≡◌, ◌⊎◌, inl, inr, List, [], ◌∷◌, ◌++◌, if◌then◌else◌}
use cpp_orderbook.Core.{Price}
use cpp_orderbook.Order.{OrderStatus, is_fully_filled}
use cpp_orderbook.OrderPool.{OrderPtr}
use cpp_orderbook.FlatMap.{FlatMaps}
use cpp_orderbook.SortedMap.{SortedMap}
use cpp_orderbook.PriceLevel.{PriceLevel}
use cpp_orderbook.PriceLevel.Valid.{queue}

-- An order stands somewhere in a queue.
abbrev pub Among : OrderPtr → List OrderPtr → Type 0
Among ptr [] = ⊥
Among ptr (q ∷ qs) = (ptr ≡ q) ⊎ Among ptr qs

pub Among-left : (ptr : OrderPtr) (xs ys : List OrderPtr) → Among ptr xs → Among ptr (xs ++ ys)
Among-left ptr [] ys h = absurd h
Among-left ptr (x ∷ xs) ys h = elim h [
  | inl e ↦ inl e
  | inr later ↦ inr (Among-left ptr xs ys later)
]

pub Among-right : (ptr : OrderPtr) (xs ys : List OrderPtr) → Among ptr ys → Among ptr (xs ++ ys)
Among-right ptr [] ys h = h
Among-right ptr (x ∷ xs) ys h = inr (Among-right ptr xs ys h)

pub Among-split :
    (ptr : OrderPtr) (xs ys : List OrderPtr) → Among ptr (xs ++ ys) → Among ptr xs ⊎ Among ptr ys
Among-split ptr [] ys h = inr h
Among-split ptr (x ∷ xs) ys h = elim h [
  | inl e ↦ inl (inl e)
  | inr later ↦ elim (Among-split ptr xs ys later) [
    | inl left ↦ inl (inr left)
    | inr right ↦ inr right
  ]
]

-- The queue once its first order has traded and has this status.
abbrev pub after_trade : OrderStatus → List OrderPtr → List OrderPtr
after_trade s [] = []
after_trade s (p ∷ ps) = if is_fully_filled s then ps else p ∷ ps

module _ ⦃F : FlatMaps⦄ where
  -- All orders of a side, in the order in which they trade.
  abbrev pub in_priority : SortedMap PriceLevel → List OrderPtr
  in_priority [] = []
  in_priority ((_, l) ∷ m) = queue l ++ in_priority m

  -- The orders of a side around one of its levels.
  module _ (p : Price) (l : PriceLevel) (back : SortedMap PriceLevel) (q : OrderPtr) where
    pub Among-level :
        (front : SortedMap PriceLevel)
        → Among q (queue l)
        → Among q (in_priority (front ++ (p, l) ∷ back))
    Among-level [] h = Among-left q (queue l) (in_priority back) h
    Among-level ((_, k) ∷ front) h =
        Among-right q (queue k) (in_priority (front ++ (p, l) ∷ back)) (Among-level front h)

    pub Among-other :
        (front : SortedMap PriceLevel)
        → Among q (in_priority (front ++ back))
        → Among q (in_priority (front ++ (p, l) ∷ back))
    Among-other [] h = Among-right q (queue l) (in_priority back) h
    Among-other ((_, k) ∷ front) h =
        elim (Among-split q (queue k) (in_priority (front ++ back)) h) [
          | inl here ↦ Among-left q (queue k) (in_priority (front ++ (p, l) ∷ back)) here
          | inr later ↦
              Among-right q (queue k) (in_priority (front ++ (p, l) ∷ back))
                (Among-other front later)
        ]

    pub Among-around :
        (front : SortedMap PriceLevel)
        → Among q (in_priority (front ++ (p, l) ∷ back))
        → Among q (queue l) ⊎ Among q (in_priority (front ++ back))
    Among-around [] h = Among-split q (queue l) (in_priority back) h
    Among-around ((_, k) ∷ front) h =
        elim (Among-split q (queue k) (in_priority (front ++ (p, l) ∷ back)) h) [
          | inl here ↦ inr (Among-left q (queue k) (in_priority (front ++ back)) here)
          | inr later ↦ elim (Among-around front later) [
            | inl at ↦ inl at
            | inr other ↦ inr (Among-right q (queue k) (in_priority (front ++ back)) other)
          ]
        ]
