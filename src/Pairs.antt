-- ===== src/Pairs.antt =====
-- Lists of pairs of an order id and a value, read as the index that a map from order ids stands for:
-- what is proved of the maps of include/price_level_v2.h is stated against them.
pub mod Laws
use cpp_orderbook.Prelude.{List, [], ◌∷◌, Option, none, some, ◌==◌, if◌then◌else◌}
use cpp_orderbook.Core.{OrderId}

abbrev pub Pairs : Type 0 → Type 0
Pairs V = List (OrderId × V)

module _ {V : Type 0} where
  unfoldable pub find : OrderId → Pairs V → Option V
  find k [] = none
  find k ((j, v) ∷ m) = if j == k then some v else find k m

  unfoldable pub assign : OrderId → V → Pairs V → Pairs V
  assign k v [] = (k, v) ∷ []
  assign k v ((j, w) ∷ m) = if j == k then (k, v) ∷ m else (j, w) ∷ assign k v m

  unfoldable pub erase : OrderId → Pairs V → Pairs V
  erase k [] = []
  erase k ((j, w) ∷ m) = if j == k then m else (j, w) ∷ erase k m
