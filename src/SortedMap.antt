-- ===== src/SortedMap.antt =====
-- std::map<Price, V, Compare>, as include/orderbook.h uses it: the pairs in the order of the
-- comparison, which is `std::greater<double>` for bids and `std::less<double>` for asks. An
-- iterator stands for its key: it stays good until that key is erased.
pub mod Split
use cpp_orderbook.Prelude.{List, [], ◌∷◌, Bool, true, false, Option, none, some, if◌then◌else◌}
use cpp_orderbook.Prelude.Int
use cpp_orderbook.Core.{Price}

abbrev pub SortedMap {ℓ} : Type ℓ → Type ℓ
SortedMap V = List (Price × V)

abbrev pub Compare : Type 0
Compare = Price → Price → Bool

abbrev pub less : Compare
less a b = Int.ltb a b

abbrev pub greater : Compare
greater a b = Int.ltb b a

module _ {ℓ} {V : Type ℓ} (before : Compare) where
  -- Two keys are one where neither stands before the other.
  unfoldable pub find : Price → SortedMap V → Option V
  find k [] = none
  find k ((j, v) ∷ m) = if before k j then none else if before j k then find k m else some v

  -- `try_emplace(k, v)`, with whether it inserted.
  unfoldable pub try_emplace : Price → V → SortedMap V → Bool × SortedMap V
  try_emplace k v [] = (true, (k, v) ∷ [])
  try_emplace k v ((j, w) ∷ m) =
      let (inserted, rest) = try_emplace k v m in
      if before k j
      then (true, (k, v) ∷ (j, w) ∷ m)
      else if before j k
      then (inserted, (j, w) ∷ rest)
      else (false, (j, w) ∷ m)

  -- A write through the iterator at a key, `it->second = v`.
  unfoldable pub put : Price → V → SortedMap V → SortedMap V
  put k v [] = []
  put k v ((j, w) ∷ m) =
      if before k j then (j, w) ∷ m else if before j k then (j, w) ∷ put k v m else (j, v) ∷ m

  -- `erase(it)`.
  unfoldable pub erase : Price → SortedMap V → SortedMap V
  erase k [] = []
  erase k ((j, w) ∷ m) =
      if before k j then (j, w) ∷ m else if before j k then (j, w) ∷ erase k m else m

-- `begin()`, where there is one.
abbrev pub begin {ℓ} : {V : Type ℓ} → SortedMap V → Option (Price × V)
begin [] = none
begin (e ∷ _) = some e
