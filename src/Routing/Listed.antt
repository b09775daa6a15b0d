-- ===== src/Routing/Listed.antt =====
-- A router map on which to run the router: a list of pairs.
use Prim.Native.String.{String}
use text.Mathlib.Text.{◌==◌}
use text.Mathlib.TextEquality.{eq_iff}
use cpp_orderbook.Prelude.{
  ℕ, ◌≡◌, ◌≢◌, refl, List, [], ◌∷◌, if◌then◌else◌, Option, none, some, arith,
}
use cpp_orderbook.Routing.{RouterMap}

abbrev pub Pairs : Type 0
Pairs = List (String × ℕ)

unfoldable pub lookup : String → Pairs → Option ℕ
lookup k [] = none
lookup k ((j, v) ∷ m) = if j == k then some v else lookup k m

unfoldable pub emplace_pair : String → ℕ → Pairs → Pairs
emplace_pair k v m = elim (lookup k m) [ none ↦ (k, v) ∷ m | some _ ↦ m ]

pub pair_new : (k : String) → lookup k [] ≡ none
unfolding lookup
pair_new k = refl

pub pair_absent :
    (k : String) (v : ℕ) (m : Pairs) → lookup k m ≡ none → lookup k (emplace_pair k v m) ≡ some v
unfolding lookup emplace_pair
pair_absent k v m e = ground (arith, eq_iff k k, e)

pub pair_present :
    (k : String) (v w : ℕ) (m : Pairs)
    → lookup k m ≡ some w
    → lookup k (emplace_pair k v m) ≡ some w
unfolding lookup emplace_pair
pair_present k v w m e = ground (arith, e)

pub pair_other :
    (k j : String) (v : ℕ) (m : Pairs) → k ≢ j → lookup j (emplace_pair k v m) ≡ lookup j m
unfolding lookup emplace_pair
pair_other k j v m ne = ground (arith, eq_iff k j)

abbrev pub pairs : RouterMap
pairs = record {
  Map = Pairs;
  new = [];
  emplace = emplace_pair;
  find = lookup;
  find_new = pair_new;
  find_absent = pair_absent;
  find_present = pair_present;
  find_other = pair_other;
}
