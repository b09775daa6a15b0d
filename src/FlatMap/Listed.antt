-- ===== src/FlatMap/Listed.antt =====
-- A hash map as a list of pairs, on which the model can be run.
use cpp_orderbook.Prelude.{suc, ◌≡◌, ◌≢◌, refl, [], ◌∷◌, length, none, some, ◌==◌, arith}
use cpp_orderbook.Core.{OrderId}
use cpp_orderbook.Pairs
use cpp_orderbook.Pairs.{Pairs}
use cpp_orderbook.FlatMap.{FlatMaps}
use cpp_orderbook.Pairs.Laws.{
  HasDistinctKeys, find-assign, find-erase_ne, find-erase_self, erase-HasDistinctKeys, length-erase,
}

assign-HasDistinctKeys :
    {V : Type 0} (k : OrderId) (v : V) (m : Pairs V)
    → HasDistinctKeys m
    → HasDistinctKeys (Pairs.assign k v m)
unfolding Pairs.find Pairs.assign
assign-HasDistinctKeys k v [] d = (refl, tt)
assign-HasDistinctKeys k v ((j, w) ∷ m) d =
    ground (arith, assign-HasDistinctKeys k v m, find-assign k j v m)

length-assign_old :
    {V : Type 0} (k : OrderId) (v w : V) (m : Pairs V)
    → Pairs.find k m ≡ some w
    → length (Pairs.assign k v m) ≡ length m
unfolding Pairs.find Pairs.assign
length-assign_old k v w [] h = absurd (cc)
length-assign_old k v w ((j, u) ∷ m) h = ground (arith, length-assign_old k v w m)

length-assign_new :
    {V : Type 0} (k : OrderId) (v : V) (m : Pairs V)
    → Pairs.find k m ≡ none
    → length (Pairs.assign k v m) ≡ suc (length m)
unfolding Pairs.find Pairs.assign
length-assign_new k v [] h = refl
length-assign_new k v ((j, u) ∷ m) h = ground (arith, length-assign_new k v m)

-- Pairs with distinct keys.
abbrev pub Listed : Type 0 → Type 0
Listed V = (m : Pairs V) × HasDistinctKeys m

module _ {V : Type 0} where
  pub assign_listed : OrderId → V → Listed V → Listed V
  assign_listed k v (m, d) = (Pairs.assign k v m, assign-HasDistinctKeys k v m d)

  pub erase_listed : OrderId → Listed V → Listed V
  erase_listed k (m, d) = (Pairs.erase k m, erase-HasDistinctKeys k m d)

  pub find_assign_self :
      (k : OrderId) (v : V) (m : Listed V) → Pairs.find k (assign_listed k v m).0 ≡ some v
  unfolding assign_listed
  find_assign_self k v (m, d) = ground (arith, find-assign k k v m)

  pub find_assign_ne :
      (k j : OrderId) (v : V) (m : Listed V)
      → k ≢ j
      → Pairs.find j (assign_listed k v m).0 ≡ Pairs.find j m.0
  unfolding assign_listed
  find_assign_ne k j v (m, d) ne = ground (arith, find-assign k j v m)

  pub find_erase_self : (k : OrderId) (m : Listed V) → Pairs.find k (erase_listed k m).0 ≡ none
  unfolding erase_listed
  find_erase_self k (m, d) = find-erase_self k m d

  pub find_erase_ne :
      (k j : OrderId) (m : Listed V) → k ≢ j → Pairs.find j (erase_listed k m).0 ≡ Pairs.find j m.0
  unfolding erase_listed
  find_erase_ne k j (m, d) ne = find-erase_ne k j m ne

  pub size_assign_new :
      (k : OrderId) (v : V) (m : Listed V)
      → Pairs.find k m.0 ≡ none
      → length (assign_listed k v m).0 ≡ suc (length m.0)
  unfolding assign_listed
  size_assign_new k v (m, d) h = length-assign_new k v m h

  pub size_assign_old :
      (k : OrderId) (v w : V) (m : Listed V)
      → Pairs.find k m.0 ≡ some w
      → length (assign_listed k v m).0 ≡ length m.0
  unfolding assign_listed
  size_assign_old k v w (m, d) h = length-assign_old k v w m h

  pub size_erase :
      (k : OrderId) (v : V) (m : Listed V)
      → Pairs.find k m.0 ≡ some v
      → length m.0 ≡ suc (length (erase_listed k m).0)
  unfolding erase_listed
  size_erase k v (m, d) h = length-erase k v m h

pub find_nothing : {V : Type 0} (k : OrderId) → Pairs.find {V = V} k [] ≡ none
unfolding Pairs.find
find_nothing k = refl

-- Unfolds what the maps compute with.
unfoldable pub running_maps : Unit {0}
unfolding Pairs.find Pairs.assign Pairs.erase assign_listed erase_listed
running_maps = tt

instance abbrev pub listed : FlatMaps
listed = record {
  Map = Listed;
  new_map = ([], tt);
  find_in = λ k m. Pairs.find k m.0;
  assign_in = assign_listed;
  erase_in = erase_listed;
  size_of = λ m. length m.0;
  empty_of = λ m. length m.0 == 0;
  find_new = find_nothing;
  find_assign_self = find_assign_self;
  find_assign_ne = find_assign_ne;
  find_erase_self = find_erase_self;
  find_erase_ne = find_erase_ne;
  size_new = refl;
  size_assign_new = size_assign_new;
  size_assign_old = size_assign_old;
  size_erase = size_erase;
  empty_lem = λ m. refl;
}
