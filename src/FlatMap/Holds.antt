-- ===== src/FlatMap/Holds.antt =====
-- What it is for a hash map to hold exactly the pairs of a list with distinct keys, and that its
-- operations follow those of the list.
use cpp_orderbook.Prelude.{
  ◌≡◌, sym, ap, ◌∙◌, inl, inr, [], ◌∷◌, ◌++◌, length, length-append, true, false, Bool-cases, none,
  some, ◌==◌, arith,
}
use cpp_orderbook.Core.{OrderId}
use cpp_orderbook.Pairs
use cpp_orderbook.Pairs.{Pairs}
use cpp_orderbook.Pairs.Laws.{
  HasDistinctKeys, find-assign, find-erase_ne, find-erase_self, assign_new, length-erase,
}
use cpp_orderbook.FlatMap
use cpp_orderbook.FlatMap.{FlatMaps, FlatMap}

module _ ⦃F : FlatMaps⦄ {V : Type 0} where
  pub record Holds (m : FlatMap V) (ps : Pairs V) : Type 0 where
    pub same : (k : OrderId) → FlatMap.find k m ≡ Pairs.find k ps
    pub sized : FlatMap.size m ≡ length ps

  pub new-Holds : Holds FlatMap.new []
  unfolding Pairs.find
  new-Holds = record { same = F.find_new; sized = F.size_new }

  pub assign-Holds :
      (k : OrderId) (v : V) (m : FlatMap V) (ps : Pairs V)
      → Pairs.find k ps ≡ none
      → Holds m ps
      → Holds (FlatMap.assign k v m) (ps ++ (k, v) ∷ [])
  assign-Holds k v m ps new h = record {
    same = λ j. elim (Bool-cases (k == j)) [
      | inl e ↦
          ground (arith, F.find_assign_self k v m, find-assign k j v ps, assign_new k v ps new)
      | inr e ↦
          ground
            (arith, F.find_assign_ne k j v m, h.same j, find-assign k j v ps, assign_new k v ps new)
    ];
    sized =
        omega (
          arith,
          F.size_assign_new k v m (h.same k ∙ new),
          h.sized,
          length-append ps ((k, v) ∷ []),
        );
  }

  pub erase-Holds :
      (k : OrderId) (v : V) (m : FlatMap V) (ps : Pairs V)
      → HasDistinctKeys ps
      → Pairs.find k ps ≡ some v
      → Holds m ps
      → Holds (FlatMap.erase k m) (Pairs.erase k ps)
  erase-Holds k v m ps d there h = record {
    same = λ j. elim (Bool-cases (k == j)) [
      | inl e ↦ ground (arith, F.find_erase_self k m, find-erase_self k ps d)
      | inr e ↦
          F.find_erase_ne k j m (λ s. ground arith)
          ∙ h.same j
          ∙ sym (find-erase_ne k j ps (λ s. ground arith))
    ];
    sized =
        omega (arith, F.size_erase k v m (h.same k ∙ there), h.sized, length-erase k v ps there);
  }

  pub empty-nil : (m : FlatMap V) → Holds m [] → FlatMap.is_empty m ≡ true
  empty-nil m h = F.empty_lem m ∙ ap (λ n. n == 0) h.sized

  pub empty-cons :
      (m : FlatMap V) (p : OrderId × V) (ps : Pairs V)
      → Holds m (p ∷ ps)
      → FlatMap.is_empty m ≡ false
  empty-cons m p ps h = F.empty_lem m ∙ ap (λ n. n == 0) h.sized ∙ ground arith
