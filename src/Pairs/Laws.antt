-- ===== src/Pairs/Laws.antt =====
-- Lookup after each update of a map with distinct keys.
use cpp_orderbook.Prelude.{
  suc, length, [], ◌∷◌, ◌++◌, none, some, ◌==◌, if◌then◌else◌, ◌≡◌, ◌≢◌, refl, sym, Bool-cases, inl,
  inr, arith,
}
use cpp_orderbook.Core.{OrderId}
use cpp_orderbook.Pairs.{Pairs, find, assign, erase}

module _ {V : Type 0} where
  -- No key stands twice.
  abbrev pub HasDistinctKeys : Pairs V → Type 0
  HasDistinctKeys [] = Unit {0}
  HasDistinctKeys ((k, v) ∷ m) = (find k m ≡ none) × HasDistinctKeys m

  pub find-assign :
      (k j : OrderId) (v : V) (m : Pairs V)
      → find j (assign k v m) ≡ (if k == j then some v else find j m)
  unfolding find assign
  find-assign k j v [] = refl
  find-assign k j v ((i, w) ∷ m) = ground (arith, find-assign k j v m)

  pub find-erase_ne : (k j : OrderId) (m : Pairs V) → k ≢ j → find j (erase k m) ≡ find j m
  unfolding find erase
  find-erase_ne k j [] h = refl
  find-erase_ne k j ((i, w) ∷ m) h = ground (arith, find-erase_ne k j m)

  pub find-erase_self : (k : OrderId) (m : Pairs V) → HasDistinctKeys m → find k (erase k m) ≡ none
  unfolding find erase
  find-erase_self k [] d = refl
  find-erase_self k ((i, w) ∷ m) d = ground (arith, find-erase_self k m)

  pub find-erase-none : (k j : OrderId) (m : Pairs V) → find j m ≡ none → find j (erase k m) ≡ none
  unfolding find erase
  find-erase-none k j [] h = refl
  find-erase-none k j ((i, w) ∷ m) h = ground (arith, find-erase-none k j m)

  pub erase-HasDistinctKeys :
      (k : OrderId) (m : Pairs V) → HasDistinctKeys m → HasDistinctKeys (erase k m)
  unfolding find erase
  erase-HasDistinctKeys k [] d = tt
  erase-HasDistinctKeys k ((i, w) ∷ m) d =
      ground (arith, erase-HasDistinctKeys k m, find-erase-none k i m)

  pub assign_new :
      (k : OrderId) (v : V) (m : Pairs V) → find k m ≡ none → assign k v m ≡ m ++ (k, v) ∷ []
  unfolding find assign
  assign_new k v [] h = refl
  assign_new k v ((i, w) ∷ m) h = ground (arith, assign_new k v m)

  pub find-append_new :
      (k j : OrderId) (v : V) (m : Pairs V)
      → find j m ≡ none
      → k ≢ j
      → find j (m ++ (k, v) ∷ []) ≡ none
  unfolding find
  find-append_new k j v [] h ne = ground arith
  find-append_new k j v ((i, w) ∷ m) h ne = ground (arith, find-append_new k j v m)

  pub find-cons_none :
      (k j : OrderId) (v : V) (m : Pairs V)
      → find k ((j, v) ∷ m) ≡ none
      → (j ≢ k) × (find k m ≡ none)
  unfolding find
  find-cons_none k j v m h = elim (Bool-cases (j == k)) [
    | inl e ↦ absurd (ground arith)
    | inr e ↦ (λ same. ground arith, rw e at h)
  ]

  pub append-HasDistinctKeys :
      (k : OrderId) (v : V) (m : Pairs V)
      → HasDistinctKeys m
      → find k m ≡ none
      → HasDistinctKeys (m ++ (k, v) ∷ [])
  unfolding find
  append-HasDistinctKeys k v [] d h = (refl, tt)
  append-HasDistinctKeys k v ((i, w) ∷ m) d h =
      let (ne, rest) = find-cons_none k i w m h in
      (find-append_new k i v m d.0 (λ e. ne (sym e)), append-HasDistinctKeys k v m d.1 rest)

  pub length-erase :
      (k : OrderId) (v : V) (m : Pairs V) → find k m ≡ some v → length m ≡ suc (length (erase k m))
  unfolding find erase
  length-erase k v [] h = absurd (cc)
  length-erase k v ((j, w) ∷ m) h = ground (arith, length-erase k v m)
