-- ===== src/Bench/Named.antt =====
-- The instruments of src/bench_insert_s.cpp and src/bench_match20_s.cpp.
use Prim.Native.String.{String}
use text.Mathlib.Text.{◌==◌}
use text.Mathlib.TextEquality.{eq_iff}
use cpp_orderbook.Prelude.{
  ℕ, zero, suc, ◌+◌, ◌-◌, ◌≤◌, ◌<◌, ◌≡◌, refl, sym, ap, ◌∙◌, inl, inr, List, [], ◌∷◌, length,
  get_elem?, true, ◌||◌, Bool-cases, some, arith,
}
use native.Mathlib.Decide.{ℕ_discrete}
use cpp_orderbook.Routing.Assigned.{listed}
use cpp_orderbook.Bench.{name_instruments}

listed-get_elem? :
    (xs : List String) (j : ℕ) {x : String} → get_elem? xs j ≡ some x → listed x xs ≡ true
listed-get_elem? [] j e = absurd (cc)
listed-get_elem? (y ∷ xs) zero {x} e =
    let same : y ≡ x = cc in ap (λ b. b || listed x xs) ((eq_iff y x).1 same)
listed-get_elem? (y ∷ xs) (suc j) {x} e = ground (arith, listed-get_elem? xs j e)

module _ (to_string : ℕ → String) where
  abbrev pub name : ℕ → String
  name i = String.◌∷◌ "S" (to_string i)

  pub get_elem?-name_instruments :
      (i n j : ℕ) → j < n → get_elem? (name_instruments to_string i n) j ≡ some (name (i + j))
  unfolding name_instruments
  get_elem?-name_instruments i zero j h = absurd (omega arith)
  get_elem?-name_instruments i (suc n) zero h =
      let e : i ≡ i + 0 = omega arith in ap (λ k. some (name k)) e
  get_elem?-name_instruments i (suc n) (suc j) h =
      let e : suc i + j ≡ i + suc j = omega arith in
      get_elem?-name_instruments (suc i) n j (omega arith) ∙ ap (λ k. some (name k)) e

  pub length-name_instruments : (i n : ℕ) → length (name_instruments to_string i n) ≡ n
  unfolding name_instruments
  length-name_instruments i zero = refl
  length-name_instruments i (suc n) = ap suc (length-name_instruments (suc i) n)

  pub name-listed : (n j : ℕ) → j < n → listed (name j) (name_instruments to_string 0 n) ≡ true
  name-listed n j h =
      let e : 0 + j ≡ j = omega arith in
      listed-get_elem? (name_instruments to_string 0 n) j
        (get_elem?-name_instruments 0 n j h ∙ ap (λ k. some (name k)) e)

  -- At most one of the first `n` instruments has this name.
  abbrev pub OnlyAt : String → ℕ → ℕ → Type 0
  OnlyAt k n r = (j : ℕ) → j < n → (k == name j) ≡ true → j ≡ r

  pub only_at :
      ((i j : ℕ) → to_string i ≡ to_string j → i ≡ j)
      → (k : String) (n : ℕ) → (r : ℕ) × (r ≤ n - 1) × OnlyAt k n r
  only_at distinct k zero = (0, omega arith, λ j h e. absurd (omega arith))
  only_at distinct k (suc n) = elim (Bool-cases (k == name n)) [
    | inl same ↦ (
      n,
      omega arith,
      λ j h e.
          let names : name j ≡ name n =
            sym ((eq_iff k (name j)).0 e) ∙ (eq_iff k (name n)).0 same in
          distinct j n (cc),
    )
    | inr other ↦
        let (r, low, only) = only_at distinct k n in
        (
          r,
          omega (arith, low),
          λ j h e. elim (ℕ_discrete j n) [
            | yes last ↦ absurd (cc)
            | no before ↦ only j (omega arith) e
          ],
        )
  ]
