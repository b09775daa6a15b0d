-- ===== src/Routing/Assigned.antt =====
-- Where the first loop of `build_order_routing_system` puts the instruments.
use Prim.Native.String.{String}
use text.Mathlib.Text.{◌==◌}
use text.Mathlib.TextEquality.{eq_iff}
use native.Mathlib.Decide.{ℕ_discrete}
use cpp_orderbook.Prelude.{
  ℕ, suc, ◌%◌, ◌≡◌, ◌≢◌, ◌<◌, refl, sym, ap, ◌∙◌, subst, inl, inr, List, [], ◌∷◌, ◌++◌, length,
  get_elem?, set, Bool, true, false, ◌||◌, Bool-cases, Option-cases, not_zero, lt-length,
  length-set, get_elem?-set_self, get_elem?-set_ne, get_elem?-lt, All, some, ok, arith,
}
use cpp_orderbook.Routing.{RouterMap, assign_instruments}

-- Whether an instrument is in a list.
abbrev pub listed : String → List String → Bool
listed k [] = false
listed k (x ∷ xs) = (x == k) || listed k xs

pub listed-append :
    (k : String) (xs ys : List String) → listed k (xs ++ ys) ≡ (listed k xs || listed k ys)
listed-append k [] ys = refl
listed-append k (x ∷ xs) ys = ground (arith, listed-append k xs ys)

some-injective {ℓ} : {A : Type ℓ} {a b : A} → some a ≡ some b → a ≡ b
some-injective e = cc

differs : (x k : String) → (x == k) ≡ false → x ≢ k
differs x k h e = ground (arith, eq_iff x k)

module _ (R : RouterMap) where
  -- The router sends the instrument to a worker whose set has it.
  pub record Placed (sets : List (List String)) (router : R.Map) (k : String) : Type 0 where
    pub worker : ℕ
    pub assigned : List String
    pub routed : R.find k router ≡ some worker
    pub there : get_elem? sets worker ≡ some assigned
    pub has : listed k assigned ≡ true

  -- Nothing is routed elsewhere.
  abbrev AllPlaced : List (List String) → R.Map → Type 0
  AllPlaced sets router =
      (k : String) (i : ℕ)
      → R.find k router ≡ some i
      → (xs : List String) × (get_elem? sets i ≡ some xs) × (listed k xs ≡ true)

  abbrev after : List (List String) → ℕ → List String → String → List (List String)
  after sets i xs x = set sets i (xs ++ x ∷ [])

  -- A set keeps what it has.
  still_there :
      (sets : List (List String)) (i j : ℕ) (xs ys : List String) (x k : String)
      → get_elem? sets i ≡ some xs
      → get_elem? sets j ≡ some ys
      → listed k ys ≡ true
      → (zs : List String) × (get_elem? (after sets i xs x) j ≡ some zs) × (listed k zs ≡ true)
  still_there sets i j xs ys x k at_i at_j h = elim (ℕ_discrete i j) [
    | yes e ↦
        let same : xs ≡ ys = some-injective (sym at_i ∙ ap (get_elem? sets) e ∙ at_j) in
        (
          xs ++ x ∷ [],
          ap (get_elem? (after sets i xs x)) (sym e)
              ∙ get_elem?-set_self sets i (xs ++ x ∷ []) (lt-length sets i at_i),
          listed-append k xs (x ∷ []) ∙ ap (λ b. b || listed k (x ∷ [])) (ap (listed k) same ∙ h),
        )
    | no ne ↦ (ys, get_elem?-set_ne sets i j (xs ++ x ∷ []) ne ∙ at_j, h)
  ]

  -- The set that takes an instrument has it.
  takes :
      (sets : List (List String)) (i : ℕ) (xs : List String) (x : String)
      → get_elem? sets i ≡ some xs
      → (zs : List String) × (get_elem? (after sets i xs x) i ≡ some zs) × (listed x zs ≡ true)
  takes sets i xs x at_i = (
    xs ++ x ∷ [],
    get_elem?-set_self sets i (xs ++ x ∷ []) (lt-length sets i at_i),
    listed-append x xs (x ∷ []) ∙ ground (arith, eq_iff x x),
  )

  -- One instrument: those routed so far stay where they were.
  place_keeps :
      (sets : List (List String)) (router : R.Map) (i : ℕ) (xs : List String) (x k : String)
      → get_elem? sets i ≡ some xs
      → Placed sets router k
      → Placed (after sets i xs x) (R.emplace x i router) k
  place_keeps sets router i xs x k at_i p =
      let (zs, there, has) = still_there sets i p.worker xs p.assigned x k at_i p.there p.has in
      record {
        worker = p.worker;
        assigned = zs;
        routed = elim (Bool-cases (x == k)) [
          | inl same ↦
              let e = (eq_iff x k).0 same in
              subst (λ j. R.find j (R.emplace x i router) ≡ some p.worker) e
                (R.find_present x i p.worker router (ap (λ j. R.find j router) e ∙ p.routed))
          | inr differ ↦ R.find_other x k i router (differs x k differ) ∙ p.routed
        ];
        there = there;
        has = has;
      }

  place_new :
      (sets : List (List String)) (router : R.Map) (i : ℕ) (xs : List String) (x : String)
      → get_elem? sets i ≡ some xs
      → AllPlaced sets router
      → Placed (after sets i xs x) (R.emplace x i router) x
  place_new sets router i xs x at_i all = elim (Option-cases (R.find x router)) [
    | inl e ↦
        let (zs, there, has) = takes sets i xs x at_i in
        record {
          worker = i;
          assigned = zs;
          routed = R.find_absent x i router e;
          there = there;
          has = has;
        }
    | inr (w, e) ↦
        let (ys, there, has) = all x w e in
        place_keeps sets router i xs x x at_i
          (record { worker = w; assigned = ys; routed = e; there = there; has = has })
  ]

  place_AllPlaced :
      (sets : List (List String)) (router : R.Map) (i : ℕ) (xs : List String) (x : String)
      → get_elem? sets i ≡ some xs
      → AllPlaced sets router
      → AllPlaced (after sets i xs x) (R.emplace x i router)
  place_AllPlaced sets router i xs x at_i all k w found = elim (Bool-cases (x == k)) [
    | inl same ↦
        let p =
          subst (Placed (after sets i xs x) (R.emplace x i router)) ((eq_iff x k).0 same)
            (place_new sets router i xs x at_i all) in
        subst
          (λ v.
            (zs : List String) × (get_elem? (after sets i xs x) v ≡ some zs) × (listed k zs ≡ true))
          (some-injective (sym p.routed ∙ found)) (p.assigned, p.there, p.has)
    | inr differ ↦
        let (ys, there, has) =
          all k w (sym (R.find_other x k i router (differs x k differ)) ∙ found) in
        still_there sets i w xs ys x k at_i there has
  ]

  -- What the loop leaves.
  pub record Assigned (n : ℕ) (xs : List String) (sets : List (List String)) (router : R.Map)
      (s : List (List String) × R.Map) : Type 0 where
    pub same_workers : length s.0 ≡ n
    pub placed : All (Placed s.0 s.1) xs
    pub kept : (k : String) → Placed sets router k → Placed s.0 s.1 k

  pub assign_instruments-Assigned :
      (n i : ℕ) (xs : List String) (sets : List (List String)) (router : R.Map)
      → 0 < n
      → length sets ≡ n
      → AllPlaced sets router
      → (s : List (List String) × R.Map) × (assign_instruments R n i xs (sets, router) ≡ ok s)
        × Assigned n xs sets router s
  unfolding assign_instruments
  assign_instruments-Assigned n i [] sets router pos same all =
      ((sets, router), refl, record { same_workers = same; placed = tt; kept = λ k p. p })
  assign_instruments-Assigned n i (x ∷ xs) sets router pos same all =
      let w = i % n in
      let (ys, at) = get_elem?-lt sets w (omega arith) in
      let (s, runs, a) =
        assign_instruments-Assigned n (suc i) xs (after sets w ys x) (R.emplace x w router) pos
          (length-set sets w (ys ++ x ∷ []) ∙ same) (place_AllPlaced sets router w ys x at all) in
      (
        s,
        rw (not_zero n pos, at) runs,
        record {
          same_workers = a.same_workers;
          placed = (a.kept x (place_new sets router w ys x at all), a.placed);
          kept = λ k p. a.kept k (place_keeps sets router w ys x k at p);
        },
      )

  -- At the start nothing is routed.
  pub new-AllPlaced : (sets : List (List String)) → AllPlaced sets R.new
  new-AllPlaced sets k i found = cc (found, R.find_new k)
