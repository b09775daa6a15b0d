-- ===== src/SortedMap/Split.antt =====
-- The operations of the std::map of include/orderbook.h at a key: the pairs before it, what it has,
-- and the pairs behind it.
use cpp_orderbook.Prelude.{
  ◌≡◌, refl, sym, ap, ◌∙◌, subst, ◌⊎◌, inl, inr, List, [], ◌∷◌, ◌++◌, All, Bool-cases, true, false,
  none, some, arith,
}
use cpp_orderbook.Core.{Price}
use cpp_orderbook.SortedMap.{SortedMap, Compare, less, greater, find, try_emplace, put, erase}

-- A comparison is a strict total order.
pub record IsCompare (before : Compare) : Type 0 where
  pub irrefl : (p : Price) → before p p ≡ false
  pub asym : (p q : Price) → before p q ≡ true → before q p ≡ false
  pub trans : (p q r : Price) → before p q ≡ true → before q r ≡ true → before p r ≡ true
  pub total : (p q : Price) → before p q ≡ false → before q p ≡ false → p ≡ q

pub less-IsCompare : IsCompare less
less-IsCompare = record {
  irrefl = λ p. ground arith;
  asym = λ p q h. ground arith;
  trans = λ p q r h k. ground arith;
  total = λ p q h k. ground arith;
}

pub greater-IsCompare : IsCompare greater
greater-IsCompare = record {
  irrefl = λ p. ground arith;
  asym = λ p q h. ground arith;
  trans = λ p q r h k. ground arith;
  total = λ p q h k. ground arith;
}

module _ {V : Type 0} (before : Compare) where
  -- The pairs whose keys stand before, and behind, a key.
  abbrev pub Lower : Price → SortedMap V → Type 0
  Lower p m = All (λ e. before e.0 p ≡ true) m

  abbrev pub Upper : Price → SortedMap V → Type 0
  Upper p m = All (λ e. before p e.0 ≡ true) m

  -- The keys stand in the order of the comparison, each once.
  abbrev pub IsOrdered : SortedMap V → Type 0
  IsOrdered [] = Unit {0}
  IsOrdered ((p, v) ∷ m) = Upper p m × IsOrdered m

module _ {V : Type 0} {before : Compare} (c : IsCompare before) (p : Price) where
  pub find_at :
      (front back : SortedMap V) (v : V)
      → Lower before p front
      → find before p (front ++ (p, v) ∷ back) ≡ some v
  unfolding find
  find_at [] back v h = ground (arith, c.irrefl p)
  find_at ((q, w) ∷ front) back v h = ground (arith, c.asym q p h.0, find_at front back v h.1)

  pub find_missing :
      (front back : SortedMap V)
      → Lower before p front
      → Upper before p back
      → find before p (front ++ back) ≡ none
  unfolding find
  find_missing [] [] h k = refl
  find_missing [] (e ∷ back) h k = ground arith
  find_missing ((q, u) ∷ front) back h k =
      ground (arith, c.asym q p h.0, find_missing front back h.1 k)

  pub put_at :
      (front back : SortedMap V) (v w : V)
      → Lower before p front
      → put before p w (front ++ (p, v) ∷ back) ≡ front ++ (p, w) ∷ back
  unfolding put
  put_at [] back v w h = ground (arith, c.irrefl p)
  put_at ((q, u) ∷ front) back v w h = ground (arith, c.asym q p h.0, put_at front back v w h.1)

  pub erase_at :
      (front back : SortedMap V) (v : V)
      → Lower before p front
      → erase before p (front ++ (p, v) ∷ back) ≡ front ++ back
  unfolding erase
  erase_at [] back v h = ground (arith, c.irrefl p)
  erase_at ((q, u) ∷ front) back v h = ground (arith, c.asym q p h.0, erase_at front back v h.1)

  pub try_emplace_there :
      (front back : SortedMap V) (v w : V)
      → Lower before p front
      → try_emplace before p w (front ++ (p, v) ∷ back) ≡ (false, front ++ (p, v) ∷ back)
  unfolding try_emplace
  try_emplace_there [] back v w h = ground (arith, c.irrefl p)
  try_emplace_there ((q, u) ∷ front) back v w h =
      ground (arith, c.asym q p h.0, try_emplace_there front back v w h.1)

  pub try_emplace_new :
      (front back : SortedMap V) (w : V)
      → Lower before p front
      → Upper before p back
      → try_emplace before p w (front ++ back) ≡ (true, front ++ (p, w) ∷ back)
  unfolding try_emplace
  try_emplace_new [] [] w h k = refl
  try_emplace_new [] (e ∷ back) w h k = ground arith
  try_emplace_new ((q, u) ∷ front) back w h k =
      ground (arith, c.asym q p h.0, try_emplace_new front back w h.1 k)

  -- A map has a key, between those before and those behind it, or a place for it.
  pub record Hit (m : SortedMap V) : Type 0 where
    pub front : SortedMap V
    pub value : V
    pub back : SortedMap V
    pub parts : m ≡ front ++ (p, value) ∷ back
    pub lower : Lower before p front
    pub upper : Upper before p back

  pub record Miss (m : SortedMap V) : Type 0 where
    pub front : SortedMap V
    pub back : SortedMap V
    pub parts : m ≡ front ++ back
    pub lower : Lower before p front
    pub upper : Upper before p back

  beyond_trans :
      (q : Price) (m : SortedMap V) → before p q ≡ true → Upper before q m → Upper before p m
  beyond_trans q [] h u = tt
  beyond_trans q (e ∷ m) h u = (c.trans p q e.0 h u.0, beyond_trans q m h u.1)

  pub split : (m : SortedMap V) → IsOrdered before m → Hit m ⊎ Miss m
  split [] o = inr (record { front = []; back = []; parts = refl; lower = tt; upper = tt })
  split ((q, v) ∷ m) o = elim (Bool-cases (before p q)) [
    | inl earlier ↦ inr (record {
      front = [];
      back = (q, v) ∷ m;
      parts = refl;
      lower = tt;
      upper = (earlier, beyond_trans q m earlier o.0);
    })
    | inr not_earlier ↦ elim (Bool-cases (before q p)) [
      | inl later ↦ elim (split m o.1) [
        | inl hit ↦ inl (record {
          front = (q, v) ∷ hit.front;
          value = hit.value;
          back = hit.back;
          parts = ap (λ l. (q, v) ∷ l) hit.parts;
          lower = (later, hit.lower);
          upper = hit.upper;
        })
        | inr miss ↦ inr (record {
          front = (q, v) ∷ miss.front;
          back = miss.back;
          parts = ap (λ l. (q, v) ∷ l) miss.parts;
          lower = (later, miss.lower);
          upper = miss.upper;
        })
      ]
      | inr not_later ↦
          let same : q ≡ p = sym (c.total p q not_earlier not_later) in
          inl (record {
            front = [];
            value = v;
            back = m;
            parts = ap (λ k. (k, v) ∷ m) same;
            lower = tt;
            upper = subst (λ k. Upper before k m) same o.0;
          })
    ]
  ]

-- The place of a key that is there.
pub place_of :
    {V : Type 0} {before : Compare} (c : IsCompare before) (p : Price) (m : SortedMap V) {v : V}
    → IsOrdered before m
    → find before p m ≡ some v
    → (h : Hit c p m) × (h.value ≡ v)
place_of {before = before} c p m o e = elim (split c p m o) [
  | inl h ↦ (
    h,
    let at : find before p m ≡ some h.value =
          ap (find before p) h.parts ∙ find_at c p h.front h.back h.value h.lower in
        ground arith,
  )
  | inr h ↦
      let missing : find before p m ≡ none =
        ap (find before p) h.parts ∙ find_missing c p h.front h.back h.lower h.upper in
      absurd (cc)
]

-- A pair in the middle of a list.
module _ {A : Type 0} (P : A → Type 0) where
  pub All-insert : (xs ys : List A) (a : A) → P a → All P (xs ++ ys) → All P (xs ++ a ∷ ys)
  All-insert [] ys a h k = (h, k)
  All-insert (x ∷ xs) ys a h k = (k.0, All-insert xs ys a h k.1)

  pub All-remove : (xs ys : List A) (a : A) → All P (xs ++ a ∷ ys) → P a × All P (xs ++ ys)
  All-remove [] ys a h = h
  All-remove (x ∷ xs) ys a h = let (pa, rest) = All-remove xs ys a h.1 in (pa, (h.0, rest))

module _ {V : Type 0} (before : Compare) (p : Price) where
  pub insert-IsOrdered :
      (front back : SortedMap V) (v : V)
      → Lower before p front
      → Upper before p back
      → IsOrdered before (front ++ back)
      → IsOrdered before (front ++ (p, v) ∷ back)
  insert-IsOrdered [] back v l u o = (u, o)
  insert-IsOrdered ((q, w) ∷ front) back v l u o = (
    All-insert (λ e. before q e.0 ≡ true) front back (p, v) l.0 o.0,
    insert-IsOrdered front back v l.1 u o.1,
  )

  pub remove-IsOrdered :
      (front back : SortedMap V) (v : V)
      → IsOrdered before (front ++ (p, v) ∷ back)
      → IsOrdered before (front ++ back)
  remove-IsOrdered [] back v o = o.1
  remove-IsOrdered ((q, w) ∷ front) back v o = (
    (All-remove (λ e. before q e.0 ≡ true) front back (p, v) o.0).1,
    remove-IsOrdered front back v o.1,
  )
