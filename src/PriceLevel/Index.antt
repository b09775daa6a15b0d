-- ===== src/PriceLevel/Index.antt =====
-- How the index map of a price level of include/price_level_v2.h follows its entries.
use cpp_orderbook.Prelude.{
  ℕ, zero, suc, ◌+◌, ◌≡◌, ◌≢◌, ◌↔◌, refl, ap, ◌∙◌, inl, inr, List, [], ◌∷◌, ◌++◌, length, get_elem?,
  set, drop, true, false, if◌then◌else◌, ◌==◌, All, none, Bool-cases, some, ok, arith,
}
use cpp_orderbook.Core.{OrderId}
use cpp_orderbook.OrderPool.{OrderPtr}
use cpp_orderbook.Pairs
use cpp_orderbook.Pairs.{Pairs}
use cpp_orderbook.PriceLevel.{OrderEntry, entry, skip_invalid, invalidate}

-- The entry that `invalidate` leaves in the place of `e`.
abbrev pub unmarked : OrderEntry → OrderEntry
unmarked e = record e { is_valid = false }

-- The first `h` entries are there, and removed.
abbrev pub Skipped : ℕ → List OrderEntry → Type 0
Skipped zero es = Unit {0}
Skipped (suc h) [] = ⊥
Skipped (suc h) (e ∷ es) = (e.is_valid ≡ false) × Skipped h es

pub Skipped-set :
    (h j : ℕ) (es : List OrderEntry) (e : OrderEntry)
    → Skipped h es
    → Skipped h (set es j (unmarked e))
Skipped-set zero j es e s = tt
Skipped-set (suc h) j [] e s = s
Skipped-set (suc h) zero (x ∷ es) e s = (refl, s.1)
Skipped-set (suc h) (suc j) (x ∷ es) e s = (s.0, Skipped-set h j es e s.1)

pub Skipped-append : (h : ℕ) (es fs : List OrderEntry) → Skipped h es → Skipped h (es ++ fs)
Skipped-append zero es fs s = tt
Skipped-append (suc h) [] fs s = absurd s
Skipped-append (suc h) (x ∷ es) fs s = (s.0, Skipped-append h es fs s.1)

pub invalidate-some :
    (es : List OrderEntry) (j : ℕ) {e : OrderEntry}
    → get_elem? es j ≡ some e
    → invalidate es j ≡ ok (set es j (unmarked e))
unfolding invalidate
invalidate-some es j h = rw h

-- The orders of the marked entries, first to last: the queue that the entries stand for.
abbrev pub live : List OrderEntry → List OrderPtr
live [] = []
live (e ∷ es) = if e.is_valid then e.order ∷ live es else live es

pub live-append :
    (es : List OrderEntry) (ptr : OrderPtr) → live (es ++ entry ptr ∷ []) ≡ live es ++ ptr ∷ []
live-append [] ptr = refl
live-append (e ∷ es) ptr = ground (arith, live-append es ptr)

module _ (id_of : OrderPtr → OrderId) where
  -- The queue without its first order of that id.
  abbrev pub without : OrderId → List OrderPtr → List OrderPtr
  without id [] = []
  without id (p ∷ ps) = if id_of p == id then ps else p ∷ without id ps

  -- The pairs of id and index of the marked entries, counted from `k`.
  abbrev pub index_from : ℕ → List OrderEntry → Pairs ℕ
  index_from k [] = []
  index_from k (e ∷ es) =
      if e.is_valid then (id_of e.order, k) ∷ index_from (suc k) es else index_from (suc k) es

  pub index_from-append :
      (k : ℕ) (es : List OrderEntry) (ptr : OrderPtr)
      → index_from k (es ++ entry ptr ∷ []) ≡ index_from k es ++ (id_of ptr, k + length es) ∷ []
  index_from-append k [] ptr = ap (λ n. (id_of ptr, n) ∷ []) (omega arith)
  index_from-append k (e ∷ es) ptr = ground (arith, index_from-append (suc k) es ptr)

  -- Where the map sends an id: to a marked entry of that id, and to unmark it is to erase the id.
  pub record Located (k : ℕ) (es : List OrderEntry) (id : OrderId) (i : ℕ) : Type 0 where
    pub j : ℕ
    pub e : OrderEntry
    pub at : i ≡ k + j
    pub there : get_elem? es j ≡ some e
    pub marked : e.is_valid ≡ true
    pub owner : id_of e.order ≡ id
    pub taken : live (set es j (unmarked e)) ≡ without id (live es)
    pub erased : index_from k (set es j (unmarked e)) ≡ Pairs.erase id (index_from k es)

  pub find-Located :
      (k : ℕ) (es : List OrderEntry) (id i : ℕ)
      → Pairs.find id (index_from k es) ≡ some i
      → Located k es id i
  unfolding Pairs.find Pairs.erase
  find-Located k [] id i h = absurd (cc)
  find-Located k (e ∷ es) id i h = elim (Bool-cases e.is_valid) [
    | inl v ↦ elim (Bool-cases (id_of e.order == id)) [
      | inl same ↦ record {
        j = 0;
        e = e;
        at = ground arith;
        there = refl;
        marked = v;
        owner = ground arith;
        taken = ground arith;
        erased = ground arith;
      }
      | inr other ↦
          let r = find-Located (suc k) es id i (ground arith) in
          record {
            j = suc r.j;
            e = r.e;
            at = omega (arith, r.at);
            there = r.there;
            marked = r.marked;
            owner = r.owner;
            taken = ground arith;
            erased = ground arith;
          }
    ]
    | inr v ↦
        let r = find-Located (suc k) es id i (ground arith) in
        record {
          j = suc r.j;
          e = r.e;
          at = omega (arith, r.at);
          there = r.there;
          marked = r.marked;
          owner = r.owner;
          taken = ground arith;
          erased = ground arith;
        }
  ]

  -- Removed entries at the front do not count.
  pub index_from-drop :
      (k h : ℕ) (es : List OrderEntry)
      → Skipped h es
      → index_from k es ≡ index_from (k + h) (drop h es)
  index_from-drop k zero es s = ap (λ n. index_from n es) (omega arith)
  index_from-drop k (suc h) [] s = absurd s
  index_from-drop k (suc h) (e ∷ es) s =
      rw s.0 (index_from-drop (suc k) h es s.1 ∙ ap (λ n. index_from n (drop h es)) (omega arith))

  pub index_from-Skipped :
      (h : ℕ) (es : List OrderEntry) → Skipped h es → index_from 0 es ≡ index_from h (drop h es)
  index_from-Skipped h es s =
      index_from-drop 0 h es s ∙ ap (λ n. index_from n (drop h es)) (omega arith)

  -- The loop of `increment_to_valid` stops at the first index of the map.
  pub skip_invalid_lem :
      (h : ℕ) (es : List OrderEntry) (id i : ℕ) (rest : Pairs ℕ)
      → index_from h es ≡ (id, i) ∷ rest
      → skip_invalid es h ≡ ok i
  unfolding skip_invalid
  skip_invalid_lem h [] id i rest e = absurd (ground arith)
  skip_invalid_lem h (x ∷ es) id i rest e = ground (arith, skip_invalid_lem (suc h) es id i rest)

  pub index_from-nil_iff : (k : ℕ) (es : List OrderEntry) → (index_from k es ≡ []) ↔ (live es ≡ [])
  index_from-nil_iff k [] = (λ h. refl, λ h. refl)
  index_from-nil_iff k (e ∷ es) =
      let r = index_from-nil_iff (suc k) es in (λ h. ground (arith, r.0), λ h. ground (arith, r.1))

  pub length-index_from :
      (k : ℕ) (es : List OrderEntry) → length (index_from k es) ≡ length (live es)
  length-index_from k [] = refl
  length-index_from k (e ∷ es) = ground (arith, length-index_from (suc k) es)

  -- The first pair of the map is the first marked entry, and with it the front of the queue.
  pub record HeadAt (k : ℕ) (es : List OrderEntry) (id i : ℕ) (rest : Pairs ℕ) : Type 0 where
    pub j : ℕ
    pub e : OrderEntry
    pub ps : List OrderPtr
    pub at : i ≡ k + j
    pub there : get_elem? es j ≡ some e
    pub owner : id_of e.order ≡ id
    pub before : Skipped j es
    pub queue : live es ≡ e.order ∷ ps
    pub left : live (set es j (unmarked e)) ≡ ps
    pub index_left : index_from k (set es j (unmarked e)) ≡ rest

  pub index_from-HeadAt :
      (k : ℕ) (es : List OrderEntry) (id i : ℕ) (rest : Pairs ℕ)
      → index_from k es ≡ (id, i) ∷ rest
      → HeadAt k es id i rest
  index_from-HeadAt k [] id i rest h = absurd (cc)
  index_from-HeadAt k (e ∷ es) id i rest h = elim (Bool-cases e.is_valid) [
    | inl v ↦ record {
      j = 0;
      e = e;
      ps = live es;
      at = ground arith;
      there = refl;
      owner = ground arith;
      before = tt;
      queue = ground arith;
      left = refl;
      index_left = ground arith;
    }
    | inr v ↦
        let r = index_from-HeadAt (suc k) es id i rest (ground arith) in
        record {
          j = suc r.j;
          e = r.e;
          ps = r.ps;
          at = omega (arith, r.at);
          there = r.there;
          owner = r.owner;
          before = (v, r.before);
          queue = ground (arith, r.queue);
          left = ground (arith, r.left);
          index_left = ground (arith, r.index_left);
        }
  ]

  -- An id that no order of the queue has is not in the index.
  pub find-absent :
      (k : ℕ) (es : List OrderEntry) (id : OrderId)
      → All (λ q. id_of q ≢ id) (live es)
      → Pairs.find id (index_from k es) ≡ none
  unfolding Pairs.find
  find-absent k [] id h = refl
  find-absent k (e ∷ es) id h = elim (Bool-cases e.is_valid) [
    | inl v ↦
        let (other, rest) : (id_of e.order ≢ id) × All (λ q. id_of q ≢ id) (live es) = rw v at h in
        ground (arith, find-absent (suc k) es id rest)
    | inr v ↦ ground (arith, find-absent (suc k) es id (rw v at h))
  ]

-- The index depends on the ids of the orders in the queue alone.
pub index_from-cong :
    (f g : OrderPtr → OrderId) (k : ℕ) (es : List OrderEntry)
    → All (λ q. f q ≡ g q) (live es)
    → index_from f k es ≡ index_from g k es
index_from-cong f g k [] h = refl
index_from-cong f g k (e ∷ es) h = elim (Bool-cases e.is_valid) [
  | inl v ↦
      let (same, rest) : (f e.order ≡ g e.order) × All (λ q. f q ≡ g q) (live es) = rw v at h in
      ground (arith, index_from-cong f g (suc k) es rest)
  | inr v ↦ ground (arith, index_from-cong f g (suc k) es (rw v at h))
]
