-- ===== src/OrderBook/Leaving.antt =====
-- An order that leaves a side of the book of include/orderbook.h: its level takes it out, wherever
-- it stands in the queue, and goes if no other order is left.
use cpp_orderbook.Prelude.{
  ℕ, suc, ◌≡◌, ◌≢◌, refl, sym, ap, ◌∙◌, subst, ◌⊎◌, inl, inr, List, [], ◌∷◌, ◌++◌, All, Bool-cases,
  ◌==◌, some, arith,
}
use cpp_orderbook.Core.{OrderId, Price}
use cpp_orderbook.Order.{Order, OrderSide}
use cpp_orderbook.OrderPool.{OrderPool, OrderPtr, poke}
use cpp_orderbook.Pairs
use cpp_orderbook.FlatMap
use cpp_orderbook.FlatMap.{FlatMaps}
use cpp_orderbook.SortedMap.{SortedMap}
use cpp_orderbook.PriceLevel.{PriceLevel, OrderEntry}
use cpp_orderbook.PriceLevel.Index.{live, without, index_from}
use cpp_orderbook.PriceLevel.Valid.{queue, IsValid}
use cpp_orderbook.PriceLevel.Remove.{Removed}
use cpp_orderbook.OrderBook.Resting.{
  id_in, RestsAt, LevelOk, SideOk, LevelOk-poke, RestsAt-poke, prices_differ, id_in-poke,
  absent_ids, sides_differ,
}
use cpp_orderbook.OrderBook.Entering.{SideOk-moves}
use cpp_orderbook.OrderBook.Priority.{Among}

module _ (id_of : OrderPtr → OrderId) where
  -- So its id is in the index.
  pub find-Among :
      (k : ℕ) (es : List OrderEntry) (ptr : OrderPtr)
      → Among ptr (live es)
      → (i : ℕ) × (Pairs.find (id_of ptr) (index_from id_of k es) ≡ some i)
  unfolding Pairs.find
  find-Among k [] ptr h = absurd h
  find-Among k (e ∷ es) ptr h = elim (Bool-cases e.is_valid) [
    | inl v ↦ elim (Bool-cases (id_of e.order == id_of ptr)) [
      | inl same ↦ (k, rw (v, same) refl)
      | inr differ ↦
          let h' : (ptr ≡ e.order) ⊎ Among ptr (live es) = rw v at h in
          elim h' [
            | inl e₁ ↦ absurd (ground (arith, ap id_of e₁))
            | inr later ↦ let (i, at) = find-Among (suc k) es ptr later in (i, rw (v, differ) at)
          ]
    ]
    | inr v ↦ let (i, at) = find-Among (suc k) es ptr (rw v at h) in (i, rw v at)
  ]

  pub Among-without :
      (id : OrderId) (q : OrderPtr) (ps : List OrderPtr)
      → id_of q ≢ id
      → Among q ps
      → Among q (without id_of id ps)
  Among-without id q [] ne h = absurd h
  Among-without id q (p ∷ ps) ne h = elim (Bool-cases (id_of p == id)) [
    | inl e ↦
        rw e
          (elim h [ inl first ↦ absurd (ne (ap id_of first ∙ ground arith)) | inr later ↦ later ])
    | inr e ↦
        rw e (elim h [ inl first ↦ inl first | inr later ↦ inr (Among-without id q ps ne later) ])
  ]

  pub All-without :
      (P : OrderPtr → Type 0) (id : OrderId) (ps : List OrderPtr)
      → All P ps
      → All P (without id_of id ps)
  All-without P id [] h = tt
  All-without P id (p ∷ ps) h = elim (Bool-cases (id_of p == id)) [
    | inl e ↦ rw e h.1
    | inr e ↦ rw e (h.0, All-without P id ps h.1)
  ]

-- Two properties of every element.
pub All-both :
    {A : Type 0} {P Q R : A → Type 0} (xs : List A)
    → ((a : A) → P a → Q a → R a)
    → All P xs
    → All Q xs
    → All R xs
All-both [] f h k = tt
All-both (x ∷ xs) f h k = (f x h.0 k.0, All-both xs f h.1 k.1)

pub All-append :
    {A : Type 0} (P : A → Type 0) (xs ys : List A) → All P xs → All P ys → All P (xs ++ ys)
All-append P [] ys h k = k
All-append P (x ∷ xs) ys h k = (h.0, All-append P xs ys h.1 k)

pub All-Among :
    (P : OrderPtr → Type 0) (ptr : OrderPtr) (ps : List OrderPtr) → All P ps → Among ptr ps → P ptr
All-Among P ptr [] h a = absurd a
All-Among P ptr (q ∷ ps) h a = elim a [
  | inl e ↦ subst P (sym e) h.0
  | inr later ↦ All-Among P ptr ps h.1 later
]

-- A write elsewhere leaves a side as it is.
module _ ⦃F : FlatMaps⦄ {pool : OrderPool} {s : OrderSide} {p : Price} (ptr : OrderPtr)
    (r : RestsAt pool s p ptr) (o' : Order) (same : o'.id ≡ r.order.id) where
  abbrev pub written : OrderPool
  written = poke pool ptr o'

  ids_same : id_in written ≡ id_in pool
  ids_same = id_in-poke pool ptr o' r.there same

  pub SideOk-other :
      {t : OrderSide} (m : SortedMap PriceLevel) → s ≢ t → SideOk pool t m → SideOk written t m
  SideOk-other {t} m ne v =
      SideOk-moves t
        (λ q p' r'. (
          RestsAt-poke ptr q o' r.there (sides_differ r r' ne) r',
          ap (λ (f : OrderPtr → OrderId). f q) (sym ids_same),
        ))
        m v

  -- The levels at other prices.
  pub levels_apart :
      (m : SortedMap PriceLevel)
      → All (λ (e : Price × PriceLevel). p ≢ e.0) m
      → All (λ (e : Price × PriceLevel). LevelOk pool s e.0 e.1) m
      → All (λ (e : Price × PriceLevel). LevelOk written s e.0 e.1) m
  levels_apart m apart v =
      All-both m (λ e ne l. LevelOk-poke ptr o' e.1 r.there same (λ q r'. prices_differ r r' ne) l)
        apart v

  -- The level that the order leaves.
  pub level_left :
      (l l' : PriceLevel)
      → LevelOk pool s p l
      → Removed (id_in pool) (id_in pool ptr) l l'
      → queue l' ≢ []
      → LevelOk written s p l'
  level_left l l' v x some_left =
      let id = id_in pool ptr in
      let absent = absent_ids (id_in pool) 0 l'.order_entries id (
        sym (x.tracked.indexed.same id)
        ∙ ap (FlatMap.find id) x.mapped
        ∙ F.find_erase_self id l.orders_map) in
      let still : All (RestsAt pool s p) (queue l') =
        subst (All (RestsAt pool s p)) (sym x.queued)
          (All-without (id_in pool) (RestsAt pool s p) id (queue l) v.resting) in
      record {
        valid = elim x.usable [
          | inl none_left ↦ absurd (some_left none_left)
          | inr usable ↦ subst (λ f. IsValid f l') (sym ids_same) usable
        ];
        some_order = some_left;
        resting =
            All-both (queue l')
              (λ q ne r'. RestsAt-poke ptr q o' r.there (λ e. ne (ap (id_in pool) (sym e))) r')
              absent still;
      }
