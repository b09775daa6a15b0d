-- ===== src/Worker/Books.antt =====
-- The books that a worker of include/worker.h takes over from its context.
use cpp_orderbook.FlatMap.{FlatMaps}
use Prim.Native.String.{String}
use text.Mathlib.Text.{◌==◌}
use text.Mathlib.TextEquality.{eq_iff}
use cpp_orderbook.Prelude.{
  ◌≡◌, refl, sym, ap, ◌∙◌, subst, inl, inr, List, [], ◌∷◌, true, ◌||◌, Bool-cases, Option-cases,
  none, some, if◌then◌else◌, arith,
}
use cpp_orderbook.OrderBook.Book.{OrderBook}
use cpp_orderbook.Routing.Assigned.{listed}
use cpp_orderbook.Worker.{BookMap, find_book, emplace_book, take_books}

module _ ⦃F : FlatMaps⦄ where
  abbrev pub names_of : List OrderBook → List String
  names_of [] = []
  names_of (b ∷ bs) = b.instrument ∷ names_of bs

  -- The book found for an instrument is of that instrument.
  abbrev pub HasBook : String → BookMap → Type 0
  HasBook k m = (b : OrderBook) × (find_book k m ≡ some b) × (b.instrument ≡ k)

  abbrev IsNamed : BookMap → Type 0
  IsNamed m = (k : String) (b : OrderBook) → find_book k m ≡ some b → b.instrument ≡ k

  emplace_absent :
      (k : String) (b : OrderBook) (m : BookMap)
      → find_book k m ≡ none
      → emplace_book k b m ≡ (k, b) ∷ m
  unfolding emplace_book
  emplace_absent k b m e = ground (arith, e)

  emplace_present :
      (k : String) (b c : OrderBook) (m : BookMap) → find_book k m ≡ some c → emplace_book k b m ≡ m
  unfolding emplace_book
  emplace_present k b c m e = ground (arith, e)

  emplace_keeps :
      (k j : String) (b c : OrderBook) (m : BookMap)
      → find_book k m ≡ some c
      → find_book k (emplace_book j b m) ≡ some c
  unfolding find_book emplace_book
  emplace_keeps k j b c m e = ground (arith, eq_iff j k, e)

  emplace_new :
      (b : OrderBook) (m : BookMap)
      → IsNamed m
      → HasBook b.instrument (emplace_book b.instrument b m)
  unfolding find_book
  emplace_new b m named = elim (Option-cases (find_book b.instrument m)) [
    | inl e ↦ (
      b,
      ap (find_book b.instrument) (emplace_absent b.instrument b m e)
          ∙ ground (arith, eq_iff b.instrument b.instrument),
      refl,
    )
    | inr (c, e) ↦ (c, emplace_keeps b.instrument b.instrument b c m e, named b.instrument c e)
  ]

  emplace-IsNamed :
      (b : OrderBook) (m : BookMap) → IsNamed m → IsNamed (emplace_book b.instrument b m)
  unfolding find_book
  emplace-IsNamed b m named k c found = elim (Option-cases (find_book b.instrument m)) [
    | inl e ↦
        let found' : find_book k ((b.instrument, b) ∷ m) ≡ some c =
          ap (find_book k) (sym (emplace_absent b.instrument b m e)) ∙ found in
        elim (Bool-cases (b.instrument == k)) [
          | inl same ↦
              let taken : some b ≡ some c =
                ap (λ x. if x then some b else find_book k m) (sym same) ∙ found' in
              let equal : b ≡ c = cc in
              sym (ap (λ (o : OrderBook). o.instrument) equal) ∙ (eq_iff b.instrument k).0 same
          | inr differ ↦ named k c (ground (arith, found'))
        ]
    | inr (d, e) ↦ named k c (ap (find_book k) (sym (emplace_present b.instrument b d m e)) ∙ found)
  ]

  pub take_books_keeps :
      (k : String) (bs : List OrderBook) (m : BookMap) → HasBook k m → HasBook k (take_books bs m)
  unfolding take_books
  take_books_keeps k [] m h = h
  take_books_keeps k (b ∷ bs) m (c, e, named) =
      take_books_keeps k bs (emplace_book b.instrument b m)
        (c, emplace_keeps k b.instrument b c m e, named)

  pub take_books-HasBook :
      (k : String) (bs : List OrderBook) (m : BookMap)
      → IsNamed m
      → listed k (names_of bs) ≡ true
      → HasBook k (take_books bs m)
  unfolding take_books
  take_books-HasBook k [] m named h = absurd (cc)
  take_books-HasBook k (b ∷ bs) m named h = elim (Bool-cases (b.instrument == k)) [
    | inl same ↦ take_books_keeps k bs (emplace_book b.instrument b m) (
        subst (λ j. HasBook j (emplace_book b.instrument b m)) ((eq_iff b.instrument k).0 same)
          (emplace_new b m named))
    | inr differ ↦
        take_books-HasBook k bs (emplace_book b.instrument b m) (emplace-IsNamed b m named)
          (ap (λ x. x || listed k (names_of bs)) (sym differ) ∙ h)
  ]

  pub none-IsNamed : IsNamed []
  unfolding find_book
  none-IsNamed k b e = absurd (cc)
