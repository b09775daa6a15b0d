-- ===== src/PriceLevel/Valid.antt =====
-- The invariant of a price level of include/price_level_v2.h, and the queue of its marked orders.
use cpp_orderbook.Prelude.{
  ℕ, ◌≡◌, ◌≢◌, true, false, refl, sym, ◌∙◌, subst, ◌⊎◌, inl, inr, List, [], ◌∷◌, length, All, drop,
  ok, arith,
}
use cpp_orderbook.Prelude.Int.{ℤ}
use cpp_orderbook.Core.{OrderId}
use cpp_orderbook.OrderPool.{OrderPtr}
use cpp_orderbook.Pairs.{Pairs}
use cpp_orderbook.Pairs.Laws.{HasDistinctKeys}
use cpp_orderbook.FlatMap.{FlatMaps}
use cpp_orderbook.FlatMap.Holds.{Holds, new-Holds, empty-nil, empty-cons}
use cpp_orderbook.PriceLevel.{PriceLevel, make_level, empty, size, increment_to_valid}
use cpp_orderbook.PriceLevel.Index.{
  Skipped, live, index_from, index_from-Skipped, skip_invalid_lem, index_from-HeadAt,
  index_from-nil_iff, index_from-cong, length-index_from,
}

module _ ⦃F : FlatMaps⦄ where
  -- The queue that a level stands for.
  abbrev pub queue : PriceLevel → List OrderPtr
  queue l = live l.order_entries

  module _ (id_of : OrderPtr → OrderId) where
    -- The index of the marked entries.
    abbrev pub index_of : PriceLevel → Pairs ℕ
    index_of l = index_from id_of 0 l.order_entries

    -- The head index is the first index of the map; a level that never had an order is at its end.
    abbrev pub IsHeaded : PriceLevel → Type 0
    IsHeaded l =
        ((index_of l ≡ []) × (l.queue_head_index ≡ length l.order_entries))
        ⊎ ((id : OrderId) × (rest : Pairs ℕ) × (index_of l ≡ (id, l.queue_head_index) ∷ rest))

    -- The map holds exactly the marked entries, each id once, and the head has passed none of them.
    pub record IsTracked (l : PriceLevel) : Type 0 where
      pub indexed : Holds l.orders_map (index_of l)
      pub distinct : HasDistinctKeys (index_of l)
      pub skipped : Skipped l.queue_head_index l.order_entries

    pub record IsValid (l : PriceLevel) : Type 0 where
      pub tracked : IsTracked l
      pub headed : IsHeaded l

    pub make_level-IsValid : (p : ℤ) → IsValid (make_level p)
    unfolding make_level
    make_level-IsValid p = record {
      tracked = record { indexed = new-Holds; distinct = tt; skipped = tt };
      headed = inl (refl, refl);
    }

    -- The map is empty exactly when the queue is.
    pub empty_of_queue : (l : PriceLevel) → IsTracked l → queue l ≡ [] → empty l ≡ true
    unfolding empty
    empty_of_queue l t h =
        empty-nil l.orders_map
          (subst (Holds l.orders_map) ((index_from-nil_iff id_of 0 l.order_entries).1 h) t.indexed)

    pub not_empty_of_index :
        (l : PriceLevel) {p : OrderId × ℕ} {rest : Pairs ℕ}
        → IsTracked l
        → index_of l ≡ p ∷ rest
        → empty l ≡ false
    unfolding empty
    not_empty_of_index l {p} {rest} t e =
        empty-cons l.orders_map p rest (subst (Holds l.orders_map) e t.indexed)

    pub not_empty_of_queue : (l : PriceLevel) → IsTracked l → queue l ≢ [] → empty l ≡ false
    not_empty_of_queue l t h = by_index (index_of l) refl
      where
        by_index : (ps : Pairs ℕ) → index_of l ≡ ps → empty l ≡ false
        by_index [] e = absurd (h ((index_from-nil_iff id_of 0 l.order_entries).0 e))
        by_index (p ∷ ps) e = not_empty_of_index l t e

    pub size_of_queue : (l : PriceLevel) → IsTracked l → size l ≡ length (queue l)
    unfolding size
    size_of_queue l t = t.indexed.sized ∙ length-index_from id_of 0 l.order_entries

    -- What `increment_to_valid` leaves.
    pub record Advanced (l l' : PriceLevel) : Type 0 where
      pub runs : increment_to_valid l ≡ ok l'
      pub same_price : l'.price ≡ l.price
      pub same_entries : l'.order_entries ≡ l.order_entries
      pub same_map : l'.orders_map ≡ l.orders_map
      pub tracked : IsTracked l'
      pub headed : (index_of l' ≡ []) ⊎ IsValid l'

    pub increment_to_valid-Advanced :
        (l : PriceLevel) → IsTracked l → (l' : PriceLevel) × Advanced l l'
    unfolding increment_to_valid
    increment_to_valid-Advanced l t = by_index (index_of l) refl
      where
        by_index : (ps : Pairs ℕ) → index_of l ≡ ps → (l' : PriceLevel) × Advanced l l'
        by_index [] e = (
          l,
          record {
            runs = rw (empty_of_queue l t ((index_from-nil_iff id_of 0 l.order_entries).0 e)) refl;
            same_price = refl;
            same_entries = refl;
            same_map = refl;
            tracked = t;
            headed = inl e;
          },
        )
        by_index ((id, i) ∷ rest) e =
            let first = index_from-HeadAt id_of 0 l.order_entries id i rest e in
            let found =
              skip_invalid_lem id_of l.queue_head_index (drop l.queue_head_index l.order_entries) id
                i rest
                (sym (index_from-Skipped id_of l.queue_head_index l.order_entries t.skipped) ∙ e) in
            let before : Skipped i l.order_entries =
              subst (λ n. Skipped n l.order_entries) (omega (arith, first.at)) first.before in
            let tracked' : IsTracked (record l { queue_head_index = i }) = record {
              indexed = t.indexed;
              distinct = t.distinct;
              skipped = before;
            } in
            (
              record l { queue_head_index = i },
              record {
                runs = ground (arith, found, not_empty_of_index l t e);
                same_price = refl;
                same_entries = refl;
                same_map = refl;
                tracked = tracked';
                headed = inr (record { tracked = tracked'; headed = inr (id, rest, e) });
              },
            )

  pub IsValid-cong :
      (f g : OrderPtr → OrderId) (l : PriceLevel)
      → All (λ q. f q ≡ g q) (queue l)
      → IsValid f l
      → IsValid g l
  IsValid-cong f g l same v =
      let e : index_of f l ≡ index_of g l = index_from-cong f g 0 l.order_entries same in
      record {
        tracked = record {
          indexed = subst (Holds l.orders_map) e v.tracked.indexed;
          distinct = subst HasDistinctKeys e v.tracked.distinct;
          skipped = v.tracked.skipped;
        };
        headed = elim v.headed [
          | inl (none_yet, at_end) ↦ inl (sym e ∙ none_yet, at_end)
          | inr (id, rest, first) ↦ inr (id, rest, sym e ∙ first)
        ];
      }
