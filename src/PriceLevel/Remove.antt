-- ===== src/PriceLevel/Remove.antt =====
-- `remove_order` of include/price_level_v2.h takes one order out of the level's queue, wherever it
-- stands.
use cpp_orderbook.Prelude.{
  ℕ, ◌≡◌, sym, ap, ◌∙◌, subst, ◌⊎◌, inl, inr, List, [], set, true, false, none, some, ok, arith,
}
use cpp_orderbook.Core.{OrderId}
use cpp_orderbook.OrderPool.{OrderPtr}
use cpp_orderbook.FlatMap
use cpp_orderbook.FlatMap.{FlatMaps, FlatMap}
use cpp_orderbook.FlatMap.Holds.{Holds, erase-Holds}
use cpp_orderbook.Pairs.Laws.{HasDistinctKeys, erase-HasDistinctKeys}
use cpp_orderbook.PriceLevel.{OrderEntry, PriceLevel, increment_to_valid, remove_order, invalidate}
use cpp_orderbook.PriceLevel.Index.{
  unmarked, Skipped-set, invalidate-some, live, without, find-Located, index_from-nil_iff,
}
use cpp_orderbook.PriceLevel.Valid.{
  queue, index_of, IsTracked, IsValid, increment_to_valid-Advanced,
}

module _ ⦃F : FlatMaps⦄ where
  pub remove_order_run :
      (l : PriceLevel) (id : OrderId) {i : ℕ} {es : List OrderEntry} {l' : PriceLevel}
      → FlatMap.find id l.orders_map ≡ some i
      → invalidate l.order_entries i ≡ ok es
      → increment_to_valid
          (record l { order_entries = es; orders_map = FlatMap.erase id l.orders_map })
        ≡ ok l'
      → remove_order id l ≡ ok (true, l')
  unfolding remove_order
  remove_order_run l id found cut runs = ground arith

  module _ (id_of : OrderPtr → OrderId) where
    -- What it is to have taken an order out: the level that is left is valid, or empty (and then it
    -- is to be pruned).
    pub record Removed (id : OrderId) (l l' : PriceLevel) : Type 0 where
      pub same_price : l'.price ≡ l.price
      pub queued : queue l' ≡ without id_of id (queue l)
      pub mapped : l'.orders_map ≡ FlatMap.erase id l.orders_map
      pub tracked : IsTracked id_of l'
      pub usable : (queue l' ≡ []) ⊎ IsValid id_of l'

    -- To unmark the entry that the map gives for an id, and go on from there.
    pub unmark-Removed :
        (l : PriceLevel) (id i : ℕ)
        → IsTracked id_of l
        → FlatMap.find id l.orders_map ≡ some i
        → (es : List OrderEntry) × (l' : PriceLevel) × (invalidate l.order_entries i ≡ ok es)
          × (increment_to_valid
                (record l { order_entries = es; orders_map = FlatMap.erase id l.orders_map })
              ≡ ok l')
          × Removed id l l'
    unmark-Removed l id i t h =
        let located = sym (t.indexed.same id) ∙ h in
        let r = find-Located id_of 0 l.order_entries id i located in
        let es : List OrderEntry = set l.order_entries r.j (unmarked r.e) in
        let cut : PriceLevel = record l {
          order_entries = es;
          orders_map = FlatMap.erase id l.orders_map;
        } in
        let (l', a) = increment_to_valid-Advanced id_of cut (record {
          indexed =
              subst (Holds cut.orders_map) (sym r.erased)
                (erase-Holds id i l.orders_map (index_of id_of l) t.distinct located t.indexed);
          distinct =
              subst HasDistinctKeys (sym r.erased)
                (erase-HasDistinctKeys id (index_of id_of l) t.distinct);
          skipped = Skipped-set l.queue_head_index r.j l.order_entries r.e t.skipped;
        }) in
        let at : r.j ≡ i = omega (arith, r.at) in
        (
          es,
          l',
          subst (λ n. invalidate l.order_entries n ≡ ok es) at
              (invalidate-some l.order_entries r.j r.there),
          a.runs,
          record {
            same_price = a.same_price;
            queued = ap live a.same_entries ∙ r.taken;
            mapped = a.same_map;
            tracked = a.tracked;
            usable = elim a.headed [
              | inl e ↦ inl ((index_from-nil_iff id_of 0 l'.order_entries).0 e)
              | inr v ↦ inr v
            ];
          },
        )

    -- `remove_order` of an id that the level has: it returns true, and the queue loses that order.
    pub remove_order-Removed :
        (l : PriceLevel) (id : OrderId) {i : ℕ}
        → IsTracked id_of l
        → FlatMap.find id l.orders_map ≡ some i
        → (l' : PriceLevel) × (remove_order id l ≡ ok (true, l')) × Removed id l l'
    remove_order-Removed l id {i} t h =
        let (es, l', cut, runs, r) = unmark-Removed l id i t h in
        (l', remove_order_run l id h cut runs, r)

    pub remove_order-absent :
        (l : PriceLevel) (id : OrderId)
        → FlatMap.find id l.orders_map ≡ none
        → remove_order id l ≡ ok (false, l)
    unfolding remove_order
    remove_order-absent l id h = ground arith
