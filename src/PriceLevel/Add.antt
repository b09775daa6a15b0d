-- ===== src/PriceLevel/Add.antt =====
-- `add_order` of include/price_level_v2.h puts an order at the end of the level's queue.
use cpp_orderbook.Prelude.{
  ◌≡◌, refl, sym, ap, ◌∙◌, subst, inl, inr, [], ◌∷◌, ◌++◌, length, none, ok, arith, length-append,
}
use cpp_orderbook.Core.{OrderId}
use cpp_orderbook.Order.{Order}
use cpp_orderbook.OrderPool.{OrderPtr, OrderPool, load}
use cpp_orderbook.FlatMap
use cpp_orderbook.FlatMap.{FlatMaps, FlatMap}
use cpp_orderbook.FlatMap.Holds.{Holds, assign-Holds}
use cpp_orderbook.Pairs.Laws.{HasDistinctKeys, append-HasDistinctKeys}
use cpp_orderbook.PriceLevel.{PriceLevel, entry, add_order}
use cpp_orderbook.PriceLevel.Index.{Skipped-append, live-append, index_from-append}
use cpp_orderbook.PriceLevel.Valid.{queue, index_of, IsTracked, IsValid}

module _ ⦃F : FlatMaps⦄ where
  pub add_order_run :
      (pool : OrderPool) (ptr : OrderPtr) (o : Order) (l : PriceLevel)
      → load pool ptr ≡ ok o
      → add_order pool ptr l
        ≡ ok (record l {
          order_entries = l.order_entries ++ entry ptr ∷ [];
          orders_map = FlatMap.assign o.id (length l.order_entries) l.orders_map;
        })
  unfolding add_order
  add_order_run pool ptr o l loaded = ground (arith, length-append l.order_entries (entry ptr ∷ []))

  module _ (id_of : OrderPtr → OrderId) where
    -- A new order goes to the end of the queue.
    pub record Added (pool : OrderPool) (ptr : OrderPtr) (l l' : PriceLevel) : Type 0 where
      pub runs : add_order pool ptr l ≡ ok l'
      pub same_price : l'.price ≡ l.price
      pub queued : queue l' ≡ queue l ++ ptr ∷ []
      pub mapped : l'.orders_map ≡ FlatMap.assign (id_of ptr) (length l.order_entries) l.orders_map
      pub tracked : IsTracked id_of l'
      pub keeps_IsValid : IsValid id_of l → IsValid id_of l'

    pub add_order-Added :
        (pool : OrderPool) (ptr : OrderPtr) (o : Order) (l : PriceLevel)
        → load pool ptr ≡ ok o
        → o.id ≡ id_of ptr
        → FlatMap.find (id_of ptr) l.orders_map ≡ none
        → IsTracked id_of l
        → (l' : PriceLevel) × Added pool ptr l l'
    add_order-Added pool ptr o l loaded owner new t =
        let n = length l.order_entries in
        let absent = sym (t.indexed.same (id_of ptr)) ∙ new in
        let l' : PriceLevel = record l {
          order_entries = l.order_entries ++ entry ptr ∷ [];
          orders_map = FlatMap.assign (id_of ptr) n l.orders_map;
        } in
        let grown : index_of id_of l' ≡ index_of id_of l ++ (id_of ptr, n) ∷ [] =
          index_from-append id_of 0 l.order_entries ptr
          ∙ ap (λ k. index_of id_of l ++ (id_of ptr, k) ∷ []) (omega arith) in
        let tracked' : IsTracked id_of l' = record {
          indexed =
              subst (Holds l'.orders_map) (sym grown)
                (assign-Holds (id_of ptr) n l.orders_map (index_of id_of l) absent t.indexed);
          distinct =
              subst HasDistinctKeys (sym grown)
                (append-HasDistinctKeys (id_of ptr) n (index_of id_of l) t.distinct absent);
          skipped = Skipped-append l.queue_head_index l.order_entries (entry ptr ∷ []) t.skipped;
        } in
        (
          l',
          record {
            runs = ground (arith, add_order_run pool ptr o l loaded);
            same_price = refl;
            queued = live-append l.order_entries ptr;
            mapped = refl;
            tracked = tracked';
            keeps_IsValid = λ v. record {
              tracked = tracked';
              headed = inr (elim v.headed [
                | inl (none_yet, at_end) ↦ (
                  id_of ptr,
                  [],
                  grown
                      ∙ ap (λ m. m ++ (id_of ptr, n) ∷ []) none_yet
                      ∙ ap (λ k. (id_of ptr, k) ∷ []) (sym at_end),
                )
                | inr (id, rest, first) ↦ (
                  id,
                  rest ++ (id_of ptr, n) ∷ [],
                  grown ∙ ap (λ m. m ++ (id_of ptr, n) ∷ []) first,
                )
              ]);
            };
          },
        )
