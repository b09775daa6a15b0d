-- ===== src/PriceLevel/Pop.antt =====
-- `front` and `pop_front_order_if_filled` of include/price_level_v2.h: the front of the queue.
use cpp_orderbook.Prelude.{
  ℕ, ◌≡◌, sym, ◌∙◌, subst, inl, inr, List, ◌∷◌, get_elem?, false, if◌then◌else◌, some, ok, arith,
}
use cpp_orderbook.Core.{OrderId}
use cpp_orderbook.Order.{Order, fully_filled, is_fully_filled}
use cpp_orderbook.OrderPool.{OrderPtr, OrderPool, load}
use cpp_orderbook.Pairs
use cpp_orderbook.FlatMap
use cpp_orderbook.FlatMap.{FlatMaps, FlatMap}
use cpp_orderbook.PriceLevel.{
  OrderEntry, PriceLevel, empty, increment_to_valid, front, pop_front, pop_if_filled,
  pop_front_order_if_filled, invalidate, erase_found,
}
use cpp_orderbook.PriceLevel.Index.{without, index_from-nil_iff, index_from-HeadAt}
use cpp_orderbook.PriceLevel.Valid.{queue, not_empty_of_index, IsValid}
use cpp_orderbook.PriceLevel.Remove.{Removed, unmark-Removed}

module _ ⦃F : FlatMaps⦄ where
  module _ (id_of : OrderPtr → OrderId) where
    -- The front of a non-empty valid level is the front of its queue.
    pub record AtHead (l : PriceLevel) (ptr : OrderPtr) (ps : List OrderPtr) : Type 0 where
      pub reads : front l ≡ ok ptr
      pub found : FlatMap.find (id_of ptr) l.orders_map ≡ some l.queue_head_index
      pub entry_at :
          (e : OrderEntry) × (get_elem? l.order_entries l.queue_head_index ≡ some e)
          × (e.order ≡ ptr)
      pub some_order : empty l ≡ false
      pub pops : without id_of (id_of ptr) (queue l) ≡ ps

    pub queue-AtHead :
        (l : PriceLevel) (ptr : OrderPtr) (ps : List OrderPtr)
        → IsValid id_of l
        → queue l ≡ ptr ∷ ps
        → AtHead l ptr ps
    unfolding front Pairs.find
    queue-AtHead l ptr ps v q = elim v.headed [
      | inl (none_yet, at_end) ↦
          absurd (ground (arith, (index_from-nil_iff id_of 0 l.order_entries).0 none_yet))
      | inr (id, rest, first) ↦
          let h = index_from-HeadAt id_of 0 l.order_entries id l.queue_head_index rest first in
          let at : l.queue_head_index ≡ h.j = omega (arith, h.at) in
          let there : get_elem? l.order_entries l.queue_head_index ≡ some h.e =
            subst (λ n. get_elem? l.order_entries n ≡ some h.e) (sym at) h.there in
          record {
            reads = ground (arith, h.queue, h.owner);
            found = v.tracked.indexed.same (id_of ptr) ∙ ground (arith, h.queue, h.owner);
            entry_at = (h.e, there, ground (arith, h.queue, h.owner));
            some_order = not_empty_of_index id_of l v.tracked first;
            pops = ground (arith, h.queue, h.owner);
          }
    ]

  pub pop_front_run :
      (l : PriceLevel) (id : OrderId) {i : ℕ} {es : List OrderEntry} {l' : PriceLevel}
      → FlatMap.find id l.orders_map ≡ some i
      → invalidate l.order_entries l.queue_head_index ≡ ok es
      → increment_to_valid
          (record l { order_entries = es; orders_map = FlatMap.erase id l.orders_map })
        ≡ ok l'
      → pop_front id l ≡ ok l'
  unfolding pop_front erase_found
  pop_front_run l id found cut runs = ground arith

  -- The steps of `pop_front_order_if_filled` before the test of the status.
  pub pop_run :
      (pool : OrderPool) (l : PriceLevel) (ptr : OrderPtr) {e : OrderEntry} {o : Order}
      → empty l ≡ false
      → get_elem? l.order_entries l.queue_head_index ≡ some e
      → e.order ≡ ptr
      → load pool ptr ≡ ok o
      → pop_front_order_if_filled pool l
        ≡ (if is_fully_filled o.status then pop_front o.id l else ok l)
  unfolding pop_front_order_if_filled pop_if_filled
  pop_run pool l ptr some_order at own loaded = ground arith

  module _ (id_of : OrderPtr → OrderId) where
    -- `pop_front_order_if_filled` on a valid level with a front order: a filled order leaves the
    -- queue, and with any other status nothing changes.
    pub pop_filled :
        (pool : OrderPool) (l : PriceLevel) (ptr : OrderPtr) (ps : List OrderPtr) (o : Order)
        → IsValid id_of l
        → queue l ≡ ptr ∷ ps
        → load pool ptr ≡ ok o
        → o.id ≡ id_of ptr
        → o.status ≡ fully_filled
        → (l' : PriceLevel) × (pop_front_order_if_filled pool l ≡ ok l')
          × Removed id_of (id_of ptr) l l'
          × (queue l' ≡ ps)
    pop_filled pool l ptr ps o v q loaded owner full =
        let f = queue-AtHead id_of l ptr ps v q in
        let (e, at, own) = f.entry_at in
        let (es, l', cut, runs, r) =
          unmark-Removed id_of l (id_of ptr) l.queue_head_index v.tracked f.found in
        let run = pop_run pool l ptr f.some_order at own loaded in
        let pops = pop_front_run l (id_of ptr) f.found cut runs in
        (l', ground (arith, run, pops), r, r.queued ∙ f.pops)

    pub pop_unfilled :
        (pool : OrderPool) (l : PriceLevel) (ptr : OrderPtr) (ps : List OrderPtr) (o : Order)
        → IsValid id_of l
        → queue l ≡ ptr ∷ ps
        → load pool ptr ≡ ok o
        → is_fully_filled o.status ≡ false
        → pop_front_order_if_filled pool l ≡ ok l
    pop_unfilled pool l ptr ps o v q loaded open_still =
        let f = queue-AtHead id_of l ptr ps v q in
        let (e, at, own) = f.entry_at in
        let run = pop_run pool l ptr f.some_order at own loaded in ground (arith, run)
