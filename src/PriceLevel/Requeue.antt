-- ===== src/PriceLevel/Requeue.antt =====
-- A flaw of include/price_level_v2.h: when the only order of a level is removed and added again,
-- as `modify_order_dispatcher` of include/orderbook.h does, the head index stays on the removed
-- entry, and later the level takes out the wrong entry.
use cpp_orderbook.Prelude.{
  ℕ, zero, suc, ◌+◌, ◌<◌, ◌≡◌, ◌≢◌, refl, sym, ap, ◌∙◌, subst, List, [], ◌∷◌, ◌++◌, length,
  get_elem?, set, drop, true, false, none, some, ok, undefined, get_elem?-append_left,
  get_elem?-append_self, get_elem?-set_self, lt-length, length-set, arith,
}
use mathlib.Core.List.{append_assoc}
use cpp_orderbook.Core.{OrderId}
use cpp_orderbook.Order.{Order, fully_filled}
use cpp_orderbook.OrderPool.{OrderPtr, OrderPool, load}
use cpp_orderbook.Pairs
use cpp_orderbook.FlatMap
use cpp_orderbook.FlatMap.Holds.{Holds, assign-Holds, erase-Holds, empty-nil, empty-cons}
use cpp_orderbook.FlatMap.{FlatMaps, FlatMap}
use cpp_orderbook.PriceLevel.{
  OrderEntry, PriceLevel, entry, skip_invalid, empty, add_order, increment_to_valid, remove_order,
  front, pop_front, pop_front_order_if_filled, invalidate, erase_found,
}
use cpp_orderbook.PriceLevel.Index.{
  unmarked, Skipped, Skipped-set, Skipped-append, invalidate-some, live, index_from,
  index_from-Skipped, skip_invalid_lem, index_from-nil_iff,
}
use cpp_orderbook.PriceLevel.Valid.{queue, IsValid}
use cpp_orderbook.PriceLevel.Remove.{unmark-Removed}
use cpp_orderbook.PriceLevel.Add.{add_order_run}
use cpp_orderbook.PriceLevel.Remove.{remove_order_run}
use cpp_orderbook.PriceLevel.Pop.{queue-AtHead, pop_run, pop_front_run}

set-append_left :
    (es fs : List OrderEntry) (i : ℕ) (e : OrderEntry)
    → i < length es
    → set (es ++ fs) i e ≡ set es i e ++ fs
set-append_left [] fs i e h = elim h [ ]
set-append_left (x ∷ es) fs zero e h = refl
set-append_left (x ∷ es) fs (suc i) e h = ap (λ l. x ∷ l) (set-append_left es fs i e (omega arith))

live-set_removed :
    (es : List OrderEntry) (i : ℕ) (e : OrderEntry)
    → live es ≡ []
    → live (set es i (unmarked e)) ≡ []
live-set_removed [] i e h = refl
live-set_removed (x ∷ es) zero e h = ground arith
live-set_removed (x ∷ es) (suc i) e h = ground (arith, live-set_removed es i e)

module _ ⦃F : FlatMaps⦄ where
  -- The run of `increment_to_valid` on a level with an order.
  advance_run :
      (l : PriceLevel) {i : ℕ}
      → empty l ≡ false
      → skip_invalid (drop l.queue_head_index l.order_entries) l.queue_head_index ≡ ok i
      → increment_to_valid l ≡ ok (record l { queue_head_index = i })
  unfolding increment_to_valid
  advance_run l some_order steps = ground (arith, steps)

  -- A level that loses its last order keeps its head index on the entry that it unmarked.
  unmarked_head :
      (l : PriceLevel) {e : OrderEntry} {es : List OrderEntry} {m : FlatMap ℕ} {l₁ : PriceLevel}
      → get_elem? l.order_entries l.queue_head_index ≡ some e
      → invalidate l.order_entries l.queue_head_index ≡ ok es
      → increment_to_valid (record l { order_entries = es; orders_map = m }) ≡ ok l₁
      → FlatMap.is_empty m ≡ true
      → get_elem? l₁.order_entries l₁.queue_head_index ≡ some (unmarked e)
  unfolding increment_to_valid empty invalidate
  unmarked_head l {e} {es} {m} at cut runs none_left = ground (
    arith,
    get_elem?-set_self l.order_entries l.queue_head_index (unmarked e),
    lt-length l.order_entries l.queue_head_index at,
  )

  -- A map that holds one pair, or two.
  find_other :
      (k j : OrderId) (m : FlatMap ℕ) {i : ℕ}
      → Holds m ((j, i) ∷ [])
      → k ≢ j
      → FlatMap.find k m ≡ none
  unfolding Pairs.find
  find_other k j m h ne = h.same k ∙ ground arith

  pair-Holds :
      (k j : OrderId) (n : ℕ) (m : FlatMap ℕ) {i : ℕ}
      → Holds m ((j, i) ∷ [])
      → k ≢ j
      → Holds (FlatMap.assign k n m) ((j, i) ∷ (k, n) ∷ [])
  unfolding Pairs.find
  pair-Holds k j n m {i} h ne = assign-Holds k n m ((j, i) ∷ []) (ground arith) h

  second-Holds :
      (k j : OrderId) (n : ℕ) (m : FlatMap ℕ) {i : ℕ}
      → Holds m ((j, i) ∷ (k, n) ∷ [])
      → k ≢ j
      → Holds (FlatMap.erase j m) ((k, n) ∷ [])
  unfolding Pairs.find Pairs.erase
  second-Holds k j n m {i} h ne =
      subst (Holds (FlatMap.erase j m)) (ground arith)
        (erase-Holds j i m ((j, i) ∷ (k, n) ∷ []) (ground arith) (ground arith) h)

  pop_front_absent :
      (id : OrderId) (l : PriceLevel)
      → FlatMap.find id l.orders_map ≡ none
      → pop_front id l ≡ undefined
  unfolding pop_front erase_found
  pop_front_absent id l h = ground arith

  module _ (id_of : OrderPtr → OrderId) where
    -- A level whose head index is on a removed entry of the only order.
    pub record Stale (ptr : OrderPtr) (l : PriceLevel) : Type 0 where
      pub es : List OrderEntry
      pub e : OrderEntry
      pub entries : l.order_entries ≡ es ++ entry ptr ∷ []
      pub removed : live es ≡ []
      pub head_entry : get_elem? es l.queue_head_index ≡ some e
      pub own : e.order ≡ ptr
      pub map_only : Holds l.orders_map ((id_of ptr, length es) ∷ [])
      pub skipped : Skipped l.queue_head_index es

    index_from-removed :
        (k : ℕ) (es fs : List OrderEntry)
        → live es ≡ []
        → index_from id_of k (es ++ fs) ≡ index_from id_of (k + length es) fs
    index_from-removed k [] fs h = ap (λ n. index_from id_of n fs) (omega arith)
    index_from-removed k (x ∷ es) fs h = ground (arith, index_from-removed (suc k) es fs)

    live-removed : (es fs : List OrderEntry) → live es ≡ [] → live (es ++ fs) ≡ live fs
    live-removed [] fs h = refl
    live-removed (x ∷ es) fs h = ground (arith, live-removed es fs)

    -- Remove the only order and add it again: both succeed, the queue is what it was, and the level
    -- is stale.
    pub requeue_sole :
        (pool : OrderPool) (l : PriceLevel) (ptr : OrderPtr) (o : Order)
        → IsValid id_of l
        → queue l ≡ ptr ∷ []
        → load pool ptr ≡ ok o
        → o.id ≡ id_of ptr
        → (l₁ l₂ : PriceLevel) × (remove_order (id_of ptr) l ≡ ok (true, l₁))
          × (add_order pool ptr l₁ ≡ ok l₂)
          × Stale ptr l₂
    unfolding Pairs.find
    requeue_sole pool l ptr o v q loaded owner =
        let f = queue-AtHead id_of l ptr [] v q in
        let (e, at, own) = f.entry_at in
        let (es, l₁, cut, runs, r) =
          unmark-Removed id_of l (id_of ptr) l.queue_head_index v.tracked f.found in
        let emptied : Holds l₁.orders_map [] =
          subst (Holds l₁.orders_map)
            ((index_from-nil_iff id_of 0 l₁.order_entries).1 (r.queued ∙ f.pops))
            r.tracked.indexed in
        let l₂ : PriceLevel = record l₁ {
          order_entries = l₁.order_entries ++ entry ptr ∷ [];
          orders_map = FlatMap.assign (id_of ptr) (length l₁.order_entries) l₁.orders_map;
        } in
        (
          l₁,
          l₂,
          remove_order_run l (id_of ptr) f.found cut runs,
          ground (arith, add_order_run pool ptr o l₁ loaded),
          record {
            es = l₁.order_entries;
            e = unmarked e;
            entries = refl;
            removed = r.queued ∙ f.pops;
            head_entry =
                unmarked_head l at cut runs
                  (ap FlatMap.is_empty (sym r.mapped) ∙ empty-nil l₁.orders_map emptied);
            own = own;
            map_only =
                assign-Holds (id_of ptr) (length l₁.order_entries) l₁.orders_map [] refl emptied;
            skipped = r.tracked.skipped;
          },
        )

    -- A stale level that another order joins, once its first order is filled: the first pop leaves
    -- that same filled order at the front, and the second is undefined.
    pub Stale-pop_undefined :
        (pool pool' : OrderPool) (l : PriceLevel) (ptr other : OrderPtr) (o o' : Order)
        → Stale ptr l
        → load pool other ≡ ok o'
        → o'.id ≢ id_of ptr
        → load pool' ptr ≡ ok o
        → o.id ≡ id_of ptr
        → o.status ≡ fully_filled
        → (l₁ l₂ : PriceLevel) × (add_order pool other l ≡ ok l₁)
          × (pop_front_order_if_filled pool' l₁ ≡ ok l₂)
          × (front l₂ ≡ ok ptr)
          × (pop_front_order_if_filled pool' l₂ ≡ undefined)
    unfolding front empty Pairs.find
    Stale-pop_undefined pool pool' l ptr other o o' s joined ne loaded owner full =
        let n = length s.es in
        let h = l.queue_head_index in
        let m = length l.order_entries in
        let both : List OrderEntry = entry ptr ∷ entry other ∷ [] in
        let es' : List OrderEntry = set s.es h (unmarked s.e) in
        let low : h < n = lt-length s.es h s.head_entry in
        let l₁ : PriceLevel = record l {
          order_entries = l.order_entries ++ entry other ∷ [];
          orders_map = FlatMap.assign o'.id m l.orders_map;
        } in
        let l₂ : PriceLevel = record l {
          order_entries = es' ++ both;
          queue_head_index = n;
          orders_map = FlatMap.erase o.id l₁.orders_map;
        } in
        let joint : l₁.order_entries ≡ s.es ++ both =
          ap (λ es. es ++ entry other ∷ []) s.entries
          ∙ append_assoc s.es (entry ptr ∷ []) (entry other ∷ []) in
        let at : get_elem? l₁.order_entries h ≡ some s.e =
          ap (λ es. get_elem? es h) joint ∙ get_elem?-append_left s.es both h low ∙ s.head_entry in
        let cut : set l₁.order_entries h (unmarked s.e) ≡ es' ++ both =
          ap (λ es. set es h (unmarked s.e)) joint
          ∙ set-append_left s.es both h (unmarked s.e) low in
        let removed : live es' ≡ [] = live-set_removed s.es h s.e s.removed in
        let last : get_elem? (es' ++ both) n ≡ some (entry ptr) =
          subst (λ k. get_elem? (es' ++ both) k ≡ some (entry ptr))
            (length-set s.es h (unmarked s.e))
            (get_elem?-append_self es' (entry ptr) (entry other ∷ [])) in
        let steps : skip_invalid (drop h (es' ++ both)) h ≡ ok n =
          skip_invalid_lem id_of h (drop h (es' ++ both)) (id_of ptr) n ((id_of other, suc n) ∷ [])
            (sym (
                index_from-Skipped id_of h (es' ++ both)
                  (Skipped-append h es' both (Skipped-set h h s.es s.e s.skipped)))
              ∙ index_from-removed 0 es' both removed
              ∙ ap (λ k. (id_of ptr, k) ∷ (id_of other, suc k) ∷ [])
                  (omega (arith, length-set s.es h (unmarked s.e)))) in
        let map₁ : Holds l₁.orders_map ((o.id, n) ∷ (o'.id, m) ∷ []) =
          pair-Holds o'.id o.id m l.orders_map
            (subst (λ k. Holds l.orders_map ((k, n) ∷ [])) (sym owner) s.map_only)
            (λ e. ne (e ∙ owner)) in
        let map₂ : Holds l₂.orders_map ((o'.id, m) ∷ []) =
          second-Holds o'.id o.id m l₁.orders_map map₁ (λ e. ne (e ∙ owner)) in
        let found : FlatMap.find o.id l₁.orders_map ≡ some n = map₁.same o.id ∙ ground arith in
        let runs =
          advance_run (record l { order_entries = es' ++ both; orders_map = l₂.orders_map })
            (empty-cons l₂.orders_map (o'.id, m) [] map₂) steps in
        let first_pop =
          pop_run pool' l₁ ptr (empty-cons l₁.orders_map (o.id, n) ((o'.id, m) ∷ []) map₁) at s.own
            loaded in
        let unmarks : pop_front o.id l₁ ≡ ok l₂ =
          pop_front_run l₁ o.id found (invalidate-some l₁.order_entries h at) (rw cut runs) in
        let second_pop =
          pop_run pool' l₂ ptr (empty-cons l₂.orders_map (o'.id, m) [] map₂) last refl loaded in
        let absent =
          pop_front_absent o.id l₂
            (find_other o.id o'.id l₂.orders_map map₂ (λ e. ne (sym e ∙ owner))) in
        (
          l₁,
          l₂,
          add_order_run pool other o' l joined,
          ground (arith, first_pop, unmarks),
          ground (arith, last),
          ground (arith, second_pop, absent),
        )
