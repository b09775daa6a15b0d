-- ===== src/FirstPriceLevel/Same.antt =====
-- The price level of include/price_level.h and that of include/price_level_v2.h, side by side.
use cpp_orderbook.Prelude.{
  ℕ, suc, ◌+◌, ◌≡◌, ◌≢◌, refl, sym, ap, ◌∙◌, subst, inl, inr, List, [], ◌∷◌, ◌++◌, All, Bool-cases,
  ◌==◌, if◌then◌else◌, true, none, some, ok, arith,
}
use cpp_orderbook.Core.{OrderId}
use cpp_orderbook.Order.{
  Order, OrderStatus, fresh, partially_filled, fully_filled, cancelled, is_fully_filled,
}
use cpp_orderbook.OrderPool.{OrderPool, OrderPtr, load}
use cpp_orderbook.Pairs
use cpp_orderbook.FlatMap
use cpp_orderbook.FlatMap.{FlatMaps, FlatMap}
use cpp_orderbook.PriceLevel
use cpp_orderbook.PriceLevel.{PriceLevel, OrderEntry}
use cpp_orderbook.PriceLevel.Index.{live, without, index_from}
use cpp_orderbook.PriceLevel.Valid.{queue, IsTracked, IsValid}
use cpp_orderbook.PriceLevel.Add.{add_order-Added}
use cpp_orderbook.PriceLevel.Remove.{remove_order-Removed}
use cpp_orderbook.PriceLevel.Pop.{pop_filled, pop_unfilled}
use cpp_orderbook.OrderBook.Resting.{absent_ids}
use cpp_orderbook.FirstPriceLevel
use cpp_orderbook.FirstPriceLevel.{Node, FirstPriceLevel, without_first}
use cpp_orderbook.FirstPriceLevel.Nodes.{
  orders_of, orders_of-append, IsRising, IsRising-below, IsRising-append, HasId, IsMapped,
  erase_node-Erased,
}

module _ (id_of : OrderPtr → OrderId) where
  -- An id in the index is the id of an order in the queue.
  HasId-live :
      (k : ℕ) (es : List OrderEntry) (id : OrderId) {i : ℕ}
      → Pairs.find id (index_from id_of k es) ≡ some i
      → HasId id_of id (live es)
  unfolding Pairs.find
  HasId-live k [] id h = absurd (cc)
  HasId-live k (e ∷ es) id {i} h = elim (Bool-cases e.is_valid) [
    | inl v ↦ elim (Bool-cases (id_of e.order == id)) [
      | inl same ↦ rw v (inl (ground arith))
      | inr other ↦ rw v (inr (HasId-live (suc k) es id {i = i} (ground arith)))
    ]
    | inr v ↦ rw v (HasId-live (suc k) es id (rw v at h))
  ]

first_of :
    (ns : List Node) (ptr : OrderPtr) (ps : List OrderPtr)
    → orders_of ns ≡ ptr ∷ ps
    → (n : Node) × (ms : List Node) × (ns ≡ n ∷ ms) × (n.order ≡ ptr) × (orders_of ms ≡ ps)
first_of [] ptr ps h = absurd (cc)
first_of (n ∷ ns) ptr ps h = (n, ns, refl, ground arith, ground arith)

filled_of : (s : OrderStatus) → is_fully_filled s ≡ true → s ≡ fully_filled
filled_of fresh h = absurd (cc)
filled_of partially_filled h = absurd (cc)
filled_of fully_filled h = refl
filled_of cancelled h = absurd (cc)

module _ ⦃F : FlatMaps⦄ where
  pub first_pops :
      (pool : OrderPool) (f : FirstPriceLevel) (n : Node) (ns : List Node) (o : Order)
      → f.orders_list ≡ n ∷ ns
      → load pool n.order ≡ ok o
      → FirstPriceLevel.pop_front_order_if_filled pool f
        ≡ (if is_fully_filled o.status then ok (record f { orders_list = ns }) else ok f)
  unfolding FirstPriceLevel.pop_front_order_if_filled FirstPriceLevel.empty FirstPriceLevel.front
  first_pops pool f n ns o parts loaded = rw (parts, loaded) refl

module _ ⦃F : FlatMaps⦄ (id_of : OrderPtr → OrderId) where
  -- The invariant of the first level.
  pub record IsLinked (f : FirstPriceLevel) : Type 0 where
    pub rising : IsRising 0 f.next_node f.orders_list
    pub mapped : IsMapped id_of f.orders_map f.orders_list

  pub linked_parts :
      (f : FirstPriceLevel) (n : Node) (ns : List Node)
      → IsLinked f
      → f.orders_list ≡ n ∷ ns
      → IsRising 0 f.next_node (n ∷ ns) × IsMapped id_of f.orders_map (n ∷ ns)
  linked_parts f n ns h parts = (
    subst (IsRising 0 f.next_node) parts h.rising,
    subst (IsMapped id_of f.orders_map) parts h.mapped,
  )

  -- Two levels with the same orders in the same places, at one price.
  pub record SameQueue (f : FirstPriceLevel) (l : PriceLevel) : Type 0 where
    pub linked : IsLinked f
    pub tracked : IsTracked id_of l
    pub same_price : f.price ≡ l.price
    pub same : orders_of f.orders_list ≡ queue l

  node_of :
      (om : FlatMap ℕ) (ns : List Node) (id : OrderId)
      → IsMapped id_of om ns
      → HasId id_of id (orders_of ns)
      → (it : ℕ) × (FlatMap.find id om ≡ some it)
  node_of om [] id h has = absurd has
  node_of om (n ∷ ns) id h has = elim has [
    | inl e ↦ (n.number, subst (λ i. FlatMap.find i om ≡ some n.number) e h.0)
    | inr later ↦ node_of om ns id h.1 later
  ]

  IsMapped-assign :
      (om : FlatMap ℕ) (ns : List Node) (id : OrderId) (k : ℕ) (ptr : OrderPtr)
      → id_of ptr ≡ id
      → IsMapped id_of om ns
      → All (λ q. id_of q ≢ id) (orders_of ns)
      → IsMapped id_of (FlatMap.assign id k om) (ns ++ record { number = k; order = ptr } ∷ [])
  IsMapped-assign om [] id k ptr own h apart =
      (ap (λ i. FlatMap.find i (FlatMap.assign id k om)) own ∙ F.find_assign_self id k om, tt)
  IsMapped-assign om (n ∷ ns) id k ptr own h apart = (
    F.find_assign_ne id (id_of n.order) k om (λ e. apart.0 (sym e)) ∙ h.0,
    IsMapped-assign om ns id k ptr own h.1 apart.1,
  )

  first_removes :
      (f : FirstPriceLevel) (id : OrderId) {it : ℕ} {ns : List Node}
      → FlatMap.find id f.orders_map ≡ some it
      → FirstPriceLevel.erase_node it f.orders_list ≡ ok ns
      → FirstPriceLevel.remove_order id f
        ≡ ok (true, record f { orders_list = ns; orders_map = FlatMap.erase id f.orders_map })
  unfolding FirstPriceLevel.remove_order
  first_removes f id found runs = rw (FirstPriceLevel.remove_order, found, runs) refl

  -- `add_order` of an order with a new id on two levels with the same queue: both return, and their
  -- queues are the same again.
  pub add_order-SameQueue :
      (pool : OrderPool) (ptr : OrderPtr) (o : Order) (f : FirstPriceLevel) (l : PriceLevel)
      → SameQueue f l
      → load pool ptr ≡ ok o
      → o.id ≡ id_of ptr
      → FlatMap.find (id_of ptr) l.orders_map ≡ none
      → (f' : FirstPriceLevel) × (l' : PriceLevel) × (FirstPriceLevel.add_order pool ptr f ≡ ok f')
        × (PriceLevel.add_order pool ptr l ≡ ok l')
        × SameQueue f' l'
  unfolding FirstPriceLevel.add_order
  add_order-SameQueue pool ptr o f l h loaded own new =
      let (l', a) = add_order-Added id_of pool ptr o l loaded own new h.tracked in
      let apart =
        absent_ids id_of 0 l.order_entries (id_of ptr)
          (sym (h.tracked.indexed.same (id_of ptr)) ∙ new) in
      let node : Node = record { number = f.next_node; order = ptr } in
      (
        record f {
          orders_list = f.orders_list ++ node ∷ [];
          next_node = f.next_node + 1;
          orders_map = FlatMap.assign o.id f.next_node f.orders_map;
        },
        l',
        rw loaded refl,
        a.runs,
        record {
          linked = record {
            rising =
                subst (λ k. IsRising 0 k (f.orders_list ++ node ∷ [])) (omega arith)
                  (IsRising-append 0 f.next_node f.orders_list ptr h.linked.rising);
            mapped =
                IsMapped-assign f.orders_map f.orders_list o.id f.next_node ptr (sym own)
                  h.linked.mapped
                  (subst (λ i. All (λ q. id_of q ≢ i) (orders_of f.orders_list)) (sym own)
                    (subst (All (λ q. id_of q ≢ id_of ptr)) (sym h.same) apart));
          };
          tracked = a.tracked;
          same_price = h.same_price ∙ sym a.same_price;
          same =
              orders_of-append f.orders_list node ∙ ap (λ k. k ++ ptr ∷ []) h.same ∙ sym a.queued;
        },
      )

  -- `remove_order`, on two levels with the same queue, of an id that the map of the second has: both
  -- return true, and their queues are the same again.
  pub remove_order-SameQueue :
      (f : FirstPriceLevel) (l : PriceLevel) (id : OrderId) {i : ℕ}
      → SameQueue f l
      → FlatMap.find id l.orders_map ≡ some i
      → (f' : FirstPriceLevel) × (l' : PriceLevel) × (FirstPriceLevel.remove_order id f
          ≡ ok (true, f'))
        × (PriceLevel.remove_order id l ≡ ok (true, l'))
        × SameQueue f' l'
  remove_order-SameQueue f l id {i} h found =
      let (l', removes, x) = remove_order-Removed id_of l id h.tracked found in
      let has : HasId id_of id (orders_of f.orders_list) =
        subst (HasId id_of id) (sym h.same) (
          HasId-live id_of 0 l.order_entries id {i = i}
            (sym (h.tracked.indexed.same id) ∙ found)) in
      let (it, at) = node_of f.orders_map f.orders_list id h.linked.mapped has in
      let e =
        erase_node-Erased id_of id it 0 f.next_node f.orders_map f.orders_list h.linked.rising
          h.linked.mapped at has in
      (
        record f { orders_list = e.left; orders_map = FlatMap.erase id f.orders_map },
        l',
        first_removes f id at e.runs,
        removes,
        record {
          linked = record { rising = e.rising; mapped = e.mapped };
          tracked = x.tracked;
          same_price = h.same_price ∙ sym x.same_price;
          same = e.taken ∙ ap (without id_of id) h.same ∙ sym x.queued;
        },
      )

  -- `pop_front_order_if_filled` on two levels with the same queue, of which the second is valid and
  -- has a front order: both return, and their queues are the same again; the front order has gone from
  -- them if it is filled, and else nothing changes.
  pub pop_front_order_if_filled-SameQueue :
      (pool : OrderPool) (f : FirstPriceLevel) (l : PriceLevel) (ptr : OrderPtr)
      (ps : List OrderPtr) (o : Order)
      → SameQueue f l
      → IsValid id_of l
      → queue l ≡ ptr ∷ ps
      → load pool ptr ≡ ok o
      → o.id ≡ id_of ptr
      → (f' : FirstPriceLevel) × (l' : PriceLevel) × (FirstPriceLevel.pop_front_order_if_filled pool
            f
          ≡ ok f')
        × (PriceLevel.pop_front_order_if_filled pool l ≡ ok l')
        × SameQueue f' l'
        × (queue l' ≡ (if is_fully_filled o.status then ps else ptr ∷ ps))
  pop_front_order_if_filled-SameQueue pool f l ptr ps o h v q loaded own =
      let (n, ns, parts, at, rest) = first_of f.orders_list ptr ps (h.same ∙ q) in
      let loaded' = subst (λ r. load pool r ≡ ok o) (sym at) loaded in
      let linked = linked_parts f n ns h.linked parts in
      elim (Bool-cases (is_fully_filled o.status)) [
        | inl full ↦
            let (l', pops, x, left) =
              pop_filled id_of pool l ptr ps o v q loaded own (filled_of o.status full) in
            (
              record f { orders_list = ns },
              l',
              first_pops pool f n ns o parts loaded' ∙ rw full refl,
              pops,
              record {
                linked = record {
                  rising = IsRising-below 0 (suc n.number) f.next_node ns (omega arith) linked.0.1;
                  mapped = linked.1.1;
                };
                tracked = x.tracked;
                same_price = h.same_price ∙ sym x.same_price;
                same = rest ∙ sym left;
              },
              rw full left,
            )
        | inr not_full ↦ (
          f,
          l,
          first_pops pool f n ns o parts loaded' ∙ rw not_full refl,
          pop_unfilled id_of pool l ptr ps o v q loaded not_full,
          h,
          rw not_full q,
        )
      ]
