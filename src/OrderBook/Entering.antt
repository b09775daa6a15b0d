-- ===== src/OrderBook/Entering.antt =====
-- An order that joins a side of the book of include/orderbook.h: the level of its price is found or
-- made, and takes the order at the end of its queue.
use cpp_orderbook.Prelude.{
  suc, ◌+◌, ◌≡◌, ◌≢◌, refl, sym, ap, ◌∙◌, subst, inl, inr, List, [], ◌∷◌, ◌++◌, length,
  length-append, All, All-imp, Bool, true, false, Option, none, some, ok, arith,
}
use cpp_orderbook.Core.{Price}
use cpp_orderbook.Order.{OrderSide, buy, sell}
use cpp_orderbook.OrderPool.{OrderPool, OrderPtr}
use cpp_orderbook.OrderPool.Slots.{load-ok}
use cpp_orderbook.FlatMap.{FlatMaps}
use cpp_orderbook.SortedMap
use cpp_orderbook.SortedMap.{SortedMap}
use cpp_orderbook.SortedMap.Split.{
  IsOrdered, IsCompare, less-IsCompare, greater-IsCompare, split, Hit, Miss, find_at, put_at,
  try_emplace_there, try_emplace_new, All-insert, All-remove, insert-IsOrdered, remove-IsOrdered,
}
use cpp_orderbook.PriceLevel
use cpp_orderbook.PriceLevel.{PriceLevel, make_level}
use cpp_orderbook.PriceLevel.Index.{find-absent}
use cpp_orderbook.PriceLevel.Valid.{queue, IsValid, IsValid-cong, make_level-IsValid, size_of_queue}
use cpp_orderbook.PriceLevel.Add.{add_order-Added}
use cpp_orderbook.OrderBook.Book.{compare_of, total_orders}
use cpp_orderbook.OrderBook.Priority.{
  Among, Among-left, Among-right, Among-level, Among-other, Among-around, in_priority,
}
use cpp_orderbook.OrderBook.Resting.{id_in, id_or_zero, RestsAt, LevelOk, SideOk}

pub compare_of-IsCompare : (s : OrderSide) → IsCompare (compare_of s)
compare_of-IsCompare buy = greater-IsCompare
compare_of-IsCompare sell = less-IsCompare

append-ne-nil : {A : Type 0} (xs : List A) (a : A) → xs ++ a ∷ [] ≢ []
append-ne-nil [] a e = cc
append-ne-nil (x ∷ xs) a e = cc

All-append_one :
    {A : Type 0} (P : A → Type 0) (xs : List A) (a : A) → All P xs → P a → All P (xs ++ a ∷ [])
All-append_one P [] a h p = (p, tt)
All-append_one P (x ∷ xs) a h p = (h.0, All-append_one P xs a h.1 p)

module _ ⦃F : FlatMaps⦄ where
  -- All orders of a side.
  abbrev pub AllOrders : (OrderPtr → Type 0) → SortedMap PriceLevel → Type 0
  AllOrders P m = All (λ e. All P (queue e.1)) m

  -- Where the orders of a side rest in another pool under the same ids, the side does.
  module _ {pool pool' : OrderPool} (s : OrderSide)
      (moves : (q : OrderPtr) (p : Price)
        → RestsAt pool s p q
        → RestsAt pool' s p q × (id_in pool q ≡ id_in pool' q)) where
    level_moves : (e : Price × PriceLevel) → LevelOk pool s e.0 e.1 → LevelOk pool' s e.0 e.1
    level_moves (p, l) v = record {
      valid =
          IsValid-cong (id_in pool) (id_in pool') l
            (All-imp (queue l) (λ q r. (moves q p r).1) v.resting) v.valid;
      some_order = v.some_order;
      resting = All-imp (queue l) (λ q r. (moves q p r).0) v.resting;
    }

    pub SideOk-moves : (m : SortedMap PriceLevel) → SideOk pool s m → SideOk pool' s m
    SideOk-moves m v = record { ordered = v.ordered; levels = All-imp m level_moves v.levels }

  pub SideOk-AllOrders :
      {pool : OrderPool} {s : OrderSide} (P : OrderPtr → Type 0) (m : SortedMap PriceLevel)
      → ((q : OrderPtr) (p : Price) → RestsAt pool s p q → P q)
      → SideOk pool s m
      → AllOrders P m
  SideOk-AllOrders P m h v =
      All-imp m (λ e l. All-imp (queue e.1) (λ q r. h q e.0 r) l.resting) v.levels

  pub total-insert :
      (front back : SortedMap PriceLevel) (p : Price) (l : PriceLevel)
      → total_orders (front ++ (p, l) ∷ back) ≡ PriceLevel.size l + total_orders (front ++ back)
  unfolding total_orders
  total-insert [] back p l = refl
  total-insert (e ∷ front) back p l = omega (arith, total-insert front back p l)

  -- A level just made.
  no_orders : (P : OrderPtr → Type 0) (p : Price) → All P (queue (make_level p))
  unfolding make_level
  no_orders P p = tt

  size_of_new : (p : Price) → PriceLevel.size (make_level p) ≡ 0
  unfolding PriceLevel.size make_level
  size_of_new p = F.size_new

  -- A level with one more order.
  joined :
      {pool : OrderPool} {s : OrderSide} {p : Price} (l : PriceLevel) (ptr : OrderPtr)
      → IsValid (id_in pool) l
      → All (RestsAt pool s p) (queue l)
      → All (λ q. id_in pool q ≢ id_in pool ptr) (queue l)
      → RestsAt pool s p ptr
      → (l' : PriceLevel) × (PriceLevel.add_order pool ptr l ≡ ok l')
        × LevelOk pool s p l'
        × (queue l' ≡ queue l ++ ptr ∷ [])
        × (PriceLevel.size l' ≡ suc (PriceLevel.size l))
  joined {pool} {s} {p} l ptr v resting apart r =
      let absent = find-absent (id_in pool) 0 l.order_entries (id_in pool ptr) apart in
      let (l', a) =
        add_order-Added (id_in pool) pool ptr r.order l (load-ok pool ptr r.there)
          (ap id_or_zero (sym r.there)) (v.tracked.indexed.same (id_in pool ptr) ∙ absent)
          v.tracked in
      (
        l',
        a.runs,
        record {
          valid = a.keeps_IsValid v;
          some_order = λ e. append-ne-nil (queue l) ptr (sym a.queued ∙ e);
          resting =
              subst (All (RestsAt pool s p)) (sym a.queued)
                (All-append_one (RestsAt pool s p) (queue l) ptr resting r);
        },
        a.queued,
        omega (
          arith,
          size_of_queue (id_in pool) l v.tracked,
          size_of_queue (id_in pool) l' a.tracked,
          ap length a.queued,
          length-append (queue l) (ptr ∷ []),
        ),
      )

  abbrev pub first_key : SortedMap PriceLevel → Option Price
  first_key [] = none
  first_key ((p, _) ∷ _) = some p

  first_key-put :
      (front back : SortedMap PriceLevel) (p : Price) (l l' : PriceLevel)
      → first_key (front ++ (p, l') ∷ back) ≡ first_key (front ++ (p, l) ∷ back)
  first_key-put [] back p l l' = refl
  first_key-put (e ∷ front) back p l l' = refl

  -- The steps of `add_order_dispatcher` on a side, and what they leave: the side has one more order,
  -- at the end of the queue of its price, and a new best price only if a level was made.
  pub record Entered (pool : OrderPool) (s : OrderSide) (p : Price) (ptr : OrderPtr)
      (m m' : SortedMap PriceLevel) : Type 0 where
    pub inserted : Bool
    pub m₁ : SortedMap PriceLevel
    pub level : PriceLevel
    pub level' : PriceLevel
    pub emplaces : SortedMap.try_emplace (compare_of s) p (make_level p) m ≡ (inserted, m₁)
    pub finds : SortedMap.find (compare_of s) p m₁ ≡ some level
    pub adds : PriceLevel.add_order pool ptr level ≡ ok level'
    pub puts : SortedMap.put (compare_of s) p level' m₁ ≡ m'
    pub side_ok : SideOk pool s m'
    pub one_more : total_orders m' ≡ suc (total_orders m)
    pub same_best : inserted ≡ false → first_key m' ≡ first_key m
    pub now_there : SortedMap.find (compare_of s) p m' ≡ some level'
    pub queued : queue level' ≡ queue level ++ ptr ∷ []
    pub joins : Among ptr (in_priority m')
    pub stay : (q : OrderPtr) → Among q (in_priority m) → Among q (in_priority m')

  last_Among :
      (l l' : PriceLevel) (ptr : OrderPtr) → queue l' ≡ queue l ++ ptr ∷ [] → Among ptr (queue l')
  last_Among l l' ptr queued =
      subst (Among ptr) (sym queued) (Among-right ptr (queue l) (ptr ∷ []) (inl refl))

  -- At a price that has a level.
  enter_level :
      {pool : OrderPool} {s : OrderSide} {p : Price} (ptr : OrderPtr) (m : SortedMap PriceLevel)
      → SideOk pool s m
      → AllOrders (λ q. id_in pool q ≢ id_in pool ptr) m
      → RestsAt pool s p ptr
      → Hit (compare_of-IsCompare s) p m
      → (m' : SortedMap PriceLevel) × Entered pool s p ptr m m'
  enter_level {pool} {s} {p} ptr m v apart r h =
      let c = compare_of-IsCompare s in
      let (here, others) =
        All-remove (λ (e : Price × PriceLevel). LevelOk pool s e.0 e.1) h.front h.back (p, h.value)
          (subst (All (λ (e : Price × PriceLevel). LevelOk pool s e.0 e.1)) h.parts v.levels) in
      let (differ, _) =
        All-remove
          (λ (e : Price × PriceLevel). All (λ q. id_in pool q ≢ id_in pool ptr) (queue e.1)) h.front
          h.back (p, h.value)
          (subst (AllOrders (λ q. id_in pool q ≢ id_in pool ptr)) h.parts apart) in
      let (l', adds, ok', queued, grown) = joined h.value ptr here.valid here.resting differ r in
      let ordered = subst (IsOrdered (compare_of s)) h.parts v.ordered in
      (
        h.front ++ (p, l') ∷ h.back,
        record {
          inserted = false;
          m₁ = h.front ++ (p, h.value) ∷ h.back;
          level = h.value;
          level' = l';
          emplaces =
              ap (SortedMap.try_emplace (compare_of s) p (make_level p)) h.parts
              ∙ try_emplace_there c p h.front h.back h.value (make_level p) h.lower;
          finds = find_at c p h.front h.back h.value h.lower;
          adds = adds;
          puts = put_at c p h.front h.back h.value l' h.lower;
          side_ok = record {
            ordered =
                insert-IsOrdered (compare_of s) p h.front h.back l' h.lower h.upper
                  (remove-IsOrdered (compare_of s) p h.front h.back h.value ordered);
            levels =
                All-insert (λ (e : Price × PriceLevel). LevelOk pool s e.0 e.1) h.front h.back
                  (p, l') ok' others;
          };
          one_more = omega (
            arith,
            ap total_orders h.parts,
            total-insert h.front h.back p h.value,
            total-insert h.front h.back p l',
          );
          same_best = λ _. first_key-put h.front h.back p h.value l' ∙ ap first_key (sym h.parts);
          now_there = find_at c p h.front h.back l' h.lower;
          queued = queued;
          joins = Among-level p l' h.back ptr h.front (last_Among h.value l' ptr queued);
          stay = λ q among.
              elim (Among-around p h.value h.back q h.front
                (subst (λ k. Among q (in_priority k)) h.parts among)) [
                  | inl here ↦
                      Among-level p l' h.back q h.front (
                        subst (Among q) (sym queued) (Among-left q (queue h.value) (ptr ∷ []) here))
                  | inr other ↦ Among-other p l' h.back q h.front other
                ];
        },
      )

  -- At a price that has none.
  make_and_enter :
      {pool : OrderPool} {s : OrderSide} {p : Price} (ptr : OrderPtr) (m : SortedMap PriceLevel)
      → SideOk pool s m
      → RestsAt pool s p ptr
      → Miss (compare_of-IsCompare s) p m
      → (m' : SortedMap PriceLevel) × Entered pool s p ptr m m'
  make_and_enter {pool} {s} {p} ptr m v r h =
      let c = compare_of-IsCompare s in
      let new : PriceLevel = make_level p in
      let (l', adds, ok', queued, grown) =
        joined new ptr (make_level-IsValid (id_in pool) p) (no_orders (RestsAt pool s p) p)
          (no_orders (λ q. id_in pool q ≢ id_in pool ptr) p) r in
      (
        h.front ++ (p, l') ∷ h.back,
        record {
          inserted = true;
          m₁ = h.front ++ (p, new) ∷ h.back;
          level = new;
          level' = l';
          emplaces =
              ap (SortedMap.try_emplace (compare_of s) p new) h.parts
              ∙ try_emplace_new c p h.front h.back new h.lower h.upper;
          finds = find_at c p h.front h.back new h.lower;
          adds = adds;
          puts = put_at c p h.front h.back new l' h.lower;
          side_ok = record {
            ordered =
                insert-IsOrdered (compare_of s) p h.front h.back l' h.lower h.upper
                  (subst (IsOrdered (compare_of s)) h.parts v.ordered);
            levels =
                All-insert (λ (e : Price × PriceLevel). LevelOk pool s e.0 e.1) h.front h.back
                  (p, l') ok'
                  (subst (All (λ (e : Price × PriceLevel). LevelOk pool s e.0 e.1)) h.parts
                    v.levels);
          };
          one_more =
              omega
                (arith, ap total_orders h.parts, total-insert h.front h.back p l', size_of_new p);
          same_best = λ e. absurd (cc);
          now_there = find_at c p h.front h.back l' h.lower;
          queued = queued;
          joins = Among-level p l' h.back ptr h.front (last_Among new l' ptr queued);
          stay = λ q among.
              Among-other p l' h.back q h.front
                (subst (λ k. Among q (in_priority k)) h.parts among);
        },
      )

  -- An order with an id of its own joins a side.
  pub SideOk-Entered :
      {pool : OrderPool} {s : OrderSide} {p : Price} (ptr : OrderPtr) (m : SortedMap PriceLevel)
      → SideOk pool s m
      → AllOrders (λ q. id_in pool q ≢ id_in pool ptr) m
      → RestsAt pool s p ptr
      → (m' : SortedMap PriceLevel) × Entered pool s p ptr m m'
  SideOk-Entered {pool} {s} {p} ptr m v apart r =
      elim (split (compare_of-IsCompare s) p m v.ordered) [
        | inl h ↦ enter_level ptr m v apart r h
        | inr h ↦ make_and_enter ptr m v r h
      ]
