-- ===== src/OrderBook/Pruning.antt =====
-- An order taken out of its side of the book of include/orderbook.h: the lookup, the removal and the
-- pruning that `cancel_order_dispatcher` does there.
use cpp_orderbook.Prelude.{
  ℕ, suc, ◌≡◌, ◌≢◌, refl, sym, ap, ◌∙◌, subst, ◌⊎◌, inl, inr, List, length, [], ◌∷◌, ◌++◌, All,
  All-imp, true, false, Option, none, some, ok, arith, if◌then◌else◌,
}
use cpp_orderbook.Core.{Price}
use cpp_orderbook.Order.{Order, OrderSide}
use cpp_orderbook.OrderPool.{OrderPool, OrderPtr}
use cpp_orderbook.FlatMap
use cpp_orderbook.FlatMap.{FlatMaps}
use cpp_orderbook.SortedMap
use cpp_orderbook.SortedMap.{SortedMap}
use cpp_orderbook.SortedMap.Split.{
  IsOrdered, place_of, Lower, Upper, find_at, put_at, erase_at, All-insert, All-remove,
  insert-IsOrdered, remove-IsOrdered,
}
use cpp_orderbook.PriceLevel
use cpp_orderbook.PriceLevel.{PriceLevel, OrderEntry}
use cpp_orderbook.PriceLevel.Index.{without}
use cpp_orderbook.PriceLevel.Valid.{queue, empty_of_queue, not_empty_of_queue, size_of_queue}
use cpp_orderbook.PriceLevel.Remove.{remove_order-Removed}
use cpp_orderbook.OrderBook.Book.{compare_of, total_orders}
use cpp_orderbook.OrderBook.Resting.{id_in, RestsAt, LevelOk, SideOk}
use cpp_orderbook.OrderBook.Entering.{compare_of-IsCompare, first_key, total-insert}
use cpp_orderbook.OrderBook.Priority.{Among, Among-level, Among-other, Among-around, in_priority}
use cpp_orderbook.OrderBook.Leaving.{
  Among-without, find-Among, All-append, written, levels_apart, level_left,
}

-- The best price of a side is not better than another.
abbrev pub NoBetter : OrderSide → Option Price → Option Price → Type 0
NoBetter s none q = Unit {0}
NoBetter s (some p) none = ⊥
NoBetter s (some p) (some q) = compare_of s p q ≡ false

module _ ⦃F : FlatMaps⦄ where
  NoBetter-put :
      (s : OrderSide) (front back : SortedMap PriceLevel) (p : Price) (v w : PriceLevel)
      → NoBetter s (first_key (front ++ (p, w) ∷ back)) (first_key (front ++ (p, v) ∷ back))
  NoBetter-put s [] back p v w = (compare_of-IsCompare s).irrefl p
  NoBetter-put s (e ∷ front) back p v w = (compare_of-IsCompare s).irrefl e.0

  NoBetter-erase :
      (s : OrderSide) (front back : SortedMap PriceLevel) (p : Price) (v : PriceLevel)
      → Upper (compare_of s) p back
      → NoBetter s (first_key (front ++ back)) (first_key (front ++ (p, v) ∷ back))
  NoBetter-erase s [] [] p v u = tt
  NoBetter-erase s [] (e ∷ back) p v u = (compare_of-IsCompare s).asym p e.0 u.0
  NoBetter-erase s (e ∷ front) back p v u = (compare_of-IsCompare s).irrefl e.0

nil_or_not : {A : Type 0} (xs : List A) → (xs ≡ []) ⊎ (xs ≢ [])
nil_or_not [] = inl refl
nil_or_not (x ∷ xs) = inr (λ e. cc)

module _ {V : Type 0} (s : OrderSide) (p : Price) where
  before_differ : (m : SortedMap V) → Lower (compare_of s) p m → All (λ (e : Price × V). p ≢ e.0) m
  before_differ m h = All-imp m (λ e b same. ground (arith, (compare_of-IsCompare s).irrefl e.0)) h

  behind_differ : (m : SortedMap V) → Upper (compare_of s) p m → All (λ (e : Price × V). p ≢ e.0) m
  behind_differ m h = All-imp m (λ e b same. ground (arith, (compare_of-IsCompare s).irrefl e.0)) h

module _ ⦃F : FlatMaps⦄ {pool : OrderPool} {s : OrderSide} {p : Price} (ptr : OrderPtr)
    (r : RestsAt pool s p ptr) (o' : Order) (same : o'.id ≡ r.order.id) where
  -- What is left of the side of the order.
  pub record Left (m m' : SortedMap PriceLevel) : Type 0 where
    pub level : PriceLevel
    pub level' : PriceLevel
    pub finds : SortedMap.find (compare_of s) p m ≡ some level
    pub removes : PriceLevel.remove_order (id_in pool ptr) level ≡ ok (true, level')
    pub queued : queue level' ≡ without (id_in pool) (id_in pool ptr) (queue level)
    pub finds_again :
        SortedMap.find (compare_of s) p (SortedMap.put (compare_of s) p level' m) ≡ some level'
    pub prunes :
        (if PriceLevel.empty level'
          then SortedMap.erase (compare_of s) p (SortedMap.put (compare_of s) p level' m)
          else SortedMap.put (compare_of s) p level' m)
        ≡ m'
    pub side_ok : SideOk (written ptr r o' same) s m'
    pub one_less : total_orders m ≡ suc (total_orders m')
    pub best : NoBetter s (first_key m') (first_key m)
    pub stay :
        (q : OrderPtr)
        → id_in pool q ≢ id_in pool ptr
        → Among q (in_priority m)
        → Among q (in_priority m')

  one_fewer :
      (l l' : PriceLevel) {i : ℕ}
      → FlatMap.find (id_in pool ptr) l.orders_map ≡ some i
      → l'.orders_map ≡ FlatMap.erase (id_in pool ptr) l.orders_map
      → PriceLevel.size l ≡ suc (PriceLevel.size l')
  unfolding PriceLevel.size
  one_fewer l l' {i} found mapped =
      F.size_erase (id_in pool ptr) i l.orders_map found
      ∙ ap (λ m. suc (FlatMap.size m)) (sym mapped)

  pub leave-Left :
      (m : SortedMap PriceLevel) {l : PriceLevel}
      → SideOk pool s m
      → SortedMap.find (compare_of s) p m ≡ some l
      → Among ptr (queue l)
      → (m' : SortedMap PriceLevel) × Left m m'
  leave-Left m {l} v found among =
      let c = compare_of-IsCompare s in
      let id = id_in pool ptr in
      let (h, value_is) = place_of c p m v.ordered found in
      let (here, others) =
        All-remove (λ (e : Price × PriceLevel). LevelOk pool s e.0 e.1) h.front h.back (p, h.value)
          (subst (All (λ (e : Price × PriceLevel). LevelOk pool s e.0 e.1)) h.parts v.levels) in
      let (i, at) =
        find-Among (id_in pool) 0 h.value.order_entries ptr
          (subst (λ k. Among ptr (queue k)) (sym value_is) among) in
      let found_id : FlatMap.find id h.value.orders_map ≡ some i =
        here.valid.tracked.indexed.same id ∙ at in
      let (l', removes, x) =
        remove_order-Removed (id_in pool) h.value id here.valid.tracked found_id in
      let grown = one_fewer h.value l' found_id x.mapped in
      let ordered =
        remove-IsOrdered (compare_of s) p h.front h.back h.value
          (subst (IsOrdered (compare_of s)) h.parts v.ordered) in
      let others' =
        levels_apart ptr r o' same (h.front ++ h.back)
          (All-append (λ (e : Price × PriceLevel). p ≢ e.0) h.front h.back
            (before_differ s p h.front h.lower) (behind_differ s p h.back h.upper))
          others in
      let finds =
        ap (SortedMap.find (compare_of s) p) h.parts ∙ find_at c p h.front h.back h.value h.lower in
      let put_is =
        ap (SortedMap.put (compare_of s) p l') h.parts
        ∙ put_at c p h.front h.back h.value l' h.lower in
      let again =
        ap (SortedMap.find (compare_of s) p) put_is ∙ find_at c p h.front h.back l' h.lower in
      let still = λ (q : OrderPtr) (ne : id_in pool q ≢ id) (here : Among q (queue h.value)).
        subst (Among q) (sym x.queued) (Among-without (id_in pool) id q (queue h.value) ne here) in
      let around = λ (q : OrderPtr) (all : Among q (in_priority m)).
        Among-around p h.value h.back q h.front
          (subst (λ k. Among q (in_priority k)) h.parts all) in
      elim (nil_or_not (queue l')) [
        | inl none_left ↦ (
          h.front ++ h.back,
          record {
            level = h.value;
            level' = l';
            finds = finds;
            removes = removes;
            queued = x.queued;
            finds_again = again;
            prunes = rw (empty_of_queue (id_in pool) l' x.tracked none_left) (
                ap (SortedMap.erase (compare_of s) p) put_is
                ∙ erase_at c p h.front h.back l' h.lower);
            side_ok = record { ordered = ordered; levels = others' };
            one_less = omega (
              arith,
              grown,
              size_of_queue (id_in pool) l' x.tracked,
              ap length none_left,
              ap total_orders h.parts,
              total-insert h.front h.back p h.value,
            );
            best =
                subst (λ k. NoBetter s (first_key (h.front ++ h.back)) (first_key k)) (sym h.parts)
                  (NoBetter-erase s h.front h.back p h.value h.upper);
            stay = λ q ne all. elim (around q all) [
              | inl here ↦ absurd (subst (Among q) none_left (still q ne here))
              | inr other ↦ other
            ];
          },
        )
        | inr some_left ↦ (
          h.front ++ (p, l') ∷ h.back,
          record {
            level = h.value;
            level' = l';
            finds = finds;
            removes = removes;
            queued = x.queued;
            finds_again = again;
            prunes = rw (not_empty_of_queue (id_in pool) l' x.tracked some_left) put_is;
            side_ok = record {
              ordered = insert-IsOrdered (compare_of s) p h.front h.back l' h.lower h.upper ordered;
              levels =
                  All-insert (λ (e : Price × PriceLevel). LevelOk (written ptr r o' same) s e.0 e.1)
                    h.front h.back (p, l') (level_left ptr r o' same h.value l' here x some_left)
                    others';
            };
            one_less = omega (
              arith,
              grown,
              ap total_orders h.parts,
              total-insert h.front h.back p h.value,
              total-insert h.front h.back p l',
            );
            best =
                subst (λ k. NoBetter s (first_key (h.front ++ (p, l') ∷ h.back)) (first_key k))
                  (sym h.parts) (NoBetter-put s h.front h.back p h.value l');
            stay = λ q ne all. elim (around q all) [
              | inl here ↦ Among-level p l' h.back q h.front (still q ne here)
              | inr other ↦ Among-other p l' h.back q h.front other
            ];
          },
        )
      ]
