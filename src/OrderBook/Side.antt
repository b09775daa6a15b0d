-- ===== src/OrderBook/Side.antt =====
-- What a trade leaves on one side of the book of include/orderbook.h: the front order of the best
-- level was filled, is popped if nothing is left of it, and the level is pruned if it has no order.
use cpp_orderbook.FlatMap.{FlatMaps}
use cpp_orderbook.Prelude.{
  ◌+◌, ◌≤◌, ◌<◌, ◌≡◌, ◌≢◌, refl, sym, ap, ◌∙◌, subst, ◌⊎◌, inl, inr, List, [], ◌∷◌, All, All-imp,
  ◌++◌, length, true, false, Bool-cases, some, ok, arith, if◌then◌else◌,
}
use cpp_orderbook.Core.{OrderId, Price}
use cpp_orderbook.Order.{Order, OrderSide, is_closed, is_fully_filled, fully_filled}
use cpp_orderbook.Order.Fill.{IsFillable}
use cpp_orderbook.OrderPool.{OrderPool, OrderPtr, peek}
use cpp_orderbook.OrderPool.Slots.{load-ok}
use cpp_orderbook.SortedMap.{SortedMap}
use cpp_orderbook.PriceLevel
use cpp_orderbook.PriceLevel.{PriceLevel, pop_front_order_if_filled}
use cpp_orderbook.PriceLevel.Valid.{
  queue, empty_of_queue, not_empty_of_queue, size_of_queue, IsTracked, IsValid,
}
use cpp_orderbook.PriceLevel.Pop.{pop_filled, pop_unfilled}
use cpp_orderbook.OrderBook.Priority.{in_priority, after_trade}
use cpp_orderbook.OrderBook.Book.{compare_of, total_orders}
use cpp_orderbook.OrderBook.Resting.{
  id_in, id_or_zero, RestsAt, LevelOk, SideOk, compare_irrefl, prices_differ, queue_ptrs_differ,
}

-- A trade as one side sees it: the order at `ptr` becomes `o'`, and no other order changes.
pub record Traded (pool pool' : OrderPool) (s : OrderSide) (p : Price) (ptr : OrderPtr) (o' : Order)
    : Type 0 where
  pub ids : id_in pool' ≡ id_in pool
  pub there : peek pool' ptr ≡ some o'
  pub in_use : ptr.index < pool'.next_free_index
  pub side_is : o'.side ≡ s
  pub price_is : o'.price ≡ p
  pub fillable : IsFillable o'
  pub done_or_open :
      (o'.status ≡ fully_filled)
      ⊎ ((is_fully_filled o'.status ≡ false) × (is_closed o'.status ≡ false))
  pub others : (q : OrderPtr) (t : Price) → RestsAt pool s t q → ptr ≢ q → RestsAt pool' s t q

module _ ⦃F : FlatMaps⦄ where
  -- The levels of a side once its best level has become `l`.
  abbrev pub pruned : Price → PriceLevel → SortedMap PriceLevel → SortedMap PriceLevel
  pruned p l rest = if PriceLevel.empty l then rest else (p, l) ∷ rest

  total_pruned :
      (p : Price) (l : PriceLevel) (rest : SortedMap PriceLevel)
      → total_orders (pruned p l rest) ≤ PriceLevel.size l + total_orders rest
  unfolding total_orders
  total_pruned p l rest = ground arith

  total-cons :
      (p : Price) (l : PriceLevel) (rest : SortedMap PriceLevel)
      → total_orders ((p, l) ∷ rest) ≡ PriceLevel.size l + total_orders rest
  unfolding total_orders
  total-cons p l rest = refl

  pub in_priority-pruned :
      (f : OrderPtr → OrderId) (p : Price) (l : PriceLevel) (rest : SortedMap PriceLevel)
      → IsTracked f l
      → in_priority (pruned p l rest) ≡ queue l ++ in_priority rest
  in_priority-pruned f p l rest t = by_queue (queue l) refl
    where
      by_queue :
          (ps : List OrderPtr)
          → queue l ≡ ps
          → in_priority (pruned p l rest) ≡ queue l ++ in_priority rest
      by_queue [] e = rw (empty_of_queue f l t e) (ap (λ ps. ps ++ in_priority rest) (sym e))
      by_queue (ptr ∷ ps) e = rw (not_empty_of_queue f l t (λ none_left. cc)) refl

  -- What is left of the side.
  pub record Left (pool' : OrderPool) (s : OrderSide) (p : Price) (l : PriceLevel)
      (rest : SortedMap PriceLevel) (o' : Order) : Type 0 where
    pub l' : PriceLevel
    pub pops : pop_front_order_if_filled pool' l ≡ ok l'
    pub side_ok : SideOk pool' s (pruned p l' rest)
    pub no_more : total_orders (pruned p l' rest) ≤ total_orders ((p, l) ∷ rest)
    pub traded_first :
        in_priority (pruned p l' rest) ≡ after_trade o'.status (in_priority ((p, l) ∷ rest))
    pub fewer :
        o'.status ≡ fully_filled → total_orders (pruned p l' rest) < total_orders ((p, l) ∷ rest)

  module _ {pool pool' : OrderPool} {s : OrderSide} {p : Price} {ptr : OrderPtr} {o' : Order}
      (t : Traded pool pool' s p ptr o') where
    -- A level at another price is as it was.
    level_moves :
        (e : Price × PriceLevel)
        → RestsAt pool s p ptr
        → compare_of s p e.0 ≡ true
        → LevelOk pool s e.0 e.1
        → LevelOk pool' s e.0 e.1
    level_moves e r later v =
        let apart : p ≢ e.0 = λ same.
          let self : compare_of s p p ≡ true =
            subst (λ k. compare_of s p k ≡ true) (sym same) later in
          absurd (ground (arith, compare_irrefl s p)) in
        record {
          valid = subst (λ f. IsValid f e.1) (sym t.ids) v.valid;
          some_order = v.some_order;
          resting =
              All-imp (queue e.1) (λ q rq. t.others q e.0 rq (prices_differ r rq apart)) v.resting;
        }

    rest_moves :
        (m : SortedMap PriceLevel)
        → RestsAt pool s p ptr
        → All (λ e. compare_of s p e.0 ≡ true) m
        → All (λ e. LevelOk pool s e.0 e.1) m
        → All (λ e. LevelOk pool' s e.0 e.1) m
    rest_moves [] r later v = tt
    rest_moves (e ∷ m) r later v = (level_moves e r later.0 v.0, rest_moves m r later.1 v.1)

    queue_moves :
        (ps : List OrderPtr)
        → All (λ q. ptr ≢ q) ps
        → All (RestsAt pool s p) ps
        → All (RestsAt pool' s p) ps
    queue_moves [] d v = tt
    queue_moves (q ∷ ps) d v = (t.others q p v.0 d.0, queue_moves ps d.1 v.1)

    -- A tracked level whose orders rest is pruned, or is a level of the side.
    prune_ok :
        (l' : PriceLevel) (rest : SortedMap PriceLevel)
        → IsTracked (id_in pool') l'
        → (queue l' ≡ []) ⊎ IsValid (id_in pool') l'
        → All (RestsAt pool' s p) (queue l')
        → All (λ e. compare_of s p e.0 ≡ true) rest
        → SideOk pool' s rest
        → SideOk pool' s (pruned p l' rest)
    prune_ok l' rest tracked (inl none_left) resting later v =
        rw (empty_of_queue (id_in pool') l' tracked none_left) v
    prune_ok l' rest tracked (inr valid) resting later v = elim (Bool-cases (PriceLevel.empty l')) [
      | inl e ↦ rw e v
      | inr e ↦
          let some_order : queue l' ≢ [] = λ none_left.
            absurd (ground (arith, empty_of_queue (id_in pool') l' tracked none_left)) in
          rw e (record {
            ordered = (later, v.ordered);
            levels =
                (record { valid = valid; some_order = some_order; resting = resting }, v.levels);
          })
    ]

    -- The side after the trade: its best level has lost its front order if that is done, and is gone
    -- if it had no other; what is left rests as before.
    pub trade-Left :
        (l : PriceLevel) (rest : SortedMap PriceLevel) (ps : List OrderPtr)
        → SideOk pool s ((p, l) ∷ rest)
        → queue l ≡ ptr ∷ ps
        → Left pool' s p l rest o'
    trade-Left l rest ps v q =
        let lv = v.levels.0 in
        let resting : RestsAt pool s p ptr × All (RestsAt pool s p) ps =
          subst (All (RestsAt pool s p)) q lv.resting in
        let valid : IsValid (id_in pool') l = subst (λ f. IsValid f l) (sym t.ids) lv.valid in
        let owner : o'.id ≡ id_in pool' ptr = sym (ap id_or_zero t.there) in
        let differ : All (λ r. ptr ≢ r) ps =
          queue_ptrs_differ (id_in pool) 0 l.order_entries ptr ps lv.valid.tracked.distinct q in
        let behind = queue_moves ps differ resting.1 in
        let rest_ok : SideOk pool' s rest = record {
          ordered = v.ordered.1;
          levels = rest_moves rest resting.0 v.ordered.0 v.levels.1;
        } in
        let size_l = size_of_queue (id_in pool') l valid.tracked ∙ ap length q in
        elim t.done_or_open [
          | inl done ↦
              let (l', runs, r, left) =
                pop_filled (id_in pool') pool' l ptr ps o' valid q (load-ok pool' ptr t.there) owner
                  done in
              let size_l' = size_of_queue (id_in pool') l' r.tracked ∙ ap length left in
              record {
                l' = l';
                pops = runs;
                side_ok =
                    prune_ok l' rest r.tracked r.usable
                      (subst (All (RestsAt pool' s p)) (sym left) behind) v.ordered.0 rest_ok;
                no_more = omega (arith, total_pruned p l' rest, total-cons p l rest);
                traded_first =
                    in_priority-pruned (id_in pool') p l' rest r.tracked
                    ∙ ap (λ qs. qs ++ in_priority rest) left
                    ∙ sym (
                        ap (λ qs. after_trade o'.status (qs ++ in_priority rest)) q
                        ∙ ap
                            (λ x.
                              if x then ps ++ in_priority rest else ptr ∷ (ps ++ in_priority rest))
                            (ap is_fully_filled done));
                fewer = λ e. omega (arith, total_pruned p l' rest, total-cons p l rest);
              }
          | inr (still, opened) ↦
              let front_rests : RestsAt pool' s p ptr = record {
                order = o';
                there = t.there;
                in_use = t.in_use;
                side_is = t.side_is;
                price_is = t.price_is;
                open_still = opened;
                fillable = t.fillable;
              } in
              record {
                l' = l;
                pops =
                    pop_unfilled (id_in pool') pool' l ptr ps o' valid q (load-ok pool' ptr t.there)
                      still;
                side_ok =
                    prune_ok l rest valid.tracked (inr valid)
                      (subst (All (RestsAt pool' s p)) (sym q) (front_rests, behind)) v.ordered.0
                      rest_ok;
                no_more = omega (arith, total_pruned p l rest, total-cons p l rest);
                traded_first =
                    in_priority-pruned (id_in pool') p l rest valid.tracked
                    ∙ ap (λ qs. qs ++ in_priority rest) q
                    ∙ sym (
                        ap (λ qs. after_trade o'.status (qs ++ in_priority rest)) q
                        ∙ ap
                            (λ x.
                              if x then ps ++ in_priority rest else ptr ∷ (ps ++ in_priority rest))
                            still);
                fewer = λ e. absurd (ground arith);
              }
        ]
