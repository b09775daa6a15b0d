-- ===== src/Routing/Reached.antt =====
-- Every instrument given to `build_order_routing_system` is routed to a worker that has its book.
use cpp_orderbook.FlatMap.{FlatMaps}
use Prim.Native.String.{String}
use cpp_orderbook.Prelude.{
  ℕ, zero, suc, ◌/◌, ◌≡◌, ◌<◌, refl, ap, ◌∙◌, List, [], ◌∷◌, length, get_elem?, replicate,
  length-replicate, not_zero, All, All-imp, true, add64, none, some, ok,
}
use cpp_orderbook.Clock.{Clock}
use cpp_orderbook.OrderBook.Book.{Surroundings, make_book_of, make_book}
use cpp_orderbook.Routing.{
  RouterMap, WorkerContext, OrderRoutingSystem, make_commands, make_books, make_context,
  make_contexts, build_order_routing_system,
}
use cpp_orderbook.Routing.Assigned.{listed, Placed, assign_instruments-Assigned, new-AllPlaced}
use cpp_orderbook.Worker.{take_books}
use cpp_orderbook.Worker.Books.{names_of, HasBook, take_books-HasBook, none-IsNamed}

pub make_commands-length : (q : ℕ) (c : Clock) → length (make_commands q c).0 ≡ q
unfolding make_commands
make_commands-length zero c = refl
make_commands-length (suc q) c = ap suc (make_commands-length q _)

module _ ⦃F : FlatMaps⦄ where
  make_books_names :
      (r : ℕ) (xs : List String) (w : Surroundings) → names_of (make_books r xs w).0 ≡ xs
  unfolding make_books make_book make_book_of
  make_books_names r [] w = refl
  make_books_names r (x ∷ xs) w = ap (λ l. x ∷ l) (make_books_names r xs _)

  -- The context of an instrument's worker has a book of it.
  make_context-HasBook :
      (q r : ℕ) (xs : List String) (w : Surroundings) (k : String)
      → listed k xs ≡ true
      → HasBook k (take_books (make_context q r xs w).0.orderbooks [])
  unfolding make_context
  make_context-HasBook q r xs w k h =
      take_books-HasBook k _ [] none-IsNamed (ap (listed k) (make_books_names r xs _) ∙ h)

  make_context_capacity :
      (q r : ℕ) (xs : List String) (w : Surroundings)
      → length (make_context q r xs w).0.queue.buffer ≡ q
  unfolding make_context
  make_context_capacity q r xs w = make_commands-length q w.clock

  make_context_at_start :
      (q r : ℕ) (xs : List String) (w : Surroundings)
      → ((make_context q r xs w).0.queue.head ≡ 0) × ((make_context q r xs w).0.queue.tail ≡ 0)
  unfolding make_context
  make_context_at_start q r xs w = (refl, refl)

  make_contexts-length :
      (q r : ℕ) (sets : List (List String)) (w : Surroundings)
      → length (make_contexts q r sets w).0 ≡ length sets
  unfolding make_contexts
  make_contexts-length q r [] w = refl
  make_contexts-length q r (xs ∷ sets) w = ap suc (make_contexts-length q r sets _)

  make_contexts_at :
      (q r : ℕ) (sets : List (List String)) (w : Surroundings) (i : ℕ) {xs : List String}
      → get_elem? sets i ≡ some xs
      → (w₀ : Surroundings) × (get_elem? (make_contexts q r sets w).0 i
          ≡ some (make_context q r xs w₀).0)
  unfolding make_contexts
  make_contexts_at q r [] w i e = absurd (cc)
  make_contexts_at q r (xs ∷ sets) w zero e =
      (w, ap (λ o. elim o [ none ↦ none | some ys ↦ some (make_context q r ys w).0 ]) e)
  make_contexts_at q r (xs ∷ sets) w (suc i) e = make_contexts_at q r sets _ i e

  module _ (R : RouterMap) where
    -- The router sends the instrument to a context with an empty queue of capacity `q`, whose worker
    -- finds the instrument's book.
    pub record Reaches (q : ℕ) (sys : OrderRoutingSystem R) (k : String) : Type 0 where
      pub worker : ℕ
      pub context : WorkerContext
      pub routed : R.find k sys.instrument_router ≡ some worker
      pub there : get_elem? sys.worker_contexts worker ≡ some context
      pub book : HasBook k (take_books context.orderbooks [])
      pub capacity : length context.queue.buffer ≡ q
      pub at_start : (context.queue.head ≡ 0) × (context.queue.tail ≡ 0)

    Placed-Reaches :
        (q r : ℕ) (sets : List (List String)) (router : R.Map) (w : Surroundings) (k : String)
        → Placed R sets router k
        → Reaches q
            (record { worker_contexts = (make_contexts q r sets w).0; instrument_router = router })
            k
    Placed-Reaches q r sets router w k p =
        let (w₀, at) = make_contexts_at q r sets w p.worker p.there in
        record {
          worker = p.worker;
          context = (make_context q r p.assigned w₀).0;
          routed = p.routed;
          there = at;
          book = make_context-HasBook q r p.assigned w₀ k p.has;
          capacity = make_context_capacity q r p.assigned w₀;
          at_start = make_context_at_start q r p.assigned w₀;
        }

    -- With at least one worker and one instrument the routing system is built. It has a context for
    -- each worker, and it routes every given instrument, repeated ones included, to a context with an
    -- empty queue of the given capacity, whose worker finds a book of that instrument.
    pub build_order_routing_system-Reaches :
        (instruments : List String) (n q total : ℕ) (w : Surroundings)
        → 0 < n
        → 0 < length instruments
        → (r : OrderRoutingSystem R × Surroundings) × (build_order_routing_system R instruments n q
              total w
            ≡ ok r)
          × (length r.0.worker_contexts ≡ n)
          × All (Reaches q r.0) instruments
    unfolding build_order_routing_system
    build_order_routing_system-Reaches instruments n q total w some_worker some_instrument =
        let ((sets, router), runs, a) =
          assign_instruments-Assigned R n 0 instruments (replicate n []) R.new some_worker
            (length-replicate n []) (new-AllPlaced R (replicate n [])) in
        let space = add64 (total / length instruments) 1 in
        let (contexts, w') = make_contexts q space sets w in
        (
          (record { worker_contexts = contexts; instrument_router = router }, w'),
          rw (not_zero (length instruments) some_instrument, runs) refl,
          make_contexts-length q space sets w ∙ a.same_workers,
          All-imp instruments (λ k p. Placed-Reaches q space sets router w k p) a.placed,
        )
