-- ===== src/Bench/Building.antt =====
-- What include/order_routing_system.h builds for one worker: its context has all instruments, and its
-- books are in order.
use Prim.Native.String.{String}
use native.Mathlib.Nat.{mod-one, mod-eq_of_lt, suc-mul}
use cpp_orderbook.FlatMap.{FlatMaps}
use cpp_orderbook.Prelude.{
  ℕ, suc, ◌+◌, ◌/◌, ◌^◌, ◌≤◌, ◌<◌, ◌≡◌, refl, sym, ap, ◌∙◌, subst, inl, inr, List, [], ◌∷◌, ◌++◌,
  length, All, All-imp, some, ok, Option-cases, not_zero, lt-length, add64, u64_mod, arith,
}
use mathlib.Core.List.{append_assoc, append-nil}
use cpp_orderbook.Core.{space_reserve}
use cpp_orderbook.Order.{OrderCommand}
use cpp_orderbook.IdAllocator.{get_next_id_block}
use cpp_orderbook.SpscQueue.Filled.{Filled, new-Filled}
use cpp_orderbook.OrderBook.Book.{OrderBook, Surroundings, make_book_of, make_book}
use cpp_orderbook.OrderBook.Opening.{make_book_of-Consistent}
use cpp_orderbook.Routing.{
  RouterMap, WorkerContext, OrderRoutingSystem, assign_instruments, make_books, make_context,
  make_contexts, make_commands, build_order_routing_system,
}
use cpp_orderbook.Routing.Reached.{
  Reaches, make_commands-length, build_order_routing_system-Reaches,
}
use cpp_orderbook.Worker.{BookMap, find_book, emplace_book, take_books}
use cpp_orderbook.Worker.Serving.{Ready, Ready-grows, HasBlocks}
use cpp_orderbook.Worker.Total.{AllBooks, AllReady, commands_for}
use cpp_orderbook.Bench.Submitting.{Alone}

module _ (R : RouterMap) where
  assigns_all :
      (xs ys : List String) (i : ℕ) (m : R.Map)
      → (m' : R.Map) × (assign_instruments R 1 i xs (ys ∷ [], m) ≡ ok ((ys ++ xs) ∷ [], m'))
  unfolding assign_instruments
  assigns_all [] ys i m = (m, ap (λ l. ok (l ∷ [], m)) (sym (append-nil ys)))
  assigns_all (x ∷ xs) ys i m =
      let (m', runs) = assigns_all xs (ys ++ x ∷ []) (suc i) (R.emplace x 0 m) in
      (m', rw (mod-one i) (runs ∙ ap (λ l. ok (l ∷ [], m')) (append_assoc ys (x ∷ []) xs)))

module _ ⦃F : FlatMaps⦄ where
  -- Books just made, and the allocator behind them.
  record Made (left : ℕ) (w : Surroundings) (r : List OrderBook × Surroundings) : Type 0 where
    pub ready : All (Ready space_reserve r.1) r.0
    pub blocks : HasBlocks left r.1
    pub grows : w.id_allocator.global_counter ≤ r.1.id_allocator.global_counter

  one_block :
      (size : ℕ) (name : String) (space left : ℕ) (w : Surroundings)
      → HasBlocks (suc left) w
      → HasBlocks left (make_book_of size name space w).1
        × (w.id_allocator.global_counter
            ≤ (make_book_of size name space w).1.id_allocator.global_counter)
  unfolding make_book_of get_next_id_block
  one_block size name space left w h =
      let block = w.id_allocator.block_size in
      let enough = suc-mul left block in
      let no_wrap : add64 w.id_allocator.global_counter block
          ≡ w.id_allocator.global_counter + block =
        mod-eq_of_lt (omega (arith, h.no_wrap, enough)) in
      (
        record { some_ids = h.some_ids; no_wrap = omega (arith, h.no_wrap, enough, no_wrap) },
        omega (arith, no_wrap),
      )

  one-Ready :
      (size : ℕ) (name : String) (space left : ℕ) (w : Surroundings)
      → size < u64_mod
      → HasBlocks (suc left) w
      → Ready size (make_book_of size name space w).1 (make_book_of size name space w).0
  one-Ready size name space left w fits h =
      let (consistent, uncrossed, unused, slots) =
        make_book_of-Consistent size name space w (record {
          some_ids = h.some_ids;
          no_wrap = omega (arith, h.no_wrap, suc-mul left w.id_allocator.block_size);
        }) in
      record {
        consistent = consistent;
        uncrossed = uncrossed;
        slots = omega (arith, unused, slots);
        fits = omega (arith, slots, fits);
      }

  make_books-Made :
      (r : ℕ) (xs : List String) (left : ℕ) (w : Surroundings)
      → HasBlocks (length xs + left) w
      → Made left w (make_books r xs w)
  unfolding make_books make_book
  make_books-Made r [] left w h =
      let none_used : 0 + left ≡ left = omega arith in
      record { ready = tt; blocks = subst (λ n. HasBlocks n w) none_used h; grows = omega arith }
  make_books-Made r (x ∷ xs) left w h =
      let w₁ = (make_book_of space_reserve x r w).1 in
      let all_used : suc (length xs) + left ≡ suc (length xs + left) = omega arith in
      let enough = subst (λ n. HasBlocks n w) all_used h in
      let (blocks, grows) = one_block space_reserve x r (length xs + left) w enough in
      let rest = make_books-Made r xs left w₁ blocks in
      record {
        ready = (
          Ready-grows (make_book_of space_reserve x r w).0 rest.grows (omega arith)
              (one-Ready space_reserve x r (length xs + left) w (omega arith) enough),
          rest.ready,
        );
        blocks = rest.blocks;
        grows = omega (arith, grows, rest.grows);
      }

  emplaced-AllBooks :
      (P : String → OrderBook → Type 0) (b : OrderBook) (m : BookMap)
      → P b.instrument b
      → AllBooks P m
      → AllBooks P (emplace_book b.instrument b m)
  unfolding emplace_book
  emplaced-AllBooks P b m p h = elim (Option-cases (find_book b.instrument m)) [
    | inl missing ↦ rw (emplace_book, missing) (p, h)
    | inr (c, found) ↦ rw (emplace_book, found) h
  ]

  taken-AllBooks :
      (P : String → OrderBook → Type 0) (bs : List OrderBook) (m : BookMap)
      → All (λ (b : OrderBook). P b.instrument b) bs
      → AllBooks P m
      → AllBooks P (take_books bs m)
  unfolding take_books
  taken-AllBooks P [] m h k = k
  taken-AllBooks P (b ∷ bs) m h k =
      taken-AllBooks P bs (emplace_book b.instrument b m) h.1 (emplaced-AllBooks P b m h.0 k)

  pub taken-AllReady :
      (cmds : List OrderCommand) (bs : List OrderBook) (w : Surroundings)
      → ((k : String) → commands_for k cmds ≤ space_reserve)
      → All (Ready space_reserve w) bs
      → AllReady cmds (take_books bs []) w
  unfolding AllReady
  taken-AllReady cmds bs w room h =
      taken-AllBooks (λ k. Ready (commands_for k cmds) w) bs []
        (All-imp bs (λ b. Ready-grows b (omega arith) (room b.instrument)) h) tt

  module _ (R : RouterMap) (instruments : List String) (queue_cap : ℕ) where
    -- A system with one worker, nothing in its queue, and books in order.
    pub record Built (left : ℕ) (w : Surroundings) (r : OrderRoutingSystem R × Surroundings)
        : Type 0 where
      pub books : List OrderBook
      pub alone : Alone R instruments queue_cap books [] r.0
      pub ready : All (Ready space_reserve r.1) books
      pub blocks : HasBlocks left r.1

    build_run :
        (total : ℕ) (w : Surroundings)
        → 0 < length instruments
        → let made = make_context queue_cap (add64 (total / length instruments) 1) instruments w in
          (router : R.Map) × (build_order_routing_system R instruments 1 queue_cap total w
            ≡ ok (record { worker_contexts = made.0 ∷ []; instrument_router = router }, made.1))
    unfolding build_order_routing_system make_contexts
    build_run total w some_instrument =
        let (router, runs) = assigns_all R instruments [] 0 R.new in
        (router, rw (not_zero (length instruments) some_instrument, runs) refl)

    routed_alone :
        (k : WorkerContext) (sys : OrderRoutingSystem R)
        → sys.worker_contexts ≡ k ∷ []
        → (i : String) → Reaches R queue_cap sys i
        → R.find i sys.instrument_router ≡ some 0
    routed_alone k sys only i r =
        let low = lt-length sys.worker_contexts r.worker r.there in
        let first : r.worker ≡ 0 = omega (arith, low, ap length only) in r.routed ∙ ap some first

    pub build_order_routing_system-Built :
        (total left : ℕ) (w : Surroundings)
        → 0 < length instruments
        → 0 < queue_cap
        → queue_cap ≤ 2 ^ 63
        → HasBlocks (length instruments + left) w
        → (r : OrderRoutingSystem R × Surroundings) × (build_order_routing_system R instruments 1
              queue_cap total w
            ≡ ok r)
          × Built left w r
    unfolding make_context
    build_order_routing_system-Built total left w some_instrument some_slot fits blocks =
        let (router, runs) = build_run total w some_instrument in
        let space = add64 (total / length instruments) 1 in
        let made = make_context queue_cap space instruments w in
        let sys : OrderRoutingSystem R = record {
          worker_contexts = made.0 ∷ [];
          instrument_router = router;
        } in
        let (r, runs', _, all) =
          build_order_routing_system-Reaches R instruments 1 queue_cap total w (omega arith)
            some_instrument in
        let same : r ≡ (sys, made.1) = cc (runs, runs') in
        let c = (make_commands queue_cap w.clock).1 in
        let books =
          make_books-Made space instruments left (record w { clock = c })
            (record { some_ids = blocks.some_ids; no_wrap = blocks.no_wrap }) in
        let size = make_commands-length queue_cap w.clock in
        (
          (sys, made.1),
          runs,
          record {
            books = made.0.orderbooks;
            alone = record {
              context = made.0;
              only = refl;
              filled =
                  subst (λ n. Filled n made.0.queue []) size
                    (new-Filled made.0.queue
                      (record {
                        some_slot = omega (arith, size, some_slot);
                        fits = omega (arith, size, fits);
                      })
                      refl refl);
              same_books = refl;
              routed =
                  All-imp instruments (routed_alone made.0 sys refl)
                    (subst (λ x. All (Reaches R queue_cap x.0) instruments) same all);
            };
            ready = books.ready;
            blocks = books.blocks;
          },
        )
