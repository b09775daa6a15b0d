-- ===== src/Bench/Whole.antt =====
-- What src/bench_insert_s.cpp and src/bench_match20_s.cpp do, from the routing system to the books.
use Prim.Native.String.{String}
use cpp_orderbook.FlatMap.{FlatMaps}
use cpp_orderbook.Prelude.{
  ℕ, ◌+◌, ◌^◌, ◌≤◌, ◌<◌, ◌≡◌, refl, sym, ap, ◌∙◌, subst, List, [], ◌∷◌, ◌++◌, length, length-append,
  All, All-append, All-imp, true, Outcome, ok, arith,
}
use cpp_orderbook.Core.{space_reserve}
use cpp_orderbook.Clock.{Clock}
use cpp_orderbook.Order.{OrderCommand, default_command, shutdown}
use cpp_orderbook.SpscQueue.Filled.{Filled-Gives}
use cpp_orderbook.OrderBook.Book.{OrderBook, Surroundings}
use cpp_orderbook.OrderBook.Loop.{IsUncrossed}
use cpp_orderbook.OrderBook.Accepting.{Consistent}
use cpp_orderbook.Routing.{RouterMap, OrderRoutingSystem}
use cpp_orderbook.Routing.Assigned.{listed}
use cpp_orderbook.Producer.{shutdown_command}
use cpp_orderbook.Producer.Shutdown.{type-shutdown}
use cpp_orderbook.Worker.{BookMap, take_books, run}
use cpp_orderbook.Worker.Serving.{IsServable, Ready, Ready-grows, HasBlocks}
use cpp_orderbook.Worker.Total.{AllBooks, commands_for, has_shutdown, run_total}
use cpp_orderbook.Worker.Polling.{run_queue_lem}
use cpp_orderbook.Bench.{fill_queue, run_worker}
use cpp_orderbook.Bench.Submitting.{Alone, submit_commands-Alone, shut_down-Alone}
use cpp_orderbook.Bench.Building.{build_order_routing_system-Built, taken-AllReady}

commands_for-append :
    (k : String) (cmds : List OrderCommand) (cmd : OrderCommand)
    → commands_for k (cmds ++ cmd ∷ []) ≤ commands_for k cmds + 1
unfolding commands_for
commands_for-append k [] cmd = ground arith
commands_for-append k (c ∷ cmds) cmd = ground (arith, commands_for-append k cmds cmd)

has_shutdown-append :
    (cmds : List OrderCommand) (cmd : OrderCommand)
    → cmd.type ≡ shutdown
    → has_shutdown (cmds ++ cmd ∷ []) ≡ true
has_shutdown-append [] cmd e = rw e refl
has_shutdown-append (c ∷ cmds) cmd e = ground (arith, has_shutdown-append cmds cmd e)

shutdown-IsServable : (cmd : OrderCommand) → cmd.type ≡ shutdown → IsServable cmd.type cmd.order
shutdown-IsServable cmd e = subst (λ t. IsServable t cmd.order) (sym e) tt

-- Commands of instruments in the list, as many as fit the queue beside a shutdown.
pub record IsSubmittable (instruments : List String) (queue_cap : ℕ) (cmds : List OrderCommand)
    : Type 0 where
  pub known : All (λ (cmd : OrderCommand). listed cmd.order.instrument instruments ≡ true) cmds
  pub queue : length cmds + 2 ≤ queue_cap

-- Commands that a worker can serve, for which there is room in the books, and fuel enough.
pub record IsPlanned (fuel : ℕ) (cmds : List OrderCommand) : Type 0 where
  pub servable : All (λ (cmd : OrderCommand). IsServable cmd.type cmd.order) cmds
  pub room : (k : String) → commands_for k cmds < space_reserve
  pub enough : length cmds + 2 ≤ fuel

module _ ⦃F : FlatMaps⦄ (R : RouterMap) where
  -- The routing system with the only worker's queue filled with these commands and a shutdown.
  pub record Loaded (instruments : List String) (queue_cap left : ℕ) (cmds : List OrderCommand)
      (r : OrderRoutingSystem R × Surroundings) : Type 0 where
    pub books : List OrderBook
    pub command : OrderCommand
    pub ends : command.type ≡ shutdown
    pub alone : Alone R instruments queue_cap books (cmds ++ command ∷ []) r.0
    pub ready : All (Ready space_reserve r.1) books
    pub blocks : HasBlocks left r.1

  pub fill_queue-Loaded :
      (P : List OrderCommand → Type 0) (instruments : List String) (queue_cap total left fuel : ℕ)
      (order_commands : Clock → Outcome (List OrderCommand × Clock)) (w : Surroundings)
      → 0 < length instruments
      → 0 < queue_cap
      → queue_cap ≤ 2 ^ 63
      → 2 ≤ fuel
      → HasBlocks (length instruments + left) w
      → ((c : Clock)
          → (cmds : List OrderCommand) × (c' : Clock) × (order_commands c ≡ ok (cmds, c'))
            × IsSubmittable instruments queue_cap cmds
            × P cmds)
      → (c c' : Clock) × (cmds : List OrderCommand) × (r : OrderRoutingSystem R × Surroundings)
        × (order_commands c ≡ ok (cmds, c'))
        × (fill_queue R instruments 1 queue_cap total order_commands fuel w ≡ ok r)
        × P cmds
        × Loaded instruments queue_cap left cmds r
  unfolding fill_queue
  fill_queue-Loaded P instruments queue_cap total left fuel order_commands w some_instrument
        some_slot fits two_rounds blocks makes =
      let ((sys, w₁), builds, built) =
        build_order_routing_system-Built R instruments queue_cap total left w some_instrument
          some_slot fits blocks in
      let (cmds, c, made, fitting, holds) = makes w₁.clock in
      let (sys₁, submits, alone₁) =
        submit_commands-Alone R instruments queue_cap built.books cmds [] sys fitting.known
          (omega (arith, fitting.queue)) built.alone in
      let (sys₂, shuts, alone₂) =
        shut_down-Alone R instruments queue_cap built.books fuel cmds sys₁ c two_rounds
          (omega (arith, fitting.queue)) alone₁ in
      (
        w₁.clock,
        c,
        cmds,
        (sys₂, record w₁ { clock = (shutdown_command c).1 }),
        made,
        rw (builds, made, submits, shuts) refl,
        holds,
        record {
          books = built.books;
          command = (shutdown_command c).0;
          ends = type-shutdown c;
          alone = alone₂;
          ready = All-imp built.books (λ b. Ready-grows b (omega arith) (omega arith)) built.ready;
          blocks = record { some_ids = built.blocks.some_ids; no_wrap = built.blocks.no_wrap };
        },
      )

  -- The worker gets through commands that it can serve.
  pub run_worker_total :
      (instruments : List String) (queue_cap n fuel : ℕ) (cmds : List OrderCommand)
      (r : OrderRoutingSystem R × Surroundings)
      → Loaded instruments queue_cap (n + 1) cmds r
      → length cmds ≡ n
      → IsPlanned fuel cmds
      → (m : BookMap) × (w' : Surroundings) × (run_worker R fuel r.0 r.1 ≡ ok (m, w'))
        × AllBooks (λ k b. Consistent b w' × IsUncrossed b) m
  unfolding run_worker
  run_worker_total instruments queue_cap n fuel cmds r loaded size plan =
      let context = loaded.alone.context in
      let w : Surroundings = record r.1 { clock = (default_command r.1.clock).1 } in
      let all = cmds ++ loaded.command ∷ [] in
      let books = take_books loaded.books [] in
      let total_size = length-append cmds (loaded.command ∷ []) in
      let (ended, m, w', runs, flag, final) =
        run_total all books w
          (All-append (λ (cmd : OrderCommand). IsServable cmd.type cmd.order) cmds
            (loaded.command ∷ []) plan.servable
            (shutdown-IsServable loaded.command loaded.ends, tt))
          (taken-AllReady all loaded.books w
            (λ k. omega (arith, commands_for-append k cmds loaded.command, plan.room k))
            (All-imp loaded.books (λ b. Ready-grows b (omega arith) (omega arith)) loaded.ready))
          (subst (λ k. HasBlocks k w) (sym (total_size ∙ ap (λ k. k + 1) size))
            (record { some_ids = loaded.blocks.some_ids; no_wrap = loaded.blocks.no_wrap })) in
      let ends : run all books w ≡ ok (true, m, w') =
        runs
        ∙ ap (λ e. ok (e, m, w')) (flag ∙ has_shutdown-append cmds loaded.command loaded.ends) in
      let (q, polls) =
        run_queue_lem fuel all context.queue books m w w'
          (Filled-Gives queue_cap context.queue all loaded.alone.filled)
          (omega (arith, total_size, plan.enough)) ends in
      (m, w', rw (loaded.alone.only, loaded.alone.same_books, polls) refl, final)
