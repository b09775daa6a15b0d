-- ===== src/Bench/Submitting.antt =====
-- The loops of src/bench_insert_s.cpp and src/bench_match20_s.cpp that fill the queue of the only
-- worker.
use Prim.Native.String.{String}
use cpp_orderbook.FlatMap.{FlatMaps}
use cpp_orderbook.Prelude.{
  ℕ, zero, suc, ◌+◌, ◌≤◌, ◌<◌, ◌≡◌, refl, sym, ap, ◌∙◌, subst, List, [], ◌∷◌, ◌++◌, length,
  get_elem?, set, All, true, some, ok, arith, length-append,
}
use mathlib.Core.List.{append_assoc, append-nil}
use cpp_orderbook.Clock.{Clock}
use cpp_orderbook.Order.{OrderCommand}
use cpp_orderbook.SpscQueue.{SpscQueue, push}
use cpp_orderbook.SpscQueue.Filled.{Filled, push-Filled}
use cpp_orderbook.OrderBook.Book.{OrderBook}
use cpp_orderbook.Routing.{RouterMap, WorkerContext, OrderRoutingSystem}
use cpp_orderbook.Routing.Assigned.{listed}
use cpp_orderbook.Producer.{
  shutdown_command, submit, submit_round, submit_rounds, submit_all_shutdown_commands,
}
use cpp_orderbook.Producer.Submitted.{submit_run, listed_holds}
use cpp_orderbook.Bench.{submit_commands}

module _ ⦃F : FlatMaps⦄ (R : RouterMap) (instruments : List String) (n : ℕ)
    (books : List OrderBook) where
  -- A routing system with one worker, to whose queue of `n` slots these commands were pushed.
  pub record Alone (cmds : List OrderCommand) (sys : OrderRoutingSystem R) : Type 0 where
    pub context : WorkerContext
    pub only : sys.worker_contexts ≡ context ∷ []
    pub filled : Filled n context.queue cmds
    pub same_books : context.orderbooks ≡ books
    pub routed : All (λ k. R.find k sys.instrument_router ≡ some 0) instruments

  with_queue-Alone :
      (cmds : List OrderCommand) (k : WorkerContext) (sys : OrderRoutingSystem R)
      (q : SpscQueue OrderCommand)
      → Filled n q cmds
      → k.orderbooks ≡ books
      → All (λ i. R.find i sys.instrument_router ≡ some 0) instruments
      → Alone cmds (record sys { worker_contexts = record k { queue = q } ∷ [] })
  with_queue-Alone cmds k sys q filled same routed = record {
    context = record k { queue = q };
    only = refl;
    filled = filled;
    same_books = same;
    routed = routed;
  }

  submit-Alone :
      (cmd : OrderCommand) (cmds : List OrderCommand) (sys : OrderRoutingSystem R)
      → listed cmd.order.instrument instruments ≡ true
      → length cmds + 1 < n
      → Alone cmds sys
      → (sys' : OrderRoutingSystem R) × (submit R cmd sys ≡ ok (true, sys'))
        × Alone (cmds ++ cmd ∷ []) sys'
  submit-Alone cmd cmds sys known room h =
      let (q, pushes, filled) = push-Filled n cmd h.context.queue cmds room h.filled in
      let routed =
        listed_holds (λ k. R.find k sys.instrument_router ≡ some 0) cmd.order.instrument instruments
          h.routed known in
      (
        record sys { worker_contexts = record h.context { queue = q } ∷ [] },
        submit_run R cmd sys 0 h.context q routed (ap (λ ks. get_elem? ks 0) h.only) pushes
            ∙ ap
                (λ ks. ok (
                  true,
                  record sys { worker_contexts = set ks 0 (record h.context { queue = q }) },
                ))
                h.only,
        with_queue-Alone (cmds ++ cmd ∷ []) h.context sys q filled h.same_books h.routed,
      )

  pub submit_commands-Alone :
      (cmds before : List OrderCommand) (sys : OrderRoutingSystem R)
      → All (λ (cmd : OrderCommand). listed cmd.order.instrument instruments ≡ true) cmds
      → length before + length cmds + 1 ≤ n
      → Alone before sys
      → (sys' : OrderRoutingSystem R) × (submit_commands R cmds sys ≡ ok sys')
        × Alone (before ++ cmds) sys'
  unfolding submit_commands
  submit_commands-Alone [] before sys known room h =
      (sys, refl, subst (λ l. Alone l sys) (sym (append-nil before)) h)
  submit_commands-Alone (cmd ∷ cmds) before sys known room h =
      let (sys₁, submits, h₁) = submit-Alone cmd before sys known.0 (omega arith) h in
      let (sys', rest, h') =
        submit_commands-Alone cmds (before ++ cmd ∷ []) sys₁ known.1
          (omega (arith, length-append before (cmd ∷ []))) h₁ in
      (
        sys',
        rw (submits, rest) refl,
        subst (λ l. Alone l sys') (append_assoc before (cmd ∷ []) cmds) h',
      )

  -- Nobody takes anything from the queue meanwhile; there is a slot left for the shutdown.
  shut_down_run :
      (fuel : ℕ) (sys : OrderRoutingSystem R) (c : Clock) (k : WorkerContext)
      (q : SpscQueue OrderCommand)
      → 2 ≤ fuel
      → sys.worker_contexts ≡ k ∷ []
      → push (shutdown_command c).0 k.queue ≡ ok (true, q)
      → submit_all_shutdown_commands R (λ _ _ q. q) fuel sys c
        ≡ ok (record sys { worker_contexts = record k { queue = q } ∷ [] }, (shutdown_command c).1)
  unfolding submit_all_shutdown_commands submit_rounds submit_round shutdown_command
  shut_down_run zero sys c k q enough only pushes = absurd (omega arith)
  shut_down_run (suc zero) sys c k q enough only pushes = absurd (omega arith)
  shut_down_run (suc (suc fuel)) sys c k q enough only pushes = rw (only, pushes) refl

  pub shut_down-Alone :
      (fuel : ℕ) (cmds : List OrderCommand) (sys : OrderRoutingSystem R) (c : Clock)
      → 2 ≤ fuel
      → length cmds + 1 < n
      → Alone cmds sys
      → (sys' : OrderRoutingSystem R) × (submit_all_shutdown_commands R (λ _ _ q. q) fuel sys c
          ≡ ok (sys', (shutdown_command c).1))
        × Alone (cmds ++ (shutdown_command c).0 ∷ []) sys'
  shut_down-Alone fuel cmds sys c enough room h =
      let cmd = (shutdown_command c).0 in
      let (q, pushes, filled) = push-Filled n cmd h.context.queue cmds room h.filled in
      (
        record sys { worker_contexts = record h.context { queue = q } ∷ [] },
        shut_down_run fuel sys c h.context q enough h.only pushes,
        with_queue-Alone (cmds ++ cmd ∷ []) h.context sys q filled h.same_books h.routed,
      )
