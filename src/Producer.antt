-- ===== src/Producer.antt =====
-- include/producer.h: `submit` hands a command to the queue of its instrument's worker, and
-- `submit_all_shutdown_commands` a shutdown to each worker.
pub mod Submitted
pub mod Shutdown
use cpp_orderbook.FlatMap.{FlatMaps}
use cpp_orderbook.Prelude.{
  ℕ, zero, suc, ◌+◌, List, [], ◌∷◌, map, length, get_elem?, set, Bool, true, false, ◌==◌,
  if◌then◌else◌, none, some, Outcome, ok, unfinished, defined, ◌>>=◌,
}
use cpp_orderbook.Order.{OrderCommand, default_command, shutdown}
use cpp_orderbook.Clock.{Clock}
use cpp_orderbook.SpscQueue.{SpscQueue, push}
use cpp_orderbook.Routing.{RouterMap, WorkerContext, OrderRoutingSystem}

module _ ⦃F : FlatMaps⦄ where
  -- `push` to the queue of the context at an index of `worker_contexts`.
  unfoldable pub push_to :
      (R : RouterMap)
      → ℕ
      → OrderCommand
      → OrderRoutingSystem R
      → Outcome (Bool × OrderRoutingSystem R)
  push_to R i cmd sys = do
    context ← defined (get_elem? sys.worker_contexts i)
    (pushed, queue) ← push cmd context.queue
    ok (
      pushed,
      record sys { worker_contexts = set sys.worker_contexts i (record context { queue = queue }) },
    )

  -- Both overloads of `submit`.
  unfoldable pub submit :
      (R : RouterMap) → OrderCommand → OrderRoutingSystem R → Outcome (Bool × OrderRoutingSystem R)
  submit R cmd sys = elim (R.find cmd.order.instrument sys.instrument_router) [
    | none ↦ ok (false, sys)
    | some i ↦ push_to R i cmd sys
  ]

-- The command that is made for each attempt.
unfoldable pub shutdown_command : Clock → OrderCommand × Clock
shutdown_command c = let (cmd, c') = default_command c in (record cmd { type = shutdown }, c')

module _ ⦃F : FlatMaps⦄ where
  -- The `for` loop of `submit_all_shutdown_commands`, over the contexts from index `i` on, each with
  -- whether its shutdown is submitted. `between` is what the worker of an index has done to its queue
  -- when it is tried; what it does after its shutdown is in is left out.
  unfoldable pub submit_round :
      (ℕ → SpscQueue OrderCommand → SpscQueue OrderCommand)
      → ℕ
      → List (Bool × WorkerContext)
      → ℕ
      → Clock
      → Outcome (List (Bool × WorkerContext) × ℕ × Clock)
  submit_round between i [] count c = ok ([], count, c)
  submit_round between i ((submitted, k) ∷ ks) count c = elim submitted [
    | true ↦ do
      (rest, count', c') ← submit_round between (suc i) ks count c
      ok ((true, k) ∷ rest, count', c')
    | false ↦ do
      let (cmd, c₁) = shutdown_command c
      (pushed, queue) ← push cmd (between i k.queue)
      (rest, count', c') ← submit_round between (suc i) ks (if pushed then count + 1 else count) c₁
      ok ((pushed, record k { queue = queue }) ∷ rest, count', c')
  ]

  -- The `while` loop, on fuel; `between` is told the number of the round.
  unfoldable pub submit_rounds :
      (ℕ → ℕ → SpscQueue OrderCommand → SpscQueue OrderCommand)
      → ℕ
      → ℕ
      → List (Bool × WorkerContext)
      → ℕ
      → Clock
      → Outcome (List (Bool × WorkerContext) × Clock)
  submit_rounds between zero r ks count c = unfinished
  submit_rounds between (suc fuel) r ks count c = elim (count == length ks) [
    | true ↦ ok (ks, c)
    | false ↦ submit_round (between r) 0 ks count c >>= λ s.
        submit_rounds between fuel (suc r) s.0 s.1 s.2
  ]

  unfoldable pub submit_all_shutdown_commands :
      (R : RouterMap)
      → (ℕ → ℕ → SpscQueue OrderCommand → SpscQueue OrderCommand)
      → ℕ
      → OrderRoutingSystem R
      → Clock
      → Outcome (OrderRoutingSystem R × Clock)
  submit_all_shutdown_commands R between fuel sys c = do
    (ks, c') ← submit_rounds between fuel 0 (map (λ k. (false, k)) sys.worker_contexts) 0 c
    ok (record sys { worker_contexts = map (λ e. e.1) ks }, c')
