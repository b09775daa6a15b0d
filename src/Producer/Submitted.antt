-- ===== src/Producer/Submitted.antt =====
-- From `build_order_routing_system` through `submit` to the worker: a command gets to a worker that
-- has the book of its instrument.
use cpp_orderbook.FlatMap.{FlatMaps}
use Prim.Native.String.{String}
use text.Mathlib.Text.{◌==◌}
use text.Mathlib.TextEquality.{eq_iff}
use native.Mathlib.Nat.{mod-eq_of_lt}
use cpp_orderbook.Prelude.{
  ℕ, ◌≤◌, ◌<◌, ◌≡◌, sym, ap, ◌∙◌, subst, inl, inr, List, [], ◌∷◌, length, get_elem?, set, All,
  lt-length, get_elem?-set_self, true, Bool-cases, some, ok, length-set, arith, ◌||◌,
}
use cpp_orderbook.Order.{OrderCommand}
use cpp_orderbook.SpscQueue.{SpscQueue, push, pop, next_index}
use cpp_orderbook.SpscQueue.Calls.{push_accepts, pop_gives}
use cpp_orderbook.OrderBook.Book.{Surroundings}
use cpp_orderbook.Routing.{RouterMap, WorkerContext, OrderRoutingSystem, build_order_routing_system}
use cpp_orderbook.Routing.Assigned.{listed}
use cpp_orderbook.Routing.Reached.{Reaches, build_order_routing_system-Reaches}
use cpp_orderbook.Worker.{take_books}
use cpp_orderbook.Worker.Books.{HasBook}
use cpp_orderbook.Producer.{push_to, submit}

pub listed_holds {ℓ} :
    (P : String → Type ℓ) (k : String) (xs : List String) → All P xs → listed k xs ≡ true → P k
listed_holds P k [] all h = absurd (cc)
listed_holds P k (x ∷ xs) all h = elim (Bool-cases (x == k)) [
  | inl same ↦ subst P ((eq_iff x k).0 same) all.0
  | inr differ ↦ listed_holds P k xs all.1 (ap (λ b. b || listed k xs) (sym differ) ∙ h)
]

-- An empty queue takes an item and gives it back.
module _ {A : Type 0} where
  first_index : (buffer : List A) → 2 ≤ length buffer → next_index buffer 0 ≡ 1
  unfolding next_index
  first_index buffer h = mod-eq_of_lt (omega arith)

  push-pop :
      (x : A) (q : SpscQueue A)
      → 2 ≤ length q.buffer
      → (q.head ≡ 0) × (q.tail ≡ 0)
      → (q₁ q₂ : SpscQueue A) × (push x q ≡ ok (true, q₁)) × (pop q₁ ≡ ok (some x, q₂))
  push-pop x q h (at_head, at_tail) =
      let written = set q.buffer q.head x in
      let size = length-set q.buffer q.head x in
      let low : q.head < length q.buffer = omega arith in
      let to_one : next_index q.buffer q.head ≡ 1 =
        ap (next_index q.buffer) at_head ∙ first_index q.buffer h in
      let now_one : next_index written q.head ≡ 1 =
        ap (next_index written) at_head ∙ first_index written (omega (arith, size)) in
      let q₁ : SpscQueue A = record q { buffer = written; head = next_index written q.head } in
      (
        q₁,
        record q₁ { tail = next_index written q.tail },
        push_accepts x q low (λ e. omega (arith, to_one, e)),
        pop_gives q₁ (omega (arith, size)) (λ e. omega (arith, now_one, e))
            (ap (get_elem? written) (at_tail ∙ sym at_head)
              ∙ get_elem?-set_self q.buffer q.head x low),
      )

module _ ⦃F : FlatMaps⦄ where
  -- What becomes of a command that was submitted: it is next in the queue of the worker that its
  -- instrument is routed to, and that worker finds the instrument's book.
  pub record Delivered (R : RouterMap) (cmd : OrderCommand) (sys : OrderRoutingSystem R)
      : Type 0 where
    pub worker : ℕ
    pub context : WorkerContext
    pub routed : R.find cmd.order.instrument sys.instrument_router ≡ some worker
    pub there : get_elem? sys.worker_contexts worker ≡ some context
    pub next : (q : SpscQueue OrderCommand) × (pop context.queue ≡ ok (some cmd, q))
    pub book : HasBook cmd.order.instrument (take_books context.orderbooks [])

  module _ (R : RouterMap) where
    pub submit_run :
        (cmd : OrderCommand) (sys : OrderRoutingSystem R) (i : ℕ) (context : WorkerContext)
        (q : SpscQueue OrderCommand)
        → R.find cmd.order.instrument sys.instrument_router ≡ some i
        → get_elem? sys.worker_contexts i ≡ some context
        → push cmd context.queue ≡ ok (true, q)
        → submit R cmd sys
          ≡ ok (
            true,
            record sys {
              worker_contexts = set sys.worker_contexts i (record context { queue = q });
            },
          )
    unfolding submit push_to
    submit_run cmd sys i context q routed there pushed = ground (arith, routed, there, pushed)

    -- A system that was built for the command's instrument, among others, with at least one worker
    -- and room for two commands in a queue: `submit` returns true, and the command is next in the
    -- queue of the worker that its instrument is routed to, and that worker finds a book of the
    -- instrument.
    pub submit-Delivered :
        (instruments : List String) (n q total : ℕ) (w : Surroundings) (cmd : OrderCommand)
        → 0 < n
        → 2 ≤ q
        → listed cmd.order.instrument instruments ≡ true
        → (sys sys' : OrderRoutingSystem R) × (w' : Surroundings) × (build_order_routing_system R
              instruments n q total w
            ≡ ok (sys, w'))
          × (submit R cmd sys ≡ ok (true, sys'))
          × Delivered R cmd sys'
    submit-Delivered [] n q total w cmd some_worker room h = absurd (cc)
    submit-Delivered (x ∷ xs) n q total w cmd some_worker room h =
        let ((sys, w'), runs, _, all) =
          build_order_routing_system-Reaches R (x ∷ xs) n q total w some_worker (omega arith) in
        let r = listed_holds (Reaches R q sys) cmd.order.instrument (x ∷ xs) all h in
        let (q₁, q₂, pushed, popped) =
          push-pop cmd r.context.queue (subst (λ m. 2 ≤ m) (sym r.capacity) room) r.at_start in
        let context' : WorkerContext = record r.context { queue = q₁ } in
        (
          sys,
          record sys { worker_contexts = set sys.worker_contexts r.worker context' },
          w',
          runs,
          submit_run cmd sys r.worker r.context q₁ r.routed r.there pushed,
          record {
            worker = r.worker;
            context = context';
            routed = r.routed;
            there =
                get_elem?-set_self sys.worker_contexts r.worker context'
                  (lt-length sys.worker_contexts r.worker r.there);
            next = (q₂, popped);
            book = r.book;
          },
        )
