-- ===== src/Producer/Shutdown.antt =====
-- `submit_all_shutdown_commands` of include/producer.h ends, with a shutdown in every queue, when the
-- workers make room.
use native.Mathlib.Decide.{ℕ_discrete}
use cpp_orderbook.Prelude.{
  ℕ, zero, suc, ◌+◌, ◌≤◌, ◌<◌, ◌≡◌, ◌≢◌, refl, sym, ap, ◌∙◌, subst, ◌⊎◌, inl, inr, List, [], ◌∷◌,
  map, length, All, Bool, true, false, Bool-cases, ◌==◌, ok, arith, u64_mod,
}
use cpp_orderbook.FlatMap.{FlatMaps}
use cpp_orderbook.Clock.{Clock}
use cpp_orderbook.Order.{OrderCommand, shutdown}
use cpp_orderbook.SpscQueue.{SpscQueue, push, next_index}
use cpp_orderbook.SpscQueue.Calls.{push_accepts, push_refuses}
use cpp_orderbook.Routing.{RouterMap, WorkerContext, OrderRoutingSystem}
use cpp_orderbook.Producer.{
  shutdown_command, submit_round, submit_rounds, submit_all_shutdown_commands,
}

-- The producer's index is one of a slot, of two slots or more.
pub record InRange (q : SpscQueue OrderCommand) : Type 0 where
  pub low : q.head < length q.buffer
  pub roomy : 2 ≤ length q.buffer
  pub fits : length q.buffer < u64_mod

-- There is a slot to push into.
abbrev pub HasSlot : SpscQueue OrderCommand → Type 0
HasSlot q = next_index q.buffer q.head ≢ q.tail

-- The last thing that was pushed into the queue is a shutdown.
pub record ShutDown (q : SpscQueue OrderCommand) : Type 0 where
  pub before : SpscQueue OrderCommand
  pub command : OrderCommand
  pub is_shutdown : command.type ≡ shutdown
  pub pushed : push command before ≡ ok (true, q)

pub type-shutdown : (c : Clock) → (shutdown_command c).0.type ≡ shutdown
unfolding shutdown_command
type-shutdown c = refl

attempt :
    (c : Clock) (q : SpscQueue OrderCommand)
    → InRange q
    → ((q' : SpscQueue OrderCommand) × (push (shutdown_command c).0 q ≡ ok (true, q')))
      ⊎ ((push (shutdown_command c).0 q ≡ ok (false, q)) × (next_index q.buffer q.head ≡ q.tail))
attempt c q low = elim (Bool-cases (next_index q.buffer q.head == q.tail)) [
  | inl full ↦ inr (
    push_refuses (shutdown_command c).0 q (omega (arith, low.roomy)) (ground arith),
    ground arith,
  )
  | inr free ↦ inl (_, push_accepts (shutdown_command c).0 q low.low (λ e. ground arith))
]

module _ ⦃F : FlatMaps⦄ where
  -- A context that waits for its shutdown, or has it.
  abbrev pub Fine : Bool × WorkerContext → Type 0
  Fine (true, k) = ShutDown k.queue
  Fine (false, k) = InRange k.queue

  abbrev pub submitted_count : List (Bool × WorkerContext) → ℕ
  submitted_count [] = 0
  submitted_count ((true, k) ∷ ks) = suc (submitted_count ks)
  submitted_count ((false, k) ∷ ks) = submitted_count ks

  -- What a round leaves.
  record RoundDone (between : ℕ → SpscQueue OrderCommand → SpscQueue OrderCommand) (i : ℕ)
      (ks : List (Bool × WorkerContext)) (count : ℕ) (c : Clock) : Type 0 where
    pub after : List (Bool × WorkerContext)
    pub count' : ℕ
    pub clock' : Clock
    pub runs : submit_round between i ks count c ≡ ok (after, count', clock')
    pub fine : All Fine after
    pub same_size : length after ≡ length ks
    pub counts : count' + submitted_count ks ≡ count + submitted_count after
    pub all_in :
        ((j : ℕ) (q : SpscQueue OrderCommand) → InRange q → HasSlot (between j q))
        → submitted_count after ≡ length after

  submit_round-RoundDone :
      (between : ℕ → SpscQueue OrderCommand → SpscQueue OrderCommand) (i : ℕ)
      (ks : List (Bool × WorkerContext)) (count : ℕ) (c : Clock)
      → ((j : ℕ) (q : SpscQueue OrderCommand) → InRange q → InRange (between j q))
      → All Fine ks
      → RoundDone between i ks count c
  unfolding submit_round
  submit_round-RoundDone between i [] count c keeps fine = record {
    after = [];
    count' = count;
    clock' = c;
    runs = refl;
    fine = tt;
    same_size = refl;
    counts = refl;
    all_in = λ h. refl;
  }
  submit_round-RoundDone between i ((true, k) ∷ ks) count c keeps fine =
      let r = submit_round-RoundDone between (suc i) ks count c keeps fine.1 in
      record {
        after = (true, k) ∷ r.after;
        count' = r.count';
        clock' = r.clock';
        runs = rw r.runs refl;
        fine = (fine.0, r.fine);
        same_size = ap suc r.same_size;
        counts = omega (arith, r.counts);
        all_in = λ h. ap suc (r.all_in h);
      }
  submit_round-RoundDone between i ((false, k) ∷ ks) count c keeps fine =
      let c₁ = (shutdown_command c).1 in
      elim (attempt c (between i k.queue) (keeps i k.queue fine.0)) [
        | inl (q', pushes) ↦
            let r = submit_round-RoundDone between (suc i) ks (count + 1) c₁ keeps fine.1 in
            record {
              after = (true, record k { queue = q' }) ∷ r.after;
              count' = r.count';
              clock' = r.clock';
              runs = rw (pushes, r.runs) refl;
              fine = (
                record {
                  before = between i k.queue;
                  command = (shutdown_command c).0;
                  is_shutdown = type-shutdown c;
                  pushed = pushes;
                },
                r.fine,
              );
              same_size = ap suc r.same_size;
              counts = omega (arith, r.counts);
              all_in = λ h. ap suc (r.all_in h);
            }
        | inr (refused, full) ↦
            let r = submit_round-RoundDone between (suc i) ks count c₁ keeps fine.1 in
            record {
              after = (false, record k { queue = between i k.queue }) ∷ r.after;
              count' = r.count';
              clock' = r.clock';
              runs = rw (refused, r.runs) refl;
              fine = (keeps i k.queue fine.0, r.fine);
              same_size = ap suc r.same_size;
              counts = omega (arith, r.counts);
              all_in = λ h. absurd (h i k.queue fine.0 full);
            }
      ]

  submitted_within : (ks : List (Bool × WorkerContext)) → submitted_count ks ≤ length ks
  submitted_within [] = omega arith
  submitted_within ((true, k) ∷ ks) = omega (arith, submitted_within ks)
  submitted_within ((false, k) ∷ ks) = omega (arith, submitted_within ks)

  every_shut :
      (ks : List (Bool × WorkerContext))
      → All Fine ks
      → submitted_count ks ≡ length ks
      → All (λ (k : WorkerContext). ShutDown k.queue) (map (λ (e : Bool × WorkerContext). e.1) ks)
  every_shut [] fine h = tt
  every_shut ((true, k) ∷ ks) fine h = (fine.0, every_shut ks fine.1 (omega arith))
  every_shut ((false, k) ∷ ks) fine h = absurd (omega (arith, submitted_within ks))

  abbrev waiting : List WorkerContext → List (Bool × WorkerContext)
  waiting ks = map (λ k. (false, k)) ks

  none_yet :
      (ks : List WorkerContext)
      → All (λ (k : WorkerContext). InRange k.queue) ks
      → All Fine (waiting ks)
        × (submitted_count (waiting ks) ≡ 0)
        × (length (waiting ks) ≡ length ks)
  none_yet [] h = (tt, refl, refl)
  none_yet (k ∷ ks) h =
      let (fine, none_in, size) = none_yet ks h.1 in ((h.0, fine), none_in, ap suc size)

  length-contexts :
      (ks : List (Bool × WorkerContext))
      → length (map (λ (e : Bool × WorkerContext). e.1) ks) ≡ length ks
  length-contexts [] = refl
  length-contexts (e ∷ ks) = ap suc (length-contexts ks)

  -- What the loop leaves.
  record AllDone (between : ℕ → ℕ → SpscQueue OrderCommand → SpscQueue OrderCommand) (fuel r : ℕ)
      (ks : List (Bool × WorkerContext)) (count : ℕ) (c : Clock) : Type 0 where
    pub after : List (Bool × WorkerContext)
    pub clock' : Clock
    pub runs : submit_rounds between fuel r ks count c ≡ ok (after, clock')
    pub fine : All Fine after
    pub same_size : length after ≡ length ks
    pub all_in : submitted_count after ≡ length after

  rounds_stop :
      (between : ℕ → ℕ → SpscQueue OrderCommand → SpscQueue OrderCommand) (fuel r : ℕ)
      (ks : List (Bool × WorkerContext)) (count : ℕ) (c : Clock)
      → count ≡ length ks
      → submit_rounds between (suc fuel) r ks count c ≡ ok (ks, c)
  unfolding submit_rounds
  rounds_stop between fuel r ks count c done =
      let met : (count == length ks) ≡ true = ground arith in rw (submit_rounds, met) refl

  rounds_go_on :
      (between : ℕ → ℕ → SpscQueue OrderCommand → SpscQueue OrderCommand) (fuel r : ℕ)
      (ks : List (Bool × WorkerContext)) (count : ℕ) (c : Clock)
      → (count == length ks) ≡ false
      → (d : RoundDone (between r) 0 ks count c)
      → submit_rounds between (suc fuel) r ks count c
        ≡ submit_rounds between fuel (suc r) d.after d.count' d.clock'
  unfolding submit_rounds
  rounds_go_on between fuel r ks count c not_met d = rw (submit_rounds, not_met, d.runs) refl

  stopped :
      (between : ℕ → ℕ → SpscQueue OrderCommand → SpscQueue OrderCommand) (fuel r : ℕ)
      (ks : List (Bool × WorkerContext)) (count : ℕ) (c : Clock)
      → 1 ≤ fuel
      → All Fine ks
      → count ≡ submitted_count ks
      → submitted_count ks ≡ length ks
      → AllDone between fuel r ks count c
  stopped between zero r ks count c some_fuel fine counted done = absurd (omega arith)
  stopped between (suc fuel) r ks count c some_fuel fine counted done = record {
    after = ks;
    clock' = c;
    runs = rounds_stop between fuel r ks count c (counted ∙ done);
    fine = fine;
    same_size = refl;
    all_in = done;
  }

  submit_rounds-AllDone :
      (between : ℕ → ℕ → SpscQueue OrderCommand → SpscQueue OrderCommand) (n fuel r : ℕ)
      (ks : List (Bool × WorkerContext)) (count : ℕ) (c : Clock)
      → ((k j : ℕ) (q : SpscQueue OrderCommand) → InRange q → InRange (between k j q))
      → ((j : ℕ) (q : SpscQueue OrderCommand) → InRange q → HasSlot (between n j q))
      → r ≤ n
      → n + 2 ≤ r + fuel
      → All Fine ks
      → count ≡ submitted_count ks
      → AllDone between fuel r ks count c
  submit_rounds-AllDone between n zero r ks count c keeps room early enough fine counted =
      absurd (omega arith)
  submit_rounds-AllDone between n (suc fuel) r ks count c keeps room early enough fine counted =
      elim (Bool-cases (count == length ks)) [
        | inl met ↦
            stopped between (suc fuel) r ks count c (omega arith) fine counted (ground arith)
        | inr not_met ↦
            let d = submit_round-RoundDone (between r) 0 ks count c (keeps r) fine in
            let counted' : d.count' ≡ submitted_count d.after = omega (arith, d.counts) in
            let rest : AllDone between fuel (suc r) d.after d.count' d.clock' =
              elim (ℕ_discrete r n) [
                | yes now ↦
                    stopped between fuel (suc r) d.after d.count' d.clock' (omega arith) d.fine
                      counted'
                      (d.all_in (
                        subst
                          (λ k.
                            (j : ℕ) (q : SpscQueue OrderCommand)
                            → InRange q
                            → HasSlot (between k j q))
                          (sym now) room))
                | no later ↦
                    submit_rounds-AllDone between n fuel (suc r) d.after d.count' d.clock' keeps
                      room (omega arith) (omega arith) d.fine counted'
              ] in
            record {
              after = rest.after;
              clock' = rest.clock';
              runs = rounds_go_on between fuel r ks count c not_met d ∙ rest.runs;
              fine = rest.fine;
              same_size = rest.same_size ∙ d.same_size;
              all_in = rest.all_in;
            }
      ]

  -- `submit_all_shutdown_commands`, on queues of two slots or more, fewer than 2^64, whose producer's
  -- index is one of a slot, which the workers keep so, and where in some round n every queue has a slot
  -- when it is tried: with fuel for n + 2 rounds or more it returns, there are as many contexts as
  -- before, and for each the last command that was pushed is a shutdown.
  pub submit_all_shutdown_commands_lem :
      (R : RouterMap) (between : ℕ → ℕ → SpscQueue OrderCommand → SpscQueue OrderCommand)
      (n fuel : ℕ) (sys : OrderRoutingSystem R) (c : Clock)
      → ((k j : ℕ) (q : SpscQueue OrderCommand) → InRange q → InRange (between k j q))
      → ((j : ℕ) (q : SpscQueue OrderCommand) → InRange q → HasSlot (between n j q))
      → All (λ (k : WorkerContext). InRange k.queue) sys.worker_contexts
      → n + 2 ≤ fuel
      → (sys' : OrderRoutingSystem R) × (c' : Clock) × (submit_all_shutdown_commands R between fuel
            sys c
          ≡ ok (sys', c'))
        × (length sys'.worker_contexts ≡ length sys.worker_contexts)
        × All (λ (k : WorkerContext). ShutDown k.queue) sys'.worker_contexts
  unfolding submit_all_shutdown_commands
  submit_all_shutdown_commands_lem R between n fuel sys c keeps room ranges enough =
      let (fine, none_in, size) = none_yet sys.worker_contexts ranges in
      let d =
        submit_rounds-AllDone between n fuel 0 (waiting sys.worker_contexts) 0 c keeps room
          (omega arith) (omega arith) fine (sym none_in) in
      (
        record sys { worker_contexts = map (λ (e : Bool × WorkerContext). e.1) d.after },
        d.clock',
        rw d.runs refl,
        length-contexts d.after ∙ d.same_size ∙ size,
        every_shut d.after d.fine d.all_in,
      )
