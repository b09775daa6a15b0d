-- ===== src/Worker/Polling.antt =====
-- `run` of include/worker.h over a queue that was filled before.
use cpp_orderbook.Prelude.{
  ℕ, zero, suc, ◌≤◌, ◌≡◌, ◌≢◌, throws, undefined, unfinished, refl, ap, ◌∙◌, inl, inr, List, [],
  ◌∷◌, length, Bool, true, false, Bool-cases, some, Outcome, ok, ◌>>=◌, arith,
}
use cpp_orderbook.FlatMap.{FlatMaps}
use cpp_orderbook.Order.{OrderCommand}
use cpp_orderbook.SpscQueue.{SpscQueue, pop}
use cpp_orderbook.SpscQueue.Filled.{Gives}
use cpp_orderbook.OrderBook.Book.{Surroundings}
use cpp_orderbook.Worker.{BookMap, is_shutdown, process_command, run, run_queue}

module _ ⦃F : FlatMaps⦄ where
  round_ends :
      (fuel : ℕ) (cmd : OrderCommand) (q q' : SpscQueue OrderCommand) (m : BookMap)
      (w : Surroundings)
      → pop q ≡ ok (some cmd, q')
      → is_shutdown cmd.type ≡ true
      → run_queue (suc fuel) q m w ≡ ok (q', m, w)
  unfolding run_queue
  round_ends fuel cmd q q' m w gives down = rw (gives, down) refl

  round_goes_on :
      (fuel : ℕ) (cmd : OrderCommand) (q q' : SpscQueue OrderCommand) (m m₁ : BookMap)
      (w w₁ : Surroundings) (known : Bool)
      → pop q ≡ ok (some cmd, q')
      → is_shutdown cmd.type ≡ false
      → process_command cmd m w ≡ ok (known, m₁, w₁)
      → run_queue (suc fuel) q m w ≡ run_queue fuel q' m₁ w₁
  unfolding run_queue
  round_goes_on fuel cmd q q' m m₁ w w₁ known gives on runs = rw (gives, on, runs) refl

  ok_same : (r r' : Bool × BookMap × Surroundings) → Outcome.ok r ≡ ok r' → r ≡ r'
  ok_same r r' e = cc

  run_ends :
      (cmd : OrderCommand) (cmds : List OrderCommand) (m m' : BookMap) (w w' : Surroundings)
      → is_shutdown cmd.type ≡ true
      → run (cmd ∷ cmds) m w ≡ ok (true, m', w')
      → (m ≡ m') × (w ≡ w')
  unfolding run
  run_ends cmd cmds m m' w w' down runs =
      let same = ok_same (true, m, w) (true, m', w') (rw down at runs) in
      (ap (λ r. r.1) same, ap (λ r. r.2) same)

  -- `run` gets through the first command and goes on behind it.
  run_splits :
      (cmd : OrderCommand) (cmds : List OrderCommand) (m m' : BookMap) (w w' : Surroundings)
      → is_shutdown cmd.type ≡ false
      → run (cmd ∷ cmds) m w ≡ ok (true, m', w')
      → (known : Bool) × (m₁ : BookMap) × (w₁ : Surroundings) × (process_command cmd m w
          ≡ ok (known, m₁, w₁))
        × (run cmds m₁ w₁ ≡ ok (true, m', w'))
  unfolding run
  run_splits cmd cmds m m' w w' on runs = by_outcome (process_command cmd m w) refl (rw on at runs)
    where
      by_outcome :
          (o : Outcome (Bool × BookMap × Surroundings))
          → process_command cmd m w ≡ o
          → (o >>= λ r. run cmds r.1 r.2) ≡ ok (true, m', w')
          → (known : Bool) × (m₁ : BookMap) × (w₁ : Surroundings) × (process_command cmd m w
              ≡ ok (known, m₁, w₁))
            × (run cmds m₁ w₁ ≡ ok (true, m', w'))
      by_outcome (ok (known, m₁, w₁)) e q = (known, m₁, w₁, e, q)
      by_outcome throws e q = absurd (cc)
      by_outcome undefined e q = absurd (cc)
      by_outcome unfinished e q = absurd (cc)

  run_needs_shutdown : (m m' : BookMap) (w w' : Surroundings) → run [] m w ≢ ok (true, m', w')
  unfolding run
  run_needs_shutdown m m' w w' e = cc

  -- Where the commands that a queue gives come to a shutdown, `run` over the queue does what it does
  -- over the commands, with fuel for as many rounds as there are commands.
  pub run_queue_lem :
      (fuel : ℕ) (cmds : List OrderCommand) (q : SpscQueue OrderCommand) (m m' : BookMap)
      (w w' : Surroundings)
      → Gives q cmds
      → length cmds ≤ fuel
      → run cmds m w ≡ ok (true, m', w')
      → (q' : SpscQueue OrderCommand) × (run_queue fuel q m w ≡ ok (q', m', w'))
  run_queue_lem fuel [] q m m' w w' gives enough runs = absurd (run_needs_shutdown m m' w w' runs)
  run_queue_lem zero (cmd ∷ cmds) q m m' w w' gives enough runs = absurd (omega arith)
  run_queue_lem (suc fuel) (cmd ∷ cmds) q m m' w w' (q₁, gives, rest) enough runs =
      elim (Bool-cases (is_shutdown cmd.type)) [
        | inl down ↦
            let (same_books, same) = run_ends cmd cmds m m' w w' down runs in
            (
              q₁,
              round_ends fuel cmd q q₁ m w gives down
                  ∙ ap (λ x. ok (q₁, x, w)) same_books
                  ∙ ap (λ x. ok (q₁, m', x)) same,
            )
        | inr on ↦
            let (known, m₁, w₁, processed, runs') = run_splits cmd cmds m m' w w' on runs in
            let (q', ends) = run_queue_lem fuel cmds q₁ m₁ m' w₁ w' rest (omega arith) runs' in
            (q', round_goes_on fuel cmd q q₁ m m₁ w w₁ known gives on processed ∙ ends)
      ]
