-- ===== src/Worker.antt =====
-- include/worker.h: a worker owns the books of its instruments and hands each command to one.
pub mod Books
pub mod Run
pub mod Accepting
pub mod Serving
pub mod Total
pub mod Polling
mod Tests
use cpp_orderbook.FlatMap.{FlatMaps}
use Prim.Native.String.{String}
use text.Mathlib.Text.{◌==◌}
use cpp_orderbook.Prelude.{
  ℕ, zero, suc, unfinished, List, [], ◌∷◌, Bool, true, false, if◌then◌else◌, Option, none, some,
  Outcome, ok, ◌>>=◌,
}
use cpp_orderbook.Order.{OrderCommand, CommandType, add, modify, cancels, shutdown}
use cpp_orderbook.SpscQueue.{SpscQueue, pop}
use cpp_orderbook.OrderBook.Book.{OrderBook, Surroundings}
use cpp_orderbook.OrderBook.Adding.{add_order}
use cpp_orderbook.OrderBook.Cancelling.{cancel_order}
use cpp_orderbook.OrderBook.Modifying.{modify_order}

abbrev pub is_shutdown : CommandType → Bool
is_shutdown shutdown = true
is_shutdown _ = false

module _ ⦃F : FlatMaps⦄ where
  -- std::unordered_map<Instrument, OrderBook>, whose order is read only by the closing report.
  abbrev pub BookMap : Type 0
  BookMap = List (String × OrderBook)

  unfoldable pub find_book : String → BookMap → Option OrderBook
  find_book k [] = none
  find_book k ((j, b) ∷ m) = if j == k then some b else find_book k m

  -- `try_emplace(k, b)`: a book that is there stays.
  unfoldable pub emplace_book : String → OrderBook → BookMap → BookMap
  emplace_book k b m = elim (find_book k m) [ none ↦ (k, b) ∷ m | some _ ↦ m ]

  -- What a call on the book of `k` leaves.
  unfoldable pub put_book : String → OrderBook → BookMap → BookMap
  put_book k b [] = []
  put_book k b ((j, b') ∷ m) = if j == k then (j, b) ∷ m else (j, b') ∷ put_book k b m

  -- The loop of `Worker(worker_context)`, over the books of the context.
  unfoldable pub take_books : List OrderBook → BookMap → BookMap
  take_books [] m = m
  take_books (b ∷ bs) m = take_books bs (emplace_book b.instrument b m)

  -- The `switch` of `process_command`. A shutdown command has no case.
  unfoldable pub process_at :
      OrderCommand → OrderBook → Surroundings → Outcome (OrderBook × Surroundings)
  process_at cmd b w = elim cmd.type [
    | add ↦ add_order cmd.order b w >>= λ r. ok (r.1, r.2)
    | modify ↦ modify_order cmd.order.id cmd.order.price cmd.order.quantity b w.clock >>= λ r.
        ok (r.1, record w { clock = r.2 })
    | cancels ↦ cancel_order cmd.order.id b w.clock >>= λ r. ok (r.1, record w { clock = r.2 })
    | shutdown ↦ ok (b, w)
  ]

  unfoldable pub process_command :
      OrderCommand → BookMap → Surroundings → Outcome (Bool × BookMap × Surroundings)
  process_command cmd m w = elim (find_book cmd.order.instrument m) [
    | none ↦ ok (false, m, w)
    | some b ↦ process_at cmd b w >>= λ r. ok (true, put_book cmd.order.instrument r.0 m, r.1)
  ]

  -- The loop of `run`, over the commands in the order in which the queue gives them; whether it ended
  -- at a shutdown command.
  unfoldable pub run :
      List OrderCommand → BookMap → Surroundings → Outcome (Bool × BookMap × Surroundings)
  run [] m w = ok (false, m, w)
  run (cmd ∷ cmds) m w =
      if is_shutdown cmd.type
      then ok (true, m, w)
      else process_command cmd m w >>= λ r. run cmds r.1 r.2

  -- The loop of `run` over the queue itself, to which no one pushes meanwhile, on fuel for its
  -- rounds; a round that finds the queue empty tries again.
  unfoldable pub run_queue :
      ℕ
      → SpscQueue OrderCommand
      → BookMap
      → Surroundings
      → Outcome (SpscQueue OrderCommand × BookMap × Surroundings)
  run_queue zero q m w = unfinished
  run_queue (suc fuel) q m w = pop q >>= λ r. elim r.0 [
    | none ↦ run_queue fuel r.1 m w
    | some cmd ↦
        if is_shutdown cmd.type
        then ok (r.1, m, w)
        else process_command cmd m w >>= λ s. run_queue fuel r.1 s.1 s.2
  ]
