-- ===== src/SpscQueue.antt =====
-- include/spsc_queue.h: the ring buffer between one producer and one consumer. `push` and `pop` are
-- the methods run without interruption; `Steps` takes them apart into their loads and stores.
-- A moved-from slot keeps its item here: `Fifo` shows that no slot is read before the next push
-- into it.
pub mod Steps
pub mod Modulo
pub mod Ring
pub mod Inv
pub mod Fifo
pub mod Calls
pub mod Filled
mod Tests
use cpp_orderbook.Prelude.{
  ℕ, ◌%◌, List, length, get_elem?, set, replicate, Bool, true, false, ◌==◌, if◌then◌else◌, add64,
  Option, none, some, Outcome, ok, undefined, defined, ◌>>=◌,
}

pub record SpscQueue {ℓ} (A : Type ℓ) : Type ℓ where
  pub buffer : List A
  pub head : ℕ
  pub tail : ℕ

module _ {ℓ} {A : Type ℓ} where
  -- `SPSCQueue(capacity)`, filled with default items.
  unfoldable pub make_queue : ℕ → A → SpscQueue A
  make_queue capacity item = record { buffer = replicate capacity item; head = 0; tail = 0 }

  -- `(i + 1) % _buffer.size()`.
  unfoldable pub next_index : List A → ℕ → ℕ
  next_index buffer i = add64 i 1 % length buffer

  -- Both overloads of `push`. The remainder by an empty buffer's size, and a write past the end,
  -- are undefined.
  unfoldable pub push : A → SpscQueue A → Outcome (Bool × SpscQueue A)
  unfolding next_index
  push item q =
      if length q.buffer == 0
      then undefined
      else if next_index q.buffer q.head == q.tail
      then ok (false, q)
      else defined (get_elem? q.buffer q.head) >>= λ _.
          ok (
            true,
            record q { buffer = set q.buffer q.head item; head = next_index q.buffer q.head },
          )

  -- `pop`, with the item where it returns true.
  unfoldable pub pop : SpscQueue A → Outcome (Option A × SpscQueue A)
  unfolding next_index
  pop q =
      if q.tail == q.head
      then ok (none, q)
      else defined (get_elem? q.buffer q.tail) >>= λ item.
          if length q.buffer == 0
          then undefined
          else ok (some item, record q { tail = next_index q.buffer q.tail })
