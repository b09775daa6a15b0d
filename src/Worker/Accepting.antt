-- ===== src/Worker/Accepting.antt =====
-- A command of a worker of include/worker.h that adds an order, and the books of the other instruments.
use Prim.Native.String.{String}
use cpp_orderbook.FlatMap.{FlatMaps}
use cpp_orderbook.Prelude.{◌<◌, ◌≡◌, ◌≢◌, refl, ◌∙◌, true, some, ok, u64_mod}
use cpp_orderbook.Core.{OrderId}
use cpp_orderbook.Order.{OrderCommand, add}
use cpp_orderbook.OrderPool.Slots.{HasRoom}
use cpp_orderbook.OrderBook.Book.{OrderBook, Surroundings}
use cpp_orderbook.OrderBook.Adding.{add_order}
use cpp_orderbook.OrderBook.Drawing.{HasIds}
use cpp_orderbook.OrderBook.Loop.{IsUncrossed}
use cpp_orderbook.OrderBook.Accepting.{Consistent, Accepted, add_order-Accepted}
use cpp_orderbook.Worker.{BookMap, find_book, put_book, process_at, process_command}
use cpp_orderbook.Worker.Run.{process_found, find-put_book, find-put_book_self}

module _ ⦃F : FlatMaps⦄ where
  process_at_adds :
      (cmd : OrderCommand) (b b' : OrderBook) (w w' : Surroundings) (id : OrderId)
      → cmd.type ≡ add
      → add_order cmd.order b w ≡ ok (id, b', w')
      → process_at cmd b w ≡ ok (b', w')
  unfolding process_at
  process_at_adds cmd b b' w w' id is_add runs = rw (is_add, runs) refl

  -- A command that adds an order whose quantity fits 64 bits, where the worker has a consistent,
  -- uncrossed book of its instrument whose pool has room, while the allocator can give another block:
  -- the worker gets through it. The book that it has of the instrument after that is consistent and
  -- uncrossed, and has accepted the order: one slot of the pool is used, and the new id, above all that
  -- were drawn before, is registered for the order in that slot. The books of other instruments are as
  -- they were.
  pub process_command-Accepted :
      (cmd : OrderCommand) (b : OrderBook) (m : BookMap) (w : Surroundings)
      → cmd.type ≡ add
      → cmd.order.quantity < u64_mod
      → find_book cmd.order.instrument m ≡ some b
      → Consistent b w
      → IsUncrossed b
      → HasRoom b.order_pool
      → HasIds w
      → (id : OrderId) × (b' : OrderBook) × (m' : BookMap) × (w' : Surroundings) × (process_command
            cmd m w
          ≡ ok (true, m', w'))
        × (find_book cmd.order.instrument m' ≡ some b')
        × Consistent b' w'
        × IsUncrossed b'
        × Accepted b w id b' w'
        × ((k : String) → cmd.order.instrument ≢ k → find_book k m' ≡ find_book k m)
  process_command-Accepted cmd b m w is_add fits found consistent uncrossed room ids =
      let name = cmd.order.instrument in
      let (id, b', w', runs, consistent', uncrossed', accepted) =
        add_order-Accepted cmd.order b w consistent uncrossed room ids fits in
      (
        id,
        b',
        put_book name b' m,
        w',
        process_found cmd b m w found ∙ rw (process_at_adds cmd b b' w w' id is_add runs) refl,
        find-put_book_self name b' m found,
        consistent',
        uncrossed',
        accepted,
        λ k other. find-put_book name k b' m other,
      )
