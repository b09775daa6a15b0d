-- ===== src/Worker/Serving.antt =====
-- One command of a worker of include/worker.h, on a book in order.
use native.Mathlib.Nat.{suc-mul}
use cpp_orderbook.Prelude.{
  ℕ, suc, ◌+◌, ◌*◌, ◌≤◌, ◌<◌, ◌≡◌, refl, ap, length, Bool, ok, u64_mod, arith,
}
use cpp_orderbook.Core.{OrderId}
use cpp_orderbook.Clock.{Clock}
use cpp_orderbook.FlatMap.{FlatMaps}
use cpp_orderbook.Order.{Order, OrderCommand, CommandType, add, modify, cancels, shutdown}
use cpp_orderbook.OrderBook.Book.{OrderBook, Surroundings}
use cpp_orderbook.OrderBook.Adding.{add_order}
use cpp_orderbook.OrderBook.Cancelling.{cancel_order}
use cpp_orderbook.OrderBook.Loop.{IsUncrossed}
use cpp_orderbook.OrderBook.Accepting.{Consistent, add_order-Accepted}
use cpp_orderbook.OrderBook.Cancelled.{cancel_order_total}
use cpp_orderbook.Worker.{process_at, is_shutdown}

-- A command that adds an order whose quantity fits 64 bits, or cancels one, or shuts down.
abbrev pub IsServable : CommandType → Order → Type 0
IsServable add o = o.quantity < u64_mod
IsServable modify o = ⊥
IsServable cancels o = Unit {0}
IsServable shutdown o = Unit {0}

-- The allocator has this many blocks of ids to give.
pub record HasBlocks (n : ℕ) (w : Surroundings) : Type 0 where
  pub some_ids : 0 < w.id_allocator.block_size
  pub no_wrap : w.id_allocator.global_counter + n * w.id_allocator.block_size < u64_mod

pub fewer_blocks : {n : ℕ} {w : Surroundings} → HasBlocks (suc n) w → HasBlocks n w
fewer_blocks {n} {w} h = record {
  some_ids = h.some_ids;
  no_wrap = omega (arith, h.no_wrap, suc-mul n w.id_allocator.block_size);
}

module _ ⦃F : FlatMaps⦄ where
  -- A book in order, with room for this many orders more.
  pub record Ready (n : ℕ) (w : Surroundings) (b : OrderBook) : Type 0 where
    pub consistent : Consistent b w
    pub uncrossed : IsUncrossed b
    pub slots : b.order_pool.next_free_index + n ≤ length b.order_pool.orders.elements
    pub fits : length b.order_pool.orders.elements < u64_mod

  -- A book stays ready when others draw ids.
  pub Ready-grows :
      {n n' : ℕ} {w w' : Surroundings} (b : OrderBook)
      → w.id_allocator.global_counter ≤ w'.id_allocator.global_counter
      → n' ≤ n
      → Ready n w b
      → Ready n' w' b
  Ready-grows b grows fewer h = record {
    consistent = record {
      book_ok = h.consistent.book_ok;
      pool_ok = h.consistent.pool_ok;
      ids_ok = record {
        within = h.consistent.ids_ok.within;
        below = omega (arith, h.consistent.ids_ok.below);
      };
      registry_ok = h.consistent.registry_ok;
    };
    uncrossed = h.uncrossed;
    slots = omega (arith, h.slots);
    fits = h.fits;
  }

  -- A command that was served: there is room for so many orders more, and so many blocks.
  pub record Served (n blocks_left : ℕ) (w : Surroundings) (b' : OrderBook) (w' : Surroundings)
      : Type 0 where
    pub ready : Ready n w' b'
    pub blocks : HasBlocks blocks_left w'
    pub grows : w.id_allocator.global_counter ≤ w'.id_allocator.global_counter

  serve_add :
      (n blocks_left : ℕ) (o : Order) (b : OrderBook) (w : Surroundings)
      → o.quantity < u64_mod
      → Ready (suc n) w b
      → HasBlocks (suc blocks_left) w
      → (id : OrderId) × (b' : OrderBook) × (w' : Surroundings) × (add_order o b w
          ≡ ok (id, b', w'))
        × Served n blocks_left w b' w'
  serve_add n blocks_left o b w small h k =
      let size = w.id_allocator.block_size in
      let enough = suc-mul blocks_left size in
      let (id, b', w', runs, ok', uncrossed, a) =
        add_order-Accepted o b w h.consistent h.uncrossed
          (record { room = omega (arith, h.slots); fits = h.fits })
          (record { some_ids = k.some_ids; no_wrap = omega (arith, k.no_wrap, enough) }) small in
      (
        id,
        b',
        w',
        runs,
        record {
          ready = record {
            consistent = ok';
            uncrossed = uncrossed;
            slots = omega (arith, h.slots, a.one_slot, a.same_size);
            fits = omega (arith, h.fits, a.same_size);
          };
          blocks = record {
            some_ids = omega (arith, k.some_ids, a.same_block_size);
            no_wrap = omega (
              arith,
              k.no_wrap,
              enough,
              a.one_block,
              ap (λ s. blocks_left * s) a.same_block_size,
            );
          };
          grows = a.counter_grows;
        },
      )

  serve_cancel :
      (n blocks_left : ℕ) (o : Order) (b : OrderBook) (w : Surroundings)
      → Ready (suc n) w b
      → HasBlocks (suc blocks_left) w
      → (success : Bool) × (b' : OrderBook) × (c' : Clock) × (cancel_order o.id b w.clock
          ≡ ok (success, b', c'))
        × Served n blocks_left w b' (record w { clock = c' })
  serve_cancel n blocks_left o b w h k =
      let (success, b', c', runs, ok', uncrossed, _, _, room) =
        cancel_order_total o.id b w h.consistent h.uncrossed in
      let fewer = fewer_blocks {n = blocks_left} {w = w} k in
      (
        success,
        b',
        c',
        runs,
        record {
          ready = record {
            consistent = ok';
            uncrossed = uncrossed;
            slots = omega (arith, h.slots, room.same_free, room.same_size);
            fits = omega (arith, h.fits, room.same_size);
          };
          blocks = record { some_ids = fewer.some_ids; no_wrap = fewer.no_wrap };
          grows = omega arith;
        },
      )

  pub serve :
      (n blocks_left : ℕ) (t : CommandType) (cmd : OrderCommand) (b : OrderBook) (w : Surroundings)
      → cmd.type ≡ t
      → IsServable t cmd.order
      → Ready (suc n) w b
      → HasBlocks (suc blocks_left) w
      → (b' : OrderBook) × (w' : Surroundings) × (process_at cmd b w ≡ ok (b', w'))
        × Served n blocks_left w b' w'
  unfolding process_at
  serve n blocks_left add cmd b w is_add small h k =
      let (id, b', w', runs, s) = serve_add n blocks_left cmd.order b w small h k in
      (b', w', rw (is_add, runs) refl, s)
  serve n blocks_left modify cmd b w is_modify never h k = absurd never
  serve n blocks_left cancels cmd b w is_cancel _ h k =
      let (success, b', c', runs, s) = serve_cancel n blocks_left cmd.order b w h k in
      (b', record w { clock = c' }, rw (is_cancel, runs) refl, s)
  serve n blocks_left shutdown cmd b w is_shutdown _ h k = (
    b,
    w,
    rw is_shutdown refl,
    record {
      ready = Ready-grows b (omega arith) (omega arith) h;
      blocks = fewer_blocks k;
      grows = omega arith;
    },
  )
