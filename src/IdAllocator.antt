-- ===== src/IdAllocator.antt =====
-- include/id_allocator.h: order ids are drawn from one atomic counter, a block at a time.
pub mod Blocks
mod Tests
use cpp_orderbook.Prelude.{ℕ, add64}
use cpp_orderbook.Core.{OrderId, first_order_id}

-- The block runs from `start` up to, and without, `end`.
pub record OrderIdBlock : Type 0 where
  pub start : OrderId
  pub end : OrderId

pub record IdAllocator : Type 0 where
  pub block_size : OrderId
  pub global_counter : OrderId

abbrev pub default_block_size : OrderId
default_block_size = 1_000_000

unfoldable pub make_allocator : OrderId → IdAllocator
make_allocator size = record { block_size = size; global_counter = first_order_id }

unfoldable pub default_allocator : IdAllocator
default_allocator = record { block_size = default_block_size; global_counter = first_order_id }

-- `fetch_add` is one atomic step: it returns the old value and stores the sum, which wraps.
unfoldable pub get_next_id_block : IdAllocator → OrderIdBlock × IdAllocator
get_next_id_block a =
    let local_start = a.global_counter in
    (
      record { start = local_start; end = add64 local_start a.block_size },
      record a { global_counter = add64 a.global_counter a.block_size },
    )
