-- ===== src/OrderBook/Drawing.antt =====
-- `get_order_id` of include/orderbook.h: every id is above those that the book drew before.
use cpp_orderbook.Prelude.{◌+◌, ◌≤◌, ◌<◌, ◌≡◌, refl, inl, inr, Bool-cases, ◌==◌, u64_mod, arith}
use cpp_orderbook.Core.{OrderId}
use cpp_orderbook.IdAllocator.{OrderIdBlock, get_next_id_block}
use cpp_orderbook.FlatMap.{FlatMaps}
use cpp_orderbook.OrderBook.Book.{OrderBook, Surroundings}
use cpp_orderbook.OrderBook.Adding.{get_order_id}

-- The allocator can give one more block without wrapping.
pub record HasIds (w : Surroundings) : Type 0 where
  pub some_ids : 0 < w.id_allocator.block_size
  pub no_wrap : w.id_allocator.global_counter + w.id_allocator.block_size < u64_mod

module _ ⦃F : FlatMaps⦄ where
  -- The book's block lies below what the allocator will give.
  pub record IdsOk (b : OrderBook) (w : Surroundings) : Type 0 where
    pub within : b.next_available_order_id ≤ b.order_id_block.end
    pub below : b.order_id_block.end ≤ w.id_allocator.global_counter

  -- An id that was drawn, and the book and its surroundings after that.
  pub record Drawn (b : OrderBook) (w : Surroundings) : Type 0 where
    pub id : OrderId
    pub block : OrderIdBlock
    pub next : OrderId
    pub w₁ : Surroundings
    pub runs :
        get_order_id b w
        ≡ (id, record b { order_id_block = block; next_available_order_id = next }, w₁)
    pub above : b.next_available_order_id ≤ id
    pub next_above : id < next
    pub within : next ≤ block.end
    pub below : block.end ≤ w₁.id_allocator.global_counter
    pub same_clock : w₁.clock ≡ w.clock
    pub same_block_size : w₁.id_allocator.block_size ≡ w.id_allocator.block_size
    pub counter_grows : w.id_allocator.global_counter ≤ w₁.id_allocator.global_counter
    pub one_block :
        w₁.id_allocator.global_counter ≤ w.id_allocator.global_counter + w.id_allocator.block_size

  pub get_order_id-Drawn : (b : OrderBook) (w : Surroundings) → IdsOk b w → HasIds w → Drawn b w
  unfolding get_order_id get_next_id_block
  get_order_id-Drawn b w v h =
      elim (Bool-cases (b.next_available_order_id == b.order_id_block.end)) [
        | inl used ↦
            let (block, allocator) = get_next_id_block w.id_allocator in
            record {
              id = block.start;
              block = block;
              next = block.start + 1;
              w₁ = record w { id_allocator = allocator };
              runs = ground arith;
              above = omega arith;
              next_above = omega arith;
              within = omega arith;
              below = omega arith;
              same_clock = refl;
              same_block_size = refl;
              counter_grows = omega arith;
              one_block = omega arith;
            }
        | inr more ↦ record {
          id = b.next_available_order_id;
          block = b.order_id_block;
          next = b.next_available_order_id + 1;
          w₁ = w;
          runs = ground arith;
          above = omega arith;
          next_above = omega arith;
          within = ground arith;
          below = v.below;
          same_clock = refl;
          same_block_size = refl;
          counter_grows = omega arith;
          one_block = omega arith;
        }
      ]
