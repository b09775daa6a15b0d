-- ===== src/IdAllocator/Blocks.antt =====
-- The blocks of include/id_allocator.h do not overlap, in whatever order the threads draw them.
use cpp_orderbook.Prelude.{
  ℕ, zero, suc, ◌+◌, ◌*◌, ◌≤◌, ◌<◌, ◌≡◌, List, [], ◌∷◌, All, u64_mod, arith,
}
use cpp_orderbook.IdAllocator.{OrderIdBlock, IdAllocator, get_next_id_block}

-- The blocks that `n` draws get, first to last: since a draw is one atomic step, the draws of all
-- threads form such a sequence.
unfoldable pub draws : ℕ → IdAllocator → List OrderIdBlock
draws zero a = []
draws (suc n) a = let (b, a') = get_next_id_block a in b ∷ draws n a'

-- The block starts at `n` or above.
abbrev pub From : ℕ → OrderIdBlock → Type 0
From n b = n ≤ b.start

-- Each block holds the allocator's number of ids, and all later blocks lie above it.
abbrev pub Apart : ℕ → List OrderIdBlock → Type 0
Apart size [] = Unit {0}
Apart size (b ∷ bs) = (b.end ≡ b.start + size) × All (From b.end) bs × Apart size bs

From-weaken : (m n : ℕ) (bs : List OrderIdBlock) → m ≤ n → All (From n) bs → All (From m) bs
From-weaken m n [] h a = tt
From-weaken m n (b ∷ bs) h a = (omega arith, From-weaken m n bs h a.1)

draws-From :
    (n : ℕ) (a : IdAllocator)
    → a.global_counter + n * a.block_size < u64_mod
    → All (From a.global_counter) (draws n a)
unfolding draws get_next_id_block
draws-From zero a h = tt
draws-From (suc n) a h =
    let next = (get_next_id_block a).1 in
    (
      omega arith,
      From-weaken a.global_counter next.global_counter (draws n next) (omega arith)
          (draws-From n next (omega arith)),
    )

-- As long as the counter does not reach 2^64, any number of draws gives blocks of full size, each
-- of which lies wholly above all that were drawn before: no id is in two blocks.
pub draws-Apart :
    (n : ℕ) (a : IdAllocator)
    → a.global_counter + n * a.block_size < u64_mod
    → Apart a.block_size (draws n a)
unfolding draws get_next_id_block
draws-Apart zero a h = tt
draws-Apart (suc n) a h =
    let next = (get_next_id_block a).1 in
    (omega arith, draws-From n next (omega arith), draws-Apart n next (omega arith))
