-- ===== src/IdAllocator/Tests.antt =====
-- Draws at concrete inputs.
use cpp_orderbook.Prelude.{◌≡◌, refl, [], ◌∷◌, arith}
use cpp_orderbook.IdAllocator.{IdAllocator, get_next_id_block}
use cpp_orderbook.IdAllocator.Blocks.{draws, Apart, draws-Apart}

abbrev tens : IdAllocator
tens = record { block_size = 10; global_counter = 1 }

two_draws : draws 2 tens ≡ record { start = 1; end = 11 } ∷ record { start = 11; end = 21 } ∷ []
unfolding draws get_next_id_block
two_draws = refl

draws-Apart_example : Apart 10 (draws 3 tens)
draws-Apart_example = draws-Apart 3 tens (omega arith)
