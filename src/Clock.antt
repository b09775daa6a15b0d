-- ===== src/Clock.antt =====
-- std::chrono::system_clock: a stream of readings, of which the program takes the next one each
-- time it asks. Nothing is assumed of the readings.
use cpp_orderbook.Prelude.{ℕ, ◌+◌}

pub record Clock : Type 0 where
  pub reading : ℕ → ℕ
  pub reads : ℕ

abbrev pub now : Clock → ℕ × Clock
now c = (c.reading c.reads, record c { reads = c.reads + 1 })
