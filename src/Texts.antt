-- ===== src/Texts.antt =====
-- Texts that the headers put into streams, as the lists of their codes, and how the streams write
-- numbers, prices and times, of which nothing is assumed.
use Prim.Native.Char.{code}
use Prim.Native.String.{String}
use cpp_orderbook.Prelude.{ℕ, List, [], ◌∷◌}
use cpp_orderbook.Core.{Price}

abbrev pub Text : Type 0
Text = List ℕ

abbrev pub codes : String → Text
codes String.[] = []
codes (String.◌∷◌ c s) = code c ∷ codes s

-- `std::to_string`, which writes a count as a stream does; a price with two digits, as
-- `price_to_string` writes it, and as a stream does; and the `std::time_t` of a clock reading.
pub record Formats : Type 0 where
  pub to_string : ℕ → Text
  pub price_to_string : Price → Text
  pub stream_price : Price → Text
  pub stream_time : ℕ → Text
