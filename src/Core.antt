-- ===== src/Core.antt =====
-- include/core.h: the shared types and constants.
--
-- `Price` is a double that the program only compares (with `<`, `>`, `<=`, `>=`, `!=`). Every
-- finite double is a whole multiple of 2^-1074, so a price is that whole number: comparisons of
-- finite doubles are comparisons of these integers, and the two zeros are one. NaN, which
-- breaks the order that std::map needs, and the infinities are left out.
use Prim.Native.Nat.{ℕ, ◌*◌, ◌-◌, ◌^◌}
use cpp_orderbook.Prelude.Int.{ℤ, pos, negsuc}

abbrev pub OrderId : Type 0
OrderId = ℕ

abbrev pub Quantity : Type 0
Quantity = ℕ

abbrev pub Price : Type 0
Price = ℤ

-- The price 1.0 in units of 2^-1074.
abbrev pub price_one : ℕ
price_one = 2 ^ 1074

-- The double of a whole number.
abbrev pub price_of : ℕ → Price
price_of n = pos (n * price_one)

-- The double -1.0.
abbrev pub minus_one : Price
minus_one = negsuc (price_one - 1)

abbrev pub default_order_id : OrderId
default_order_id = 0

abbrev pub first_order_id : OrderId
first_order_id = 1

abbrev pub invalid_order_id : OrderId
invalid_order_id = 2 ^ 64 - 1

abbrev pub space_reserve : ℕ
space_reserve = 100_000
