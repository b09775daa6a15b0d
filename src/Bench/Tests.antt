-- ===== src/Bench/Tests.antt =====
-- The programs of src/bench_insert_s.cpp and src/bench_match20_s.cpp at concrete inputs.
use Prim.Native.String.{String}
use cpp_orderbook.Prelude.{
  ℕ, zero, suc, ◌≡◌, refl, ap, List, [], ◌∷◌, map, Outcome, ok, ◌>>=◌, arith,
}
use cpp_orderbook.Core.{Price, price_of}
use cpp_orderbook.Clock.{Clock}
use cpp_orderbook.Order.{OrderCommand, client_order}
use cpp_orderbook.IdAllocator.{default_allocator}
use cpp_orderbook.FlatMap.Listed.{listed}
use cpp_orderbook.OrderBook.Book.{Surroundings}
use cpp_orderbook.OrderBook.Loop.{IsUncrossed}
use cpp_orderbook.OrderBook.Accepting.{Consistent}
use cpp_orderbook.Routing.{OrderRoutingSystem}
use cpp_orderbook.Routing.Listed.{pairs}
use cpp_orderbook.Worker.{BookMap}
use cpp_orderbook.Worker.Total.{AllBooks}
use cpp_orderbook.Bench.{insert_main, match20_fill, match20_order, match20_commands}
use cpp_orderbook.Bench.Inserting.{insert_main_total}
use cpp_orderbook.Bench.Trading.{Delivers, match20_fill-Delivers}

-- A number as so many strokes.
strokes : ℕ → String
strokes zero = String.[]
strokes (suc n) = String.◌∷◌ "1" (strokes n)

strokes_distinct : (i j : ℕ) → strokes i ≡ strokes j → i ≡ j
unfolding strokes
strokes_distinct zero zero e = refl
strokes_distinct zero (suc j) e = absurd (cc)
strokes_distinct (suc i) zero e = absurd (cc)
strokes_distinct (suc i) (suc j) e = ap suc (strokes_distinct i j (cc))

abbrev clock : Clock
clock = record { reading = λ n. n; reads = 0 }

abbrev start : Surroundings
start = record { id_allocator = default_allocator; clock = clock }

-- The prices where doubles are rounded to whole numbers.
abbrev bid : ℕ → Price
bid i = price_of 100

abbrev ask : ℕ → Price
ask i = price_of 100

-- The first eleven commands of src/bench_match20_s.cpp: a bid and an offer at 10 are of one
-- instrument, the next tens are of the next one.
first_commands : Outcome (List (String × Price))
first_commands = match20_commands ("S0" ∷ "S1" ∷ "S2" ∷ "S3" ∷ "S4" ∷ []) 0 0 11 clock >>= λ r.
    ok (map (λ (cmd : OrderCommand). (cmd.order.instrument, cmd.order.price)) r.0)

first_eleven :
    first_commands
    ≡ ok (
        ("S1", price_of 6)
        ∷ ("S1", price_of 7)
        ∷ ("S1", price_of 8)
        ∷ ("S1", price_of 9)
        ∷ ("S1", price_of 10)
        ∷ ("S1", price_of 10)
        ∷ ("S1", price_of 11)
        ∷ ("S1", price_of 12)
        ∷ ("S1", price_of 13)
        ∷ ("S1", price_of 14)
        ∷ ("S2", price_of 6)
        ∷ [])
unfolding first_commands match20_commands match20_order client_order
first_eleven = refl

insert_main_total_example :
    (m : BookMap) × (w' : Surroundings) × (insert_main pairs strokes bid ask 500_000 500_002 start
      ≡ ok (m, w'))
    × AllBooks (λ k b. Consistent b w' × IsUncrossed b) m
insert_main_total_example =
    insert_main_total pairs strokes bid ask 500_000 500_002 clock strokes_distinct (omega arith)
      (omega arith)

match20_fill-Delivers_example :
    (sys : OrderRoutingSystem pairs) × (w' : Surroundings) × (match20_fill pairs strokes 1_000_000 2
        start
      ≡ ok (sys, w'))
    × Delivers pairs strokes 1_000_000 sys
match20_fill-Delivers_example =
    match20_fill-Delivers pairs strokes 1_000_000 2 clock (omega arith) (omega arith)
