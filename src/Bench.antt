-- ===== src/Bench.antt =====
-- src/bench_insert_s.cpp and src/bench_match20_s.cpp: programs in which one thread makes commands,
-- submits them and shuts down, and then runs the only worker. The clock readings for the durations
-- that they print are left out.
pub mod Submitting
pub mod Building
pub mod Whole
pub mod Named
pub mod Inserting
pub mod Trading
mod Tests
use Prim.Native.String.{String}
use cpp_orderbook.FlatMap.{FlatMaps}
use cpp_orderbook.Prelude.{
  ℕ, zero, suc, ◌+◌, ◌%◌, List, [], ◌∷◌, get_elem?, ◌==◌, ltb, if◌then◌else◌, Outcome, ok, defined,
  ◌>>=◌,
}
use cpp_orderbook.Core.{Price, price_of}
use cpp_orderbook.Clock.{Clock}
use cpp_orderbook.Order.{Order, OrderCommand, default_command, add, buy, sell, client_order}
use cpp_orderbook.OrderBook.Book.{Surroundings}
use cpp_orderbook.Routing.{RouterMap, OrderRoutingSystem, build_order_routing_system}
use cpp_orderbook.Producer.{submit, submit_all_shutdown_commands}
use cpp_orderbook.Worker.{BookMap, take_books, run_queue}

-- The loop that names the instruments, from index `i` on.
unfoldable pub name_instruments : (ℕ → String) → ℕ → ℕ → List String
name_instruments to_string i zero = []
name_instruments to_string i (suc n) =
    String.◌∷◌ "S" (to_string i) ∷ name_instruments to_string (suc i) n

-- The loop that makes the commands in src/bench_insert_s.cpp, from index `i` on, and its body. `bid`
-- and `ask` are what `99.99 - price_offset` and `100.01 + price_offset` round to.
unfoldable pub insert_order : (ℕ → Price) → (ℕ → Price) → String → ℕ → Clock → Order × Clock
insert_order bid ask instrument i c =
    if i % 2 == 0
    then client_order instrument buy (bid (i % 5)) 200 c
    else client_order instrument sell (ask (i % 5)) 200 c

unfoldable pub insert_commands :
    (ℕ → Price) → (ℕ → Price) → List String → ℕ → ℕ → Clock → Outcome (List OrderCommand × Clock)
insert_commands bid ask instruments i zero c = ok ([], c)
insert_commands bid ask instruments i (suc n) c = do
  instrument ← defined (get_elem? instruments (i % 10))
  let (order, c₁) = insert_order bid ask instrument i c
  (rest, c₂) ← insert_commands bid ask instruments (suc i) n c₁
  ok (record { type = add; order = order } ∷ rest, c₂)

-- The loop that makes the commands in src/bench_match20_s.cpp.
abbrev pub next_instrument : ℕ → ℕ → ℕ
next_instrument i instrument_idx =
    let k = if i % 10 == 0 then instrument_idx + 1 else instrument_idx in if k == 5 then 0 else k

unfoldable pub match20_order : String → ℕ → Clock → Order × Clock
match20_order instrument j c =
    if ltb j 5
    then client_order instrument buy (price_of (6 + j)) 1000 c
    else client_order instrument sell (price_of (5 + j)) 1000 c

unfoldable pub match20_commands :
    List String → ℕ → ℕ → ℕ → Clock → Outcome (List OrderCommand × Clock)
match20_commands instruments i instrument_idx zero c = ok ([], c)
match20_commands instruments i instrument_idx (suc n) c = do
  let idx = next_instrument i instrument_idx
  instrument ← defined (get_elem? instruments idx)
  let (order, c₁) = match20_order instrument (i % 10) c
  (rest, c₂) ← match20_commands instruments (suc i) idx n c₁
  ok (record { type = add; order = order } ∷ rest, c₂)

module _ ⦃F : FlatMaps⦄ (R : RouterMap) where
  -- The loop that submits the commands, whatever `submit` returns.
  unfoldable pub submit_commands :
      List OrderCommand → OrderRoutingSystem R → Outcome (OrderRoutingSystem R)
  submit_commands [] sys = ok sys
  submit_commands (cmd ∷ cmds) sys = submit R cmd sys >>= λ r. submit_commands cmds r.1

  -- What both programs do up to the worker, on fuel for the loop of the shutdown: the commands that
  -- were made are submitted, and after them a shutdown.
  unfoldable pub fill_queue :
      List String
      → ℕ
      → ℕ
      → ℕ
      → (Clock → Outcome (List OrderCommand × Clock))
      → ℕ
      → Surroundings
      → Outcome (OrderRoutingSystem R × Surroundings)
  fill_queue instruments num_workers queue_cap num_orders order_commands fuel w = do
    (sys, w₁) ← build_order_routing_system R instruments num_workers queue_cap num_orders w
    (cmds, c) ← order_commands w₁.clock
    sys₁ ← submit_commands cmds sys
    (sys₂, c₂) ← submit_all_shutdown_commands R (λ _ _ q. q) fuel sys₁ c
    ok (sys₂, record w₁ { clock = c₂ })

  -- The worker, on fuel for its loop; `run` first declares a default command.
  unfoldable pub run_worker :
      ℕ → OrderRoutingSystem R → Surroundings → Outcome (BookMap × Surroundings)
  run_worker fuel sys w = do
    context ← defined (get_elem? sys.worker_contexts 0)
    let (_, c) = default_command w.clock
    (_, m, w') ←
        run_queue fuel context.queue (take_books context.orderbooks []) (record w { clock = c })
    ok (m, w')

  -- The `main` of src/bench_insert_s.cpp and that of src/bench_match20_s.cpp, for any NUM_ORDERS, and
  -- of the latter the part up to the worker.
  unfoldable pub insert_main :
      (ℕ → String)
      → (ℕ → Price)
      → (ℕ → Price)
      → ℕ
      → ℕ
      → Surroundings
      → Outcome (BookMap × Surroundings)
  insert_main to_string bid ask num_orders fuel w =
      let instruments = name_instruments to_string 0 10 in
      fill_queue instruments 1 (num_orders + 2) num_orders
        (insert_commands bid ask instruments 0 num_orders) fuel w
      >>= λ r. run_worker fuel r.0 r.1

  unfoldable pub match20_fill :
      (ℕ → String) → ℕ → ℕ → Surroundings → Outcome (OrderRoutingSystem R × Surroundings)
  match20_fill to_string num_orders =
      let instruments = name_instruments to_string 0 5 in
      fill_queue instruments 1 (num_orders + 2) num_orders
        (match20_commands instruments 0 0 num_orders)

  unfoldable pub match20_main :
      (ℕ → String) → ℕ → ℕ → Surroundings → Outcome (BookMap × Surroundings)
  match20_main to_string num_orders fuel w =
      match20_fill to_string num_orders fuel w >>= λ r. run_worker fuel r.0 r.1
