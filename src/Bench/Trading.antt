-- ===== src/Bench/Trading.antt =====
-- `main` of src/bench_match20_s.cpp.
use Prim.Native.String.{String}
use cpp_orderbook.FlatMap.{FlatMaps}
use cpp_orderbook.Prelude.{
  ℕ, zero, suc, ◌+◌, ◌%◌, ◌≤◌, ◌<◌, ◌≡◌, refl, ap, ◌∙◌, inl, inr, List, [], ◌∷◌, ◌++◌, ◌^◌, length,
  get_elem?, All, true, Bool-cases, ltb, ok, some, arith,
}
use cpp_orderbook.Clock.{Clock}
use cpp_orderbook.Order.{OrderCommand, add, shutdown, client_order}
use cpp_orderbook.IdAllocator.{default_allocator}
use cpp_orderbook.OrderBook.Book.{Surroundings}
use cpp_orderbook.SpscQueue.Filled.{Gives, Filled-Gives}
use cpp_orderbook.Routing.{RouterMap, WorkerContext, OrderRoutingSystem}
use cpp_orderbook.Routing.Assigned.{listed}
use cpp_orderbook.Bench.{
  name_instruments, next_instrument, match20_order, match20_commands, match20_fill,
}
use cpp_orderbook.Bench.Named.{
  name, get_elem?-name_instruments, length-name_instruments, name-listed,
}
use cpp_orderbook.Bench.Inserting.{default-HasBlocks}
use cpp_orderbook.Bench.Whole.{fill_queue-Loaded}

next_instrument_low : (i idx : ℕ) → idx < 5 → next_instrument i idx < 5
next_instrument_low i idx low = ground arith

match20_order_lem :
    (instrument : String) (j : ℕ) (c : Clock)
    → ((match20_order instrument j c).0.instrument ≡ instrument)
      × ((match20_order instrument j c).0.quantity ≡ 1000)
unfolding match20_order client_order
match20_order_lem instrument j c = elim (Bool-cases (ltb j 5)) [
  | inl buys ↦ (rw (match20_order, buys) refl, rw (match20_order, buys) refl)
  | inr sells ↦ (rw (match20_order, sells) refl, rw (match20_order, sells) refl)
]

module _ (to_string : ℕ → String) where
  abbrev instruments : List String
  instruments = name_instruments to_string 0 5

  -- The commands that the loop makes.
  record Made (i idx n : ℕ) (c : Clock) : Type 0 where
    pub cmds : List OrderCommand
    pub clock' : Clock
    pub runs : match20_commands instruments i idx n c ≡ ok (cmds, clock')
    pub size : length cmds ≡ n
    pub known : All (λ (cmd : OrderCommand). listed cmd.order.instrument instruments ≡ true) cmds

  match20_commands-Made : (n i idx : ℕ) (c : Clock) → idx < 5 → Made i idx n c
  unfolding match20_commands
  match20_commands-Made zero i idx c low = record {
    cmds = [];
    clock' = c;
    runs = refl;
    size = refl;
    known = tt;
  }
  match20_commands-Made (suc n) i idx c low =
      let j = next_instrument i idx in
      let low_j : j < 5 = next_instrument_low i idx low in
      let there = get_elem?-name_instruments to_string 0 5 j low_j in
      let at_j : 0 + j ≡ j = omega arith in
      let found : get_elem? instruments j ≡ some (name to_string j) =
        there ∙ ap (λ x. some (name to_string x)) at_j in
      let (order, c₁) = match20_order (name to_string j) (i % 10) c in
      let (named, small) = match20_order_lem (name to_string j) (i % 10) c in
      let rest = match20_commands-Made n (suc i) j c₁ low_j in
      record {
        cmds = record { type = add; order = order } ∷ rest.cmds;
        clock' = rest.clock';
        runs = rw (found, rest.runs) refl;
        size = ap suc rest.size;
        known =
            (ap (λ x. listed x instruments) named ∙ name-listed to_string 5 j low_j, rest.known);
      }

module _ ⦃F : FlatMaps⦄ where
  -- What `main` of src/bench_match20_s.cpp gives to its worker: the queue of the only context gives
  -- all commands, in the order in which they were made, and then a shutdown.
  pub record Delivers (R : RouterMap) (to_string : ℕ → String) (num_orders : ℕ)
      (sys : OrderRoutingSystem R) : Type 0 where
    pub cmds : List OrderCommand
    pub before : Clock
    pub after : Clock
    pub made :
        match20_commands (name_instruments to_string 0 5) 0 0 num_orders before ≡ ok (cmds, after)
    pub size : length cmds ≡ num_orders
    pub of_instruments :
        All
          (λ (cmd : OrderCommand).
            listed cmd.order.instrument (name_instruments to_string 0 5) ≡ true)
          cmds
    pub last : OrderCommand
    pub ends : last.type ≡ shutdown
    pub context : WorkerContext
    pub only : sys.worker_contexts ≡ context ∷ []
    pub gives : Gives context.queue (cmds ++ last ∷ [])

  -- `main` of src/bench_match20_s.cpp up to its worker, with any number of orders below 2^31 in place
  -- of 1,000,000, and fuel for two rounds of the shutdown or more: it returns, never throws and meets
  -- nothing undefined. Commands for as many orders are made, each of
  -- one of the five instruments; none is dropped: the queue of the only worker gives all of them, in the
  -- order in which they were made, and then a shutdown.
  pub match20_fill-Delivers :
      (R : RouterMap) (to_string : ℕ → String) (num_orders fuel : ℕ) (c : Clock)
      → num_orders < 2 ^ 31
      → 2 ≤ fuel
      → (sys : OrderRoutingSystem R) × (w' : Surroundings) × (match20_fill R to_string num_orders
            fuel
            (record { id_allocator = default_allocator; clock = c })
          ≡ ok (sys, w'))
        × Delivers R to_string num_orders sys
  unfolding match20_fill
  match20_fill-Delivers R to_string n fuel c few two_rounds =
      let names = instruments to_string in
      let five = length-name_instruments to_string 0 5 in
      let (c₁, c₂, cmds, r, makes, fills, (size, known), loaded) =
        fill_queue-Loaded R
          (λ cmds.
            (length cmds ≡ n)
            × All (λ (cmd : OrderCommand). listed cmd.order.instrument names ≡ true) cmds)
          names (n + 2) n 0 fuel (match20_commands names 0 0 n)
          (record { id_allocator = default_allocator; clock = c }) (omega (arith, five))
          (omega arith) (omega arith) two_rounds
          (default-HasBlocks (length names + 0) c (omega (arith, five)))
          (λ k.
            let made = match20_commands-Made to_string n 0 0 k (omega arith) in
            (
              made.cmds,
              made.clock',
              made.runs,
              record { known = made.known; queue = omega (arith, made.size) },
              (made.size, made.known),
            )) in
      let context = loaded.alone.context in
      (
        r.0,
        r.1,
        fills,
        record {
          cmds = cmds;
          before = c₁;
          after = c₂;
          made = makes;
          size = size;
          of_instruments = known;
          last = loaded.command;
          ends = loaded.ends;
          context = context;
          only = loaded.alone.only;
          gives =
              Filled-Gives (n + 2) context.queue (cmds ++ loaded.command ∷ []) loaded.alone.filled;
        },
      )
