-- ===== src/Bench/Inserting.antt =====
-- `main` of src/bench_insert_s.cpp: its commands fit the queue and the pools of the books.
use Prim.Native.String.{String}
use text.Mathlib.Text.{◌==◌ as ◌=ₛ◌}
use native.Mathlib.Nat.{mod-lt}
use cpp_orderbook.FlatMap.{FlatMaps}
use cpp_orderbook.Prelude.{
  ℕ, zero, suc, ◌+◌, ◌*◌, ◌%◌, ◌≤◌, ◌<◌, ◌≡◌, refl, sym, ap, ◌∙◌, inl, inr, List, [], ◌∷◌, length,
  get_elem?, All, true, Bool-cases, ◌==◌, ok, some, arith,
}
use cpp_orderbook.Core.{Price}
use cpp_orderbook.Clock.{Clock}
use cpp_orderbook.Order.{OrderCommand, add, client_order}
use cpp_orderbook.IdAllocator.{default_allocator}
use cpp_orderbook.OrderBook.Book.{Surroundings}
use cpp_orderbook.OrderBook.Loop.{IsUncrossed}
use cpp_orderbook.OrderBook.Accepting.{Consistent}
use cpp_orderbook.Routing.{RouterMap}
use cpp_orderbook.Routing.Assigned.{listed}
use cpp_orderbook.Worker.{BookMap}
use cpp_orderbook.Worker.Serving.{IsServable, HasBlocks}
use cpp_orderbook.Worker.Total.{AllBooks, commands_for}
use cpp_orderbook.Bench.{name_instruments, insert_order, insert_commands, insert_main}
use cpp_orderbook.Bench.Named.{
  name, get_elem?-name_instruments, length-name_instruments, name-listed, OnlyAt, only_at,
}
use cpp_orderbook.Bench.Whole.{IsPlanned, fill_queue-Loaded, run_worker_total}

module _ (to_string : ℕ → String) (bid ask : ℕ → Price) where
  abbrev instruments : List String
  instruments = name_instruments to_string 0 10

  insert_order_lem :
      (instrument : String) (i : ℕ) (c : Clock)
      → ((insert_order bid ask instrument i c).0.instrument ≡ instrument)
        × ((insert_order bid ask instrument i c).0.quantity ≡ 200)
  unfolding insert_order client_order
  insert_order_lem instrument i c = elim (Bool-cases (i % 2 == 0)) [
    | inl even ↦ (rw (insert_order, even) refl, rw (insert_order, even) refl)
    | inr odd ↦ (rw (insert_order, odd) refl, rw (insert_order, odd) refl)
  ]

  -- With `d` orders to go to the next one of the only instrument of a name, there is one of that
  -- name in ten.
  Spread : ℕ → ℕ → List OrderCommand → Type 0
  Spread i n cmds =
      (k : String) (r d : ℕ)
      → OnlyAt to_string k 10 r
      → d ≤ 9
      → (i + d) % 10 ≡ r
      → 10 * commands_for k cmds + d ≤ n + 9

  one_in_ten :
      (i n : ℕ) (cmd : OrderCommand) (cmds : List OrderCommand)
      → cmd.order.instrument ≡ name to_string (i % 10)
      → Spread (suc i) n cmds
      → Spread i (suc n) (cmd ∷ cmds)
  unfolding Spread commands_for
  one_in_ten i n cmd cmds named h k r zero only low at =
      let i_plus : i + 0 ≡ i = omega arith in
      let nine : (suc i + 9) % 10 ≡ r = omega arith in
      let rest = h k r 9 only (omega arith) nine in
      elim (Bool-cases (k =ₛ cmd.order.instrument)) [
        | inl own ↦ rw own (omega (arith, rest))
        | inr other ↦ rw other (omega (arith, rest))
      ]
  one_in_ten i n cmd cmds named h k r (suc d) only low at =
      let later : (suc i + d) % 10 ≡ r = omega arith in
      let rest = h k r d only (omega arith) later in
      elim (Bool-cases (k =ₛ cmd.order.instrument)) [
        | inl own ↦
            let now : i % 10 ≡ r =
              only (i % 10) (mod-lt i (omega arith)) (ap (λ x. k =ₛ x) (sym named) ∙ own) in
            absurd (omega arith)
        | inr other ↦ rw other (omega (arith, rest))
      ]

  -- The commands that the loop makes.
  record Made (i n : ℕ) (c : Clock) : Type 0 where
    pub cmds : List OrderCommand
    pub clock' : Clock
    pub runs : insert_commands bid ask instruments i n c ≡ ok (cmds, clock')
    pub size : length cmds ≡ n
    pub known : All (λ (cmd : OrderCommand). listed cmd.order.instrument instruments ≡ true) cmds
    pub servable : All (λ (cmd : OrderCommand). IsServable cmd.type cmd.order) cmds
    pub spread : Spread i n cmds

  insert_commands-Made : (n i : ℕ) (c : Clock) → Made i n c
  unfolding insert_commands Spread commands_for
  insert_commands-Made zero i c = record {
    cmds = [];
    clock' = c;
    runs = refl;
    size = refl;
    known = tt;
    servable = tt;
    spread = λ k r d only low at. omega arith;
  }
  insert_commands-Made (suc n) i c =
      let j = i % 10 in
      let low : j < 10 = mod-lt i (omega arith) in
      let there = get_elem?-name_instruments to_string 0 10 j low in
      let at_j : 0 + j ≡ j = omega arith in
      let found : get_elem? instruments j ≡ some (name to_string j) =
        there ∙ ap (λ x. some (name to_string x)) at_j in
      let (order, c₁) = insert_order bid ask (name to_string j) i c in
      let (named, small) = insert_order_lem (name to_string j) i c in
      let rest = insert_commands-Made n (suc i) c₁ in
      let cmd : OrderCommand = record { type = add; order = order } in
      record {
        cmds = cmd ∷ rest.cmds;
        clock' = rest.clock';
        runs = rw (found, rest.runs) refl;
        size = ap suc rest.size;
        known = (ap (λ x. listed x instruments) named ∙ name-listed to_string 10 j low, rest.known);
        servable = (omega (arith, small), rest.servable);
        spread = one_in_ten i n cmd rest.cmds named rest.spread;
      }

  insert_commands-IsPlanned :
      ((i j : ℕ) → to_string i ≡ to_string j → i ≡ j)
      → (n fuel : ℕ) (c : Clock) → n ≤ 999_990
      → n + 2 ≤ fuel
      → IsPlanned fuel (insert_commands-Made n 0 c).cmds
  unfolding Spread
  insert_commands-IsPlanned distinct n fuel c few enough =
      let made = insert_commands-Made n 0 c in
      record {
        servable = made.servable;
        room = λ k.
            let (r, low, only) = only_at to_string distinct k 10 in
            let first : (0 + r) % 10 ≡ r = omega (arith, low) in
            omega (arith, made.spread k r r only (omega (arith, low)) first);
        enough = omega (arith, made.size, enough);
      }

-- The allocator that both programs begin with has blocks for a million draws.
pub default-HasBlocks :
    (n : ℕ) (c : Clock)
    → n ≤ 1_000_010
    → HasBlocks n (record { id_allocator = default_allocator; clock = c })
unfolding default_allocator
default-HasBlocks n c few = record { some_ids = omega arith; no_wrap = omega arith }

module _ ⦃F : FlatMaps⦄ where
  -- `main` of src/bench_insert_s.cpp with at most 999,990 orders in place of 500,000, whatever the
  -- prices round to, where different numbers are written differently: with fuel for two rounds more
  -- than there are orders it returns, never throws and meets nothing undefined, and every book is
  -- consistent and uncrossed.
  pub insert_main_total :
      (R : RouterMap) (to_string : ℕ → String) (bid ask : ℕ → Price) (num_orders fuel : ℕ)
      (c : Clock)
      → ((i j : ℕ) → to_string i ≡ to_string j → i ≡ j)
      → num_orders ≤ 999_990
      → num_orders + 2 ≤ fuel
      → (m : BookMap) × (w' : Surroundings) × (insert_main R to_string bid ask num_orders fuel
            (record { id_allocator = default_allocator; clock = c })
          ≡ ok (m, w'))
        × AllBooks (λ k b. Consistent b w' × IsUncrossed b) m
  unfolding insert_main
  insert_main_total R to_string bid ask n fuel c distinct few enough =
      let names = instruments to_string bid ask in
      let ten = length-name_instruments to_string 0 10 in
      let (_, _, cmds, r, _, fills, (size, planned), loaded) =
        fill_queue-Loaded R (λ cmds. (length cmds ≡ n) × IsPlanned fuel cmds) names (n + 2) n
          (n + 1) fuel (insert_commands bid ask names 0 n)
          (record { id_allocator = default_allocator; clock = c }) (omega (arith, ten))
          (omega arith) (omega arith) (omega arith)
          (default-HasBlocks (length names + (n + 1)) c (omega (arith, ten)))
          (λ c₁.
            let made = insert_commands-Made to_string bid ask n 0 c₁ in
            (
              made.cmds,
              made.clock',
              made.runs,
              record { known = made.known; queue = omega (arith, made.size) },
              (
                made.size,
                insert_commands-IsPlanned to_string bid ask distinct n fuel c₁ few enough,
              ),
            )) in
      let (m, w', runs, final) =
        run_worker_total R names (n + 2) n fuel cmds r loaded size planned in
      (m, w', rw fills runs, final)
