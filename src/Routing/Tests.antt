-- ===== src/Routing/Tests.antt =====
-- Routing at concrete inputs.
use Prim.Native.String.{String}
use cpp_orderbook.Prelude.{
  ℕ, ◌≡◌, refl, List, [], ◌∷◌, length, replicate, All, true, ok, undefined, arith,
}
use cpp_orderbook.Core.{price_of}
use cpp_orderbook.Order.{Order, OrderCommand, buy, fresh, add}
use cpp_orderbook.OrderBook.Book.{Surroundings}
use cpp_orderbook.FlatMap.Listed.{listed}
use cpp_orderbook.Routing.{OrderRoutingSystem, assign_instruments, build_order_routing_system}
use cpp_orderbook.Routing.Listed.{lookup, emplace_pair, pairs}
use cpp_orderbook.Routing.Reached.{Reaches, build_order_routing_system-Reaches}
use native.Mathlib.Nat.{mod-eq_of_lt}
use cpp_orderbook.Prelude.{suc, zero, ◌+◌, ◌∙◌, sym, ap, ◌%◌, add64}
use cpp_orderbook.Clock.{Clock}
use cpp_orderbook.SpscQueue.{SpscQueue, next_index}
use cpp_orderbook.SpscQueue.Modulo.{mod-add_ne}
use cpp_orderbook.Routing.{WorkerContext}
use cpp_orderbook.Producer.Shutdown.{InRange, HasSlot, ShutDown, submit_all_shutdown_commands_lem}
use cpp_orderbook.Producer.{submit, submit_all_shutdown_commands}
use cpp_orderbook.Producer.Submitted.{Delivered, submit-Delivered}

abbrev start : Surroundings
start = record {
  id_allocator = record { block_size = 1_000_000; global_counter = 1 };
  clock = record { reading = λ n. n; reads = 0 };
}

-- Three instruments, the last given again, on two workers.
abbrev instruments : List String
instruments = "SPY" ∷ "QQQ" ∷ "IWM" ∷ "IWM" ∷ []

assigns :
    assign_instruments pairs 2 0 instruments (replicate 2 [], [])
    ≡ ok (
      ("SPY" ∷ "IWM" ∷ []) ∷ ("QQQ" ∷ "IWM" ∷ []) ∷ [],
      ("IWM", 0) ∷ ("QQQ", 1) ∷ ("SPY", 0) ∷ [],
    )
unfolding assign_instruments lookup emplace_pair
assigns = refl

no_workers : assign_instruments pairs 0 0 instruments ([], []) ≡ undefined
unfolding assign_instruments
no_workers = refl

build_order_routing_system-Reaches_example :
    (r : OrderRoutingSystem pairs × Surroundings) × (build_order_routing_system pairs instruments 2
        8 100 start
      ≡ ok r)
    × (length r.0.worker_contexts ≡ 2)
    × All (Reaches pairs 8 r.0) instruments
build_order_routing_system-Reaches_example =
    build_order_routing_system-Reaches pairs instruments 2 8 100 start (omega arith) (omega arith)

abbrev bid : Order
bid = record {
  instrument = "QQQ";
  side = buy;
  price = price_of 99;
  quantity = 300;
  id = 0;
  quantity_filled = 0;
  status = fresh;
  time_submitted = 0;
  updated_time = 0;
}

abbrev adds_bid : OrderCommand
adds_bid = record { type = add; order = bid }

submit-Delivered_example :
    (sys sys' : OrderRoutingSystem pairs) × (w' : Surroundings) × (build_order_routing_system pairs
        instruments 2 8 100 start
      ≡ ok (sys, w'))
    × (submit pairs adds_bid sys ≡ ok (true, sys'))
    × Delivered pairs adds_bid sys'
submit-Delivered_example =
    submit-Delivered pairs instruments 2 8 100 start adds_bid (omega arith) (omega arith) refl

-- A worker that has done nothing to its queue in the first round, and taken all of it after that.
abbrev idle_then_drains : ℕ → ℕ → SpscQueue OrderCommand → SpscQueue OrderCommand
idle_then_drains zero j q = q
idle_then_drains (suc k) j q = record q { tail = q.head }

drains-InRange :
    (k j : ℕ) (q : SpscQueue OrderCommand) → InRange q → InRange (idle_then_drains k j q)
drains-InRange zero j q h = h
drains-InRange (suc k) j q h = record { low = h.low; roomy = h.roomy; fits = h.fits }

drained-HasSlot :
    (j : ℕ) (q : SpscQueue OrderCommand) → InRange q → HasSlot (idle_then_drains 1 j q)
unfolding next_index
drained-HasSlot j q h e =
    let no_wrap : add64 q.head 1 ≡ q.head + 1 = mod-eq_of_lt (omega (arith, h.low, h.fits)) in
    mod-add_ne (length q.buffer) q.head 1 (omega arith) (omega (arith, h.roomy))
      (ap (λ n. n % length q.buffer) (sym no_wrap) ∙ e ∙ sym (mod-eq_of_lt h.low))

-- A worker whose queue is full, and one whose queue is empty.
abbrev two_workers : OrderRoutingSystem pairs
two_workers = record {
  worker_contexts =
      record {
        orderbooks = [];
        queue = record { buffer = adds_bid ∷ adds_bid ∷ []; head = 1; tail = 0 };
        reserve_space_per_instrument = 0;
      }
      ∷ record {
        orderbooks = [];
        queue = record { buffer = adds_bid ∷ adds_bid ∷ []; head = 0; tail = 0 };
        reserve_space_per_instrument = 0;
      }
      ∷ [];
  instrument_router = [];
}

submit_all_shutdown_commands_lem_example :
    (sys' : OrderRoutingSystem pairs) × (c' : Clock) × (submit_all_shutdown_commands pairs
        idle_then_drains 3 two_workers start.clock
      ≡ ok (sys', c'))
    × (length sys'.worker_contexts ≡ 2)
    × All (λ (k : WorkerContext). ShutDown k.queue) sys'.worker_contexts
submit_all_shutdown_commands_lem_example =
    submit_all_shutdown_commands_lem pairs idle_then_drains 1 3 two_workers start.clock
      drains-InRange drained-HasSlot
      (
        record { low = omega arith; roomy = omega arith; fits = omega arith },
        (record { low = omega arith; roomy = omega arith; fits = omega arith }, tt),
      )
      (omega arith)
