-- ===== src/Routing.antt =====
-- include/order_routing_system.h: which worker has which instruments, and the books and the queue
-- that each worker is given.

pub mod Assigned
pub mod Reached
pub mod Listed
mod Tests
use cpp_orderbook.FlatMap.{FlatMaps}
use Prim.Native.String.{String}
use cpp_orderbook.Prelude.{
  ℕ, zero, suc, ◌/◌, ◌%◌, ◌≡◌, ◌≢◌, List, [], ◌∷◌, ◌++◌, length, get_elem?, set, replicate,
  if◌then◌else◌, ◌==◌, add64, Option, none, some, Outcome, ok, undefined, defined, ◌>>=◌,
}
use cpp_orderbook.Clock.{Clock}
use cpp_orderbook.Order.{OrderCommand, default_command}
use cpp_orderbook.SpscQueue.{SpscQueue}
use cpp_orderbook.OrderBook.Book.{OrderBook, Surroundings, make_book}

-- boost::unordered_flat_map<Instrument, size_t>, by what its documentation says of `emplace` and
-- `find`: a key that is there keeps its value, and no other key is touched.
pub record RouterMap : Type 1 where
  pub Map : Type 0
  pub new : Map
  pub emplace : String → ℕ → Map → Map
  pub find : String → Map → Option ℕ
  pub find_new : (k : String) → find k new ≡ none
  pub find_absent :
      (k : String) (v : ℕ) (m : Map) → find k m ≡ none → find k (emplace k v m) ≡ some v
  pub find_present :
      (k : String) (v w : ℕ) (m : Map) → find k m ≡ some w → find k (emplace k v m) ≡ some w
  pub find_other : (k j : String) (v : ℕ) (m : Map) → k ≢ j → find j (emplace k v m) ≡ find j m

-- `queue(queue_cap)`: a buffer of default commands, each of which reads the clock.
unfoldable pub make_commands : ℕ → Clock → List OrderCommand × Clock
make_commands zero c = ([], c)
make_commands (suc n) c =
    let (cmd, c₁) = default_command c in let (cmds, c₂) = make_commands n c₁ in (cmd ∷ cmds, c₂)

module _ (R : RouterMap) where
  -- The first loop of `build_order_routing_system`, from the instrument of index `i` on.
  unfoldable pub assign_instruments :
      ℕ → ℕ → List String → List (List String) × R.Map → Outcome (List (List String) × R.Map)
  assign_instruments num_workers i [] s = ok s
  assign_instruments num_workers i (instrument ∷ instruments) (sets, router) =
      if num_workers == 0 then undefined else do
        assigned ← defined (get_elem? sets (i % num_workers))
        assign_instruments num_workers (suc i) instruments (
          set sets (i % num_workers) (assigned ++ instrument ∷ []),
          R.emplace instrument (i % num_workers) router,
        )

module _ ⦃F : FlatMaps⦄ where
  pub record WorkerContext : Type 0 where
    pub orderbooks : List OrderBook
    pub queue : SpscQueue OrderCommand
    pub reserve_space_per_instrument : ℕ

  -- The loop of `WorkerContext(instruments, id_allocator, queue_cap, r_space)`.
  unfoldable pub make_books : ℕ → List String → Surroundings → List OrderBook × Surroundings
  make_books r_space [] w = ([], w)
  make_books r_space (instrument ∷ instruments) w =
      let (book, w₁) = make_book instrument r_space w in
      let (books, w₂) = make_books r_space instruments w₁ in (book ∷ books, w₂)

  unfoldable pub make_context : ℕ → ℕ → List String → Surroundings → WorkerContext × Surroundings
  make_context queue_cap r_space instruments w =
      let (cmds, c) = make_commands queue_cap w.clock in
      let (books, w') = make_books r_space instruments (record w { clock = c }) in
      (
        record {
          orderbooks = books;
          queue = record { buffer = cmds; head = 0; tail = 0 };
          reserve_space_per_instrument = r_space;
        },
        w',
      )

  -- The second loop of `build_order_routing_system`.
  unfoldable pub make_contexts :
      ℕ → ℕ → List (List String) → Surroundings → List WorkerContext × Surroundings
  make_contexts queue_cap r_space [] w = ([], w)
  make_contexts queue_cap r_space (instruments ∷ sets) w =
      let (context, w₁) = make_context queue_cap r_space instruments w in
      let (contexts, w₂) = make_contexts queue_cap r_space sets w₁ in (context ∷ contexts, w₂)

  module _ (R : RouterMap) where
    pub record OrderRoutingSystem : Type 0 where
      pub worker_contexts : List WorkerContext
      pub instrument_router : R.Map

    -- The two divisions are undefined where there are no instruments or no workers.
    unfoldable pub build_order_routing_system :
        List String → ℕ → ℕ → ℕ → Surroundings → Outcome (OrderRoutingSystem × Surroundings)
    build_order_routing_system instruments num_workers queue_cap total_reserve_space w =
        if length instruments == 0 then undefined else do
          (sets, router) ←
              assign_instruments R num_workers 0 instruments (replicate num_workers [], R.new)
          let r_space = add64 (total_reserve_space / length instruments) 1
          let (contexts, w') = make_contexts queue_cap r_space sets w
          ok (record { worker_contexts = contexts; instrument_router = router }, w')
