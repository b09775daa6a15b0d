-- ===== src/Worker/Total.antt =====
-- `run` of include/worker.h on commands that add and cancel orders, over the books of one worker.
use Prim.Native.String.{String}
use text.Mathlib.Text.{◌==◌}
use text.Mathlib.TextEquality.{eq_iff}
use cpp_orderbook.Prelude.{
  ℕ, suc, ◌≤◌, ◌≡◌, refl, ◌∙◌, subst, sym, if◌then◌else◌, inl, inr, List, [], ◌∷◌, length, All,
  All-imp, Bool, true, false, Bool-cases, Option-cases, some, ok, arith,
}
use cpp_orderbook.FlatMap.{FlatMaps}
use cpp_orderbook.Order.{OrderCommand}
use cpp_orderbook.OrderBook.Book.{OrderBook, Surroundings}
use cpp_orderbook.OrderBook.Loop.{IsUncrossed}
use cpp_orderbook.OrderBook.Accepting.{Consistent}
use cpp_orderbook.Worker.Run.{process_found, process_not_found}
use cpp_orderbook.Worker.{BookMap, find_book, put_book, process_command, is_shutdown, run}
use cpp_orderbook.Worker.Serving.{IsServable, HasBlocks, fewer_blocks, Ready, Ready-grows, serve}

-- How many commands are of an instrument.
unfoldable pub commands_for : String → List OrderCommand → ℕ
commands_for k [] = 0
commands_for k (cmd ∷ cmds) =
    if k == cmd.order.instrument then suc (commands_for k cmds) else commands_for k cmds

abbrev pub has_shutdown : List OrderCommand → Bool
has_shutdown [] = false
has_shutdown (cmd ∷ cmds) = if is_shutdown cmd.type then true else has_shutdown cmds

commands_for_grows :
    (k : String) (cmd : OrderCommand) (cmds : List OrderCommand)
    → commands_for k cmds ≤ commands_for k (cmd ∷ cmds)
unfolding commands_for
commands_for_grows k cmd cmds = ground arith

commands_for_own :
    (k : String) (cmd : OrderCommand) (cmds : List OrderCommand)
    → (k == cmd.order.instrument) ≡ true
    → commands_for k (cmd ∷ cmds) ≡ suc (commands_for k cmds)
unfolding commands_for
commands_for_own k cmd cmds own = rw own refl

module _ ⦃F : FlatMaps⦄ where
  -- All books of a worker, each with its instrument.
  abbrev pub AllBooks : (String → OrderBook → Type 0) → BookMap → Type 0
  AllBooks P m = All (λ e. P e.0 e.1) m

  find-AllBooks :
      (P : String → OrderBook → Type 0) (k : String) (m : BookMap) {b : OrderBook}
      → AllBooks P m
      → find_book k m ≡ some b
      → (j : String) × ((j == k) ≡ true) × P j b
  unfolding find_book
  find-AllBooks P k [] h e = absurd (cc)
  find-AllBooks P k ((j, c) ∷ m) {b} h e = elim (Bool-cases (j == k)) [
    | inl same ↦ let here : c ≡ b = cc (rw same at e) in (j, same, subst (P j) here h.0)
    | inr other ↦ find-AllBooks P k m h.1 (rw other at e)
  ]

  put-AllBooks :
      (P Q : String → OrderBook → Type 0) (k : String) (b : OrderBook) (m : BookMap)
      → ((j : String) (c : OrderBook) → P j c → Q j c)
      → ((j : String) → (j == k) ≡ true → Q j b)
      → AllBooks P m
      → AllBooks Q (put_book k b m)
  unfolding put_book
  put-AllBooks P Q k b [] f q h = tt
  put-AllBooks P Q k b ((j, c) ∷ m) f q h = elim (Bool-cases (j == k)) [
    | inl same ↦ rw same (q j same, All-imp m (λ e. f e.0 e.1) h.1)
    | inr other ↦ rw other (f j c h.0, put-AllBooks P Q k b m f q h.1)
  ]

  -- Every book has room for the commands of its instrument.
  unfoldable pub AllReady : List OrderCommand → BookMap → Surroundings → Type 0
  AllReady cmds m w = AllBooks (λ k. Ready (commands_for k cmds) w) m

  process_total :
      (cmd : OrderCommand) (cmds : List OrderCommand) (m : BookMap) (w : Surroundings)
      → IsServable cmd.type cmd.order
      → AllReady (cmd ∷ cmds) m w
      → HasBlocks (suc (length cmds)) w
      → (known : Bool) × (m' : BookMap) × (w' : Surroundings) × (process_command cmd m w
          ≡ ok (known, m', w'))
        × AllReady cmds m' w'
        × HasBlocks (length cmds) w'
  unfolding AllReady
  process_total cmd cmds m w servable h k =
      let name = cmd.order.instrument in
      elim (Option-cases (find_book name m)) [
        | inl missing ↦ (
          false,
          m,
          w,
          process_not_found cmd m w missing,
          All-imp m (λ e. Ready-grows e.1 (omega arith) (commands_for_grows e.0 cmd cmds)) h,
          fewer_blocks k,
        )
        | inr (b, found) ↦
            let (j, own, ready) =
              find-AllBooks (λ i. Ready (commands_for i (cmd ∷ cmds)) w) name m h found in
            let (b', w', runs, s) =
              serve (commands_for j cmds) (length cmds) cmd.type cmd b w refl servable
                (subst (λ n. Ready n w b) (commands_for_own j cmd cmds own) ready) k in
            (
              true,
              put_book name b' m,
              w',
              process_found cmd b m w found ∙ rw runs refl,
              put-AllBooks (λ i. Ready (commands_for i (cmd ∷ cmds)) w)
                  (λ i. Ready (commands_for i cmds) w') name b' m
                  (λ i c. Ready-grows c s.grows (commands_for_grows i cmd cmds))
                  (λ i same.
                    subst (λ x. Ready (commands_for x cmds) w' b')
                      ((eq_iff j name).0 own ∙ sym ((eq_iff i name).0 same)) s.ready)
                  h,
              s.blocks,
            )
      ]

  AllReady-Consistent :
      (cmds : List OrderCommand) (m : BookMap) (w : Surroundings)
      → AllReady cmds m w
      → AllBooks (λ k b. Consistent b w × IsUncrossed b) m
  unfolding AllReady
  AllReady-Consistent cmds m w h = All-imp m (λ e r. (r.consistent, r.uncrossed)) h

  -- `run` on commands that add orders, cancel them or shut down, over books in order, each with room
  -- for as many orders as there are commands of its instrument, while the allocator has as many blocks
  -- of ids to give as there are commands: it returns, never throws and meets nothing undefined, it ends
  -- at a shutdown exactly when there is one, and every book is consistent and uncrossed.
  pub run_total :
      (cmds : List OrderCommand) (m : BookMap) (w : Surroundings)
      → All (λ (cmd : OrderCommand). IsServable cmd.type cmd.order) cmds
      → AllReady cmds m w
      → HasBlocks (length cmds) w
      → (ended : Bool) × (m' : BookMap) × (w' : Surroundings) × (run cmds m w ≡ ok (ended, m', w'))
        × (ended ≡ has_shutdown cmds)
        × AllBooks (λ k b. Consistent b w' × IsUncrossed b) m'
  unfolding run
  run_total [] m w servable h k = (false, m, w, refl, refl, AllReady-Consistent [] m w h)
  run_total (cmd ∷ cmds) m w servable h k = elim (Bool-cases (is_shutdown cmd.type)) [
    | inl down ↦ (true, m, w, rw down refl, rw down refl, AllReady-Consistent (cmd ∷ cmds) m w h)
    | inr on ↦
        let (known, m₁, w₁, runs, h₁, k₁) = process_total cmd cmds m w servable.0 h k in
        let (ended, m', w', ends, flag, final) = run_total cmds m₁ w₁ servable.1 h₁ k₁ in
        (ended, m', w', rw (on, runs) ends, rw on flag, final)
  ]
