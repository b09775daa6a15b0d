-- ===== src/Worker/Run.antt =====
-- `process_command` and `run` of include/worker.h.
use cpp_orderbook.FlatMap.{FlatMaps}
use Prim.Native.String.{String}
use text.Mathlib.Text.{◌==◌}
use text.Mathlib.TextEquality.{eq_iff}
use cpp_orderbook.Prelude.{
  ◌≡◌, ◌≢◌, refl, fun_ext, ap, inl, inr, List, [], ◌∷◌, ◌++◌, true, false, none, Bool-cases, some,
  ok, ◌>>=◌, arith, if◌then◌else◌,
}
use cpp_orderbook.Order.{OrderCommand, shutdown}
use cpp_orderbook.OrderBook.Book.{OrderBook, Surroundings}
use cpp_orderbook.Worker.{
  BookMap, find_book, put_book, process_at, process_command, is_shutdown, run,
}

module _ ⦃F : FlatMaps⦄ where
  -- Nothing that the queue holds behind a shutdown command is processed, whatever comes of the
  -- commands before it.
  pub run-append_shutdown :
      (before behind : List OrderCommand) (cmd : OrderCommand) (m : BookMap) (w : Surroundings)
      → cmd.type ≡ shutdown
      → run (before ++ cmd ∷ behind) m w ≡ run (before ++ cmd ∷ []) m w
  unfolding run
  run-append_shutdown [] behind cmd m w e = ground (arith, e)
  run-append_shutdown (c ∷ cs) behind cmd m w e =
      ap (λ next. if is_shutdown c.type then ok (true, m, w) else process_command c m w >>= next)
        (fun_ext (λ r. run-append_shutdown cs behind cmd r.1 r.2 e))

  pub find-put_book_self :
      (k : String) (b : OrderBook) {c : OrderBook} (m : BookMap)
      → find_book k m ≡ some c
      → find_book k (put_book k b m) ≡ some b
  unfolding find_book put_book
  find-put_book_self k b [] e = absurd (cc)
  find-put_book_self k b ((i, d) ∷ m) e = elim (Bool-cases (i == k)) [
    | inl same ↦ rw (put_book, same, find_book, same) refl
    | inr other ↦ rw (put_book, other, find_book, other) (find-put_book_self k b m (rw other at e))
  ]

  pub find-put_book :
      (k j : String) (b : OrderBook) (m : BookMap)
      → k ≢ j
      → find_book j (put_book k b m) ≡ find_book j m
  unfolding find_book put_book
  find-put_book k j b [] ne = refl
  find-put_book k j b ((i, c) ∷ m) ne =
      ground (arith, eq_iff i k, eq_iff i j, find-put_book k j b m ne)

  pub process_found :
      (cmd : OrderCommand) (b : OrderBook) (m : BookMap) (w : Surroundings)
      → find_book cmd.order.instrument m ≡ some b
      → process_command cmd m w
        ≡ (process_at cmd b w >>= λ r. ok (true, put_book cmd.order.instrument r.0 m, r.1))
  unfolding process_command
  process_found cmd b m w e = ground (arith, e)

  pub process_not_found :
      (cmd : OrderCommand) (m : BookMap) (w : Surroundings)
      → find_book cmd.order.instrument m ≡ none
      → process_command cmd m w ≡ ok (false, m, w)
  unfolding process_command
  process_not_found cmd m w e = ground (arith, e)
