-- ===== src/OrderBook/Settling.antt =====
-- The end of `add_order` of include/orderbook.h: the book with one more order on a side, and
-- `try_match` on it.
use cpp_orderbook.Prelude.{suc, ◌≤◌, ◌≡◌, refl, inl, inr, Bool, false, Bool-cases, ok, arith}
use cpp_orderbook.Clock.{Clock}
use cpp_orderbook.Order.{OrderSide, buy, sell}
use cpp_orderbook.OrderPool.{OrderPtr}
use cpp_orderbook.FlatMap.{FlatMaps, FlatMap}
use cpp_orderbook.SortedMap.{SortedMap}
use cpp_orderbook.PriceLevel.{PriceLevel}
use cpp_orderbook.OrderBook.Book.{OrderBook, levels_of, with_levels, total_orders}
use cpp_orderbook.OrderBook.Matching.{try_match}
use cpp_orderbook.OrderBook.Resting.{SideOk}
use cpp_orderbook.OrderBook.Kept.{BookKept, BookKept-refl}
use cpp_orderbook.OrderBook.Entering.{first_key}
use cpp_orderbook.OrderBook.Priority.{Among, in_priority}
use cpp_orderbook.OrderBook.Registered.{on_both_sides, KeepsPlaced, KeepsPlaced-refl}
use cpp_orderbook.OrderBook.Round.{BookOk}
use cpp_orderbook.OrderBook.Loop.{IsUncrossed, orders_in, try_match_lem}
use cpp_orderbook.OrderBook.Uncrossed.{IsUncrossed-same}

module _ ⦃F : FlatMaps⦄ where
  -- The book with the order on its side.
  pub record EnteredBook (b b₂ : OrderBook) (s : OrderSide) (ptr : OrderPtr) (inserted : Bool)
      (registry : FlatMap OrderPtr) : Type 0 where
    pub book_ok : BookOk b₂
    pub same_pool : b₂.order_pool ≡ b.order_pool
    pub same_next : b₂.next_available_order_id ≡ b.next_available_order_id
    pub same_block : b₂.order_id_block ≡ b.order_id_block
    pub new_registry : b₂.order_registry ≡ registry
    pub one_more : orders_in b₂ ≡ suc (orders_in b)
    pub joins : Among ptr (in_priority (levels_of s b₂))
    pub stay :
        (t : OrderSide) (q : OrderPtr)
        → Among q (in_priority (levels_of t b))
        → Among q (in_priority (levels_of t b₂))
    pub flagged : b₂.try_match_flag ≡ inserted
    pub still_uncrossed : inserted ≡ false → IsUncrossed b → IsUncrossed b₂

  pub enters_book :
      (s : OrderSide) (b : OrderBook) (m' : SortedMap PriceLevel) (inserted : Bool)
      (registry : FlatMap OrderPtr) (ptr : OrderPtr)
      → BookOk b
      → SideOk b.order_pool s m'
      → total_orders m' ≡ suc (total_orders (levels_of s b))
      → (inserted ≡ false → first_key m' ≡ first_key (levels_of s b))
      → Among ptr (in_priority m')
      → ((q : OrderPtr) → Among q (in_priority (levels_of s b)) → Among q (in_priority m'))
      → EnteredBook b
          (record (with_levels s m' b) { try_match_flag = inserted; order_registry = registry })
          s
          ptr
          inserted
          registry
  enters_book buy b m' inserted registry ptr v ok' more best joins stays = record {
    book_ok = record { bids_ok = ok'; asks_ok = v.asks_ok };
    same_pool = refl;
    same_next = refl;
    same_block = refl;
    new_registry = refl;
    one_more = omega arith;
    joins = joins;
    stay = λ t q.
        on_both_sides b
          (record b { bids = m'; try_match_flag = inserted; order_registry = registry })
          {P = λ _. Unit {0}} (λ q _. stays q) (λ q _ h. h) t q tt;
    flagged = refl;
    still_uncrossed = λ e h.
        IsUncrossed-same b
          (record b { bids = m'; try_match_flag = inserted; order_registry = registry }) (best e)
          refl h;
  }
  enters_book sell b m' inserted registry ptr v ok' more best joins stays = record {
    book_ok = record { bids_ok = v.bids_ok; asks_ok = ok' };
    same_pool = refl;
    same_next = refl;
    same_block = refl;
    new_registry = refl;
    one_more = omega arith;
    joins = joins;
    stay = λ t q.
        on_both_sides b
          (record b { asks = m'; try_match_flag = inserted; order_registry = registry })
          {P = λ _. Unit {0}} (λ q _ h. h) (λ q _. stays q) t q tt;
    flagged = refl;
    still_uncrossed = λ e h.
        IsUncrossed-same b
          (record b { asks = m'; try_match_flag = inserted; order_registry = registry }) refl
          (best e) h;
  }

  pub record Settled (b b' : OrderBook) : Type 0 where
    pub book_ok : BookOk b'
    pub uncrossed : IsUncrossed b'
    pub no_more : orders_in b' ≤ orders_in b
    pub kept : BookKept b b'
    pub keeps_placed : KeepsPlaced b b'

  pub try_match_down :
      (b : OrderBook) (c : Clock) → b.try_match_flag ≡ false → try_match b c ≡ ok (false, b, c)
  unfolding try_match
  try_match_down b c down = rw down refl

  -- `try_match` on an uncrossed book, or with the flag up.
  pub settles :
      (b : OrderBook) (c : Clock)
      → BookOk b
      → (b.try_match_flag ≡ false → IsUncrossed b)
      → (r : Bool × OrderBook × Clock) × (try_match b c ≡ ok r) × Settled b r.1
  settles b c v h = elim (Bool-cases b.try_match_flag) [
    | inl up ↦
        let (r, runs, m) = try_match_lem b c v up in
        (
          r,
          runs,
          record {
            book_ok = m.book_ok;
            uncrossed = m.uncrossed;
            no_more = m.no_more;
            kept = m.kept;
            keeps_placed = m.keeps_placed;
          },
        )
    | inr down ↦ (
      (false, b, c),
      try_match_down b c down,
      record {
        book_ok = v;
        uncrossed = h down;
        no_more = omega arith;
        kept = BookKept-refl b;
        keeps_placed = KeepsPlaced-refl b;
      },
    )
  ]
