-- ===== src/OrderBook/Registered.antt =====
-- The registry of a book of include/orderbook.h: every order in it stands in the book, or is filled or
-- cancelled, and a round of matching keeps it so.
use cpp_orderbook.Prelude.{
  ◌≡◌, ◌≢◌, ◌<◌, refl, sym, ap, ◌∙◌, subst, ◌⊎◌, inl, inr, List, ◌∷◌, Bool, Bool-cases, true, false,
  some, arith, if◌then◌else◌,
}
use cpp_orderbook.Core.{Quantity, OrderId}
use cpp_orderbook.Order.{Order, OrderSide, OrderStatus, buy, sell, is_closed, is_fully_filled}
use cpp_orderbook.OrderPool.{OrderPtr, peek}
use cpp_orderbook.FlatMap
use cpp_orderbook.FlatMap.{FlatMaps}
use cpp_orderbook.OrderBook.Book.{OrderBook, levels_of}
use cpp_orderbook.OrderBook.Resting.{OrderPtr-discrete}
use cpp_orderbook.OrderBook.Priority.{Among, in_priority, after_trade}
use cpp_orderbook.OrderBook.Exchanging.{Filled, Exchanged}

module _ ⦃F : FlatMaps⦄ where
  -- An order that is done, or stands in the book.
  abbrev pub IsPlaced : OrderBook → OrderPtr → Order → Type 0
  IsPlaced b ptr o = (is_closed o.status ≡ true) ⊎ Among ptr (in_priority (levels_of o.side b))

  -- The order behind a pointer, of this id.
  pub record Placed (b : OrderBook) (id : OrderId) (ptr : OrderPtr) : Type 0 where
    pub order : Order
    pub there : peek b.order_pool ptr ≡ some order
    pub owner : order.id ≡ id
    pub placed : IsPlaced b ptr order

  -- The registry has orders in slots that are handed out, and all of them are placed.
  pub record RegistryOk (b : OrderBook) : Type 0 where
    pub in_use :
        (id : OrderId) (ptr : OrderPtr)
        → FlatMap.find id b.order_registry ≡ some ptr
        → ptr.index < b.order_pool.next_free_index
    pub entries :
        (id : OrderId) (ptr : OrderPtr)
        → FlatMap.find id b.order_registry ≡ some ptr
        → Placed b id ptr

  -- A registered order that is open is among those of its side.
  pub open-Among :
      (id : OrderId) (ptr : OrderPtr) (o : Order) (b : OrderBook)
      → RegistryOk b
      → FlatMap.find id b.order_registry ≡ some ptr
      → peek b.order_pool ptr ≡ some o
      → is_closed o.status ≡ false
      → Among ptr (in_priority (levels_of o.side b))
  open-Among id ptr o b v registered there is_open =
      let p = v.entries id ptr registered in
      let same : p.order ≡ o = ground (arith, p.there, there) in
      elim p.placed [
        | inl closed ↦
            let still : is_closed p.order.status ≡ false =
              subst (λ (x : Order). is_closed x.status ≡ false) (sym same) is_open in
            absurd (cc)
        | inr among ↦ subst (λ (x : Order). Among ptr (in_priority (levels_of x.side b))) same among
      ]

  -- Placed orders stay placed from one book to the next.
  pub record KeepsPlaced (b b' : OrderBook) : Type 0 where
    pub moves : (id : OrderId) (ptr : OrderPtr) → Placed b id ptr → Placed b' id ptr

  pub KeepsPlaced-refl : (b : OrderBook) → KeepsPlaced b b
  KeepsPlaced-refl b = record { moves = λ id ptr h. h }

  pub KeepsPlaced-trans : {a b c : OrderBook} → KeepsPlaced a b → KeepsPlaced b c → KeepsPlaced a c
  KeepsPlaced-trans h k = record { moves = λ id ptr p. k.moves id ptr (h.moves id ptr p) }

  -- What holds of the orders of both sides, for a side.
  pub on_both_sides :
      (b b' : OrderBook) {P : OrderPtr → Type 0}
      → ((q : OrderPtr) → P q → Among q (in_priority b.bids) → Among q (in_priority b'.bids))
      → ((q : OrderPtr) → P q → Among q (in_priority b.asks) → Among q (in_priority b'.asks))
      → (s : OrderSide) (q : OrderPtr) → P q
      → Among q (in_priority (levels_of s b))
      → Among q (in_priority (levels_of s b'))
  on_both_sides b b' h k buy q c = h q c
  on_both_sides b b' h k sell q c = k q c

  pub KeepsPlaced-flag :
      (b : OrderBook) (flag : Bool) → KeepsPlaced b (record b { try_match_flag = flag })
  KeepsPlaced-flag b flag = record {
    moves = λ id ptr p. record {
      order = p.order;
      there = p.there;
      owner = p.owner;
      placed = elim p.placed [
        | inl closed ↦ inl closed
        | inr among ↦ inr (
            on_both_sides b (record b { try_match_flag = flag }) {P = λ _. Unit {0}} (λ q _ h. h)
              (λ q _ h. h) p.order.side ptr tt among)
      ];
    };
  }

  -- An order that is not the first to trade stays in the queue.
  after_trade-keeps :
      (s : OrderStatus) (first q : OrderPtr) (behind : List OrderPtr)
      → first ≢ q
      → Among q (first ∷ behind)
      → Among q (after_trade s (first ∷ behind))
  after_trade-keeps s first q behind ne h = elim h [
    | inl e ↦ absurd (ne (sym e))
    | inr later ↦ elim (Bool-cases (is_fully_filled s)) [
      | inl full ↦ rw full later
      | inr still ↦ rw still (inr later)
    ]
  ]

  -- The order that traded is done, or still the first of its side.
  filled-IsPlaced :
      {size : Quantity} (b b' : OrderBook) (s : OrderSide) (ptr : OrderPtr) (behind : List OrderPtr)
      (o o' : Order)
      → Filled size b.order_pool b'.order_pool s ptr o o'
      → in_priority (levels_of s b') ≡ after_trade o'.status (ptr ∷ behind)
      → IsPlaced b' ptr o'
  filled-IsPlaced b b' s ptr behind o o' f left = elim f.done_or_open [
    | inl done ↦ inl (ap is_closed done)
    | inr (still, _) ↦ inr (
        subst (λ t. Among ptr (in_priority (levels_of t b'))) (sym f.side_is)
          (subst (Among ptr) (sym (left ∙ ap (λ x. if x then behind else ptr ∷ behind) still))
            (inl refl)))
  ]

  filled-Placed :
      {size : Quantity} (b b' : OrderBook) (s : OrderSide) (ptr : OrderPtr) (behind : List OrderPtr)
      (o o' : Order) (id : OrderId)
      → Filled size b.order_pool b'.order_pool s ptr o o'
      → in_priority (levels_of s b') ≡ after_trade o'.status (ptr ∷ behind)
      → Placed b id ptr
      → Placed b' id ptr
  filled-Placed b b' s ptr behind o o' id f left p =
      let same : o ≡ p.order = ground (arith, f.was, p.there) in
      record {
        order = o';
        there = f.now_is;
        owner = f.same_id ∙ ap (λ (x : Order). x.id) same ∙ p.owner;
        placed = filled-IsPlaced b b' s ptr behind o o' f left;
      }

  other_placed :
      (b b' : OrderBook) (s : OrderSide) (q : OrderPtr) (x : Exchanged b b')
      → x.bid_ptr ≢ q
      → x.ask_ptr ≢ q
      → Among q (in_priority (levels_of s b))
      → Among q (in_priority (levels_of s b'))
  other_placed b b' buy q x not_bid not_ask h =
      subst (Among q) (sym (x.bids_left ∙ ap (after_trade x.bid'.status) x.best_bid)) (
        after_trade-keeps x.bid'.status x.bid_ptr q x.bids_behind not_bid
          (subst (Among q) x.best_bid h))
  other_placed b b' sell q x not_bid not_ask h =
      subst (Among q) (sym (x.asks_left ∙ ap (after_trade x.ask'.status) x.best_ask)) (
        after_trade-keeps x.ask'.status x.ask_ptr q x.asks_behind not_ask
          (subst (Among q) x.best_ask h))

  pub Exchanged-KeepsPlaced : (b b' : OrderBook) → Exchanged b b' → KeepsPlaced b b'
  Exchanged-KeepsPlaced b b' x = record {
    moves = λ id ptr p. elim (OrderPtr-discrete x.bid_ptr ptr) [
      | yes e ↦ subst (Placed b' id) e (
          filled-Placed b b' buy x.bid_ptr x.bids_behind x.bid x.bid' id x.bid_filled
            (x.bids_left ∙ ap (after_trade x.bid'.status) x.best_bid)
            (subst (Placed b id) (sym e) p))
      | no not_bid ↦ elim (OrderPtr-discrete x.ask_ptr ptr) [
        | yes e ↦ subst (Placed b' id) e (
            filled-Placed b b' sell x.ask_ptr x.asks_behind x.ask x.ask' id x.ask_filled
              (x.asks_left ∙ ap (after_trade x.ask'.status) x.best_ask)
              (subst (Placed b id) (sym e) p))
        | no not_ask ↦ record {
          order = p.order;
          there = x.others ptr not_bid not_ask ∙ p.there;
          owner = p.owner;
          placed = elim p.placed [
            | inl closed ↦ inl closed
            | inr among ↦ inr (other_placed b b' p.order.side ptr x not_bid not_ask among)
          ];
        }
      ]
    ];
  }
