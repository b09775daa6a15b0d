-- ===== src/OrderBook/Standing.antt =====
-- An order that stands in a book of include/orderbook.h: its level, and where it is in the level's
-- queue.
use cpp_orderbook.Prelude.{◌≡◌, refl, All, ap, subst, inl, inr, true, false, some, arith}
use cpp_orderbook.Core.{Price}
use cpp_orderbook.Order.{Order, OrderSide, is_closed}
use cpp_orderbook.Order.Fill.{IsFillable}
use cpp_orderbook.OrderPool.{OrderPtr, peek}
use cpp_orderbook.FlatMap.{FlatMaps}
use cpp_orderbook.SortedMap
use cpp_orderbook.SortedMap.{SortedMap}
use cpp_orderbook.SortedMap.Split.{place_of, All-remove}
use cpp_orderbook.PriceLevel.{PriceLevel}
use cpp_orderbook.PriceLevel.Valid.{queue}
use cpp_orderbook.OrderBook.Book.{OrderBook, compare_of, levels_of}
use cpp_orderbook.OrderBook.Resting.{RestsAt, LevelOk}
use cpp_orderbook.OrderBook.Entering.{compare_of-IsCompare}
use cpp_orderbook.OrderBook.Round.{BookOk}
use cpp_orderbook.OrderBook.Priority.{Among, in_priority}
use cpp_orderbook.OrderBook.Taking.{side_of}
use cpp_orderbook.OrderBook.Leaving.{All-Among}
use cpp_orderbook.SortedMap.Split.{IsOrdered, Lower, find_at}
use cpp_orderbook.Prelude.{sym, ◌∙◌, ◌++◌, [], ◌∷◌}
use cpp_orderbook.OrderBook.Priority.{Among-split}

module _ {V : Type 0} (s : OrderSide) (p : Price) where
  -- The keys before one of the map stand before it.
  ordered-Lower :
      (front back : SortedMap V) (v : V)
      → IsOrdered (compare_of s) (front ++ (p, v) ∷ back)
      → Lower (compare_of s) p front
  ordered-Lower [] back v o = tt
  ordered-Lower ((q, w) ∷ front) back v o = (
    (All-remove (λ e. compare_of s q e.0 ≡ true) front back (p, v) o.0).0,
    ordered-Lower front back v o.1,
  )

module _ ⦃F : FlatMaps⦄ where
  -- The level of an order among those of a side.
  record LevelOf (m : SortedMap PriceLevel) (ptr : OrderPtr) : Type 0 where
    pub front : SortedMap PriceLevel
    pub price : Price
    pub level : PriceLevel
    pub back : SortedMap PriceLevel
    pub parts : m ≡ front ++ (price, level) ∷ back
    pub among : Among ptr (queue level)

  level_of : (m : SortedMap PriceLevel) (ptr : OrderPtr) → Among ptr (in_priority m) → LevelOf m ptr
  level_of [] ptr h = absurd h
  level_of ((p, l) ∷ m) ptr h = elim (Among-split ptr (queue l) (in_priority m) h) [
    | inl here ↦ record { front = []; price = p; level = l; back = m; parts = refl; among = here }
    | inr later ↦
        let r = level_of m ptr later in
        record {
          front = (p, l) ∷ r.front;
          price = r.price;
          level = r.level;
          back = r.back;
          parts = ap (λ k. (p, l) ∷ k) r.parts;
          among = r.among;
        }
  ]

  -- An order stands in the book, in the queue of the level of its price.
  pub record Stands (b : OrderBook) (ptr : OrderPtr) : Type 0 where
    pub order : Order
    pub there : peek b.order_pool ptr ≡ some order
    pub level : PriceLevel
    pub found :
        SortedMap.find (compare_of order.side) order.price (levels_of order.side b) ≡ some level
    pub among : Among ptr (queue level)

  pub Stands-LevelOk :
      (b : OrderBook) (ptr : OrderPtr)
      → BookOk b
      → (t : Stands b ptr) → LevelOk b.order_pool t.order.side t.order.price t.level
  Stands-LevelOk b ptr v t =
      let s = t.order.side in
      let p = t.order.price in
      let side = side_of s b v in
      let (h, value_is) =
        place_of (compare_of-IsCompare s) p (levels_of s b) side.ordered t.found in
      let (here, _) =
        All-remove (λ (e : Price × PriceLevel). LevelOk b.order_pool s e.0 e.1) h.front h.back
          (p, h.value)
          (subst (All (λ (e : Price × PriceLevel). LevelOk b.order_pool s e.0 e.1)) h.parts
            side.levels) in
      subst (LevelOk b.order_pool s p) value_is here

  pub Stands-RestsAt :
      (b : OrderBook) (ptr : OrderPtr) (v : BookOk b) (t : Stands b ptr)
      → (r : RestsAt b.order_pool t.order.side t.order.price ptr) × (r.order ≡ t.order)
  Stands-RestsAt b ptr v t =
      let r =
        All-Among (RestsAt b.order_pool t.order.side t.order.price) ptr (queue t.level)
          (Stands-LevelOk b ptr v t).resting t.among in
      let same : r.order ≡ t.order = ground (arith, r.there, t.there) in
      (
        record {
          order = t.order;
          there = t.there;
          in_use = r.in_use;
          side_is = refl;
          price_is = refl;
          open_still = subst (λ (o : Order). is_closed o.status ≡ false) same r.open_still;
          fillable = subst IsFillable same r.fillable;
        },
        refl,
      )

  -- An order that is among those of its side stands in the book.
  pub Among-Stands :
      (b : OrderBook) (ptr : OrderPtr) (o : Order)
      → BookOk b
      → peek b.order_pool ptr ≡ some o
      → Among ptr (in_priority (levels_of o.side b))
      → (t : Stands b ptr) × (t.order ≡ o)
  Among-Stands b ptr o v there among =
      let s = o.side in
      let side = side_of s b v in
      let x = level_of (levels_of s b) ptr among in
      let levels =
        subst (All (λ (e : Price × PriceLevel). LevelOk b.order_pool s e.0 e.1)) x.parts
          side.levels in
      let (here, _) =
        All-remove (λ (e : Price × PriceLevel). LevelOk b.order_pool s e.0 e.1) x.front x.back
          (x.price, x.level) levels in
      let r = All-Among (RestsAt b.order_pool s x.price) ptr (queue x.level) here.resting x.among in
      let same : r.order ≡ o = ground (arith, r.there, there) in
      let price_is : x.price ≡ o.price = sym r.price_is ∙ ap (λ (y : Order). y.price) same in
      let lower =
        ordered-Lower s x.price x.front x.back x.level
          (subst (IsOrdered (compare_of s)) x.parts side.ordered) in
      (
        record {
          order = o;
          there = there;
          level = x.level;
          found =
              subst (λ p. SortedMap.find (compare_of s) p (levels_of s b) ≡ some x.level) price_is
                (ap (SortedMap.find (compare_of s) x.price) x.parts
                  ∙ find_at (compare_of-IsCompare s) x.price x.front x.back x.level lower);
          among = x.among;
        },
        refl,
      )
