-- ===== src/OrderBook/Resting.antt =====
-- What it is for orders to rest in the book of include/orderbook.h, and that a fill of one order
-- leaves the others where they are.
use native.Mathlib.Decide.{ℕ_discrete}
use cpp_orderbook.Prelude.{
  ℕ, suc, ◌<◌, ◌≡◌, ◌≢◌, sym, ap, ◌∙◌, subst, fun_ext, inl, inr, List, [], ◌∷◌, All, All-imp, false,
  Bool-cases, Option, none, some, arith,
}
use cpp_orderbook.Core.{OrderId, Price}
use cpp_orderbook.Order.{Order, OrderSide, buy, sell, is_closed}
use cpp_orderbook.Order.Fill.{IsFillable}
use cpp_orderbook.OrderPool.{OrderPool, OrderPtr, peek, poke}
use cpp_orderbook.OrderPool.Slots.{peek-poke_self, peek-poke_ne, next_free-poke}
use cpp_orderbook.Pairs
use cpp_orderbook.FlatMap.{FlatMaps}
use cpp_orderbook.Pairs.Laws.{HasDistinctKeys}
use cpp_orderbook.SortedMap.{SortedMap}
use cpp_orderbook.SortedMap.Split.{IsOrdered}
use cpp_orderbook.PriceLevel.{PriceLevel, OrderEntry}
use cpp_orderbook.PriceLevel.Index.{live, index_from}
use cpp_orderbook.PriceLevel.Valid.{queue, IsValid}
use cpp_orderbook.OrderBook.Book.{compare_of}

-- The id of the order at a pointer.
abbrev pub id_or_zero : Option Order → OrderId
id_or_zero none = 0
id_or_zero (some o) = o.id

abbrev pub id_in : OrderPool → OrderPtr → OrderId
id_in pool ptr = id_or_zero (peek pool ptr)

-- An open order of this side and price, at a good pointer that the pool has handed out.
pub record RestsAt (pool : OrderPool) (s : OrderSide) (p : Price) (ptr : OrderPtr) : Type 0 where
  pub order : Order
  pub there : peek pool ptr ≡ some order
  pub in_use : ptr.index < pool.next_free_index
  pub side_is : order.side ≡ s
  pub price_is : order.price ≡ p
  pub open_still : is_closed order.status ≡ false
  pub fillable : IsFillable order

-- No key stands before itself.
pub compare_irrefl : (s : OrderSide) (p : Price) → compare_of s p p ≡ false
compare_irrefl buy p = ground arith
compare_irrefl sell p = ground arith

pub in_buffer_of_peek :
    (pool : OrderPool) (ptr : OrderPtr) {o : Order}
    → peek pool ptr ≡ some o
    → ptr.buffer ≡ pool.orders.buffer
unfolding peek
in_buffer_of_peek pool ptr h = ground arith

-- Orders of two sides, or of two prices, have two pointers.
pub sides_differ :
    {pool : OrderPool} {s t : OrderSide} {p q : Price} {a b : OrderPtr}
    → RestsAt pool s p a
    → RestsAt pool t q b
    → s ≢ t
    → a ≢ b
sides_differ {pool} {a = a} ra rb ne e =
    let same : ra.order ≡ rb.order = ground (arith, ra.there, rb.there) in
    ne (sym ra.side_is ∙ ap (λ (o : Order). o.side) same ∙ rb.side_is)

pub prices_differ :
    {pool : OrderPool} {s t : OrderSide} {p q : Price} {a b : OrderPtr}
    → RestsAt pool s p a
    → RestsAt pool t q b
    → p ≢ q
    → a ≢ b
prices_differ {pool} {a = a} ra rb ne e =
    let same : ra.order ≡ rb.order = ground (arith, ra.there, rb.there) in
    ne (sym ra.price_is ∙ ap (λ (o : Order). o.price) same ∙ rb.price_is)

pub OrderPtr-discrete : Discrete OrderPtr
OrderPtr-discrete = hlevel ℕ_discrete

-- A write that keeps the id of the order keeps every id.
pub id_in-poke :
    (pool : OrderPool) (ptr : OrderPtr) {o : Order} (o' : Order)
    → peek pool ptr ≡ some o
    → o'.id ≡ o.id
    → id_in (poke pool ptr o') ≡ id_in pool
id_in-poke pool ptr {o} o' there same = fun_ext λ q. elim (OrderPtr-discrete ptr q) [
  | yes e ↦
      let now_there : peek (poke pool ptr o') q ≡ some o' =
        subst (λ r. peek (poke pool ptr o') r ≡ some o') e (peek-poke_self pool ptr o' there) in
      let was_there : peek pool q ≡ some o = subst (λ r. peek pool r ≡ some o) e there in
      ap id_or_zero now_there ∙ same ∙ ap id_or_zero (sym was_there)
  | no ne ↦ ap id_or_zero (peek-poke_ne pool ptr q o' ne (in_buffer_of_peek pool ptr there))
]

pub RestsAt-poke :
    {pool : OrderPool} {s : OrderSide} {p : Price} (ptr q : OrderPtr) {o : Order} (o' : Order)
    → peek pool ptr ≡ some o
    → ptr ≢ q
    → RestsAt pool s p q
    → RestsAt (poke pool ptr o') s p q
RestsAt-poke {pool} ptr q o' there ne r = record {
  order = r.order;
  there = peek-poke_ne pool ptr q o' ne (in_buffer_of_peek pool ptr there) ∙ r.there;
  in_use = subst (λ n. q.index < n) (sym (next_free-poke pool ptr o')) r.in_use;
  side_is = r.side_is;
  price_is = r.price_is;
  open_still = r.open_still;
  fillable = r.fillable;
}

module _ (id_of : OrderPtr → OrderId) where
  pub absent_ids :
      (k : ℕ) (es : List OrderEntry) (id : OrderId)
      → Pairs.find id (index_from id_of k es) ≡ none
      → All (λ q. id_of q ≢ id) (live es)
  unfolding Pairs.find
  absent_ids k [] id h = tt
  absent_ids k (e ∷ es) id h = elim (Bool-cases e.is_valid) [
    | inl v ↦ rw v ((λ same. ground arith), absent_ids (suc k) es id (ground arith))
    | inr v ↦ rw v (absent_ids (suc k) es id (ground arith))
  ]

  -- The orders in the queue of a tracked level are behind different pointers.
  pub queue_ptrs_differ :
      (k : ℕ) (es : List OrderEntry) (ptr : OrderPtr) (ps : List OrderPtr)
      → HasDistinctKeys (index_from id_of k es)
      → live es ≡ ptr ∷ ps
      → All (λ q. ptr ≢ q) ps
  queue_ptrs_differ k [] ptr ps d q = absurd (cc)
  queue_ptrs_differ k (e ∷ es) ptr ps d q = elim (Bool-cases e.is_valid) [
    | inl v ↦
        let first : e.order ≡ ptr = ground arith in
        let rest : live es ≡ ps = ground arith in
        let absent : Pairs.find (id_of e.order) (index_from id_of (suc k) es) ≡ none =
          (rw v at d).0 in
        subst (λ l. All (λ r. ptr ≢ r) l) rest
          (All-imp (live es) (λ r ne same. ne (ap id_of (sym same ∙ sym first)))
            (absent_ids (suc k) es (id_of e.order) absent))
    | inr v ↦ queue_ptrs_differ (suc k) es ptr ps (rw v at d) (ground arith)
  ]

module _ ⦃F : FlatMaps⦄ where
  -- A level of the book: it has orders, and all of them rest at its price on its side.
  pub record LevelOk (pool : OrderPool) (s : OrderSide) (p : Price) (l : PriceLevel) : Type 0 where
    pub valid : IsValid (id_in pool) l
    pub some_order : queue l ≢ []
    pub resting : All (RestsAt pool s p) (queue l)

  pub record SideOk (pool : OrderPool) (s : OrderSide) (m : SortedMap PriceLevel) : Type 0 where
    pub ordered : IsOrdered (compare_of s) m
    pub levels : All (λ e. LevelOk pool s e.0 e.1) m

  pub LevelOk-poke :
      {pool : OrderPool} {s : OrderSide} {p : Price} (ptr : OrderPtr) {o : Order} (o' : Order)
      (l : PriceLevel)
      → peek pool ptr ≡ some o
      → o'.id ≡ o.id
      → ((q : OrderPtr) → RestsAt pool s p q → ptr ≢ q)
      → LevelOk pool s p l
      → LevelOk (poke pool ptr o') s p l
  LevelOk-poke {pool} ptr o' l there same apart v = record {
    valid = subst (λ f. IsValid f l) (sym (id_in-poke pool ptr o' there same)) v.valid;
    some_order = v.some_order;
    resting = All-imp (queue l) (λ q r. RestsAt-poke ptr q o' there (apart q r) r) v.resting;
  }
