-- ===== src/OrderPool/Realloc.antt =====
-- What `reserve_more` of include/order_pool.h does to the pointers handed out before.
use cpp_orderbook.Prelude.{
  ℕ, zero, suc, ◌+◌, ◌*◌, ◌≤◌, ◌<◌, ◌≡◌, ◌≢◌, refl, length, ok, undefined, arith, get_elem?-lt,
  u64_mod, length-append, [], ◌∷◌,
}
use cpp_orderbook.Clock.{Clock}
use cpp_orderbook.Order.{default_order}
use cpp_orderbook.OrderPool.{
  OrderVector, OrderPool, OrderPtr, load, allocate, take_slot, reserve, reserve_more, emplace_back,
  emplace_defaults,
}

-- Emplacing within the capacity keeps the buffer and adds that many orders.
pub emplace_defaults_lem :
    (n : ℕ) (v : OrderVector) (c : Clock)
    → length v.elements + n ≤ v.capacity
    → let v' = (emplace_defaults n v c).0 in
      (v'.buffer ≡ v.buffer)
      × (v'.capacity ≡ v.capacity)
      × (length v'.elements ≡ length v.elements + n)
unfolding emplace_defaults emplace_back
emplace_defaults_lem zero v c h = (refl, refl, omega arith)
emplace_defaults_lem (suc n) v c h =
    let o = (default_order c).0 in
    ground (
      arith,
      length-append v.elements (o ∷ []),
      emplace_defaults_lem n (emplace_back o v) (default_order c).1,
    )

-- A vector that the pool has filled to its capacity, with at least one order in it.
pub record IsFull (p : OrderPool) : Type 0 where
  pub used_up : p.next_free_index ≡ length p.orders.elements
  pub filled : length p.orders.elements ≡ p.orders.capacity
  pub some_order : 0 < p.orders.capacity
  pub fits : p.orders.capacity * 2 < u64_mod

pub reserve_more_lem :
    (p : OrderPool) (c : Clock)
    → IsFull p
    → let p' = (reserve_more p c).0 in
      (p'.orders.buffer ≡ suc p.orders.buffer)
      × (length p'.orders.elements ≡ p.orders.capacity * 2)
      × (p'.orders.capacity ≡ p.orders.capacity * 2)
      × (p'.next_free_index ≡ p.next_free_index)
unfolding reserve_more reserve
reserve_more_lem p c v = ground (
  arith,
  emplace_defaults_lem (length p.orders.elements) (reserve (length p.orders.elements * 2) p.orders)
      c,
)

-- The outcome of `allocate` on a full pool, with every earlier pointer gone.
abbrev pub Invalidates : OrderPool → Clock → OrderPtr × OrderPool × Clock → Type 0
Invalidates p c r =
    (allocate p c ≡ ok r)
    × (load r.1 r.0 ≢ undefined)
    × ((old : OrderPtr) → old.buffer ≡ p.orders.buffer → load r.1 old ≡ undefined)

-- On a pool whose slots are all handed out `allocate` succeeds, and its growth moves the orders:
-- the new pointer is good, and every pointer handed out before is dangling, so that any later use
-- of it is undefined.
pub allocate-Invalidates :
    (p : OrderPool) (c : Clock) → IsFull p → (r : OrderPtr × OrderPool × Clock) × Invalidates p c r
unfolding allocate take_slot load
allocate-Invalidates p c v =
    let grown = reserve_more_lem p c v in
    let (o, there) =
      get_elem?-lt (reserve_more p c).0.orders.elements p.next_free_index
        (omega (arith, reserve_more_lem p c v)) in
    (
      (
        record { buffer = suc p.orders.buffer; index = p.next_free_index },
        record (reserve_more p c).0 { next_free_index = p.next_free_index + 1 },
        (reserve_more p c).1,
      ),
      (ground arith, λ e. ground arith, λ old h. ground arith),
    )
