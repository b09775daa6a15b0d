-- ===== src/OrderPool/Slots.antt =====
-- Reads and writes through order pointers of include/order_pool.h, and what `allocate` hands out
-- while the pool has room.
use cpp_orderbook.Prelude.{
  ◌+◌, ◌<◌, ◌≡◌, ◌≢◌, refl, length, some, ok, arith, get_elem?-set_self, get_elem?-set_ne,
  lt-length, u64_mod,
}
use cpp_orderbook.Clock.{Clock}
use cpp_orderbook.Order.{Order}
use cpp_orderbook.OrderPool.{OrderPool, OrderPtr, peek, poke, load, store, allocate}

-- Reading a slot of the pool returns what it holds.
pub load-ok : (p : OrderPool) (ptr : OrderPtr) {o : Order} → peek p ptr ≡ some o → load p ptr ≡ ok o
unfolding load
load-ok p ptr h = rw h

pub load-peek :
    (p : OrderPool) (ptr : OrderPtr) {o : Order} → load p ptr ≡ ok o → peek p ptr ≡ some o
unfolding load
load-peek p ptr h = ground arith

pub store-ok :
    (p : OrderPool) (ptr : OrderPtr) (o : Order) {old : Order}
    → peek p ptr ≡ some old
    → store p ptr o ≡ ok (poke p ptr o)
unfolding store
store-ok p ptr o h = rw h

pub peek-poke_self :
    (p : OrderPool) (ptr : OrderPtr) (o : Order) {old : Order}
    → peek p ptr ≡ some old
    → peek (poke p ptr o) ptr ≡ some o
unfolding peek poke
peek-poke_self p ptr o {old} h = ground (
  arith,
  get_elem?-set_self p.orders.elements ptr.index o,
  lt-length p.orders.elements ptr.index {x = old},
)

pub peek-poke_ne :
    (p : OrderPool) (ptr other : OrderPtr) (o : Order)
    → ptr ≢ other
    → ptr.buffer ≡ p.orders.buffer
    → peek (poke p ptr o) other ≡ peek p other
unfolding peek poke
peek-poke_ne p ptr other o h b =
    ground (arith, get_elem?-set_ne p.orders.elements ptr.index other.index o)

-- A write hands out no slot.
pub next_free-poke :
    (p : OrderPool) (ptr : OrderPtr) (o : Order)
    → (poke p ptr o).next_free_index ≡ p.next_free_index
unfolding poke
next_free-poke p ptr o = refl

-- The pool has a slot left, and its sizes fit a `size_t`.
pub record HasRoom (p : OrderPool) : Type 0 where
  pub room : p.next_free_index < length p.orders.elements
  pub fits : length p.orders.elements < u64_mod

-- While a slot is left, `allocate` returns the next one: it moves no order, changes no order, and
-- uses up exactly one slot.
pub allocate_lem :
    (p : OrderPool) (c : Clock)
    → HasRoom p
    → allocate p c
      ≡ ok (
        record { buffer = p.orders.buffer; index = p.next_free_index },
        record p { next_free_index = p.next_free_index + 1 },
        c,
      )
unfolding allocate
allocate_lem p c h = ground arith
