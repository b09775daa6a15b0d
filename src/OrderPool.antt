-- ===== src/OrderPool.antt =====
-- include/order_pool.h: the orders of one book, in a std::vector, handed out by pointer.
--
-- A vector keeps its elements in one buffer, of which it has a new one after each reallocation
-- (the buffers are numbered). A pointer remembers the buffer that it points into, and to use it
-- after that buffer is gone is undefined behaviour. `reserve` reallocates exactly when it is asked
-- for more than the capacity, and then gets what it asked for, as the standard libraries do.
pub mod Slots
pub mod Realloc
mod Tests
use cpp_orderbook.Prelude.{
  ℕ, zero, suc, ◌+◌, ◌*◌, max, List, [], ◌∷◌, ◌++◌, length, get_elem?, set, Bool, ltb, leb, ◌==◌,
  if◌then◌else◌, add64, Option, none, some, Outcome, ok, undefined, defined, ◌>>=◌,
}
use cpp_orderbook.Clock.{Clock}
use cpp_orderbook.Order.{Order, default_order}

pub record OrderVector : Type 0 where
  pub buffer : ℕ
  pub capacity : ℕ
  pub elements : List Order

-- `Order*`.
pub record OrderPtr : Type 0 where
  pub buffer : ℕ
  pub index : ℕ

pub record OrderPool : Type 0 where
  pub next_free_index : ℕ
  pub orders : OrderVector

-- `reserve(n)`.
unfoldable pub reserve : ℕ → OrderVector → OrderVector
reserve n v = if ltb v.capacity n then record v { buffer = suc v.buffer; capacity = n } else v

-- `emplace_back` at an order. A full vector moves to a buffer of twice the size.
unfoldable pub emplace_back : Order → OrderVector → OrderVector
emplace_back o v =
    if ltb (length v.elements) v.capacity
    then record v { elements = v.elements ++ o ∷ [] }
    else record {
      buffer = suc v.buffer;
      capacity = max 1 (2 * v.capacity);
      elements = v.elements ++ o ∷ [];
    }

-- `for (size_t i = 0; i < n; ++i) _orders.emplace_back()`: each default order reads the clock.
unfoldable pub emplace_defaults : ℕ → OrderVector → Clock → OrderVector × Clock
emplace_defaults zero v c = (v, c)
emplace_defaults (suc n) v c =
    let (o, c') = default_order c in emplace_defaults n (emplace_back o v) c'

-- `OrderPool(reserve_size)`.
unfoldable pub make_pool : ℕ → Clock → OrderPool × Clock
unfolding reserve emplace_back emplace_defaults default_order
make_pool reserve_size c =
    let empty : OrderVector = record { buffer = 0; capacity = 0; elements = [] } in
    let (v, c') = emplace_defaults reserve_size (reserve reserve_size empty) c in
    (record { next_free_index = 0; orders = v }, c')

unfoldable pub reserve_more : OrderPool → Clock → OrderPool × Clock
unfolding reserve emplace_back emplace_defaults default_order
reserve_more p c =
    let old_size = length p.orders.elements in
    let (v, c') = emplace_defaults old_size (reserve (old_size * 2) p.orders) c in
    (record p { orders = v }, c')

-- `&_orders[_next_free_index++]`: the address of an element that is not there is undefined.
take_slot : OrderPool × Clock → Outcome (OrderPtr × OrderPool × Clock)
take_slot (p, c) =
    if ltb p.next_free_index (length p.orders.elements)
    then ok (
      record { buffer = p.orders.buffer; index = p.next_free_index },
      record p { next_free_index = add64 p.next_free_index 1 },
      c,
    )
    else undefined

unfoldable pub allocate : OrderPool → Clock → Outcome (OrderPtr × OrderPool × Clock)
unfolding reserve_more take_slot
allocate p c =
    if leb (length p.orders.elements) p.next_free_index
    then take_slot (reserve_more p c)
    else take_slot (p, c)

-- Whether a pointer points into the buffer that the vector has now.
abbrev pub in_buffer : OrderPool → OrderPtr → Bool
in_buffer p ptr = ptr.buffer == p.orders.buffer

-- `*ptr`, read and written.
unfoldable pub peek : OrderPool → OrderPtr → Option Order
peek p ptr = if in_buffer p ptr then get_elem? p.orders.elements ptr.index else none

unfoldable pub load : OrderPool → OrderPtr → Outcome Order
unfolding peek
load p ptr = defined (peek p ptr)

unfoldable pub poke : OrderPool → OrderPtr → Order → OrderPool
poke p ptr o = record p {
  orders = record p.orders { elements = set p.orders.elements ptr.index o };
}

unfoldable pub store : OrderPool → OrderPtr → Order → Outcome OrderPool
unfolding load poke
store p ptr o = do _ ← load p ptr; ok (poke p ptr o)
