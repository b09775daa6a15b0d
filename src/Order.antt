-- ===== src/Order.antt =====
-- include/order.h: `Order`, its constructors and methods, and `OrderCommand`.
-- A method that writes the order returns the new one; one that reads the clock returns the clock.
-- A moved-from instrument is unspecified and never read again, so moves are copies here.
pub mod Fill
pub mod Lifecycle
pub mod Printing
mod Tests
use Prim.Native.String.{String}
use cpp_orderbook.Prelude.{
  ℕ, Bool, true, false, ltb, ◌==◌, if◌then◌else◌, add64, Outcome, ok, throws,
}
use cpp_orderbook.Prelude.Int.{pos}
use cpp_orderbook.Core.{OrderId, Quantity, Price, default_order_id}
use cpp_orderbook.Clock.{Clock, now}

pub data OrderSide : Type 0 where
  buy sell : OrderSide

pub data OrderStatus : Type 0 where
  fresh partially_filled fully_filled cancelled : OrderStatus

pub record Order : Type 0 where
  pub instrument : String
  pub side : OrderSide
  pub price : Price
  pub quantity : Quantity
  pub id : OrderId
  pub quantity_filled : Quantity
  pub status : OrderStatus
  pub time_submitted : ℕ
  pub updated_time : ℕ

-- `Order()`.
unfoldable pub default_order : Clock → Order × Clock
default_order c =
    let (t, c') = now c in
    (
      record {
        instrument = "";
        side = buy;
        price = pos 0;
        quantity = 0;
        id = default_order_id;
        quantity_filled = 0;
        status = fresh;
        time_submitted = t;
        updated_time = t;
      },
      c',
    )

-- `Order(instrument)`.
unfoldable pub instrument_order : String → Clock → Order × Clock
instrument_order name c =
    let (t, c') = now c in
    (
      record {
        instrument = name;
        side = buy;
        price = pos 0;
        quantity = 0;
        id = default_order_id;
        quantity_filled = 0;
        status = fresh;
        time_submitted = t;
        updated_time = t;
      },
      c',
    )

-- `Order(instrument, side, price, quantity)`, what a client submits.
unfoldable pub client_order : String → OrderSide → Price → Quantity → Clock → Order × Clock
client_order name s p q c =
    let (t, c') = now c in
    (
      record {
        instrument = name;
        side = s;
        price = p;
        quantity = q;
        id = default_order_id;
        quantity_filled = 0;
        status = fresh;
        time_submitted = t;
        updated_time = t;
      },
      c',
    )

-- `Order(client_order, allocated_id)`.
unfoldable pub exchange_order : Order → OrderId → Order
exchange_order o allocated = record o { id = allocated; quantity_filled = 0; status = fresh }

-- `copy_from_client` on the slot `o`: fill and status stay the slot's own, and so do the times.
unfoldable pub copy_from_client : Order → Order → OrderId → Order
copy_from_client o client allocated = record o {
  instrument = client.instrument;
  side = client.side;
  price = client.price;
  quantity = client.quantity;
  id = allocated;
}

-- `match`: the sum of the guard wraps, as the source's does.
unfoldable pub match : Order → Quantity → Clock → Outcome (Order × Clock)
match o fill_qty c =
    let filled = add64 o.quantity_filled fill_qty in
    let (t, c') = now c in
    if ltb o.quantity filled
    then throws
    else if filled == o.quantity
    then ok (record o { quantity_filled = filled; updated_time = t; status = fully_filled }, c')
    else ok (record o { quantity_filled = filled; updated_time = t; status = partially_filled }, c')

-- The tests on the status, which the source writes as comparisons.
abbrev pub is_fully_filled : OrderStatus → Bool
is_fully_filled fully_filled = true
is_fully_filled _ = false

abbrev pub is_closed : OrderStatus → Bool
is_closed fully_filled = true
is_closed cancelled = true
is_closed _ = false

unfoldable pub cancel : Order → Clock → Bool × Order × Clock
cancel o c =
    let (t, c') = now c in
    if is_closed o.status
    then (false, o, c)
    else (true, record o { updated_time = t; status = cancelled }, c')

unfoldable pub set_price : Order → Price → Clock → Order × Clock
set_price o new_price c =
    let (t, c') = now c in (record o { updated_time = t; price = new_price }, c')

unfoldable pub set_quantity : Order → Quantity → Order
set_quantity o qty = record o { quantity = qty }

unfoldable pub get_time_submitted : Order → ℕ
get_time_submitted o = o.time_submitted

-- `get_updated_time` returns the field `_time_submitted`.
unfoldable pub get_updated_time : Order → ℕ
get_updated_time o = o.time_submitted

-- `OrderCommand`, and its default, an `ADD` of a default order.
pub data CommandType : Type 0 where
  add modify cancels shutdown : CommandType

pub record OrderCommand : Type 0 where
  pub type : CommandType
  pub order : Order

unfoldable pub default_command : Clock → OrderCommand × Clock
unfolding default_order
default_command c = let (o, c') = default_order c in (record { type = add; order = o }, c')
