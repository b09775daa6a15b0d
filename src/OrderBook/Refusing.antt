-- ===== src/OrderBook/Refusing.antt =====
-- `modify_order` of include/orderbook.h where it refuses.
use cpp_orderbook.Prelude.{
  ◌≤◌, ◌≡◌, refl, ◌∙◌, ◌⊎◌, inl, inr, true, false, none, some, ok, arith, Bool-cases,
}
use cpp_orderbook.Prelude.Int
use cpp_orderbook.Prelude.Int.{pos}
use cpp_orderbook.Core.{OrderId, Price, Quantity}
use cpp_orderbook.Clock.{Clock}
use cpp_orderbook.Order.{Order, OrderSide, is_closed}
use cpp_orderbook.OrderPool.{OrderPtr, peek}
use cpp_orderbook.OrderPool.Slots.{load-ok}
use cpp_orderbook.FlatMap
use cpp_orderbook.FlatMap.{FlatMaps}
use cpp_orderbook.OrderBook.Book.{OrderBook}
use cpp_orderbook.OrderBook.Modifying.{
  validate_modify_order, modify_order_dispatcher, modify_registered, modify_order,
}

validate_refuses :
    (o : Order) (p : Price) (q : Quantity)
    → (Int.leb p (pos 0) ≡ true) ⊎ (q ≤ o.quantity_filled)
    → validate_modify_order o p q ≡ false
unfolding validate_modify_order
validate_refuses o p q h = elim h [ inl low ↦ ground arith | inr filled ↦ ground arith ]

module _ ⦃F : FlatMaps⦄ where
  unknown_refused :
      (id : OrderId) (p : Price) (q : Quantity) (b : OrderBook) (c : Clock)
      → FlatMap.find id b.order_registry ≡ none
      → modify_order id p q b c ≡ ok (false, b, c)
  unfolding modify_order
  unknown_refused id p q b c h = rw (modify_order, h) refl

  closed_refused :
      (id : OrderId) (p : Price) (q : Quantity) (b : OrderBook) (c : Clock) (ptr : OrderPtr)
      (o : Order)
      → FlatMap.find id b.order_registry ≡ some ptr
      → peek b.order_pool ptr ≡ some o
      → is_closed o.status ≡ true
      → modify_order id p q b c ≡ ok (false, b, c)
  unfolding modify_order modify_registered
  closed_refused id p q b c ptr o registered there closed =
      rw (modify_order, registered, load-ok b.order_pool ptr there, closed) refl

  pub open_dispatched :
      (id : OrderId) (p : Price) (q : Quantity) (b : OrderBook) (c : Clock) (ptr : OrderPtr)
      (o : Order)
      → FlatMap.find id b.order_registry ≡ some ptr
      → peek b.order_pool ptr ≡ some o
      → is_closed o.status ≡ false
      → modify_order id p q b c ≡ modify_order_dispatcher o.side ptr p q b c
  unfolding modify_order modify_registered
  open_dispatched id p q b c ptr o registered there is_open =
      rw (modify_order, registered, load-ok b.order_pool ptr there, is_open) refl

  invalid_refused :
      (s : OrderSide) (p : Price) (q : Quantity) (b : OrderBook) (c : Clock) (ptr : OrderPtr)
      (o : Order)
      → peek b.order_pool ptr ≡ some o
      → validate_modify_order o p q ≡ false
      → modify_order_dispatcher s ptr p q b c ≡ ok (false, b, c)
  unfolding modify_order_dispatcher
  invalid_refused s p q b c ptr o there bad = rw (load-ok b.order_pool ptr there, bad) refl

  -- `modify_order` of an id that the registry does not have, or whose order is filled or cancelled,
  -- or to a price that is not positive, or to a quantity that is filled already, returns false,
  -- changes nothing and does not read the clock.
  pub modify_order_refuses :
      (id : OrderId) (p : Price) (q : Quantity) (b : OrderBook) (c : Clock)
      → (FlatMap.find id b.order_registry ≡ none)
        ⊎ ((ptr : OrderPtr) × (o : Order) × (FlatMap.find id b.order_registry ≡ some ptr)
            × (peek b.order_pool ptr ≡ some o)
            × ((is_closed o.status ≡ true)
                ⊎ ((Int.leb p (pos 0) ≡ true) ⊎ (q ≤ o.quantity_filled))))
      → modify_order id p q b c ≡ ok (false, b, c)
  modify_order_refuses id p q b c h = elim h [
    | inl unknown ↦ unknown_refused id p q b c unknown
    | inr (ptr, o, registered, there, why) ↦ elim (Bool-cases (is_closed o.status)) [
      | inl closed ↦ closed_refused id p q b c ptr o registered there closed
      | inr is_open ↦
          open_dispatched id p q b c ptr o registered there is_open
          ∙ invalid_refused o.side p q b c ptr o there
              (elim why [ inl closed ↦ absurd (cc) | inr bad ↦ validate_refuses o p q bad ])
    ]
  ]
