-- ===== src/Order/Lifecycle.antt =====
-- The states of an order: what `match` and `cancel` of include/order.h do to `_status`.
use cpp_orderbook.Prelude.{◌≡◌, ◌↔◌, true, false, arith}
use cpp_orderbook.Clock.{Clock, now}
use cpp_orderbook.Order.{Order, cancelled, is_closed, cancel}

-- `cancel` succeeds exactly on an order that is neither filled nor cancelled; then the order is
-- CANCELLED at the time read from the clock and all else stays. Otherwise nothing changes, the
-- clock is not read, and so a second `cancel` always fails.
pub cancel_lem :
    (o : Order) (c : Clock)
    → ((cancel o c).0 ≡ true ↔ is_closed o.status ≡ false)
      × ((cancel o c).0 ≡ true
          → (cancel o c).1 ≡ record o { updated_time = (now c).0; status = cancelled })
      × ((cancel o c).0 ≡ false → ((cancel o c).1 ≡ o) × ((cancel o c).2 ≡ c))
      × ((d : Clock) → (cancel (cancel o c).1 d).0 ≡ false)
unfolding cancel
cancel_lem o c = (
  (ground arith, ground arith),
  λ h. ground arith,
  λ h. (ground arith, ground arith),
  λ d. ground arith,
)
