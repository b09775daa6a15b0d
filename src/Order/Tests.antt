-- ===== src/Order/Tests.antt =====
-- Orders at concrete inputs.
use cpp_orderbook.Prelude.{◌≡◌, ◌↔◌, ◌<◌, refl, ◌+◌, ok, throws, true, false, arith}
use cpp_orderbook.Core.{price_of}
use cpp_orderbook.Clock.{Clock, now}
use cpp_orderbook.Order.{Order, buy, fresh, cancelled, is_closed, match, cancel, get_updated_time}
use cpp_orderbook.Order.Fill.{filled_by, match_lem, match-throws_iff}
use cpp_orderbook.Order.Lifecycle.{cancel_lem}

abbrev from_seven : Clock
from_seven = record { reading = λ n. n + 7; reads = 0 }

abbrev bid : Order
bid = record {
  instrument = "SPY";
  side = buy;
  price = price_of 100;
  quantity = 300;
  id = 1;
  quantity_filled = 0;
  status = fresh;
  time_submitted = 3;
  updated_time = 3;
}

abbrev bid_filled : Order
bid_filled = filled_by bid 100 from_seven

match_lem_example : match bid 100 from_seven ≡ ok (bid_filled, (now from_seven).1)
match_lem_example = match_lem bid 100 from_seven (omega arith) (omega arith)

match-throws_iff_example : (match bid 301 from_seven ≡ throws) ↔ (300 < 301)
match-throws_iff_example = match-throws_iff bid 301 from_seven (omega arith) (omega arith)

cancel_lem_example :
    ((cancel bid from_seven).0 ≡ true ↔ is_closed bid.status ≡ false)
    × ((cancel bid from_seven).0 ≡ true
        → (cancel bid from_seven).1 ≡ record bid { updated_time = 7; status = cancelled })
    × ((cancel bid from_seven).0 ≡ false
        → ((cancel bid from_seven).1 ≡ bid) × ((cancel bid from_seven).2 ≡ from_seven))
    × ((d : Clock) → (cancel (cancel bid from_seven).1 d).0 ≡ false)
cancel_lem_example = cancel_lem bid from_seven

-- `get_updated_time` of an order that was cancelled at time 7 and submitted at time 3.
updated_time_is_submitted : get_updated_time (cancel bid from_seven).1 ≡ 3
unfolding get_updated_time cancel
updated_time_is_submitted = refl
