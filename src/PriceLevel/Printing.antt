-- ===== src/PriceLevel/Printing.antt =====
-- include/price_level_v2.h: `operator<<` of a price level.
use cpp_orderbook.Prelude.{
  List, [], ◌∷◌, ◌++◌, Bool, true, false, if◌then◌else◌, Outcome, ok, ◌>>=◌,
}
use cpp_orderbook.Texts.{Text, codes, Formats}
use cpp_orderbook.Order.Printing.{print_order}
use cpp_orderbook.OrderPool.{OrderPool, load}
use cpp_orderbook.FlatMap.{FlatMaps}
use cpp_orderbook.PriceLevel.{PriceLevel, OrderEntry}

-- What stands before an order.
abbrev pub arrow : Bool → Text
arrow first = if first then [] else codes "->"

-- The loop over the entries, with `first_order_entry`.
unfoldable pub print_entries : Formats → OrderPool → List OrderEntry → Bool → Outcome Text
print_entries formats pool [] first = ok []
print_entries formats pool (e ∷ es) first = elim e.is_valid [
  | false ↦ print_entries formats pool es first
  | true ↦ do
    o ← load pool e.order
    rest ← print_entries formats pool es false
    ok (arrow first ++ print_order formats o ++ rest)
]

unfoldable pub print_level : ⦃F : FlatMaps⦄ → Formats → OrderPool → PriceLevel → Outcome Text
print_level formats pool l = do
  orders ← print_entries formats pool l.order_entries true
  ok (codes "PriceLevel(" ++ orders ++ codes ")")
