-- ===== src/FirstPriceLevel/Printing.antt =====
-- include/price_level.h: `operator<<` of a price level, and that it prints what that of
-- include/price_level_v2.h does.
use cpp_orderbook.Prelude.{
  ◌≡◌, refl, sym, ap, ◌∙◌, inl, inr, List, [], ◌∷◌, ◌++◌, Bool, true, false, Bool-cases, Outcome,
  ok, ◌>>=◌,
}
use cpp_orderbook.Texts.{Text, codes, Formats}
use cpp_orderbook.Core.{OrderId}
use cpp_orderbook.Order.Printing.{print_order}
use cpp_orderbook.OrderPool.{OrderPool, OrderPtr, load}
use cpp_orderbook.FlatMap.{FlatMaps}
use cpp_orderbook.PriceLevel.{PriceLevel, OrderEntry}
use cpp_orderbook.PriceLevel.Index.{live}
use cpp_orderbook.PriceLevel.Printing.{arrow, print_entries, print_level}
use cpp_orderbook.FirstPriceLevel.{Node, FirstPriceLevel}
use cpp_orderbook.FirstPriceLevel.Nodes.{orders_of}
use cpp_orderbook.FirstPriceLevel.Same.{SameQueue}

-- The loop over the list; `first` is whether the iterator is at the beginning.
unfoldable pub print_nodes : Formats → OrderPool → List Node → Bool → Outcome Text
print_nodes formats pool [] first = ok []
print_nodes formats pool (n ∷ ns) first = do
  o ← load pool n.order
  rest ← print_nodes formats pool ns false
  ok (arrow first ++ print_order formats o ++ rest)

unfoldable pub print_first_level :
    ⦃F : FlatMaps⦄ → Formats → OrderPool → FirstPriceLevel → Outcome Text
print_first_level formats pool l = do
  orders ← print_nodes formats pool l.orders_list true
  ok (codes "PriceLevel(" ++ orders ++ codes ")")

module _ (formats : Formats) (pool : OrderPool) where
  -- What both print: the orders of a queue, one after the other.
  print_queue : List OrderPtr → Bool → Outcome Text
  print_queue [] first = ok []
  print_queue (q ∷ qs) first = do
    o ← load pool q
    rest ← print_queue qs false
    ok (arrow first ++ print_order formats o ++ rest)

  nodes_print_queue :
      (ns : List Node) (first : Bool)
      → print_nodes formats pool ns first ≡ print_queue (orders_of ns) first
  unfolding print_nodes print_queue
  nodes_print_queue [] first = refl
  nodes_print_queue (n ∷ ns) first = rw (nodes_print_queue ns false) refl

  entries_print_queue :
      (es : List OrderEntry) (first : Bool)
      → print_entries formats pool es first ≡ print_queue (live es) first
  unfolding print_entries print_queue
  entries_print_queue [] first = refl
  entries_print_queue (e ∷ es) first = elim (Bool-cases e.is_valid) [
    | inl v ↦ rw (v, entries_print_queue es false) refl
    | inr v ↦ rw v (entries_print_queue es first)
  ]

-- Two levels with the same queue are printed as the same text, or fail to be alike, however numbers,
-- prices and times are written.
pub print-SameQueue :
    ⦃F : FlatMaps⦄
    → (id_of : OrderPtr → OrderId) (formats : Formats) (pool : OrderPool) (f : FirstPriceLevel)
      (l : PriceLevel)
    → SameQueue id_of f l
    → print_first_level formats pool f ≡ print_level formats pool l
unfolding print_first_level print_level
print-SameQueue id_of formats pool f l h =
    ap (λ t. t >>= λ (orders : Text). ok (codes "PriceLevel(" ++ orders ++ codes ")"))
      (nodes_print_queue formats pool f.orders_list true
        ∙ ap (λ qs. print_queue formats pool qs true) h.same
        ∙ sym (entries_print_queue formats pool l.order_entries true))
