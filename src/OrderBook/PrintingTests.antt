-- ===== src/OrderBook/PrintingTests.antt =====
-- What include/orderbook.h prints of a book with one bid.
use cpp_orderbook.Prelude.{ℕ, ◌≡◌, refl, List, [], ◌∷◌, ok, replicate, All}
use cpp_orderbook.Texts.{Text, Formats, codes}
use cpp_orderbook.FlatMap.Listed.{listed, running_maps}
use cpp_orderbook.OrderPool.{load, peek}
use cpp_orderbook.PriceLevel
use cpp_orderbook.PriceLevel.{sum_qty}
use cpp_orderbook.OrderBook.Printing.{
  fill_rows, level_row, side_cells, print_rows, row_to_string, cells_to_string, find_key, widen,
  set_key, default_columns, get_default_header, add_headers, blanks, set_cells, add_rules,
  book_lines, join_lines, print_book,
}
use cpp_orderbook.OrderBook.Printed.{HasWidth, print_book-HasWidth}
use cpp_orderbook.OrderBook.SampleBooks.{bid_book, crossed_book, crossed_book-BookOk}

abbrev formats : Formats
formats = record {
  to_string = λ n. codes "1";
  price_to_string = λ p. codes "9.99";
  stream_price = λ p. codes "9.99";
  stream_time = λ t. codes "0";
}

one_bid :
    book_lines formats bid_book.order_pool bid_book
    ≡ ok (
        codes "| Bid Orders | Bid Qty | Bid Price || Ask Price | Ask Qty | Ask Orders |"
        ∷ replicate 72 b'-'
        ∷ codes "|     1      |    1    |   9.99    ||           |         |            |"
        ∷ replicate 72 b'-'
        ∷ [])
unfolding running_maps load book_lines fill_rows level_row side_cells PriceLevel.total_qty sum_qty
    print_rows row_to_string cells_to_string find_key widen set_key default_columns
    get_default_header add_headers blanks set_cells add_rules peek PriceLevel.size
one_bid = refl

print_book-HasWidth_example :
    (lines : List Text) × (n : ℕ) × (print_book formats crossed_book
      ≡ ok (b'\n' ∷ join_lines lines))
    × (book_lines formats crossed_book.order_pool crossed_book ≡ ok lines)
    × All (HasWidth n) lines
print_book-HasWidth_example = print_book-HasWidth formats crossed_book crossed_book-BookOk
