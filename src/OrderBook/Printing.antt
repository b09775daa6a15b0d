-- ===== src/OrderBook/Printing.antt =====
-- include/orderbook.h: `operator<<` of the book, a table with a row for each pair of levels.
use Prim.Native.String.{String}
use text.Mathlib.Text.{◌==◌ as ◌=ₛ◌}
use cpp_orderbook.Prelude.{
  ℕ, zero, suc, ◌+◌, ◌-◌, ◌/◌, max, leb, List, [], ◌∷◌, ◌++◌, length, replicate, Option, none, some,
  Outcome, ok, throws, ◌>>=◌, if◌then◌else◌,
}
use cpp_orderbook.Texts.{Text, codes, Formats}
use cpp_orderbook.OrderPool.{OrderPool}
use cpp_orderbook.FlatMap.{FlatMaps}
use cpp_orderbook.SortedMap.{SortedMap}
use cpp_orderbook.PriceLevel
use cpp_orderbook.PriceLevel.{PriceLevel}
use cpp_orderbook.OrderBook.Book.{OrderBook}

-- std::unordered_map<std::string, V>; its order is not read.
module _ {ℓ} {V : Type ℓ} where
  unfoldable pub find_key : String → List (String × V) → Option V
  find_key k [] = none
  find_key k ((j, v) ∷ m) = if j =ₛ k then some v else find_key k m

  -- `m[k] = v`.
  unfoldable pub set_key : String → V → List (String × V) → List (String × V)
  set_key k v [] = (k, v) ∷ []
  set_key k v ((j, w) ∷ m) = if j =ₛ k then (j, v) ∷ m else (j, w) ∷ set_key k v m

-- `m[k]`, of a key that may be missing, and `m.at(k)`.
abbrev pub or_else {ℓ} : {V : Type ℓ} → V → Option V → V
or_else d none = d
or_else d (some v) = v

abbrev pub at_key {ℓ} : {V : Type ℓ} → Option V → Outcome V
at_key none = throws
at_key (some v) = ok v

abbrev pub Row : Type 0
Row = List (String × Text)

abbrev pub Columns : Type 0
Columns = List (String × ℕ)

abbrev pub cell : String → Row → Text
cell h row = or_else [] (find_key h row)

abbrev pub width : String → Columns → ℕ
width h columns = or_else 0 (find_key h columns)

abbrev pub headers : List String
headers = "Bid Orders" ∷ "Bid Qty" ∷ "Bid Price" ∷ "Ask Price" ∷ "Ask Qty" ∷ "Ask Orders" ∷ []

-- The loop of `get_default_header`, and the function.
unfoldable pub add_headers : List String → Row → Row
add_headers [] row = row
add_headers (h ∷ hs) row = add_headers hs (set_key h (codes h) row)

unfoldable pub get_default_header : List String → Row
get_default_header hs = add_headers hs []

-- The blanks to the left and right of a cell. A cell that is too wide by one or two characters still
-- gets a number of blanks; a negative number of them is a `std::length_error`.
unfoldable pub blanks : ℕ → ℕ → Outcome (ℕ × ℕ)
blanks total_space size =
    if leb size total_space
    then ok
        ((total_space - size) / 2 + 1, (total_space - size) + 2 - ((total_space - size) / 2 + 1))
    else elim (size - total_space) [
      | zero ↦ throws
      | suc zero ↦ ok (1, 0)
      | suc (suc zero) ↦ ok (0, 0)
      | suc (suc (suc _)) ↦ throws
    ]

abbrev pub bar : Text
bar = codes "|"

abbrev pub separator : String → Text
separator h = if h =ₛ "Ask Price" then bar else []

-- The loop of `row_to_string`, and the function.
unfoldable pub cells_to_string : List String → Row → Columns → Text → Outcome Text
cells_to_string [] row columns printable = ok printable
cells_to_string (h ∷ hs) row columns printable = do
  total_space ← at_key (find_key h columns)
  content ← at_key (find_key h row)
  (left, right) ← blanks total_space (length content)
  cells_to_string hs row columns
      (printable ++ separator h ++ replicate left b' ' ++ content ++ replicate right b' ' ++ bar)

unfoldable pub row_to_string : List String → Row → Columns → Outcome Text
row_to_string hs row columns = cells_to_string hs row columns bar

-- The first loop, over the headers: the default width of the columns, and their sum.
unfoldable pub default_columns : List String → Columns → ℕ → Columns × ℕ
default_columns [] columns total = (columns, total)
default_columns (h ∷ hs) columns total =
    default_columns hs (set_key h (length (codes h)) columns) (total + length (codes h))

-- The loop over the headers for one row: the columns get as wide as its cells.
unfoldable pub widen : List String → Row → Columns → ℕ → Columns × ℕ
widen [] row columns temp_total = (columns, temp_total)
widen (h ∷ hs) row columns temp_total =
    let size = max (width h columns) (length (cell h row)) in
    widen hs row (set_key h size columns) (temp_total + size)

-- The cells of one side of a row: of the level that the iterator points to, or blank at the end.
unfoldable pub set_cells : String → String → String → Text → Text → Text → Row → Row
set_cells orders qty price orders_text qty_text price_text row =
    set_key price price_text (set_key qty qty_text (set_key orders orders_text row))

-- What the loop over the rows fills: the rows so far, the columns, and `total_col_size`.
pub record Table : Type 0 where
  pub rows : List Row
  pub columns : Columns
  pub total_col_size : ℕ

-- The loop over the rows that prints them.
unfoldable pub print_rows : List Row → Columns → Outcome (List Text)
print_rows [] columns = ok []
print_rows (row ∷ rows) columns = do
  printable ← row_to_string headers row columns
  printables ← print_rows rows columns
  ok (printable ∷ printables)

-- The lines of the table: the rows, with a rule behind the first and behind the last.
abbrev pub rule : ℕ → Text
rule total_col_size = replicate (total_col_size + 20) b'-'

unfoldable pub add_rules : ℕ → List Text → ℕ → List Text
add_rules i [] total_col_size = []
add_rules i (printable ∷ []) total_col_size = printable ∷ rule total_col_size ∷ []
add_rules zero (printable ∷ rest) total_col_size =
    printable ∷ rule total_col_size ∷ add_rules 1 rest total_col_size
add_rules (suc i) (printable ∷ rest) total_col_size =
    printable ∷ add_rules (suc (suc i)) rest total_col_size

-- `++it`, where the iterator is not at the end.
abbrev pub behind {ℓ} : {V : Type ℓ} → SortedMap V → SortedMap V
behind [] = []
behind (_ ∷ m) = m

module _ ⦃F : FlatMaps⦄ (formats : Formats) (pool : OrderPool) where
  unfoldable pub side_cells : String → String → String → SortedMap PriceLevel → Row → Outcome Row
  side_cells orders qty price [] row = ok (set_cells orders qty price [] [] [] row)
  side_cells orders qty price ((p, level) ∷ _) row = do
    total_qty ← PriceLevel.total_qty pool level
    ok (
        set_cells orders qty price (formats.to_string (PriceLevel.size level))
          (formats.to_string total_qty) (formats.price_to_string p) row)

  unfoldable pub level_row : SortedMap PriceLevel → SortedMap PriceLevel → Outcome Row
  level_row bids asks = do
    row ← side_cells "Bid Orders" "Bid Qty" "Bid Price" bids (get_default_header headers)
    side_cells "Ask Orders" "Ask Qty" "Ask Price" asks row

  unfoldable pub fill_rows : ℕ → SortedMap PriceLevel → SortedMap PriceLevel → Table → Outcome Table
  fill_rows zero bids asks t = ok t
  fill_rows (suc n) bids asks t = do
    row ← level_row bids asks
    let (columns, temp_total) = widen headers row t.columns 0
    fill_rows n (behind bids) (behind asks) (record {
      rows = t.rows ++ row ∷ [];
      columns = columns;
      total_col_size = max t.total_col_size temp_total;
    })

  unfoldable pub book_lines : OrderBook → Outcome (List Text)
  book_lines b =
      let (columns, total) = default_columns headers [] 0 in
      fill_rows (max (length b.bids) (length b.asks)) b.bids b.asks (record {
        rows = get_default_header headers ∷ [];
        columns = columns;
        total_col_size = total;
      })
      >>= λ t.
          print_rows t.rows t.columns >>= λ printables. ok (add_rules 0 printables t.total_col_size)

-- Each line with its end.
unfoldable pub join_lines : List Text → Text
join_lines [] = []
join_lines (line ∷ lines) = line ++ b'\n' ∷ join_lines lines

-- What `operator<<` puts into the stream.
unfoldable pub print_book : ⦃F : FlatMaps⦄ → Formats → OrderBook → Outcome Text
print_book formats b = book_lines formats b.order_pool b >>= λ lines. ok (b'\n' ∷ join_lines lines)
