-- ===== src/OrderBook/Printed.antt =====
-- The table that include/orderbook.h prints: all its lines are of one width.
use Prim.Native.String.{String}
use text.Mathlib.Text.{◌==◌ as ◌=ₛ◌}
use text.Mathlib.TextEquality.{eq_iff}
use cpp_orderbook.Prelude.{
  ℕ, zero, suc, ◌+◌, ◌≡◌, ◌≢◌, refl, sym, ◌∙◌, subst, inl, inr, List, [], ◌∷◌, ◌++◌, length, All,
  All-imp, length-replicate, max, add64, sub64, Bool-cases, false, ok, arith,
}
use cpp_orderbook.Core.{Price, Quantity}
use cpp_orderbook.Order.{Order, OrderSide}
use cpp_orderbook.OrderPool.{OrderPool, load}
use cpp_orderbook.OrderPool.Slots.{load-ok}
use cpp_orderbook.FlatMap.{FlatMaps}
use cpp_orderbook.SortedMap.{SortedMap}
use cpp_orderbook.PriceLevel
use cpp_orderbook.PriceLevel.{PriceLevel, OrderEntry, sum_qty}
use cpp_orderbook.PriceLevel.Index.{live}
use cpp_orderbook.PriceLevel.Valid.{queue}
use cpp_orderbook.OrderBook.Book.{OrderBook}
use cpp_orderbook.OrderBook.Resting.{LevelOk}
use cpp_orderbook.OrderBook.Round.{BookOk}
use cpp_orderbook.Texts.{Text, Formats}
use cpp_orderbook.OrderBook.Printing.{
  bar, Row, Columns, Table, headers, find_key, set_key, add_headers, get_default_header,
  row_to_string, default_columns, widen, set_cells, side_cells, level_row, behind, fill_rows,
  print_rows, add_rules, book_lines, join_lines, print_book,
}
use cpp_orderbook.OrderBook.Columns.{
  HasKey, keys_stay_set, sum_widths, sum_widths-widen, IsDistinct, Fits, Fits-widen, widen-Fits,
  widen-total, widen-HasKey, length-cells_to_string,
}

-- A quantity is summed up when every marked order can be read.
sum_qty_ok :
    (pool : OrderPool) (es : List OrderEntry) (qty : Quantity)
    → All (λ q. (o : Order) × (load pool q ≡ ok o)) (live es)
    → (total : Quantity) × (sum_qty pool es qty ≡ ok total)
unfolding sum_qty
sum_qty_ok pool [] qty h = (qty, refl)
sum_qty_ok pool (e ∷ es) qty h = elim (Bool-cases e.is_valid) [
  | inl v ↦
      let ((o, reads), rest) : ((o : Order) × (load pool e.order ≡ ok o))
          × All (λ q. (o : Order) × (load pool q ≡ ok o)) (live es) =
        rw v at h in
      let (total, runs) =
        sum_qty_ok pool es (add64 qty (sub64 o.quantity o.quantity_filled)) rest in
      (total, rw (v, reads) runs)
  | inr v ↦ let (total, runs) = sum_qty_ok pool es qty (rw v at h) in (total, rw v runs)
]

-- A row with a cell in every column.
abbrev IsFull : Row → Type 0
IsFull row = All (λ h. HasKey h row) headers

default_header-IsFull : IsFull (get_default_header headers)
unfolding get_default_header add_headers set_key find_key
default_header-IsFull =
    ((_, refl), ((_, refl), ((_, refl), ((_, refl), ((_, refl), ((_, refl), tt))))))

set_cells-IsFull :
    (orders qty price : String) (a b c : Text) (row : Row)
    → IsFull row
    → IsFull (set_cells orders qty price a b c row)
unfolding set_cells
set_cells-IsFull orders qty price a b c row h =
    keys_stay_set headers price c (set_key qty b (set_key orders a row))
      (keys_stay_set headers qty b (set_key orders a row) (keys_stay_set headers orders a row h))

other_key : {k h : String} → (k =ₛ h) ≡ false → k ≢ h
other_key {k} {h} differ e = ground (arith, eq_iff k h)

headers-IsDistinct : IsDistinct headers
headers-IsDistinct = (
  (other_key refl, (other_key refl, (other_key refl, (other_key refl, (other_key refl, tt))))),
  (
    (other_key refl, (other_key refl, (other_key refl, (other_key refl, tt)))),
    (
      (other_key refl, (other_key refl, (other_key refl, tt))),
      ((other_key refl, (other_key refl, tt)), ((other_key refl, tt), (tt, tt))),
    ),
  ),
)

-- The table as it is filled: every cell fits its column, and `total_col_size` is the columns' sum.
record Aligned (t : Table) : Type 0 where
  pub keyed : All (λ h. HasKey h t.columns) headers
  pub full : All IsFull t.rows
  pub fits : All (λ row. Fits headers row t.columns) t.rows
  pub summed : t.total_col_size ≡ sum_widths headers t.columns

-- The table of the header alone.
abbrev start_table : Table
start_table = record {
  rows = get_default_header headers ∷ [];
  columns = (default_columns headers [] 0).0;
  total_col_size = (default_columns headers [] 0).1;
}

start-Aligned : Aligned start_table
unfolding default_columns get_default_header add_headers set_key find_key
start-Aligned = record {
  keyed = ((_, refl), ((_, refl), ((_, refl), ((_, refl), ((_, refl), ((_, refl), tt))))));
  full = (default_header-IsFull, tt);
  fits = (
    (omega arith, (omega arith, (omega arith, (omega arith, (omega arith, (omega arith, tt)))))),
    tt,
  );
  summed = refl;
}

-- One more row, the columns widened for it.
abbrev with_row : Row → Table → Table
with_row row t = record {
  rows = t.rows ++ row ∷ [];
  columns = (widen headers row t.columns 0).0;
  total_col_size = max t.total_col_size (widen headers row t.columns 0).1;
}

All-last :
    {A : Type 0} (P : A → Type 0) (xs : List A) (a : A) → All P xs → P a → All P (xs ++ a ∷ [])
All-last P [] a h p = (p, tt)
All-last P (x ∷ xs) a h p = (h.0, All-last P xs a h.1 p)

with_row-Aligned : (row : Row) (t : Table) → IsFull row → Aligned t → Aligned (with_row row t)
with_row-Aligned row t full v = record {
  keyed = widen-HasKey row headers headers t.columns 0 v.keyed;
  full = All-last IsFull t.rows row v.full full;
  fits =
      All-last (λ r. Fits headers r (widen headers row t.columns 0).0) t.rows row
        (All-imp t.rows (λ r h. Fits-widen r row headers headers t.columns 0 h) v.fits)
        (widen-Fits row headers t.columns 0);
  summed = omega (
    arith,
    v.summed,
    widen-total row headers t.columns 0 headers-IsDistinct,
    sum_widths-widen row headers headers t.columns 0,
  );
}

abbrev pub HasWidth : ℕ → Text → Type 0
HasWidth n line = length line ≡ n

print_rows_lem :
    (rows : List Row) (columns : Columns)
    → All (λ h. HasKey h columns) headers
    → All IsFull rows
    → All (λ row. Fits headers row columns) rows
    → (lines : List Text) × (print_rows rows columns ≡ ok lines)
      × All (HasWidth (sum_widths headers columns + 20)) lines
unfolding print_rows row_to_string
print_rows_lem [] columns keyed full fits = ([], refl, tt)
print_rows_lem (row ∷ rows) columns keyed full fits =
    let (line, runs, size) = length-cells_to_string headers row columns bar full.0 keyed fits.0 in
    let (lines, rest, sizes) = print_rows_lem rows columns keyed full.1 fits.1 in
    (line ∷ lines, rw (runs, rest) refl, (size ∙ omega arith, sizes))

rules_lem :
    (i : ℕ) (lines : List Text) (n : ℕ)
    → All (HasWidth (n + 20)) lines
    → All (HasWidth (n + 20)) (add_rules i lines n)
unfolding add_rules
rules_lem i [] n h = tt
rules_lem i (line ∷ []) n h = (h.0, (length-replicate {A = ℕ} (n + 20) b'-', tt))
rules_lem zero (line ∷ next ∷ lines) n h =
    (h.0, (length-replicate {A = ℕ} (n + 20) b'-', rules_lem 1 (next ∷ lines) n h.1))
rules_lem (suc i) (line ∷ next ∷ lines) n h = (h.0, rules_lem (suc (suc i)) (next ∷ lines) n h.1)

module _ ⦃F : FlatMaps⦄ (formats : Formats) (pool : OrderPool) where
  -- Every level of a side can be summed up.
  abbrev CanSum : SortedMap PriceLevel → Type 0
  CanSum m = All (λ e. (total : Quantity) × (PriceLevel.total_qty pool e.1 ≡ ok total)) m

  behind_CanSum : (m : SortedMap PriceLevel) → CanSum m → CanSum (behind m)
  behind_CanSum [] h = tt
  behind_CanSum (e ∷ m) h = h.1

  side_cells_lem :
      (orders qty price : String) (m : SortedMap PriceLevel) (row : Row)
      → CanSum m
      → IsFull row
      → (row' : Row) × (side_cells formats pool orders qty price m row ≡ ok row') × IsFull row'
  unfolding side_cells
  side_cells_lem orders qty price [] row h full =
      (_, refl, set_cells-IsFull orders qty price [] [] [] row full)
  side_cells_lem orders qty price ((p, l) ∷ m) row h full =
      let (total, sums) = h.0 in
      let a = formats.to_string (PriceLevel.size l) in
      let b = formats.to_string total in
      let c = formats.price_to_string p in
      (
        set_cells orders qty price a b c row,
        rw sums refl,
        set_cells-IsFull orders qty price a b c row full,
      )

  level_row_lem :
      (bids asks : SortedMap PriceLevel)
      → CanSum bids
      → CanSum asks
      → (row : Row) × (level_row formats pool bids asks ≡ ok row) × IsFull row
  unfolding level_row
  level_row_lem bids asks hb ha =
      let (row, runs, full) =
        side_cells_lem "Bid Orders" "Bid Qty" "Bid Price" bids (get_default_header headers) hb
          default_header-IsFull in
      let (row', runs', full') =
        side_cells_lem "Ask Orders" "Ask Qty" "Ask Price" asks row ha full in
      (row', rw (runs, runs') refl, full')

  fill_rows_lem :
      (n : ℕ) (bids asks : SortedMap PriceLevel) (t : Table)
      → CanSum bids
      → CanSum asks
      → Aligned t
      → (t' : Table) × (fill_rows formats pool n bids asks t ≡ ok t') × Aligned t'
  unfolding fill_rows
  fill_rows_lem zero bids asks t hb ha v = (t, refl, v)
  fill_rows_lem (suc n) bids asks t hb ha v =
      let (row, runs, full) = level_row_lem bids asks hb ha in
      let (t', fills, v') =
        fill_rows_lem n (behind bids) (behind asks) (with_row row t) (behind_CanSum bids hb)
          (behind_CanSum asks ha) (with_row-Aligned row t full v) in
      (t', rw runs fills, v')

module _ ⦃F : FlatMaps⦄ where
  level_sums :
      {pool : OrderPool} {s : OrderSide} {p : Price} (l : PriceLevel)
      → LevelOk pool s p l
      → (total : Quantity) × (PriceLevel.total_qty pool l ≡ ok total)
  unfolding PriceLevel.total_qty
  level_sums {pool} l v =
      sum_qty_ok pool l.order_entries 0
        (All-imp (queue l) (λ q r. (r.order, load-ok pool q r.there)) v.resting)

  -- `operator<<` of a book whose orders rest, however numbers and prices are written: it returns, and
  -- all lines that it prints, rows and rules, are of one width.
  pub print_book-HasWidth :
      (formats : Formats) (b : OrderBook)
      → BookOk b
      → (lines : List Text) × (n : ℕ) × (print_book formats b ≡ ok (b'\n' ∷ join_lines lines))
        × (book_lines formats b.order_pool b ≡ ok lines)
        × All (HasWidth n) lines
  unfolding print_book book_lines
  print_book-HasWidth formats b v =
      let pool = b.order_pool in
      let (t, fills, aligned) =
        fill_rows_lem formats pool (max (length b.bids) (length b.asks)) b.bids b.asks start_table
          (All-imp b.bids (λ e l. level_sums e.1 l) v.bids_ok.levels)
          (All-imp b.asks (λ e l. level_sums e.1 l) v.asks_ok.levels) start-Aligned in
      let (lines, prints, sizes) =
        print_rows_lem t.rows t.columns aligned.keyed aligned.full aligned.fits in
      (
        add_rules 0 lines t.total_col_size,
        t.total_col_size + 20,
        rw (fills, prints) refl,
        rw (fills, prints) refl,
        rules_lem 0 lines t.total_col_size
            (subst (λ n. All (HasWidth (n + 20)) lines) (sym aligned.summed) sizes),
      )
