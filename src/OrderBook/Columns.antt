-- ===== src/OrderBook/Columns.antt =====
-- The columns of the table that include/orderbook.h prints: they get as wide as every cell.
use Prim.Native.String.{String}
use text.Mathlib.Text.{◌==◌ as ◌=ₛ◌}
use text.Mathlib.TextEquality.{eq_iff}
use cpp_orderbook.Prelude.{
  ℕ, ◌+◌, ◌-◌, ◌/◌, leb, ◌≤◌, ◌≡◌, ◌≢◌, refl, ap, ◌∙◌, subst, inl, inr, List, [], ◌∷◌, ◌++◌, length,
  All, length-append, length-replicate, replicate, max, Bool-cases, true, some, ok, arith,
}
use cpp_orderbook.Texts.{Text}
use cpp_orderbook.OrderBook.Printing.{
  Row, Columns, find_key, set_key, or_else, cell, width, widen, blanks, separator, bar,
  cells_to_string,
}

module _ {V : Type 0} where
  pub find_key-set_self :
      (k : String) (v : V) (m : List (String × V)) → find_key k (set_key k v m) ≡ some v
  unfolding find_key set_key
  find_key-set_self k v [] = ground (arith, eq_iff k k)
  find_key-set_self k v ((j, w) ∷ m) = ground (arith, eq_iff j k, find_key-set_self k v m)

  pub find_key-set_ne :
      (k j : String) (v : V) (m : List (String × V))
      → k ≢ j
      → find_key j (set_key k v m) ≡ find_key j m
  unfolding find_key set_key
  find_key-set_ne k j v [] ne = ground (arith, eq_iff k j)
  find_key-set_ne k j v ((i, w) ∷ m) ne =
      ground (arith, eq_iff i k, eq_iff i j, find_key-set_ne k j v m ne)

  -- A key is there.
  abbrev pub HasKey : String → List (String × V) → Type 0
  HasKey k m = (v : V) × (find_key k m ≡ some v)

  pub HasKey-set :
      (k j : String) (v : V) (m : List (String × V)) → HasKey j m → HasKey j (set_key k v m)
  HasKey-set k j v m (w, at) = elim (Bool-cases (k =ₛ j)) [
    | inl same ↦ (
      v,
      subst (λ i. find_key i (set_key k v m) ≡ some v) ((eq_iff k j).0 same)
          (find_key-set_self k v m),
    )
    | inr other ↦ (w, find_key-set_ne k j v m (λ e. ground (arith, eq_iff k j)) ∙ at)
  ]

  pub keys_stay_set :
      (hs : List String) (k : String) (v : V) (m : List (String × V))
      → All (λ h. HasKey h m) hs
      → All (λ h. HasKey h (set_key k v m)) hs
  keys_stay_set [] k v m h = tt
  keys_stay_set (j ∷ hs) k v m h = (HasKey-set k j v m h.0, keys_stay_set hs k v m h.1)

-- All columns together.
abbrev pub sum_widths : List String → Columns → ℕ
sum_widths [] columns = 0
sum_widths (h ∷ hs) columns = width h columns + sum_widths hs columns

abbrev pub IsDistinct : List String → Type 0
IsDistinct [] = Unit {0}
IsDistinct (h ∷ hs) = All (λ k. k ≢ h) hs × IsDistinct hs

-- The cells of a row fit.
abbrev pub Fits : List String → Row → Columns → Type 0
Fits hs row columns = All (λ h. length (cell h row) ≤ width h columns) hs

width-set_self : (h : String) (n : ℕ) (columns : Columns) → width h (set_key h n columns) ≡ n
width-set_self h n columns = ap (or_else 0) (find_key-set_self h n columns)

width-set_ne :
    (k h : String) (n : ℕ) (columns : Columns)
    → k ≢ h
    → width h (set_key k n columns) ≡ width h columns
width-set_ne k h n columns ne = ap (or_else 0) (find_key-set_ne k h n columns ne)

width-set_grows :
    (k h : String) (n : ℕ) (columns : Columns)
    → width k columns ≤ n
    → width h columns ≤ width h (set_key k n columns)
width-set_grows k h n columns more = elim (Bool-cases (k =ₛ h)) [
  | inl same ↦
      let e : k ≡ h = (eq_iff k h).0 same in
      subst (λ j. width j columns ≤ width j (set_key k n columns)) e
        (omega (arith, width-set_self k n columns))
  | inr other ↦ omega (arith, width-set_ne k h n columns (λ e. ground (arith, eq_iff k h)))
]

module _ (row : Row) where
  pub widen-grows :
      (hs : List String) (h : String) (columns : Columns) (t : ℕ)
      → width h columns ≤ width h (widen hs row columns t).0
  unfolding widen
  widen-grows [] h columns t = omega arith
  widen-grows (k ∷ hs) h columns t =
      let size = max (width k columns) (length (cell k row)) in
      omega (
        arith,
        width-set_grows k h size columns (omega arith),
        widen-grows hs h (set_key k size columns) (t + size),
      )

  widen-other :
      (hs : List String) (h : String) (columns : Columns) (t : ℕ)
      → All (λ k. k ≢ h) hs
      → width h (widen hs row columns t).0 ≡ width h columns
  unfolding widen
  widen-other [] h columns t apart = refl
  widen-other (k ∷ hs) h columns t apart =
      let size = max (width k columns) (length (cell k row)) in
      widen-other hs h (set_key k size columns) (t + size) apart.1
      ∙ width-set_ne k h size columns apart.0

  pub widen-Fits :
      (hs : List String) (columns : Columns) (t : ℕ) → Fits hs row (widen hs row columns t).0
  unfolding widen
  widen-Fits [] columns t = tt
  widen-Fits (k ∷ hs) columns t =
      let size = max (width k columns) (length (cell k row)) in
      (
        omega (
          arith,
          width-set_self k size columns,
          widen-grows hs k (set_key k size columns) (t + size),
        ),
        widen-Fits hs (set_key k size columns) (t + size),
      )

  pub widen-total :
      (hs : List String) (columns : Columns) (t : ℕ)
      → IsDistinct hs
      → (widen hs row columns t).1 ≡ t + sum_widths hs (widen hs row columns t).0
  unfolding widen
  widen-total [] columns t apart = omega arith
  widen-total (k ∷ hs) columns t apart =
      let size = max (width k columns) (length (cell k row)) in
      omega (
        arith,
        width-set_self k size columns,
        widen-other hs k (set_key k size columns) (t + size) apart.0,
        widen-total hs (set_key k size columns) (t + size) apart.1,
      )

  pub widen-HasKey :
      (hs ks : List String) (columns : Columns) (t : ℕ)
      → All (λ h. HasKey h columns) ks
      → All (λ h. HasKey h (widen hs row columns t).0) ks
  unfolding widen
  widen-HasKey [] ks columns t h = h
  widen-HasKey (k ∷ hs) ks columns t h =
      let size = max (width k columns) (length (cell k row)) in
      widen-HasKey hs ks (set_key k size columns) (t + size) (keys_stay_set ks k size columns h)

pub sum_widths-widen :
    (row : Row) (hs ks : List String) (columns : Columns) (t : ℕ)
    → sum_widths ks columns ≤ sum_widths ks (widen hs row columns t).0
sum_widths-widen row hs [] columns t = omega arith
sum_widths-widen row hs (k ∷ ks) columns t =
    omega (arith, widen-grows row hs k columns t, sum_widths-widen row hs ks columns t)

pub Fits-widen :
    (row new : Row) (hs ks : List String) (columns : Columns) (t : ℕ)
    → Fits ks row columns
    → Fits ks row (widen hs new columns t).0
Fits-widen row new hs [] columns t h = tt
Fits-widen row new hs (k ∷ ks) columns t h =
    (omega (arith, h.0, widen-grows new hs k columns t), Fits-widen row new hs ks columns t h.1)

-- The blanks fill the column.
blanks_lem :
    (total size : ℕ)
    → size ≤ total
    → (l r : ℕ) × (blanks total size ≡ ok (l, r)) × (l + size + r ≡ total + 2)
unfolding blanks
blanks_lem total size h = (
  (total - size) / 2 + 1,
  (total - size) + 2 - ((total - size) / 2 + 1),
  rw fits refl,
  omega arith,
)
  where
    fits : leb size total ≡ true
    fits = ground arith

-- What a line has besides the cells and their blanks: a blank at each side, and the bars.
abbrev pub bars : List String → ℕ
bars [] = 0
bars (h ∷ hs) = length (separator h) + 3 + bars hs

padded_lem :
    (printable sep content : Text) (left right n : ℕ)
    → left + length content + right ≡ n
    → length (printable ++ sep ++ replicate left b' ' ++ content ++ replicate right b' ' ++ bar)
      ≡ length printable + (length sep + (n + 1))
padded_lem printable sep content left right n sum =
    let l : Text = replicate left b' ' in
    let r : Text = replicate right b' ' in
    omega (
      arith,
      length-append (printable ++ sep ++ l ++ content ++ r) bar,
      length-append (printable ++ sep ++ l ++ content) r,
      length-append (printable ++ sep ++ l) content,
      length-append (printable ++ sep) l,
      length-append printable sep,
      length-replicate {A = ℕ} left b' ',
      length-replicate {A = ℕ} right b' ',
    )

-- A row whose cells fit is printed, at the width of the columns and the bars.
pub length-cells_to_string :
    (hs : List String) (row : Row) (columns : Columns) (printable : Text)
    → All (λ h. HasKey h row) hs
    → All (λ h. HasKey h columns) hs
    → Fits hs row columns
    → (line : Text) × (cells_to_string hs row columns printable ≡ ok line)
      × (length line ≡ length printable + (sum_widths hs columns + bars hs))
unfolding cells_to_string
length-cells_to_string [] row columns printable r c fits = (printable, refl, omega arith)
length-cells_to_string (h ∷ hs) row columns printable r c fits =
    let (content, content_at) = r.0 in
    let (space, space_at) = c.0 in
    let narrow : length content ≤ space =
      omega (
        arith,
        fits.0,
        ap (λ o. length (or_else [] o)) content_at,
        ap (λ o. or_else 0 o) space_at,
      ) in
    let (left, right, blank, sum) = blanks_lem space (length content) narrow in
    let printable' =
      printable ++ separator h ++ replicate left b' ' ++ content ++ replicate right b' ' ++ bar in
    let (line, runs, size) = length-cells_to_string hs row columns printable' r.1 c.1 fits.1 in
    (
      line,
      rw (space_at, content_at, blank) runs,
      omega (
        arith,
        size,
        padded_lem printable (separator h) content left right (space + 2) sum,
        ap (λ o. or_else 0 o) space_at,
      ),
    )
