-- ===== src/Exchange/Display/Table.antt =====
-- The table of a book shows what rests in it.
use tradingmarketsimulator.Prelude.{
  ℕ, zero, suc, ◌+◌, ◌≤◌, ◌≡◌, refl, sym, ap, ap₂, ◌∙◌, Option, none, some, List, [], ◌∷◌, map,
  length, get_elem?, drop, max, All, arith,
}
use tradingmarketsimulator.Prelude.Int.{pos}
use tradingmarketsimulator.Prelude.Decimal.{integer, pad_left, pad_right}
use tradingmarketsimulator.Prelude.Decimal.Reading.{
  strip, read_integer, strip-pad_left, strip-pad_right, FitsCell, read_integer-integer,
  length-integer, length-pad_left, length-pad_right,
}
use tradingmarketsimulator.Structs.{bid, ask, Order}
use tradingmarketsimulator.Exchange.SideMap.{SideMap}
use tradingmarketsimulator.Exchange.Book.{Book, get_container}
use tradingmarketsimulator.Exchange.Display.Columns.{
  Cells, cell_value, both, read_bid, read_ask, laid_out, bid_read, ask_read, length_of_row,
}
use tradingmarketsimulator.Exchange.Display.{
  bid_cells, ask_cells, row, rows_from, heading, format_book,
}

abbrev pub cells : Order → Cells
cells o = (o.price, pos o.qty)

abbrev found : Option Cells → List Cells → List Cells
found none cs = cs
found (some c) cs = c ∷ cs

-- The cells that a reader finds in a sequence of lines
pub read_lines : (List ℕ → Option Cells) → List (List ℕ) → List Cells
read_lines read [] = []
read_lines read (l ∷ ls) = found (read l) (read_lines read ls)

abbrev pub Fits : Order → Type 0
Fits o = FitsCell o.price × FitsCell (pos o.qty)

abbrev FitsRow : Option Order → Type 0
FitsRow none = Unit
FitsRow (some o) = Fits o

FitsRow-get_elem? : (xs : List Order) (i : ℕ) → All Fits xs → FitsRow (get_elem? xs i)
FitsRow-get_elem? [] i h = tt
FitsRow-get_elem? (x ∷ xs) zero h = h.0
FitsRow-get_elem? (x ∷ xs) (suc i) h = FitsRow-get_elem? xs i h.1

-- The cells of one half of a row
abbrev left_cells : Option Order → List ℕ × List ℕ
left_cells none = (pad_left 6 [], pad_left 6 [])
left_cells (some o) = (pad_left 6 (integer (pos o.qty)), pad_left 6 (integer o.price))

abbrev right_cells : Option Order → List ℕ × List ℕ
right_cells none = (pad_right 6 [], pad_right 6 [])
right_cells (some o) = (pad_right 6 (integer o.price), pad_right 6 (integer (pos o.qty)))

row-laid_out :
    (b a : Option Order)
    → row b a ≡ laid_out (left_cells b).0 (left_cells b).1 (right_cells a).0 (right_cells a).1
unfolding row bid_cells ask_cells
row-laid_out none none = refl
row-laid_out none (some a) = refl
row-laid_out (some b) none = refl
row-laid_out (some b) (some a) = refl

left_sizes :
    (b : Option Order) → FitsRow b → (length (left_cells b).0 ≡ 6) × (length (left_cells b).1 ≡ 6)
left_sizes none h = (length-pad_left 6 [] (omega arith), length-pad_left 6 [] (omega arith))
left_sizes (some o) h = (
  length-pad_left 6 (integer (pos o.qty)) (length-integer (pos o.qty) h.1),
  length-pad_left 6 (integer o.price) (length-integer o.price h.0),
)

right_sizes :
    (a : Option Order) → FitsRow a → (length (right_cells a).0 ≡ 6) × (length (right_cells a).1 ≡ 6)
right_sizes none h = (length-pad_right 6 [] (omega arith), length-pad_right 6 [] (omega arith))
right_sizes (some o) h = (
  length-pad_right 6 (integer o.price) (length-integer o.price h.0),
  length-pad_right 6 (integer (pos o.qty)) (length-integer (pos o.qty) h.1),
)

abbrev cells_of : Option Order → Option Cells
cells_of none = none
cells_of (some o) = some (cells o)

left_values :
    (b : Option Order)
    → FitsRow b
    → both (cell_value (left_cells b).1) (cell_value (left_cells b).0) ≡ cells_of b
left_values none h = unfold pad_left strip read_integer in refl
left_values (some o) h =
    ap₂ both (ap read_integer (strip-pad_left 6 o.price) ∙ read_integer-integer o.price h.0)
      (ap read_integer (strip-pad_left 6 (pos o.qty)) ∙ read_integer-integer (pos o.qty) h.1)

right_values :
    (a : Option Order)
    → FitsRow a
    → both (cell_value (right_cells a).0) (cell_value (right_cells a).1) ≡ cells_of a
right_values none h = unfold pad_right strip read_integer in refl
right_values (some o) h =
    ap₂ both (ap read_integer (strip-pad_right 6 o.price) ∙ read_integer-integer o.price h.0)
      (ap read_integer (strip-pad_right 6 (pos o.qty)) ∙ read_integer-integer (pos o.qty) h.1)

-- A row reads back as its two orders, and is 34 characters long.
row_lem :
    (b a : Option Order)
    → FitsRow b
    → FitsRow a
    → (read_bid (row b a) ≡ cells_of b)
      × (read_ask (row b a) ≡ cells_of a)
      × (length (row b a) ≡ 34)
row_lem b a fb fa =
    let (q, p) = left_cells b in
    let (p', q') = right_cells a in
    let (h, k) = left_sizes b fb in
    let (k', h') = right_sizes a fa in
    let e = row-laid_out b a in
    (
      ap read_bid e ∙ bid_read q p p' q' h k k' h' ∙ left_values b fb,
      ap read_ask e ∙ ask_read q p p' q' h k k' h' ∙ right_values a fa,
      ap length e ∙ length_of_row q p p' q' h k k' h',
    )

drop-found :
    (xs : List Order) (i : ℕ)
    → map cells (drop i xs) ≡ found (cells_of (get_elem? xs i)) (map cells (drop (suc i) xs))
drop-found [] zero = refl
drop-found [] (suc i) = refl
drop-found (x ∷ xs) zero = refl
drop-found (x ∷ xs) (suc i) = drop-found xs i

drop_all : (xs : List Order) (i : ℕ) → length xs ≤ i → drop i xs ≡ []
drop_all [] zero h = refl
drop_all [] (suc i) h = refl
drop_all (x ∷ xs) zero h = absurd (omega arith)
drop_all (x ∷ xs) (suc i) h = drop_all xs i (omega arith)

-- The rows from the `i`-th on read back as the orders from there on, if there are rows enough.
rows_from_lem :
    (n i : ℕ) (bids asks : List Order)
    → All Fits bids
    → All Fits asks
    → length bids ≤ n + i
    → length asks ≤ n + i
    → let rows = rows_from n i bids asks in
      (read_lines read_bid rows ≡ map cells (drop i bids))
      × (read_lines read_ask rows ≡ map cells (drop i asks))
      × All (λ (l : List ℕ). length l ≡ 34) rows
unfolding rows_from read_lines
rows_from_lem zero i bids asks fb fa hb ha = (
  ap (map cells) (sym (drop_all bids i (omega arith))),
  ap (map cells) (sym (drop_all asks i (omega arith))),
  tt,
)
rows_from_lem (suc n) i bids asks fb fa hb ha =
    let (b, a, size) =
      row_lem (get_elem? bids i) (get_elem? asks i) (FitsRow-get_elem? bids i fb)
        (FitsRow-get_elem? asks i fa) in
    let (bs, as', sizes) = rows_from_lem n (suc i) bids asks fb fa (omega arith) (omega arith) in
    (
      ap₂ found b bs ∙ sym (drop-found bids i),
      ap₂ found a as' ∙ sym (drop-found asks i),
      (size, sizes),
    )

module _ (M : SideMap) where
  -- The table of a book, whose prices and quantities are of at most six characters, reads back from its
  -- columns as the prices and quantities of the bids and of the asks, in their order, and all its
  -- lines below the title are equally long.
  pub format_book_lem :
      (symbol : List ℕ) (b : Book M)
      → All Fits (get_container M b bid)
      → All Fits (get_container M b ask)
      → let lines = drop 1 (format_book M symbol b) in
        (read_lines read_bid (drop 2 lines) ≡ map cells (get_container M b bid))
        × (read_lines read_ask (drop 2 lines) ≡ map cells (get_container M b ask))
        × All (λ (l : List ℕ). length l ≡ 34) lines
  unfolding format_book heading
  format_book_lem symbol b fb fa =
      let bids = get_container M b bid in
      let asks = get_container M b ask in
      let (bs, as', sizes) =
        rows_from_lem (max (length bids) (length asks)) 0 bids asks fb fa (omega arith)
          (omega arith) in
      (bs, as', (refl, (refl, sizes)))
