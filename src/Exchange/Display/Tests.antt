-- ===== src/Exchange/Display/Tests.antt =====
-- The theorem on the table of a book, applied to one with two bids and an ask.
use tradingmarketsimulator.Prelude.{
  ℕ, ◌≡◌, refl, arith, List, [], ◌∷◌, map, drop, length, All, get_elem?, some,
}
use tradingmarketsimulator.Prelude.Decimal.{codes, decimal, digits, integer, pad_left, pad_right}
use tradingmarketsimulator.Structs.{bid, ask}
use tradingmarketsimulator.Samples.{entry_map, order}
use tradingmarketsimulator.Exchange.Book.{Book, get_container}
use tradingmarketsimulator.Exchange.Display.{
  format_order, format_book, row, rows_from, bid_cells, ask_cells, heading,
}
use tradingmarketsimulator.Exchange.Display.Columns.{read_bid, read_ask}
use tradingmarketsimulator.Exchange.Display.Table.{cells, read_lines, format_book_lem}

abbrev book : Book entry_map
book = record {
  bids = order bid 1 1999 5 ∷ order bid 2 1990 12 ∷ [];
  asks = order ask 3 2003 7 ∷ [];
  order_ids_to_side = [];
}

format_book_lem_example :
    let lines = drop 1 (format_book entry_map (codes "SPCX") book) in
    (read_lines read_bid (drop 2 lines) ≡ map cells (get_container entry_map book bid))
    × (read_lines read_ask (drop 2 lines) ≡ map cells (get_container entry_map book ask))
    × All (λ (l : List ℕ). length l ≡ 34) lines
unfolding get_container
format_book_lem_example = format_book_lem entry_map (codes "SPCX") book (omega arith) (omega arith)

first_row :
    get_elem? (format_book entry_map (codes "SPCX") book) 3
    ≡ some (codes "       5    1999 | 2003    7     \n")
unfolding format_book row rows_from bid_cells ask_cells heading get_container integer decimal digits
    pad_left pad_right
first_row = refl

an_order : format_order (order ask 3 2003 7) ≡ codes "Order{id=3, side=Ask, price=2003, qty=7}"
unfolding format_order integer decimal digits
an_order = refl
