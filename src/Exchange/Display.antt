-- ===== src/Exchange/Display.antt =====
-- The formatters: of an order in include/mms/structs/Structs.hh, and of a book in
-- include/mms/exchange/OptionOrderBook.hh. A text is a list of character codes.
pub mod Columns
pub mod Table
pub mod Tests
use tradingmarketsimulator.Prelude.{
  ℕ, zero, suc, Option, none, some, List, [], ◌∷◌, ◌++◌, length, get_elem?, max,
}
use tradingmarketsimulator.Prelude.Int.{pos}
use tradingmarketsimulator.Prelude.Decimal.{codes, decimal, integer, pad_left, pad_right}
use tradingmarketsimulator.Structs.{Side, bid, ask, Order}
use tradingmarketsimulator.Exchange.SideMap.{SideMap}
use tradingmarketsimulator.Exchange.Book.{Book, get_container}

abbrev pub side_text : Side → List ℕ
side_text bid = codes "Bid"
side_text ask = codes "Ask"

-- `"Order{{id={}, side={}, price={}, qty={}}}"`
unfoldable pub format_order : Order → List ℕ
format_order o =
    codes "Order{id="
    ++ (decimal o.id
        ++ (codes ", side="
            ++ (side_text o.side
                ++ (codes ", price="
                    ++ (integer o.price ++ (codes ", qty=" ++ (decimal o.qty ++ codes "}")))))))

-- The left half of a row: quantity and price of a bid, or blanks
unfoldable pub bid_cells : Option Order → List ℕ
bid_cells (some o) =
    codes "  " ++ (pad_left 6 (integer (pos o.qty)) ++ (codes "  " ++ pad_left 6 (integer o.price)))
bid_cells none = codes "  " ++ (pad_left 6 [] ++ (codes "  " ++ pad_left 6 []))

-- The right half: price and quantity of an ask, or blanks
unfoldable pub ask_cells : Option Order → List ℕ
ask_cells (some o) =
    pad_right 6 (integer o.price)
    ++ (codes "  " ++ (pad_right 6 (integer (pos o.qty)) ++ codes "\n"))
ask_cells none = pad_right 6 [] ++ (codes "  " ++ (pad_right 6 [] ++ codes "\n"))

unfoldable pub row : Option Order → Option Order → List ℕ
row b a = bid_cells b ++ (codes " | " ++ ask_cells a)

-- The rows from the `i`-th on, of which `n` are left
unfoldable pub rows_from : ℕ → ℕ → List Order → List Order → List (List ℕ)
rows_from zero i bids asks = []
rows_from (suc n) i bids asks =
    row (get_elem? bids i) (get_elem? asks i) ∷ rows_from n (suc i) bids asks

unfoldable pub title : List ℕ → ℕ → ℕ → List ℕ
title symbol bids asks =
    codes "OrderBook["
    ++ (symbol
        ++ (codes "]:  Bids("
            ++ (decimal bids ++ (codes ") Asks(" ++ (decimal asks ++ codes ")\n")))))

-- The two lines below the title
unfoldable pub heading : List (List ℕ)
heading =
    codes "     qty     bid | ask     qty   \n" ∷ codes "  ---------------+---------------\n" ∷ []

module _ (M : SideMap) where
  -- `format` of a book: its lines
  unfoldable pub format_book : List ℕ → Book M → List (List ℕ)
  format_book symbol b =
      let bids = get_container M b bid in
      let asks = get_container M b ask in
      title symbol (length bids) (length asks)
      ∷ (heading ++ rows_from (max (length bids) (length asks)) 0 bids asks)
