-- ===== src/Exchange/Display/Columns.antt =====
-- The columns of a row of the table of a book, and a reader that knows only their places.
use tradingmarketsimulator.Prelude.{
  ℕ, ◌≡◌, ap, ◌∙◌, Option, none, some, List, ◌++◌, append_assoc, length, length-append, take, drop,
  take-front, drop-front, arith,
}
use tradingmarketsimulator.Prelude.Int.{ℤ}
use tradingmarketsimulator.Prelude.Decimal.{codes}
use tradingmarketsimulator.Prelude.Decimal.Reading.{strip, read_integer}

-- A price and a quantity
abbrev pub Cells : Type 0
Cells = ℤ × ℤ

-- The number in a cell of six characters, if it is not blank
abbrev pub cell_value : List ℕ → Option ℤ
cell_value c = read_integer (strip c)

abbrev pub both : Option ℤ → Option ℤ → Option Cells
both none q = none
both (some p) none = none
both (some p) (some q) = some (p, q)

-- A reader of the rows, which knows only the places of the columns
pub read_bid : List ℕ → Option Cells
read_bid line = both (cell_value (take 6 (drop 10 line))) (cell_value (take 6 (drop 2 line)))

pub read_ask : List ℕ → Option Cells
read_ask line = both (cell_value (take 6 (drop 19 line))) (cell_value (take 6 (drop 27 line)))

-- Four cells of six characters, with what stands between them
abbrev pub laid_out : List ℕ → List ℕ → List ℕ → List ℕ → List ℕ
laid_out q p p' q' =
    (codes "  " ++ (q ++ (codes "  " ++ p)))
    ++ (codes " | " ++ (p' ++ (codes "  " ++ (q' ++ codes "\n"))))

module _ (q p p' q' : List ℕ) (h : length q ≡ 6) (k : length p ≡ 6) (k' : length p' ≡ 6)
    (h' : length q' ≡ 6) where
  abbrev ask_half : List ℕ
  ask_half = codes " | " ++ (p' ++ (codes "  " ++ (q' ++ codes "\n")))

  regrouped : laid_out q p p' q' ≡ codes "  " ++ (q ++ (codes "  " ++ (p ++ ask_half)))
  regrouped = ap (λ xs. codes "  " ++ xs) (append_assoc q (codes "  " ++ p) ask_half)

  pub bid_read : read_bid (laid_out q p p' q') ≡ both (cell_value p) (cell_value q)
  unfolding read_bid
  bid_read =
      let after = codes "  " ++ (p ++ ask_half) in
      let qty = take-front q after 6 h in
      let price = ap (take 6) (drop-front q after 2 8 (omega arith)) ∙ take-front p ask_half 6 k in
      ap read_bid regrouped
      ∙ ap (λ c. both (cell_value (take 6 (drop 8 (q ++ after)))) (cell_value c)) qty
      ∙ ap (λ c. both (cell_value c) (cell_value q)) price

  pub ask_read : read_ask (laid_out q p p' q') ≡ both (cell_value p') (cell_value q')
  unfolding read_ask
  ask_read =
      let after = codes "  " ++ (p ++ ask_half) in
      let last = q' ++ codes "\n" in
      let price =
        ap (take 6)
          (drop-front q after 11 17 (omega arith) ∙ drop-front p ask_half 3 9 (omega arith))
        ∙ take-front p' (codes "  " ++ last) 6 k' in
      let qty =
        ap (take 6) (
          drop-front q after 19 25 (omega arith)
          ∙ drop-front p ask_half 11 17 (omega arith)
          ∙ drop-front p' (codes "  " ++ last) 2 8 (omega arith))
        ∙ take-front q' (codes "\n") 6 h' in
      ap read_ask regrouped
      ∙ ap (λ c. both (cell_value c) (cell_value (take 6 (drop 25 (q ++ after))))) price
      ∙ ap (λ c. both (cell_value p') (cell_value c)) qty

  pub length_of_row : length (laid_out q p p' q') ≡ 34
  length_of_row =
      let last = q' ++ codes "\n" in
      omega (
        arith,
        ap length regrouped,
        length-append q (codes "  " ++ (p ++ ask_half)),
        length-append p ask_half,
        length-append p' (codes "  " ++ last),
        length-append q' (codes "\n"),
      )
