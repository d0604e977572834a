-- ===== src/Exchange/Book/Levels.antt =====
-- The book by price: of the orders of a side only the quantity at each price is kept. This is the
-- abstract view of the book of include/mms/exchange/OptionOrderBook.hh; its orders, their identifiers
-- and their places within a price are forgotten.
pub mod Removal
use tradingmarketsimulator.Prelude.{
  ℕ, ◌+◌, ◌-◌, ◌≤◌, ◌<◌, ◌≡◌, refl, Bool, true, false, not, List, [], ◌∷◌, arith, ltb,
  if◌then◌else◌, All, Option, none, some, ◌==◌, ap, ◌∙◌, sym, Bool-cases, if-cases_eq, subst, ◌⊎◌,
  inl, inr,
}
use tradingmarketsimulator.Prelude.Int.{ltb_ℤ, eqb_ℤ, eq_of_parts}
use tradingmarketsimulator.Market.Price.{Price, is_more_cons}
use tradingmarketsimulator.Structs.{Order, is_bid}
use tradingmarketsimulator.Exchange.Book.{erase_id, insert_order, goes_before}
use tradingmarketsimulator.Exchange.Book.Match.{residual, depth, trades}
use tradingmarketsimulator.Exchange.Book.Sorted.{IsSorted, NoWorse, erase_id-All}
use tradingmarketsimulator.Exchange.Book.Trades.{none_trades}

-- A price and the quantity at it
abbrev pub Level : Type 0
Level = Price × ℕ

-- A quantity joins the first level if that has its price, and is a level of its own otherwise.
abbrev pub join_level : Price → ℕ → List Level → List Level
join_level p q [] = (p, q) ∷ []
join_level p q ((r, m) ∷ ls) = if eqb_ℤ p r then (r, q + m) ∷ ls else (p, q) ∷ (r, m) ∷ ls

-- The view of a container
abbrev pub by_price : List Order → List Level
by_price [] = []
by_price (o ∷ os) = join_level o.price o.qty (by_price os)

-- An aggressor with this limit takes `n` units: whole levels from the best on, and a part of the last.
abbrev pub take_levels : Price → Bool → ℕ → List Level → List Level
take_levels limit bids n [] = []
take_levels limit bids n ((r, m) ∷ ls) =
    let more = take_levels limit bids (n - m) ls in
    if is_more_cons limit r bids then (r, m) ∷ ls else (if ltb n m then (r, m - n) ∷ ls else more)

-- The quantity within the limit
abbrev pub level_depth : Price → Bool → List Level → ℕ
level_depth limit bids [] = 0
level_depth limit bids ((r, m) ∷ ls) =
    (if is_more_cons limit r bids then 0 else m) + level_depth limit bids ls

-- A quantity is added at its price: to the level there, or as a new level between better and worse.
abbrev pub put_level : Bool → Price → ℕ → List Level → List Level
put_level bids p q [] = (p, q) ∷ []
put_level bids p q ((r, m) ∷ ls) =
    let later = put_level bids p q ls in
    if eqb_ℤ p r
    then (r, q + m) ∷ ls
    else (if is_more_cons p r bids then (r, m) ∷ later else (p, q) ∷ (r, m) ∷ ls)

abbrev HasUnits : List Level → Type 0
HasUnits = All (λ l. 0 < l.1)

join_level-HasUnits :
    (p : Price) (q : ℕ) (ls : List Level) → 0 < q → HasUnits ls → HasUnits (join_level p q ls)
join_level-HasUnits p q [] h hs = (h, tt)
join_level-HasUnits p q ((r, m) ∷ ls) h hs = ground arith

by_price-HasUnits : (os : List Order) → All (λ o. 0 < o.qty) os → HasUnits (by_price os)
by_price-HasUnits [] h = tt
by_price-HasUnits (o ∷ os) h =
    join_level-HasUnits o.price o.qty (by_price os) h.0 (by_price-HasUnits os h.1)

take_levels_none :
    (limit : Price) (bids : Bool) (ls : List Level) → HasUnits ls → take_levels limit bids 0 ls ≡ ls
take_levels_none limit bids [] h = refl
take_levels_none limit bids ((r, m) ∷ ls) h = ground arith

-- Prices that the test takes for one are one.
eqb_eq : (p r : Price) → eqb_ℤ p r ≡ true → p ≡ r
eqb_eq p r h = eq_of_parts p r (ground arith)

level_depth-join_level :
    (limit : Price) (bids : Bool) (p : Price) (q : ℕ) (ls : List Level)
    → level_depth limit bids (join_level p q ls)
      ≡ (if is_more_cons limit p bids then 0 else q) + level_depth limit bids ls
level_depth-join_level limit bids p q [] = refl
level_depth-join_level limit bids p q ((r, m) ∷ ls) = elim (Bool-cases (eqb_ℤ p r)) [
  | inl e ↦ rw (eqb_eq p r e) (ground arith)
  | inr e ↦ rw e refl
]

take_levels-join_level :
    (limit : Price) (bids : Bool) (n : ℕ) (p : Price) (q : ℕ) (ls : List Level)
    → 0 < q
    → take_levels limit bids n (join_level p q ls) ≡ (
        if is_more_cons limit p bids
        then join_level p q ls
        else (if ltb n q then join_level p (q - n) ls else take_levels limit bids (n - q) ls))
take_levels-join_level limit bids n p q [] h = ground arith
take_levels-join_level limit bids n p q ((r, m) ∷ ls) h = elim (Bool-cases (eqb_ℤ p r)) [
  | inl e ↦ let same = eqb_eq p r e in rw same (ground arith)
  | inr e ↦ rw e (ground arith)
]

-- The view keeps the quantity that an aggressor can take.
pub level_depth-by_price :
    (limit : Price) (bids : Bool) (os : List Order)
    → level_depth limit bids (by_price os) ≡ depth limit bids os
level_depth-by_price limit bids [] = refl
level_depth-by_price limit bids (o ∷ os) =
    level_depth-join_level limit bids o.price o.qty (by_price os)
    ∙ ground (arith, level_depth-by_price limit bids os)

-- Matching, seen by price: the orders that an aggressor meets are the levels that it takes.
pub by_price-residual :
    (limit : Price) (bids : Bool) (n : ℕ) (os : List Order)
    → IsSorted (not bids) os
    → All (λ o. 0 < o.qty) os
    → by_price (residual limit bids n os) ≡ take_levels limit bids n (by_price os)
by_price-residual limit bids n [] s h = refl
by_price-residual limit bids n (o ∷ os) s h = ground (
  arith,
  take_levels-join_level limit bids n o.price o.qty (by_price os),
  take_levels_none limit bids (by_price os) (by_price-HasUnits os h.1),
  by_price-residual limit bids (n - o.qty) os s.1 h.1,
  none_trades limit bids o n os,
)

put_level-join_level :
    (bids : Bool) (x : Price) (n : ℕ) (p : Price) (q : ℕ) (ls : List Level)
    → put_level bids x n (join_level p q ls) ≡ (
        if goes_before bids p x
        then join_level x n (join_level p q ls)
        else join_level p q (put_level bids x n ls))
unfolding goes_before is_more_cons
put_level-join_level true x n p q [] = ground arith
put_level-join_level false x n p q [] = ground arith
put_level-join_level true x n p q ((r, m) ∷ ls) = elim (Bool-cases (eqb_ℤ p r)) [
  | inl e ↦ rw (eqb_eq p r e) (ground arith)
  | inr e ↦ ground arith
]
put_level-join_level false x n p q ((r, m) ∷ ls) = elim (Bool-cases (eqb_ℤ p r)) [
  | inl e ↦ rw (eqb_eq p r e) (ground arith)
  | inr e ↦ ground arith
]

-- Insertion, seen by price: the quantity of the order is added at its price.
pub by_price-insert_order :
    (x : Order) (os : List Order)
    → by_price (insert_order x os) ≡ put_level (is_bid x) x.price x.qty (by_price os)
unfolding insert_order
by_price-insert_order x [] = refl
by_price-insert_order x (o ∷ os) = ground (
  arith,
  put_level-join_level (is_bid x) x.price x.qty o.price o.qty (by_price os),
  by_price-insert_order x os,
)
