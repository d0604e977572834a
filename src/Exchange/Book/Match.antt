-- ===== src/Exchange/Book/Match.antt =====
-- The loop of `try_match` against a single pass that takes filled orders out at once.
use tradingmarketsimulator.Prelude.{
  ℕ, ◌+◌, ◌-◌, ◌≡◌, refl, Bool, true, false, not, List, [], ◌∷◌, arith, ltb, ◌==◌, if◌then◌else◌,
}
use tradingmarketsimulator.Market.Price.{Price, is_more_cons}
use tradingmarketsimulator.Structs.{Order, is_bid}
use tradingmarketsimulator.Exchange.Book.{match_loop}

-- How often an identifier stands among orders, and in a list of identifiers.
abbrev pub tally : Bool → ℕ
tally true = 1
tally false = 0

abbrev pub count : ℕ → List Order → ℕ
count k [] = 0
count k (o ∷ os) = tally (o.id == k) + count k os

abbrev pub occurs : ℕ → List ℕ → ℕ
occurs k [] = 0
occurs k (i ∷ is) = tally (i == k) + occurs k is

-- A resting order trades with an aggressor of this price and side.
abbrev pub trades : Order → Price → Bool → Bool
trades passive price bids = not (is_more_cons price passive.price bids)

-- The quantity that rests at prices with which the aggressor trades.
abbrev pub depth : Price → Bool → List Order → ℕ
depth price bids [] = 0
depth price bids (o ∷ os) = (if trades o price bids then o.qty else 0) + depth price bids os

-- What is left of the container when `n` units are taken from the orders that trade, in order.
abbrev pub residual : Price → Bool → ℕ → List Order → List Order
residual price bids n [] = []
residual price bids n (o ∷ os) =
    let skip = residual price bids n os in
    let eat = residual price bids (n - o.qty) os in
    if trades o price bids
    then (if ltb o.qty n
        then eat
        else (if ltb n o.qty then record o { qty = o.qty - n } ∷ os else os))
    else o ∷ skip

-- The identifiers of the orders that are taken out.
abbrev pub filled : Price → Bool → ℕ → List Order → List ℕ
filled price bids n [] = []
filled price bids n (o ∷ os) =
    let skip = filled price bids n os in
    let eat = filled price bids (n - o.qty) os in
    if trades o price bids
    then (if ltb o.qty n then o.id ∷ eat else (if ltb n o.qty then [] else o.id ∷ []))
    else skip

-- The loop takes the depth from the aggressor.
pub qty-match_loop :
    (a : Order) (os : List Order)
    → (match_loop a os).aggressor.qty ≡ a.qty - depth a.price (is_bid a) os
unfolding match_loop is_bid
qty-match_loop a [] = omega arith
qty-match_loop a (o ∷ os) =
    ground (arith, qty-match_loop a os, qty-match_loop (record a { qty = a.qty - o.qty }) os)

-- It touches nothing else of it.
abbrev pub with_qty : Order → ℕ → Order
with_qty a n = record a { qty = n }

pub match_loop-aggressor :
    (a : Order) (os : List Order)
    → (match_loop a os).aggressor ≡ with_qty a (match_loop a os).aggressor.qty
unfolding match_loop
match_loop-aggressor a [] = refl
match_loop-aggressor a (o ∷ os) =
    ground
      (arith, match_loop-aggressor a os, match_loop-aggressor (record a { qty = a.qty - o.qty }) os)

pub match_loop-removed :
    (a : Order) (os : List Order) → (match_loop a os).removed ≡ filled a.price (is_bid a) a.qty os
unfolding match_loop is_bid
match_loop-removed a [] = refl
match_loop-removed a (o ∷ os) =
    ground
      (arith, match_loop-removed a os, match_loop-removed (record a { qty = a.qty - o.qty }) os)

pub count-match_loop :
    (k : ℕ) (a : Order) (os : List Order) → count k (match_loop a os).container ≡ count k os
unfolding match_loop
count-match_loop k a [] = refl
count-match_loop k a (o ∷ os) =
    ground
      (arith, count-match_loop k a os, count-match_loop k (record a { qty = a.qty - o.qty }) os)

-- Every order is taken out or stays.
pub count-residual :
    (k : ℕ) (price : Price) (bids : Bool) (n : ℕ) (os : List Order)
    → count k (residual price bids n os) + occurs k (filled price bids n os) ≡ count k os
count-residual k price bids n [] = omega arith
count-residual k price bids n (o ∷ os) =
    ground (arith, count-residual k price bids n os, count-residual k price bids (n - o.qty) os)
