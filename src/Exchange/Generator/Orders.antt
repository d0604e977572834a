-- ===== src/Exchange/Generator/Orders.antt =====
-- What the orders of the generator look like: prices, quantities and identifiers.
use tradingmarketsimulator.Prelude.{
  ◌+◌, ◌%◌, ◌^◌, ◌≤◌, ◌≡◌, refl, Bool, true, false, List, [], ◌∷◌, arith, All, IsIn, inl,
  if◌then◌else◌, ◌⊎◌,
}
use tradingmarketsimulator.Prelude.Int.{pos, ◌+ℤ◌, ◌-ℤ◌, ◌≤ℤ◌, ltb_ℤ, int_laws, +ℤ_parts, -ℤ_parts}
use tradingmarketsimulator.Market.Price.{Price, is_more_cons}
use tradingmarketsimulator.Structs.{Side, bid, ask, opposite}
use tradingmarketsimulator.Outside.{Outside}
use tradingmarketsimulator.Exchange.Generator.{
  Generator, side_prices, max_price, min_price, make_order, best_bid, best_ask, generate_mm_order,
  generate_aggressor_order,
}

-- A market maker's price lies within the half width of the spread, on its side of the middle.
abbrev pub InSpread : Side → Price → Price → Price → Type 0
InSpread bid mid half p = (mid -ℤ half ≤ℤ p) × (p ≤ℤ mid -ℤ pos 1)
InSpread ask mid half p = (mid +ℤ pos 1 ≤ℤ p) × (p ≤ℤ mid +ℤ half)

module _ (E : Outside) where
  -- With a spread and a lot of at least one, an order of the market maker lies within the spread on
  -- its side of the middle, has a quantity from one to the lot, and the identifier after the last.
  pub generate_mm_order_lem :
      (side : Side) (g : Generator E)
      → pos 1 ≤ℤ g.config.spread_half_width
      → 1 ≤ g.config.mm_lot_max
      → let (o, g') = generate_mm_order E side g in
        InSpread side g.config.mid_price g.config.spread_half_width o.price
        × (o.side ≡ side)
        × ((1 ≤ o.qty) × (o.qty ≤ g.config.mm_lot_max))
        × ((o.id ≡ (g.next_id + 1) % 2 ^ 32) × (g'.next_id ≡ o.id))
  unfolding generate_mm_order make_order
  generate_mm_order_lem bid g wide lot =
      let (jitter, w) = E.draw_int (pos 1) g.config.spread_half_width g.world in
      let d = E.draw_int_bounds (pos 1) g.config.spread_half_width g.world wide in
      let q = E.draw_nat_bounds 1 g.config.mm_lot_max w lot in
      ((omega int_laws, omega int_laws), refl, q, (refl, refl))
  generate_mm_order_lem ask g wide lot =
      let (jitter, w) = E.draw_int (pos 1) g.config.spread_half_width g.world in
      let d = E.draw_int_bounds (pos 1) g.config.spread_half_width g.world wide in
      let q = E.draw_nat_bounds 1 g.config.mm_lot_max w lot in
      ((omega int_laws, omega int_laws), refl, q, (refl, refl))

-- The first price is at least as good for an aggressor against orders of this side.
abbrev pub AsGood : Side → Price → Price → Type 0
AsGood ask p q = p ≤ℤ q
AsGood bid p q = q ≤ℤ p

-- The last price is a best one among the first price and the list.
abbrev pub IsBest : Side → Price → List Price → Price → Type 0
IsBest side first ps m = AsGood side m first × All (λ p. AsGood side m p) ps × IsIn m (first ∷ ps)

-- Where the loop goes on from `next`, the new price or the old one.
IsBest-next :
    (side : Side) (first next p m : Price) (ps : List Price)
    → (next ≡ p) ⊎ (next ≡ first)
    → AsGood side next first
    → AsGood side next p
    → IsBest side next ps m
    → IsBest side first (p ∷ ps) m
IsBest-next ask first next p m ps from b c r = ground arith
IsBest-next bid first next p m ps from b c r = ground arith

-- `min_element` finds a least price, and `max_element` a greatest one.
pub min_price-IsBest : (first : Price) (ps : List Price) → IsBest ask first ps (min_price first ps)
unfolding min_price
min_price-IsBest first [] = (omega arith, tt, inl refl)
min_price-IsBest first (p ∷ ps) =
    let next : Price = if ltb_ℤ p first then p else first in
    IsBest-next ask first next p (min_price next ps) ps (ground arith) (ground arith) (ground arith)
      (min_price-IsBest (if ltb_ℤ p first then p else first) ps)

pub max_price-IsBest : (first : Price) (ps : List Price) → IsBest bid first ps (max_price first ps)
unfolding max_price
max_price-IsBest first [] = (omega arith, tt, inl refl)
max_price-IsBest first (p ∷ ps) =
    let next : Price = if ltb_ℤ first p then p else first in
    IsBest-next bid first next p (max_price next ps) ps (ground arith) (ground arith) (ground arith)
      (max_price-IsBest (if ltb_ℤ first p then p else first) ps)

pub best_ask_lem :
    (E : Outside) (g : Generator E) (p : Price) (ps : List Price)
    → side_prices ask g.live_orders ≡ p ∷ ps
    → best_ask E g ≡ min_price p ps
unfolding best_ask
best_ask_lem E g p ps e = rw (e, best_ask)

pub best_bid_lem :
    (E : Outside) (g : Generator E) (p : Price) (ps : List Price)
    → side_prices bid g.live_orders ≡ p ∷ ps
    → best_bid E g ≡ max_price p ps
unfolding best_bid
best_bid_lem E g p ps e = rw (e, best_bid)

reaches_ask :
    (best offset : Price) → pos 0 ≤ℤ offset → is_more_cons (best +ℤ offset) best true ≡ false
unfolding is_more_cons
reaches_ask best offset h = ground (arith, +ℤ_parts best offset)

reaches_bid :
    (best offset : Price) → pos 0 ≤ℤ offset → is_more_cons (best -ℤ offset) best false ≡ false
unfolding is_more_cons
reaches_bid best offset h = ground (arith, -ℤ_parts best offset)

abbrev pub aggressor_is_bid : Side → Bool
aggressor_is_bid bid = false
aggressor_is_bid ask = true

module _ (E : Outside) where
  -- With an offset that is not negative, and live orders on the other side, an aggressor reaches
  -- the best live price there: it is the price of a live order, none of that side is better for
  -- the aggressor, and the book's test of prices does not hold the aggressor back from it. (`side`
  -- is that of the live orders, and the aggressor is on the other.)
  pub aggressor_reaches-IsBest :
      (side : Side) (g : Generator E) (p : Price) (ps : List Price)
      → pos 0 ≤ℤ g.config.aggressor_offset
      → side_prices side g.live_orders ≡ p ∷ ps
      → let o = (generate_aggressor_order E (opposite side) g).0 in
        (best : Price) × IsBest side p ps best
        × (is_more_cons o.price best (aggressor_is_bid side) ≡ false)
  unfolding generate_aggressor_order make_order
  aggressor_reaches-IsBest ask g p ps sure e = (
    min_price p ps,
    min_price-IsBest p ps,
    rw (best_ask_lem E g p ps e) (reaches_ask (min_price p ps) g.config.aggressor_offset sure),
  )
  aggressor_reaches-IsBest bid g p ps sure e = (
    max_price p ps,
    max_price-IsBest p ps,
    rw (best_bid_lem E g p ps e) (reaches_bid (max_price p ps) g.config.aggressor_offset sure),
  )
