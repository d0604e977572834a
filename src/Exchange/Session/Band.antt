-- ===== src/Exchange/Session/Band.antt =====
-- The band of prices that a session stays in.
use tradingmarketsimulator.Prelude.{◌≡◌, refl, sym, subst, [], All, IsIn, inl, inr, List-cases}
use tradingmarketsimulator.Prelude.Int.{pos, ◌+ℤ◌, ◌-ℤ◌, ◌≤ℤ◌, int_laws}
use tradingmarketsimulator.Market.Price.{Price}
use tradingmarketsimulator.Structs.{Side, bid, ask, Order}
use tradingmarketsimulator.Outside.{Outside}
use tradingmarketsimulator.Exchange.Generator.{
  Config, Generator, side_prices, min_price, max_price, best_bid, best_ask, make_order,
  generate_mm_order, generate_aggressor_order,
}
use tradingmarketsimulator.Exchange.Generator.Orders.{
  min_price-IsBest, max_price-IsBest, best_ask_lem, best_bid_lem,
}
use tradingmarketsimulator.Exchange.Session.Resting.{All-IsIn, side_prices-IsIn}

module _ (E : Outside) where
  -- The spread, and on the far side of the middle the offset of the aggressors
  abbrev pub InBand : Config E → Side → Price → Type 0
  InBand c bid p =
      (c.mid_price -ℤ c.spread_half_width ≤ℤ p)
      × (p ≤ℤ c.mid_price +ℤ c.spread_half_width +ℤ c.aggressor_offset)
  InBand c ask p =
      (c.mid_price -ℤ c.spread_half_width -ℤ c.aggressor_offset ≤ℤ p)
      × (p ≤ℤ c.mid_price +ℤ c.spread_half_width)

  abbrev pub IsSound : Config E → Type 0
  IsSound c = (pos 1 ≤ℤ c.spread_half_width) × (pos 0 ≤ℤ c.aggressor_offset)

  pub record IsBanded (c : Config E) (g : Generator E) : Type 0 where
    pub config : g.config ≡ c
    pub live : All (λ o. InBand c o.side o.price) g.live_orders

  -- A live price of a side is in its band.
  live_price :
      (c : Config E) (side : Side) (g : Generator E) (p : Price)
      → IsBanded c g
      → IsIn p (side_prices side g.live_orders)
      → InBand c side p
  live_price c side g p v h =
      let (l, there, on_side, same) = side_prices-IsIn side g.live_orders p h in
      subst (λ d. InBand c d p) on_side
        (subst (InBand c l.side) same
          (All-IsIn (λ o. InBand c o.side o.price) g.live_orders l v.live there))

  best_ask_none :
      (g : Generator E)
      → side_prices ask g.live_orders ≡ []
      → best_ask E g ≡ g.config.mid_price +ℤ g.config.spread_half_width
  unfolding best_ask
  best_ask_none g e = rw (e, best_ask) refl

  best_bid_none :
      (g : Generator E)
      → side_prices bid g.live_orders ≡ []
      → best_bid E g ≡ g.config.mid_price -ℤ g.config.spread_half_width
  unfolding best_bid
  best_bid_none g e = rw (e, best_bid) refl

  best_ask-InBand :
      (c : Config E) (g : Generator E) → IsSound c → IsBanded c g → InBand c ask (best_ask E g)
  best_ask-InBand c g s v = elim (List-cases (side_prices ask g.live_orders)) [
    | inl e ↦ subst (InBand c ask) (sym (best_ask_none g e)) (
        subst (λ d. InBand c ask (d.mid_price +ℤ d.spread_half_width)) (sym v.config)
          (omega int_laws, omega int_laws))
    | inr (p, ps, e) ↦
        let (_, _, among) = min_price-IsBest p ps in
        subst (InBand c ask) (sym (best_ask_lem E g p ps e))
          (live_price c ask g (min_price p ps) v (subst (IsIn (min_price p ps)) (sym e) among))
  ]

  best_bid-InBand :
      (c : Config E) (g : Generator E) → IsSound c → IsBanded c g → InBand c bid (best_bid E g)
  best_bid-InBand c g s v = elim (List-cases (side_prices bid g.live_orders)) [
    | inl e ↦ subst (InBand c bid) (sym (best_bid_none g e)) (
        subst (λ d. InBand c bid (d.mid_price -ℤ d.spread_half_width)) (sym v.config)
          (omega int_laws, omega int_laws))
    | inr (p, ps, e) ↦
        let (_, _, among) = max_price-IsBest p ps in
        subst (InBand c bid) (sym (best_bid_lem E g p ps e))
          (live_price c bid g (max_price p ps) v (subst (IsIn (max_price p ps)) (sym e) among))
  ]

  -- An order that the generator makes is in its band, and leaves the list and the configuration.
  unfoldable pub IsMade : Config E → Order × Generator E → Type 0
  IsMade c (o, g) = InBand c o.side o.price × IsBanded c g

  jitter :
      (c : Config E) (g : Generator E)
      → IsSound c
      → IsBanded c g
      → let j = (E.draw_int (pos 1) g.config.spread_half_width g.world).0 in
        (pos 1 ≤ℤ j) × (j ≤ℤ c.spread_half_width)
  jitter c g s v =
      let j = (E.draw_int (pos 1) g.config.spread_half_width g.world).0 in
      subst (λ (d : Config E). (pos 1 ≤ℤ j) × (j ≤ℤ d.spread_half_width)) v.config
        (E.draw_int_bounds (pos 1) g.config.spread_half_width g.world
          (subst (λ (d : Config E). pos 1 ≤ℤ d.spread_half_width) (sym v.config) s.0))

  pub generate_mm_order-IsMade :
      (c : Config E) (side : Side) (g : Generator E)
      → IsSound c
      → IsBanded c g
      → IsMade c (generate_mm_order E side g)
  unfolding IsMade generate_mm_order make_order
  generate_mm_order-IsMade c bid g s v =
      let j = (E.draw_int (pos 1) g.config.spread_half_width g.world).0 in
      let within = jitter c g s v in
      (
        subst (λ d. InBand c bid (d.mid_price -ℤ j)) (sym v.config)
            (omega int_laws, omega int_laws),
        record { config = v.config; live = v.live },
      )
  generate_mm_order-IsMade c ask g s v =
      let j = (E.draw_int (pos 1) g.config.spread_half_width g.world).0 in
      let within = jitter c g s v in
      (
        subst (λ d. InBand c ask (d.mid_price +ℤ j)) (sym v.config)
            (omega int_laws, omega int_laws),
        record { config = v.config; live = v.live },
      )

  pub generate_aggressor_order-IsMade :
      (c : Config E) (side : Side) (g : Generator E)
      → IsSound c
      → IsBanded c g
      → IsMade c (generate_aggressor_order E side g)
  unfolding IsMade generate_aggressor_order make_order
  generate_aggressor_order-IsMade c bid g s v =
      let best = best_ask-InBand c g s v in
      (
        subst (λ d. InBand c bid (best_ask E g +ℤ d.aggressor_offset)) (sym v.config)
            (omega int_laws, omega int_laws),
        record { config = v.config; live = v.live },
      )
  generate_aggressor_order-IsMade c ask g s v =
      let best = best_bid-InBand c g s v in
      (
        subst (λ d. InBand c ask (best_bid E g -ℤ d.aggressor_offset)) (sym v.config)
            (omega int_laws, omega int_laws),
        record { config = v.config; live = v.live },
      )
