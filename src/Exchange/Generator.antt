-- ===== src/Exchange/Generator.antt =====
-- include/mms/exchange/OptionOrderGenerator.hh and src/mms/exchange/OptionOrderGenerator.cc: the
-- thread that makes orders, cancels them, and keeps a list of those that it believes to rest.
pub mod Orders
use tradingmarketsimulator.Prelude.{
  ℕ, zero, suc, ◌+◌, ◌-◌, ◌%◌, ◌^◌, ◌≤◌, Bool, true, false, Option, none, some, List, [], ◌∷◌, ◌++◌,
  if◌then◌else◌, length, get_elem?, ◌==◌,
}
use tradingmarketsimulator.Prelude.Int.{ℤ, pos, negsuc, ◌+ℤ◌, ◌-ℤ◌, ◌≤ℤ◌, ltb_ℤ}
use tradingmarketsimulator.Market.Price.{Price}
use tradingmarketsimulator.Structs.{Side, bid, ask, Order, Contract}
use tradingmarketsimulator.Exchange.Book.{erase_id}
use tradingmarketsimulator.Outside.{Outside}

-- `OptionOrderGeneratorConfig`, without `sleep_dur`
pub record Config (E : Outside) : Type 0 where
  pub mid_price : Price
  pub spread_half_width : Price
  pub aggressor_offset : Price
  pub mm_lot_max : ℕ
  pub aggressor_lot_max : ℕ
  pub aggressor_weight : E.Float
  pub cancel_weight : E.Float

-- The members, without the callbacks and the thread. `world` stands for `m_prng` and the clock.
pub record Generator (E : Outside) : Type 0 where
  pub option : Contract
  pub config : Config E
  pub live_orders : List Order
  pub next_id : ℕ
  pub world : E.World

-- The prices of one side: `views::filter` and the projection `&Order::price`.
unfoldable pub side_prices : Side → List Order → List Price
side_prices side [] = []
side_prices bid (o ∷ os) =
    let rest = side_prices bid os in elim o.side [ bid ↦ o.price ∷ rest | ask ↦ rest ]
side_prices ask (o ∷ os) =
    let rest = side_prices ask os in elim o.side [ bid ↦ rest | ask ↦ o.price ∷ rest ]

-- `max_element` and `min_element`, from the first element on
unfoldable pub max_price : Price → List Price → Price
max_price best [] = best
max_price best (p ∷ ps) = max_price (if ltb_ℤ best p then p else best) ps

unfoldable pub min_price : Price → List Price → Price
min_price best [] = best
min_price best (p ∷ ps) = min_price (if ltb_ℤ p best then p else best) ps

module _ (E : Outside) where
  unfoldable pub track : Order → Generator E → Generator E
  track o g = record g { live_orders = g.live_orders ++ (o ∷ []) }

  unfoldable pub untrack : ℕ → Generator E → Generator E
  untrack id g = record g { live_orders = erase_id id g.live_orders }

  unfoldable pub seed : Order → Generator E → Generator E
  seed = track

  unfoldable pub notify_fill : ℕ → Generator E → Generator E
  notify_fill = untrack

  -- `++m_next_id` wraps at 32 bits.
  unfoldable pub make_order : Side → Price → ℕ → Generator E → Order × Generator E
  make_order side price qty g =
      let id = (g.next_id + 1) % 2 ^ 32 in
      let (now, w) = E.ticks g.world in
      (
        record {
          symbol = g.option.symbol;
          side = side;
          price = price;
          qty = qty;
          id = id;
          rcv_ts = now;
          flags = g.option.flags;
        },
        record g { next_id = id; world = w },
      )

  -- Sums of prices are taken to fit the 32 bits of `Price::type`.
  unfoldable pub best_bid : Generator E → Price
  best_bid g = elim (side_prices bid g.live_orders) [
    | [] ↦ g.config.mid_price -ℤ g.config.spread_half_width
    | p ∷ ps ↦ max_price p ps
  ]

  unfoldable pub best_ask : Generator E → Price
  best_ask g = elim (side_prices ask g.live_orders) [
    | [] ↦ g.config.mid_price +ℤ g.config.spread_half_width
    | p ∷ ps ↦ min_price p ps
  ]

  unfoldable pub generate_mm_order : Side → Generator E → Order × Generator E
  generate_mm_order side g =
      let mid = g.config.mid_price in
      let (jitter, w) = E.draw_int (pos 1) g.config.spread_half_width g.world in
      let price : Price = elim side [ bid ↦ mid -ℤ jitter | ask ↦ mid +ℤ jitter ] in
      let (qty, w') = E.draw_nat 1 g.config.mm_lot_max w in
      make_order side price qty (record g { world = w' })

  unfoldable pub generate_aggressor_order : Side → Generator E → Order × Generator E
  generate_aggressor_order side g =
      let offset = g.config.aggressor_offset in
      let price : Price = elim side [ bid ↦ best_ask g +ℤ offset | ask ↦ best_bid g -ℤ offset ] in
      let (qty, w) = E.draw_nat 1 g.config.aggressor_lot_max g.world in
      make_order side price qty (record g { world = w })

  -- An index out of range does not occur: the draw is within bounds.
  unfoldable pub pick_cancel_id : Generator E → Option ℕ × Generator E
  pick_cancel_id g = elim g.live_orders [
    | [] ↦ (none, g)
    | o ∷ os ↦
        let (i, w) = E.draw_nat 0 (length g.live_orders - 1) g.world in
        (
          elim (get_elem? g.live_orders i) [ none ↦ none | some x ↦ some x.id ],
          record g { world = w },
        )
  ]

  -- The callbacks `m_add_fn` and `m_remove_fn`. They may write the generator too: the book calls
  -- `notify_fill` from within them.
  module _ {B : Type 0} (add_fn : Order → B → Generator E → Bool × B × Generator E)
      (remove_fn : ℕ → B → Generator E → Bool × B × Generator E) where
    unfoldable pub submit : Order → B → Generator E → B × Generator E
    submit order b g =
        let (accepted, b', g') = add_fn order b g in
        if accepted then (b', track order g') else (b', g')

    unfoldable pub cancel : B → Generator E → B × Generator E
    cancel b g =
        let (picked, g') = pick_cancel_id g in
        elim picked [
          | none ↦ (b, g')
          | some id ↦ let (_, b', g'') = remove_fn id b g' in (b', untrack id g'')
        ]

    unfoldable pub aggress : B → Generator E → B × Generator E
    aggress b g =
        let (n, w) = E.draw_int (pos 0) (pos 1) g.world in
        let side : Side = elim n [ pos k ↦ if k == 0 then bid else ask | negsuc _ ↦ ask ] in
        let (order, g') = generate_aggressor_order side (record g { world = w }) in
        submit order b g'

    unfoldable pub quote : B → Generator E → B × Generator E
    quote b g =
        let (bid_order, g') = generate_mm_order bid g in
        let (ask_order, g'') = generate_mm_order ask g' in
        let (b', h) = submit bid_order b g'' in submit ask_order b' h

    -- The body of the loop of `run`
    unfoldable pub round : B → Generator E → B × Generator E
    round b g =
        let (r, w) = E.draw_unit g.world in
        let g' = record g { world = w } in
        let c = g.config in
        if E.less r c.cancel_weight
        then cancel b g'
        else (if E.less r (E.plus c.cancel_weight c.aggressor_weight)
            then aggress b g'
            else quote b g')

    -- `run`, which is asked to stop after a number of rounds
    unfoldable pub run : ℕ → B → Generator E → B × Generator E
    run zero b g = (b, g)
    run (suc n) b g = let (b', g') = round b g in run n b' g'
