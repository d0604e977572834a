-- ===== src/Exchange/Session/Main.antt =====
-- src/mms/market_data/generator_main.cc: the market that the program makes.
use tradingmarketsimulator.Prelude.{
  ℕ, ◌+◌, ◌≤◌, ◌<◌, ◌≡◌, refl, sym, ap₂, subst, true, ◌&&◌, List, [], ◌∷◌, arith, ltb, min, All-map,
}
use tradingmarketsimulator.Prelude.Int.{pos, negsuc, ◌≤ℤ◌, ◌+ℤ◌, ◌-ℤ◌}
use tradingmarketsimulator.Market.Price.{Price}
use tradingmarketsimulator.Market.Price
use tradingmarketsimulator.Structs.{Side, bid, ask, Order, Contract, opposite, is_valid}
use tradingmarketsimulator.MarketData.Display.{is_call_flag}
use tradingmarketsimulator.Exchange.SideMap.{SideMap}
use tradingmarketsimulator.Exchange.Book
use tradingmarketsimulator.Exchange.Book.{Book, get_container}
use tradingmarketsimulator.Exchange.Book.Invariant.{IsValid}
use tradingmarketsimulator.Exchange.Book.Trades.{total, opposite_depth}
use tradingmarketsimulator.Outside.{Outside}
use tradingmarketsimulator.Exchange.Generator.{
  Config, Generator, side_prices, generate_mm_order, generate_aggressor_order,
}
use tradingmarketsimulator.Exchange.Session.{fill_fn, session_run}
use tradingmarketsimulator.Exchange.Session.Live.{AllResting}
use tradingmarketsimulator.Exchange.Session.Tracking.{IsTracked, session_stays-IsTracked}
use tradingmarketsimulator.Exchange.Session.Band.{
  InBand, IsSound, IsBanded, IsMade, generate_aggressor_order-IsMade,
}
use tradingmarketsimulator.Exchange.Session.Prices.{run-Keeps, session_prices}
use tradingmarketsimulator.Exchange.Session.Aggression.{generated, aggressor_trades}

-- `opt`: "SPCX"
abbrev pub main_option : Contract
main_option = record {
  strike = pos 10000;
  symbol = 83 ∷ 80 ∷ 67 ∷ 88 ∷ 0 ∷ 0 ∷ [];
  year = 26;
  month = 6;
  day = 20;
  flags = is_call_flag;
}

-- `OptionOrderBook<10, "SPCX", true>`
abbrev pub main_size : ℕ
main_size = 10

abbrev pub Within : ℕ → ℕ → Price → Type 0
Within lo hi p = (pos lo ≤ℤ p) × (p ≤ℤ pos hi)

-- What the bids and the asks of the program lie within
abbrev pub MainBand : Side → Price → Type 0
MainBand bid = Within 1400 3000
MainBand ask = Within 1000 2600

not_negative-is_valid : (p : Price) → pos 0 ≤ℤ p → Price.is_valid p ≡ true
unfolding Price.is_valid
not_negative-is_valid (pos n) h = ground arith
not_negative-is_valid (negsuc n) h = absurd (omega arith)

module _ (M : SideMap) (E : Outside) (aggressor_weight cancel_weight : E.Float) where
  -- `cfg`; the two weights are 0.20f and 0.0f.
  abbrev pub main_config : Config E
  main_config = record {
    mid_price = pos 2000;
    spread_half_width = pos 600;
    aggressor_offset = pos 400;
    mm_lot_max = 10;
    aggressor_lot_max = 20;
    aggressor_weight = aggressor_weight;
    cancel_weight = cancel_weight;
  }

  -- `order_gen`, with what the random numbers start from
  unfoldable pub main_generator : E.World → Generator E
  main_generator w = record {
    option = main_option;
    config = main_config;
    live_orders = [];
    next_id = 0;
    world = w;
  }

  -- The book and the generator after so many rounds of the thread that `main` starts
  unfoldable pub main_run : ℕ → E.World → Book M × Generator E
  main_run n w = session_run M E main_size n (Book.init M) (main_generator w)

  main_config-IsSound : IsSound E main_config
  main_config-IsSound = (omega arith, omega arith)

  main_run-IsBanded : (n : ℕ) (w : E.World) → IsBanded E main_config (main_run n w).1
  unfolding main_run main_generator
  main_run-IsBanded n w =
      run-Keeps E M main_size n main_config (Book.init M) (main_generator w) main_config-IsSound
        (record { config = refl; live = tt })

  main_run-IsTracked :
      (n : ℕ) (w : E.World) → let (b, g) = main_run n w in IsTracked M E main_size b g
  unfolding main_run main_generator
  main_run-IsTracked n w = session_stays-IsTracked M E main_size n (main_generator w) refl

  in-MainBand : (side : Side) (p : Price) → InBand E main_config side p → MainBand side p
  unfolding ◌+ℤ◌ ◌-ℤ◌
  in-MainBand bid p h = h
  in-MainBand ask p h = h

  -- The market of the program, after any number of rounds and whatever is drawn: the book is valid, with
  -- ten orders a side at most, the bids rest between 14.00 and 30.00 and the asks between 10.00 and
  -- 26.00, and so does every order that the generator makes next, of either kind.
  pub main_keeps_band :
      (n : ℕ) (w : E.World)
      → let (b, g) = main_run n w in
        IsValid M main_size b
        × AllResting M (λ o. MainBand o.side o.price) b
        × ((side : Side) → MainBand side (generate_mm_order E side g).0.price)
        × ((side : Side) → MainBand side (generate_aggressor_order E side g).0.price)
  unfolding main_run main_generator
  main_keeps_band n w =
      let (rest, quotes, hits) =
        session_prices E M main_size n (main_generator w) main_config-IsSound refl in
      let b = (main_run n w).0 in
      let band = λ (o : Order). in-MainBand o.side o.price in
      (
        (main_run-IsTracked n w).valid,
        (
          All-map (λ o. InBand E main_config o.side o.price) (λ o. MainBand o.side o.price) b.bids
              band rest.0,
          All-map (λ o. InBand E main_config o.side o.price) (λ o. MainBand o.side o.price) b.asks
              band rest.1,
        ),
        λ side. in-MainBand side _ (quotes side),
        λ side. in-MainBand side _ (hits side),
      )

  not_below_zero : (side : Side) (p : Price) → MainBand side p → pos 0 ≤ℤ p
  not_below_zero bid p h = omega arith
  not_below_zero ask p h = omega arith

  aggressor-is_valid :
      (side : Side) (g : Generator E)
      → IsBanded E main_config g
      → is_valid (generate_aggressor_order E (opposite side) g).0 ≡ true
  unfolding is_valid IsMade
  aggressor-is_valid side g v =
      let o = (generate_aggressor_order E (opposite side) g).0 in
      let (band, _) =
        generate_aggressor_order-IsMade E main_config (opposite side) g main_config-IsSound v in
      let price =
        not_negative-is_valid o.price
          (not_below_zero o.side o.price (in-MainBand o.side o.price band)) in
      let lot : 1 ≤ g.config.aggressor_lot_max =
        subst (λ (c : Config E). 1 ≤ c.aggressor_lot_max) (sym v.config) (omega arith) in
      let (_, _, some_qty) = generated M E main_size side g lot in
      let qty : ltb 0 o.qty ≡ true = ground arith in ap₂ ◌&&◌ price qty

  -- In the market of the program, after any number of rounds, an aggressor against a side with live
  -- orders always trades: that side gets smaller by what it takes, which is more than nothing.
  pub main_aggressor_trades :
      (n : ℕ) (w : E.World) (side : Side) (p : Price) (ps : List Price)
      → let (b, g) = main_run n w in
        side_prices side g.live_orders ≡ p ∷ ps
        → let (o, g') = generate_aggressor_order E (opposite side) g in
          let r = Book.add M (fill_fn M E main_size) main_size b o g' in
          (0 < min o.qty (opposite_depth M b o))
          × (total (get_container M r.book side) + min o.qty (opposite_depth M b o)
              ≡ total (get_container M b side))
  main_aggressor_trades n w side p ps quoted =
      let (b, g) = main_run n w in
      let v = main_run-IsBanded n w in
      aggressor_trades M E main_size b g side p ps (main_run-IsTracked n w)
        (subst (λ (c : Config E). pos 0 ≤ℤ c.aggressor_offset) (sym v.config) (omega arith))
        (subst (λ (c : Config E). 1 ≤ c.aggressor_lot_max) (sym v.config) (omega arith)) quoted
        (aggressor-is_valid side g v)
