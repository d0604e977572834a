-- ===== src/Client/Strategy.antt =====
-- src/mms/app/Core.cc: `_compute_signal` and `_generate_order`.
use tradingmarketsimulator.Prelude.{
  ℕ, ◌+◌, ◌%◌, ◌^◌, ◌≡◌, refl, sym, ap, ◌∙◌, Bool, true, false, if◌then◌else◌, Bool-cases, inl, inr,
  ◌⊎◌,
}
use tradingmarketsimulator.Client.{Doubles, MarketData, Signal, SignalType, OrderSide, ClientOrder}

module _ (D : Doubles) where
  -- `signal` is declared without an initializer: `stale` is what its members hold until they are set.
  unfoldable pub compute_signal : MarketData D → Signal D → Signal D
  compute_signal md stale =
      let signal : Signal D = record stale { symbol = md.symbol; timestamp_ns = md.timestamp_ns } in
      let spread = D.minus md.ask md.bid in
      let mid = D.over_two (D.plus md.ask md.bid) in
      if D.less spread D.tight
      then (if D.less mid D.low
          then record signal { type = SignalType.buy; price = md.ask; quantity = 100 }
          else if D.less D.high mid
          then record signal { type = SignalType.sell; price = md.bid; quantity = 100 }
          else record signal { type = SignalType.hold; price = D.minus_one })
      else signal

  abbrev pub side_of : SignalType → OrderSide
  side_of SignalType.buy = OrderSide.buy
  side_of SignalType.sell = OrderSide.sell
  side_of SignalType.hold = OrderSide.sell

  abbrev pub is_hold : SignalType → Bool
  is_hold SignalType.hold = true
  is_hold SignalType.buy = false
  is_hold SignalType.sell = false

  -- `id` is the counter, and `now` the time: the order, and the counter after it.
  unfoldable pub generate_order : Signal D → ℕ → ℕ → ClientOrder D × ℕ
  generate_order signal id now = (
    record {
      symbol = signal.symbol;
      side = side_of signal.type;
      price = signal.price;
      quantity = signal.quantity;
      order_id = id;
      timestamp_ns = now;
    },
    (id + 1) % 2 ^ 64,
  )

  buys :
      (md : MarketData D) (stale : Signal D)
      → D.less (D.minus md.ask md.bid) D.tight ≡ true
      → D.less (D.over_two (D.plus md.ask md.bid)) D.low ≡ true
      → ((compute_signal md stale).type ≡ SignalType.buy)
        × ((compute_signal md stale).price ≡ md.ask)
        × ((compute_signal md stale).quantity ≡ 100)
  unfolding compute_signal
  buys md stale tight low = rw (tight, low) (refl, refl, refl)

  sells :
      (md : MarketData D) (stale : Signal D)
      → D.less (D.minus md.ask md.bid) D.tight ≡ true
      → D.less (D.over_two (D.plus md.ask md.bid)) D.low ≡ false
      → D.less D.high (D.over_two (D.plus md.ask md.bid)) ≡ true
      → ((compute_signal md stale).type ≡ SignalType.sell)
        × ((compute_signal md stale).price ≡ md.bid)
        × ((compute_signal md stale).quantity ≡ 100)
  unfolding compute_signal
  sells md stale tight low high = rw (tight, low, high) (refl, refl, refl)

  holds :
      (md : MarketData D) (stale : Signal D)
      → D.less (D.minus md.ask md.bid) D.tight ≡ true
      → D.less (D.over_two (D.plus md.ask md.bid)) D.low ≡ false
      → D.less D.high (D.over_two (D.plus md.ask md.bid)) ≡ false
      → (compute_signal md stale).type ≡ SignalType.hold
  unfolding compute_signal
  holds md stale tight low high = rw (tight, low, high) refl

  -- With a tight spread, a signal that is not HOLD becomes an order for 100 that takes the other side
  -- of the market: a buy at the ask when the middle is low, or a sale at the bid when it is high.
  pub tight_order_crosses :
      (md : MarketData D) (stale : Signal D) (id now : ℕ)
      → D.less (D.minus md.ask md.bid) D.tight ≡ true
      → is_hold (compute_signal md stale).type ≡ false
      → let o = (generate_order (compute_signal md stale) id now).0 in
        let mid = D.over_two (D.plus md.ask md.bid) in
        (o.quantity ≡ 100)
        × (((o.side ≡ OrderSide.buy) × (o.price ≡ md.ask) × (D.less mid D.low ≡ true))
            ⊎ ((o.side ≡ OrderSide.sell) × (o.price ≡ md.bid) × (D.less D.high mid ≡ true)))
  unfolding generate_order
  tight_order_crosses md stale id now tight active =
      let mid : D.Double = D.over_two (D.plus md.ask md.bid) in
      elim (Bool-cases (D.less mid D.low)) [
        | inl low ↦ let e = buys md stale tight low in (e.2, inl (ap side_of e.0, e.1, low))
        | inr not_low ↦ elim (Bool-cases (D.less D.high mid)) [
          | inl high ↦
              let e = sells md stale tight not_low high in (e.2, inr (ap side_of e.0, e.1, high))
          | inr not_high ↦
              let e : true ≡ false =
                sym (ap is_hold (holds md stale tight not_low not_high)) ∙ active in
              absurd cc
        ]
      ]
