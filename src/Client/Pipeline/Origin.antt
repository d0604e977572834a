-- ===== src/Client/Pipeline/Origin.antt =====
-- From the ticks that were received to the orders that were executed, through both queues.
use tradingmarketsimulator.Prelude.{
  ◌≡◌, refl, sym, ap, ◌∙◌, subst, true, false, [], ◌∷◌, ◌++◌, map, Bool-cases, if-cases,
  Option-cases, inl, inr, ◌⊎◌, Picks, Picks-append, Picks-more, Picks-front, Picks-map,
  Picks-of_map,
}
use tradingmarketsimulator.Spsc.{Spsc}
use tradingmarketsimulator.Client.{Doubles, MarketData, Signal, ClientOrder, OrderSide, Tcp}
use tradingmarketsimulator.Client.Strategy.{
  compute_signal, generate_order, is_hold, tight_order_crosses,
}
use tradingmarketsimulator.Client.Pipeline.{Client, strategy_step, push_signal, Step, Run}
use tradingmarketsimulator.Client.Pipeline.Launch.{
  launch, Launched, launch-TicksArrive, launch-OrdersFollow,
}
use tradingmarketsimulator.Client.Pipeline.Frame.{beyond-network_step, beyond-execution_step}
use tradingmarketsimulator.Client.Pipeline.Delivery.{Run-OrdersFollow}
use tradingmarketsimulator.Client.Pipeline.Delivery.Orders.{Terms, OrdersFollow, ordered, signalled}
use tradingmarketsimulator.Client.Pipeline.Ticks.{Run-TicksArrive}

module _ (D : Doubles) (T : Tcp D) (MQ : Spsc (MarketData D)) (SQ : Spsc (Signal D)) where
  -- A signal that the strategy made of a tick, and that is not HOLD
  abbrev Signals : MarketData D → Signal D → Type 0
  Signals md s = (stale : Signal D) × (s ≡ compute_signal D md stale) × (is_hold D s.type ≡ false)

  -- The signals that were pushed are made of the ticks that were handled.
  abbrev AreMade : Client D T MQ SQ → Type 0
  AreMade c = Picks Signals c.handled c.pushed

  AreMade-push_signal :
      (md : MarketData D) (stale : Signal D) (c : Client D T MQ SQ) (q : MQ.Queue)
      → AreMade c
      → AreMade (
          push_signal D T MQ SQ
            (compute_signal D md stale)
            (record c { market_data_queue = q; handled = c.handled ++ (md ∷ []) }))
  unfolding push_signal
  AreMade-push_signal md stale c q h =
      let s : Signal D = compute_signal D md stale in
      let more = Picks-more Signals c.handled (md ∷ []) c.pushed h in
      elim (Bool-cases (is_hold D s.type)) [
        | inl hold ↦ rw hold more
        | inr active ↦ rw active (
            if-cases AreMade (SQ.push s c.signal_queue).0
              (Picks-append Signals c.handled c.pushed md s (stale, refl, active) h) more)
      ]

  AreMade-strategy :
      (stale : Signal D) (c : Client D T MQ SQ)
      → AreMade c
      → AreMade (strategy_step D T MQ SQ stale c)
  unfolding strategy_step
  AreMade-strategy stale c h =
      let q : MQ.Queue = (MQ.pop c.market_data_queue).1 in
      if-cases AreMade c.running
        (elim (Option-cases (MQ.pop c.market_data_queue).0) [
          | inl e ↦ rw e h
          | inr (md, e) ↦ rw e (AreMade-push_signal md stale c q h)
        ])
        h

  AreMade-Step : (c d : Client D T MQ SQ) → Step D T MQ SQ c d → AreMade c → AreMade d
  AreMade-Step c _ Step.network h = beyond-network_step D T MQ SQ AreMade c (λ f r q w. h)
  AreMade-Step c _ (Step.strategy stale) h = AreMade-strategy stale c h
  AreMade-Step c _ Step.execution h = beyond-execution_step D T MQ SQ AreMade c (λ q w k i os. h)
  AreMade-Step c _ Step.cleared h = h

  Run-AreMade : (c d : Client D T MQ SQ) → Run D T MQ SQ c d → AreMade c → AreMade d
  Run-AreMade c _ Run.here h = h
  Run-AreMade c e (Run.then_step {d = d} r s) h = AreMade-Step d e s (Run-AreMade c d r h)

  -- The order is for the tick's symbol; and if the tick is tight, it is for 100 across the market,
  -- a buy at the ask below the low mark or a sale at the bid above the high one.
  abbrev pub Answers : MarketData D → ClientOrder D → Type 0
  Answers md o =
      let mid = D.over_two (D.plus md.ask md.bid) in
      (o.symbol ≡ md.symbol)
      × ((D.less (D.minus md.ask md.bid) D.tight ≡ false)
          ⊎ ((o.quantity ≡ 100)
              × (((o.side ≡ OrderSide.buy) × (o.price ≡ md.ask) × (D.less mid D.low ≡ true))
                  ⊎ ((o.side ≡ OrderSide.sell) × (o.price ≡ md.bid) × (D.less D.high mid ≡ true)))))

  symbol-compute_signal :
      (md : MarketData D) (stale : Signal D) → (compute_signal D md stale).symbol ≡ md.symbol
  unfolding compute_signal
  symbol-compute_signal md stale =
      if-cases (λ (s : Signal D). s.symbol ≡ md.symbol) (D.less (D.minus md.ask md.bid) D.tight)
        (if-cases (λ (s : Signal D). s.symbol ≡ md.symbol)
          (D.less (D.over_two (D.plus md.ask md.bid)) D.low) refl
          (if-cases (λ (s : Signal D). s.symbol ≡ md.symbol)
            (D.less D.high (D.over_two (D.plus md.ask md.bid))) refl refl))
        refl

  -- An order with the terms of such a signal answers its tick.
  answers :
      (md : MarketData D) (stale : Signal D) (o : ClientOrder D)
      → ordered D T MQ SQ o ≡ signalled D T MQ SQ (compute_signal D md stale)
      → is_hold D (compute_signal D md stale).type ≡ false
      → Answers md o
  unfolding generate_order
  answers md stale o same active =
      let s : Signal D = compute_signal D md stale in
      (
        ap (λ (t : Terms D T MQ SQ). t.0) same ∙ symbol-compute_signal md stale,
        elim (Bool-cases (D.less (D.minus md.ask md.bid) D.tight)) [
          | inr wide ↦ inl wide
          | inl tight ↦
              let crosses = tight_order_crosses D md stale 0 0 tight active in
              let side = ap (λ (t : Terms D T MQ SQ). t.1) same in
              let price = ap (λ (t : Terms D T MQ SQ). t.2) same in
              inr (
                ap (λ (t : Terms D T MQ SQ). t.3) same ∙ crosses.0,
                elim crosses.1 [
                  | inl (b, p, m) ↦ inl (side ∙ b, price ∙ p, m)
                  | inr (b, p, m) ↦ inr (side ∙ b, price ∙ p, m)
                ],
              )
        ],
      )

  orders_of_handled :
      (c : Client D T MQ SQ)
      → OrdersFollow D T MQ SQ c
      → AreMade c
      → Picks Answers c.handled c.executed
  orders_of_handled c v h =
      let Made = λ (md : MarketData D) (t : Terms D T MQ SQ).
        (stale : Signal D) × (t ≡ signalled D T MQ SQ (compute_signal D md stale))
        × (is_hold D (compute_signal D md stale).type ≡ false) in
      let made : Picks Made c.handled (map (signalled D T MQ SQ) c.pushed) =
        Picks-map Signals Made (signalled D T MQ SQ)
          (λ md s (stale, e, active). (
            stale,
            ap (signalled D T MQ SQ) e,
            ap (λ (s : Signal D). is_hold D s.type) (sym e) ∙ active,
          ))
          c.handled c.pushed h in
      Picks-of_map Answers Made (ordered D T MQ SQ)
        (λ md o (stale, e, active). answers md stale o e active) c.handled c.executed
        (Picks-front Made c.handled (map (ordered D T MQ SQ) c.executed)
          (map (signalled D T MQ SQ) (SQ.entries c.signal_queue))
          (subst (Picks Made c.handled) (sym v.in_order) made))

  -- From the start of the threads on a new feed and empty queues, however their steps interleave, every
  -- order that was executed answers a tick of its own among those that were received, in their
  -- order: it is for the symbol of that tick and, unless its spread is wide, for 100 across the market.
  pub orders_answer_ticks :
      (d : Client D T MQ SQ) → Launched D T MQ SQ d → Picks Answers d.feed.got d.executed
  unfolding launch
  orders_answer_ticks d l =
      let c = launch D T MQ SQ l.feed l.ticks l.signals l.after in
      let made = Run-AreMade c d l.run tt in
      let orders = Run-OrdersFollow D T MQ SQ c d l.run (launch-OrdersFollow D T MQ SQ d l) in
      let ticks = Run-TicksArrive D T MQ SQ c d l.run (launch-TicksArrive D T MQ SQ d l) in
      subst (λ ts. Picks Answers ts d.executed) ticks.in_order
        (Picks-more Answers d.handled _ d.executed (orders_of_handled d orders made))
