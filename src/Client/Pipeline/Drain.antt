-- ===== src/Client/Pipeline/Drain.antt =====
-- While the network is quiet, the strategy and the execution thread empty their queues.
use tradingmarketsimulator.Prelude.{
  ℕ, zero, suc, ◌≤◌, ◌≡◌, refl, sym, ap, ◌∙◌, subst, true, List, [], ◌∷◌, ◌++◌, map, append-nil,
  append_assoc, length, arith, if-cases,
}
use tradingmarketsimulator.Spsc.{Spsc}
use tradingmarketsimulator.Client.{Doubles, MarketData, Signal, Tcp}
use tradingmarketsimulator.Client.Strategy.{compute_signal, is_hold}
use tradingmarketsimulator.Client.Pipeline.{Client, strategy_step, push_signal, execution_step}
use tradingmarketsimulator.Client.Pipeline.Launch.{
  launch, Launched, launch-TicksArrive, launch-OrdersFollow,
}
use tradingmarketsimulator.Client.Pipeline.Delivery.{Run-OrdersFollow}
use tradingmarketsimulator.Client.Pipeline.Delivery.Orders.{
  OrdersFollow, OrdersFollow-execution, OrdersFollow-strategy, ordered, signalled,
}
use tradingmarketsimulator.Client.Pipeline.Ticks.{Run-TicksArrive}
use tradingmarketsimulator.Client.Pipeline.Ticks.Arrival.{in_hand, whole}

module _ (D : Doubles) (T : Tcp D) (MQ : Spsc (MarketData D)) (SQ : Spsc (Signal D)) where
  -- Rounds of the strategy thread, one for each of what the memory of the signal holds
  unfoldable pub strategy_rounds : List (Signal D) → Client D T MQ SQ → Client D T MQ SQ
  strategy_rounds [] c = c
  strategy_rounds (stale ∷ stales) c = strategy_rounds stales (strategy_step D T MQ SQ stale c)

  pub execution_rounds : ℕ → Client D T MQ SQ → Client D T MQ SQ
  execution_rounds zero c = c
  execution_rounds (suc n) c = execution_rounds n (execution_step D T MQ SQ c)

  -- The client runs, these ticks are queued, and those have been handled.
  abbrev Queued : List (MarketData D) → List (MarketData D) → Client D T MQ SQ → Type 0
  Queued queued handled c =
      (c.running ≡ true) × (MQ.entries c.market_data_queue ≡ queued) × (c.handled ≡ handled)

  Queued-push_signal :
      (queued handled : List (MarketData D)) (s : Signal D) (c : Client D T MQ SQ)
      → Queued queued handled c
      → Queued queued handled (push_signal D T MQ SQ s c)
  unfolding push_signal
  Queued-push_signal queued handled s c h =
      if-cases (Queued queued handled) (is_hold D s.type) h
        (if-cases (Queued queued handled) (SQ.push s c.signal_queue).0 h h)

  Queued-strategy :
      (md : MarketData D) (rest handled : List (MarketData D)) (stale : Signal D)
      (c : Client D T MQ SQ)
      → Queued (md ∷ rest) handled c
      → Queued rest (handled ++ (md ∷ [])) (strategy_step D T MQ SQ stale c)
  unfolding strategy_step
  Queued-strategy md rest handled stale c (running, queued, done) =
      let front = MQ.pop_front md rest c.market_data_queue queued in
      rw (running, front.0)
        (Queued-push_signal rest (handled ++ (md ∷ [])) (compute_signal D md stale) _
          (running, front.1, ap (λ ms. ms ++ (md ∷ [])) done))

  Queued-strategy_idle :
      (handled : List (MarketData D)) (stale : Signal D) (c : Client D T MQ SQ)
      → Queued [] handled c
      → Queued [] handled (strategy_step D T MQ SQ stale c)
  unfolding strategy_step
  Queued-strategy_idle handled stale c (running, queued, done) =
      let empty = MQ.pop_empty c.market_data_queue queued in
      rw (running, empty.0) (running, empty.1, done)

  -- As many rounds as ticks empty the queue.
  Queued-strategy_rounds :
      (queued handled : List (MarketData D)) (stales : List (Signal D)) (c : Client D T MQ SQ)
      → length queued ≤ length stales
      → Queued queued handled c
      → Queued [] (handled ++ queued) (strategy_rounds stales c)
  unfolding strategy_rounds
  Queued-strategy_rounds [] handled [] c k h =
      subst (λ ms. Queued [] ms c) (sym (append-nil handled)) h
  Queued-strategy_rounds [] handled (s ∷ stales) c k h =
      Queued-strategy_rounds [] handled stales _ (omega arith) (Queued-strategy_idle handled s c h)
  Queued-strategy_rounds (md ∷ queued) handled [] c k h = absurd (omega arith)
  Queued-strategy_rounds (md ∷ queued) handled (s ∷ stales) c k h =
      let c' = strategy_step D T MQ SQ s c in
      subst (λ ms. Queued [] ms (strategy_rounds stales c')) (append_assoc handled (md ∷ []) queued)
        (Queued-strategy_rounds queued (handled ++ (md ∷ [])) stales c' (omega arith)
          (Queued-strategy md queued handled s c h))

  -- The client runs, these signals are queued, and those were pushed.
  abbrev Waiting : List (Signal D) → List (MarketData D) → Client D T MQ SQ → Type 0
  Waiting signals handled c =
      (c.running ≡ true) × (SQ.entries c.signal_queue ≡ signals) × (c.handled ≡ handled)

  Waiting-execution :
      (s : Signal D) (rest : List (Signal D)) (handled : List (MarketData D)) (c : Client D T MQ SQ)
      → Waiting (s ∷ rest) handled c
      → Waiting rest handled (execution_step D T MQ SQ c)
  unfolding execution_step
  Waiting-execution s rest handled c (running, queued, done) =
      let front = SQ.pop_front s rest c.signal_queue queued in
      rw (running, front.0) (running, front.1, done)

  Waiting-execution_idle :
      (handled : List (MarketData D)) (c : Client D T MQ SQ)
      → Waiting [] handled c
      → Waiting [] handled (execution_step D T MQ SQ c)
  unfolding execution_step
  Waiting-execution_idle handled c (running, queued, done) =
      let empty = SQ.pop_empty c.signal_queue queued in
      rw (running, empty.0) (running, empty.1, done)

  Waiting-execution_rounds :
      (signals : List (Signal D)) (handled : List (MarketData D)) (n : ℕ) (c : Client D T MQ SQ)
      → length signals ≤ n
      → Waiting signals handled c
      → Waiting [] handled (execution_rounds n c)
  unfolding execution_rounds
  Waiting-execution_rounds [] handled zero c k h = h
  Waiting-execution_rounds [] handled (suc n) c k h =
      Waiting-execution_rounds [] handled n _ (omega arith) (Waiting-execution_idle handled c h)
  Waiting-execution_rounds (s ∷ signals) handled zero c k h = absurd (omega arith)
  Waiting-execution_rounds (s ∷ signals) handled (suc n) c k h =
      Waiting-execution_rounds signals handled n _ (omega arith)
        (Waiting-execution s signals handled c h)

  OrdersFollow-strategy_rounds :
      (stales : List (Signal D)) (c : Client D T MQ SQ)
      → OrdersFollow D T MQ SQ c
      → OrdersFollow D T MQ SQ (strategy_rounds stales c)
  unfolding strategy_rounds
  OrdersFollow-strategy_rounds [] c v = v
  OrdersFollow-strategy_rounds (s ∷ stales) c v =
      OrdersFollow-strategy_rounds stales _ (OrdersFollow-strategy D T MQ SQ s c v)

  OrdersFollow-execution_rounds :
      (n : ℕ) (c : Client D T MQ SQ)
      → OrdersFollow D T MQ SQ c
      → OrdersFollow D T MQ SQ (execution_rounds n c)
  unfolding execution_rounds
  OrdersFollow-execution_rounds zero c v = v
  OrdersFollow-execution_rounds (suc n) c v =
      OrdersFollow-execution_rounds n _ (OrdersFollow-execution D T MQ SQ c v)

  -- Nothing gets stuck: whatever the threads have done since their start, if the client runs and no tick
  -- is in the hand of the network thread, as many rounds of the strategy as ticks are queued and then
  -- as many of the execution thread as signals are queued handle every tick that was received, and
  -- execute every signal that was pushed, in order.
  pub queues_drain :
      (d : Client D T MQ SQ) (stales : List (Signal D)) (n : ℕ)
      → Launched D T MQ SQ d
      → d.running ≡ true
      → in_hand D T MQ SQ d.feed.phase ≡ []
      → length (MQ.entries d.market_data_queue) ≤ length stales
      → length (SQ.entries (strategy_rounds stales d).signal_queue) ≤ n
      → let e = execution_rounds n (strategy_rounds stales d) in
        (e.handled ≡ d.feed.got)
        × (map (ordered D T MQ SQ) e.executed ≡ map (signalled D T MQ SQ) e.pushed)
  queues_drain d stales n l running hand ticks signals =
      let c = launch D T MQ SQ l.feed l.ticks l.signals l.after in
      let arrived = Run-TicksArrive D T MQ SQ c d l.run (launch-TicksArrive D T MQ SQ d l) in
      let follow = Run-OrdersFollow D T MQ SQ c d l.run (launch-OrdersFollow D T MQ SQ d l) in
      let after = strategy_rounds stales d in
      let e = execution_rounds n after in
      let queued : List (MarketData D) = MQ.entries d.market_data_queue in
      let handled = Queued-strategy_rounds queued d.handled stales d ticks (running, refl, refl) in
      let executed =
        Waiting-execution_rounds (SQ.entries after.signal_queue) after.handled n after signals
          (handled.0, refl, refl) in
      let orders =
        OrdersFollow-execution_rounds n after (OrdersFollow-strategy_rounds stales d follow) in
      let all : d.handled ++ queued ≡ d.feed.got =
        ap (λ ms. d.handled ++ ms) (sym (append-nil queued))
        ∙ ap (λ (h : List (MarketData D)). d.handled ++ (queued ++ (h ++ []))) (sym hand)
        ∙ whole D T MQ SQ d running arrived in
      (
        executed.2 ∙ handled.2 ∙ all,
        sym (append-nil (map (ordered D T MQ SQ) e.executed))
            ∙ ap (λ ss. map (ordered D T MQ SQ) e.executed ++ map (signalled D T MQ SQ) ss)
                (sym executed.1)
            ∙ orders.in_order,
      )
