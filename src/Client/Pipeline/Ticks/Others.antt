-- ===== src/Client/Pipeline/Ticks/Others.antt =====
-- A round of the strategy or of the execution thread loses no tick.
use tradingmarketsimulator.Prelude.{
  ℕ, ◌≡◌, sym, ap, ◌∙◌, List, [], ◌∷◌, ◌++◌, append_assoc, if-cases, List-cases, inl, inr,
}
use tradingmarketsimulator.Spsc.{Spsc}
use tradingmarketsimulator.Client.{Doubles, MarketData, Signal, ClientOrder, Tcp}
use tradingmarketsimulator.Client.Strategy.{compute_signal, is_hold}
use tradingmarketsimulator.Client.Pipeline.{
  Client, count_on, strategy_step, push_signal, execution_step,
}
use tradingmarketsimulator.Client.Pipeline.Frame.{beyond-execution_step}
use tradingmarketsimulator.Client.Pipeline.Ticks.Arrival.{in_hand, TicksArrive}

module _ (D : Doubles) (T : Tcp D) (MQ : Spsc (MarketData D)) (SQ : Spsc (Signal D)) where
  abbrev Arrives : Client D T MQ SQ → Type 0
  Arrives = TicksArrive D T MQ SQ

  -- The signals' side of the client
  TicksArrive-elsewhere :
      (c : Client D T MQ SQ) (q : SQ.Queue) (w : T.World) (n k i : ℕ) (ss : List (Signal D))
      (os : List (ClientOrder D))
      → Arrives c
      → Arrives (record c {
        signal_queue = q;
        world = w;
        signals_generated = n;
        orders_sent = k;
        order_id = i;
        pushed = ss;
        executed = os;
      })
  TicksArrive-elsewhere c q w n k i ss os v = record {
    dropped = v.dropped;
    in_order = v.in_order;
    at_shutdown = v.at_shutdown;
    counted = v.counted;
  }

  TicksArrive-push_signal :
      (s : Signal D) (c : Client D T MQ SQ) → Arrives c → Arrives (push_signal D T MQ SQ s c)
  unfolding push_signal
  TicksArrive-push_signal s c v =
      let q : SQ.Queue = (SQ.push s c.signal_queue).1 in
      if-cases Arrives (is_hold D s.type) v (
        if-cases Arrives (SQ.push s c.signal_queue).0
          (TicksArrive-elsewhere c q c.world (count_on c.signals_generated) c.orders_sent c.order_id
            (c.pushed ++ (s ∷ [])) c.executed v)
          (TicksArrive-elsewhere c q c.world c.signals_generated c.orders_sent c.order_id c.pushed
            c.executed v))

  pub TicksArrive-execution :
      (c : Client D T MQ SQ) → Arrives c → Arrives (execution_step D T MQ SQ c)
  TicksArrive-execution c v =
      beyond-execution_step D T MQ SQ Arrives c
        (λ q w k i os. TicksArrive-elsewhere c q w c.signals_generated k i c.pushed os v)

  TicksArrive-handled :
      (c : Client D T MQ SQ) (q : MQ.Queue) (h : List (MarketData D))
      → h ++ MQ.entries q ≡ c.handled ++ MQ.entries c.market_data_queue
      → Arrives c
      → Arrives (record c { market_data_queue = q; handled = h })
  TicksArrive-handled c q h same v =
      let hand : List (MarketData D) = in_hand D T MQ SQ c.feed.phase ++ v.dropped in
      record {
        dropped = v.dropped;
        in_order =
            sym (append_assoc h (MQ.entries q) hand)
            ∙ ap (λ xs. xs ++ hand) same
            ∙ append_assoc c.handled (MQ.entries c.market_data_queue) hand
            ∙ v.in_order;
        at_shutdown = v.at_shutdown;
        counted = v.counted;
      }

  pub TicksArrive-strategy :
      (stale : Signal D) (c : Client D T MQ SQ)
      → Arrives c
      → Arrives (strategy_step D T MQ SQ stale c)
  unfolding strategy_step
  TicksArrive-strategy stale c v =
      let q : MQ.Queue = (MQ.pop c.market_data_queue).1 in
      elim (List-cases (MQ.entries c.market_data_queue)) [
        | inl e ↦
            let empty = MQ.pop_empty c.market_data_queue e in
            if-cases Arrives c.running
              (rw empty.0 (
                TicksArrive-handled c q c.handled (ap (λ es. c.handled ++ es) (empty.1 ∙ sym e)) v))
              v
        | inr (md, rest, e) ↦
            let front = MQ.pop_front md rest c.market_data_queue e in
            let h : List (MarketData D) = c.handled ++ (md ∷ []) in
            if-cases Arrives c.running
              (rw front.0 (
                TicksArrive-push_signal (compute_signal D md stale)
                  (record c { market_data_queue = q; handled = h })
                  (TicksArrive-handled c q h
                    (ap (λ es. h ++ es) front.1
                      ∙ append_assoc c.handled (md ∷ []) rest
                      ∙ ap (λ es. c.handled ++ es) (sym e))
                    v)))
              v
      ]
