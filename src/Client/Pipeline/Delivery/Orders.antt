-- ===== src/Client/Pipeline/Delivery/Orders.antt =====
-- The orders that follow the signals, through the steps of the strategy and of execution.
use tradingmarketsimulator.Prelude.{
  ℕ, ◌+◌, ◌%◌, ◌^◌, ◌≡◌, refl, sym, ap, ◌∙◌, Bool, List, [], ◌∷◌, ◌++◌, map, length, length-append,
  append_assoc, arith, Bool-cases, if-cases, List-cases, Option-cases, inl, inr,
}
use mathlib.Core.List.{map-append}
use tradingmarketsimulator.Spsc.{Spsc}
use tradingmarketsimulator.Client.{Doubles, MarketData, Signal, ClientOrder, OrderSide, Tcp}
use tradingmarketsimulator.Client.Strategy.{compute_signal, generate_order, is_hold, side_of}
use tradingmarketsimulator.Client.Pipeline.{
  Client, Feed, strategy_step, push_signal, execution_step,
}

module _ (D : Doubles) (T : Tcp D) (MQ : Spsc (MarketData D)) (SQ : Spsc (Signal D)) where
  -- What an order takes from its signal
  abbrev pub Terms : Type 0
  Terms = List ℕ × OrderSide × D.Double × ℕ

  abbrev pub ordered : ClientOrder D → Terms
  ordered o = (o.symbol, o.side, o.price, o.quantity)

  abbrev pub signalled : Signal D → Terms
  signalled s = (s.symbol, side_of D s.type, s.price, s.quantity)

  -- Every signal that was pushed is an order or in the queue, in order; the counters count, and the
  -- counter of the identifiers is one ahead.
  pub record OrdersFollow (c : Client D T MQ SQ) : Type 0 where
    pub in_order :
        map ordered c.executed ++ map signalled (SQ.entries c.signal_queue) ≡ map signalled c.pushed
    pub generated : c.signals_generated ≡ length c.pushed % 2 ^ 64
    pub sent : c.orders_sent ≡ length c.executed % 2 ^ 64
    pub numbered : c.order_id ≡ (1 + length c.executed) % 2 ^ 64

  -- Signals that go to the end of the queue follow those that were pushed.
  signals_follow :
      (s : Signal D) (es : List (Signal D)) (executed : List (ClientOrder D))
      (pushed : List (Signal D))
      → map ordered executed ++ map signalled es ≡ map signalled pushed
      → map ordered executed ++ map signalled (es ++ (s ∷ [])) ≡ map signalled (pushed ++ (s ∷ []))
  signals_follow s es executed pushed h =
      ap (λ ts. map ordered executed ++ ts) (map-append signalled es (s ∷ []))
      ∙ sym (append_assoc (map ordered executed) (map signalled es) (signalled s ∷ []))
      ∙ ap (λ ts. ts ++ (signalled s ∷ [])) h
      ∙ sym (map-append signalled pushed (s ∷ []))

  -- The first of the queue becomes the last of the orders.
  order_follows :
      (o : ClientOrder D) (s : Signal D) (rest : List (Signal D)) (executed : List (ClientOrder D))
      → ordered o ≡ signalled s
      → map ordered (executed ++ (o ∷ [])) ++ map signalled rest
        ≡ map ordered executed ++ map signalled (s ∷ rest)
  order_follows o s rest executed h =
      ap (λ ts. ts ++ map signalled rest) (map-append ordered executed (o ∷ []))
      ∙ append_assoc (map ordered executed) (ordered o ∷ []) (map signalled rest)
      ∙ ap (λ t. map ordered executed ++ (t ∷ map signalled rest)) h

  OrdersFollow-push_signal :
      (s : Signal D) (c : Client D T MQ SQ)
      → OrdersFollow c
      → OrdersFollow (push_signal D T MQ SQ s c)
  unfolding push_signal
  OrdersFollow-push_signal s c v =
      if-cases OrdersFollow (is_hold D s.type) v (elim (Bool-cases (SQ.push s c.signal_queue).0) [
        | inl e ↦ rw e (record {
          in_order =
              ap (λ es. map ordered c.executed ++ map signalled es)
                (SQ.push_accepted s c.signal_queue e)
              ∙ signals_follow s (SQ.entries c.signal_queue) c.executed c.pushed v.in_order;
          generated = omega (arith, v.generated, length-append c.pushed (s ∷ []));
          sent = v.sent;
          numbered = v.numbered;
        })
        | inr e ↦ rw e (record {
          in_order =
              ap (λ es. map ordered c.executed ++ map signalled es)
                (SQ.push_refused s c.signal_queue e)
              ∙ v.in_order;
          generated = v.generated;
          sent = v.sent;
          numbered = v.numbered;
        })
      ])

  pub OrdersFollow-execution :
      (c : Client D T MQ SQ) → OrdersFollow c → OrdersFollow (execution_step D T MQ SQ c)
  unfolding execution_step generate_order
  OrdersFollow-execution c v = elim (List-cases (SQ.entries c.signal_queue)) [
    | inl e ↦
        let empty = SQ.pop_empty c.signal_queue e in
        if-cases OrdersFollow c.running
          (rw empty.0 (record {
            in_order =
                ap (λ es. map ordered c.executed ++ map signalled es) (empty.1 ∙ sym e)
                ∙ v.in_order;
            generated = v.generated;
            sent = v.sent;
            numbered = v.numbered;
          }))
          v
    | inr (s, rest, e) ↦
        let front = SQ.pop_front s rest c.signal_queue e in
        let (now, _) = T.now c.world in
        let o = (generate_order D s c.order_id now).0 in
        if-cases OrdersFollow c.running
          (rw front.0 (record {
            in_order =
                ap (λ es. map ordered (c.executed ++ (o ∷ [])) ++ map signalled es) front.1
                ∙ order_follows o s rest c.executed refl
                ∙ ap (λ es. map ordered c.executed ++ map signalled es) (sym e)
                ∙ v.in_order;
            generated = v.generated;
            sent = omega (arith, v.sent, length-append c.executed (o ∷ []));
            numbered = omega (arith, v.numbered, length-append c.executed (o ∷ []));
          }))
          v
  ]

  -- The steps of the others leave the signals and orders alone.
  pub OrdersFollow-elsewhere :
      (c : Client D T MQ SQ) (f : Feed D T MQ SQ) (r : Bool) (q : MQ.Queue) (w : T.World)
      (h : List (MarketData D))
      → OrdersFollow c
      → OrdersFollow
          (record c { feed = f; running = r; market_data_queue = q; world = w; handled = h })
  OrdersFollow-elsewhere c f r q w h v = record {
    in_order = v.in_order;
    generated = v.generated;
    sent = v.sent;
    numbered = v.numbered;
  }

  pub OrdersFollow-strategy :
      (stale : Signal D) (c : Client D T MQ SQ)
      → OrdersFollow c
      → OrdersFollow (strategy_step D T MQ SQ stale c)
  unfolding strategy_step
  OrdersFollow-strategy stale c v = elim (Option-cases (MQ.pop c.market_data_queue).0) [
    | inl e ↦
        if-cases OrdersFollow c.running
          (rw e (
            OrdersFollow-elsewhere c c.feed c.running (MQ.pop c.market_data_queue).1 c.world
              c.handled v))
          v
    | inr (md, e) ↦
        if-cases OrdersFollow c.running
          (rw e (
            OrdersFollow-push_signal (compute_signal D md stale) _ (
              OrdersFollow-elsewhere c c.feed c.running (MQ.pop c.market_data_queue).1 c.world
                (c.handled ++ (md ∷ [])) v)))
          v
  ]
