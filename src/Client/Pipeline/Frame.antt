-- ===== src/Client/Pipeline/Frame.antt =====
-- What a step of one thread leaves alone.
use tradingmarketsimulator.Prelude.{
  ℕ, suc, Bool, false, Option, none, some, List, [], ◌∷◌, ◌++◌, ltb, ◌==◌, ◌&&◌, if-cases,
  Option-cases, inl, inr,
}
use tradingmarketsimulator.Spsc.{Spsc}
use tradingmarketsimulator.Client.{
  Doubles, MarketData, market_data_size, Signal, ClientOrder, Tcp, Expected,
}
use tradingmarketsimulator.Client.Strategy.{generate_order}
use tradingmarketsimulator.Client.Pipeline.{
  Phase, Client, Feed, network_step, receive_step, receive, push_tick, retry_step, reconnect,
  wait_step, execution_step, count_on, max_retries, is_some, in_phase,
}

module _ (D : Doubles) (T : Tcp D) (MQ : Spsc (MarketData D)) (SQ : Spsc (Signal D))
    (P : Client D T MQ SQ → Type 0) where
  -- The property holds whatever is in the fields that the network thread writes.
  abbrev pub BeyondNetwork : Client D T MQ SQ → Type 0
  BeyondNetwork c =
      (f : Feed D T MQ SQ) (r : Bool) (q : MQ.Queue) (w : T.World)
      → P (record c { feed = f; running = r; market_data_queue = q; world = w })

  beyond-receive :
      (got : Option (ℕ × MarketData D)) (c : Client D T MQ SQ)
      → BeyondNetwork c
      → P (receive D T MQ SQ got c)
  unfolding receive push_tick
  beyond-receive none c h = h _ c.running c.market_data_queue c.world
  beyond-receive (some (n, md)) c h =
      let keep = λ (f : Feed D T MQ SQ) (q : MQ.Queue). h f c.running q c.world in
      if-cases P (n == market_data_size)
        (if-cases P (MQ.push md c.market_data_queue).0 (keep _ _) (keep _ _))
        (keep c.feed c.market_data_queue)

  beyond-receive_step : (c : Client D T MQ SQ) → BeyondNetwork c → P (receive_step D T MQ SQ c)
  unfolding receive_step
  beyond-receive_step c h =
      let keep = λ (f : Feed D T MQ SQ). h f c.running c.market_data_queue c.world in
      if-cases P c.running
        (elim (Option-cases c.feed.tcp_client) [
          | inl lost ↦ rw lost (keep (record c.feed { phase = Phase.retrying 0 }))
          | inr (s, up) ↦
              rw up
                (beyond-receive (T.recv s c.world).0 (record c { world = (T.recv s c.world).1 }) h)
        ])
        (keep (record c.feed { phase = Phase.exited }))

  beyond-retried :
      (result : Expected) (k : ℕ) (f : Feed D T MQ SQ) (w : T.World) (c : Client D T MQ SQ)
      → BeyondNetwork c
      → P (elim result [
        | Expected.ok ↦ in_phase D T MQ SQ Phase.receiving (record c { feed = f; world = w })
        | Expected.unexpected _ ↦
            in_phase D T MQ SQ (Phase.retrying k) (record c { feed = f; world = w })
      ])
  beyond-retried Expected.ok k f w c h =
      h (record f { phase = Phase.receiving }) c.running c.market_data_queue w
  beyond-retried (Expected.unexpected x) k f w c h =
      h (record f { phase = Phase.retrying k }) c.running c.market_data_queue w

  -- So it holds after a round of the network thread.
  pub beyond-network_step : (c : Client D T MQ SQ) → BeyondNetwork c → P (network_step D T MQ SQ c)
  unfolding network_step retry_step wait_step
  beyond-network_step c h =
      let keep =
        λ (p : Phase D) (r : Bool) (q : MQ.Queue). h (record c.feed { phase = p }) r q c.world in
      let (result, f, w) = reconnect D T MQ SQ c.feed c.world in
      elim c.feed.phase
        as (λ p. P (elim p [
          | Phase.receiving ↦ receive_step D T MQ SQ c
          | Phase.retrying k ↦ retry_step D T MQ SQ k c
          | Phase.waiting md ↦ wait_step D T MQ SQ md c
          | Phase.exited ↦ c
        ])) [
          | Phase.receiving ↦ beyond-receive_step c h
          | Phase.retrying k ↦
              if-cases P (ltb k max_retries && c.running) (beyond-retried result (suc k) f w c h) (
                if-cases P (is_some c.feed.tcp_client)
                  (keep Phase.receiving c.running c.market_data_queue)
                  (keep Phase.exited false c.market_data_queue))
          | Phase.waiting md ↦
              if-cases P c.running (keep _ c.running _)
                (keep Phase.receiving c.running c.market_data_queue)
          | Phase.exited ↦ h c.feed c.running c.market_data_queue c.world
        ]

  -- And so for the fields that the execution thread writes.
  pub beyond-execution_step :
      (c : Client D T MQ SQ)
      → ((q : SQ.Queue) (w : T.World) (k i : ℕ) (os : List (ClientOrder D))
          → P (record c {
            signal_queue = q;
            world = w;
            orders_sent = k;
            order_id = i;
            executed = os;
          }))
      → P (execution_step D T MQ SQ c)
  unfolding execution_step
  beyond-execution_step c h =
      let q : SQ.Queue = (SQ.pop c.signal_queue).1 in
      if-cases P c.running
        (elim (Option-cases (SQ.pop c.signal_queue).0) [
          | inl e ↦ rw e (h q c.world c.orders_sent c.order_id c.executed)
          | inr (s, e) ↦
              let (now, w) = T.now c.world in
              let (o, id) = generate_order D s c.order_id now in
              rw e (h q w (count_on c.orders_sent) id (c.executed ++ (o ∷ [])))
        ])
        (h c.signal_queue c.world c.orders_sent c.order_id c.executed)
