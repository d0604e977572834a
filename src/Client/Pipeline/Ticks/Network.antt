-- ===== src/Client/Pipeline/Ticks/Network.antt =====
-- A round of the network thread loses no tick.
use tradingmarketsimulator.Prelude.{
  ℕ, suc, ◌%◌, ◌^◌, ◌≡◌, refl, sym, ap, ◌∙◌, true, false, Option, none, some, List, [], ◌∷◌, ◌++◌,
  length, length-append, append_assoc, append-nil, ltb, ◌==◌, ◌&&◌, arith, Bool-cases, if-cases,
  if-cases_eq, Option-cases, inl, inr,
}
use tradingmarketsimulator.Spsc.{Spsc}
use tradingmarketsimulator.Client.{Doubles, MarketData, market_data_size, Signal, Tcp, Expected}
use tradingmarketsimulator.Client.Pipeline.{
  Phase, Client, Feed, count_on, network_step, receive_step, receive, push_tick, retry_step,
  reconnect, wait_step, max_retries, is_some, in_phase,
}
use tradingmarketsimulator.Client.Pipeline.Ticks.Arrival.{
  in_hand, TicksArrive, arrive, whole, quiet,
}

module _ (D : Doubles) (T : Tcp D) (MQ : Spsc (MarketData D)) (SQ : Spsc (Signal D)) where
  abbrev Arrives : Client D T MQ SQ → Type 0
  Arrives = TicksArrive D T MQ SQ

  TicksArrive-push_tick :
      (md : MarketData D) (c : Client D T MQ SQ)
      → c.handled ++ (MQ.entries c.market_data_queue ++ (md ∷ [])) ≡ c.feed.got
      → c.feed.ticks_received ≡ length c.feed.got % 2 ^ 64
      → Arrives (push_tick D T MQ SQ md c)
  unfolding push_tick
  TicksArrive-push_tick md c h n = elim (Bool-cases (MQ.push md c.market_data_queue).0) [
    | inl e ↦ rw e (
        arrive D T MQ SQ _
          (ap (λ es. c.handled ++ es)
              (append-nil (MQ.entries (MQ.push md c.market_data_queue).1)
                ∙ MQ.push_accepted md c.market_data_queue e)
            ∙ h)
          n)
    | inr e ↦ rw e (
        arrive D T MQ SQ _
          (ap (λ es. c.handled ++ (es ++ (md ∷ []))) (MQ.push_refused md c.market_data_queue e) ∙ h)
          n)
  ]

  TicksArrive-receive :
      (got : Option (ℕ × MarketData D)) (w : T.World) (c : Client D T MQ SQ)
      → c.running ≡ true
      → in_hand D T MQ SQ c.feed.phase ≡ []
      → Arrives c
      → Arrives (receive D T MQ SQ got (record c { world = w }))
  unfolding receive
  TicksArrive-receive none w c e hand v = quiet D T MQ SQ c _ c.running w refl refl refl (λ s. s) v
  TicksArrive-receive (some (n, md)) w c e hand v =
      let es : List (MarketData D) = MQ.entries c.market_data_queue in
      let all : c.handled ++ es ≡ c.feed.got =
        ap (λ xs. c.handled ++ xs) (sym (append-nil es))
        ∙ ap (λ h. c.handled ++ (es ++ (h ++ []))) (sym hand)
        ∙ whole D T MQ SQ c e v in
      let c' : Client D T MQ SQ = record c {
        world = w;
        feed = record c.feed {
          ticks_received = count_on c.feed.ticks_received;
          got = c.feed.got ++ (md ∷ []);
        };
      } in
      if-cases Arrives (n == market_data_size)
        (TicksArrive-push_tick md c'
          (sym (append_assoc c.handled es (md ∷ [])) ∙ ap (λ xs. xs ++ (md ∷ [])) all)
          (omega (arith, v.counted, length-append c.feed.got (md ∷ []))))
        (quiet D T MQ SQ c c.feed c.running w refl refl refl (λ s. s) v)

  TicksArrive-receive_step :
      (c : Client D T MQ SQ)
      → in_hand D T MQ SQ c.feed.phase ≡ []
      → Arrives c
      → Arrives (receive_step D T MQ SQ c)
  unfolding receive_step
  TicksArrive-receive_step c hand v =
      if-cases_eq Arrives c.running
        (λ e. elim (Option-cases c.feed.tcp_client) [
          | inl lost ↦ rw lost (
              quiet D T MQ SQ c (record c.feed { phase = Phase.retrying 0 }) c.running c.world refl
                refl (sym hand) (λ s. s) v)
          | inr (s, up) ↦
              rw up (TicksArrive-receive (T.recv s c.world).0 (T.recv s c.world).1 c e hand v)
        ])
        (λ e.
          quiet D T MQ SQ c (record c.feed { phase = Phase.exited }) c.running c.world refl refl
            (sym hand) (λ s. s) v)

  reconnect-ticks :
      (f : Feed D T MQ SQ) (w : T.World)
      → ((reconnect D T MQ SQ f w).1.got ≡ f.got)
        × ((reconnect D T MQ SQ f w).1.ticks_received ≡ f.ticks_received)
  unfolding reconnect
  reconnect-ticks f w = elim (Option-cases (T.connect w).0) [
    | inl failed ↦ rw (failed, reconnect) (refl, refl)
    | inr (s, up) ↦ rw (up, reconnect) (refl, refl)
  ]

  TicksArrive-retried :
      (result : Expected) (k : ℕ) (f : Feed D T MQ SQ) (w : T.World) (c : Client D T MQ SQ)
      → (f.got ≡ c.feed.got) × (f.ticks_received ≡ c.feed.ticks_received)
      → in_hand D T MQ SQ c.feed.phase ≡ []
      → Arrives c
      → Arrives (elim result [
        | Expected.ok ↦ in_phase D T MQ SQ Phase.receiving (record c { feed = f; world = w })
        | Expected.unexpected _ ↦
            in_phase D T MQ SQ (Phase.retrying k) (record c { feed = f; world = w })
      ])
  TicksArrive-retried Expected.ok k f w c same hand v =
      quiet D T MQ SQ c (record f { phase = Phase.receiving }) c.running w same.0 same.1 (sym hand)
        (λ s. s) v
  TicksArrive-retried (Expected.unexpected x) k f w c same hand v =
      quiet D T MQ SQ c (record f { phase = Phase.retrying k }) c.running w same.0 same.1 (sym hand)
        (λ s. s) v

  TicksArrive-retry_step :
      (k : ℕ) (c : Client D T MQ SQ)
      → in_hand D T MQ SQ c.feed.phase ≡ []
      → Arrives c
      → Arrives (retry_step D T MQ SQ k c)
  unfolding retry_step
  TicksArrive-retry_step k c hand v =
      let (result, f, w) = reconnect D T MQ SQ c.feed c.world in
      if-cases Arrives (ltb k max_retries && c.running)
        (TicksArrive-retried result (suc k) f w c (reconnect-ticks c.feed c.world) hand v)
        (if-cases Arrives (is_some c.feed.tcp_client)
          (quiet D T MQ SQ c (record c.feed { phase = Phase.receiving }) c.running c.world refl refl
            (sym hand) (λ s. s) v)
          (quiet D T MQ SQ c (record c.feed { phase = Phase.exited }) false c.world refl refl
            (sym hand) (λ _. refl) v))

  TicksArrive-wait_step :
      (md : MarketData D) (c : Client D T MQ SQ)
      → c.feed.phase ≡ Phase.waiting md
      → Arrives c
      → Arrives (wait_step D T MQ SQ md c)
  unfolding wait_step
  TicksArrive-wait_step md c at v =
      let hand : in_hand D T MQ SQ c.feed.phase ≡ md ∷ [] = ap (in_hand D T MQ SQ) at in
      let es : List (MarketData D) = MQ.entries c.market_data_queue in
      let q : MQ.Queue = (MQ.push md c.market_data_queue).1 in
      if-cases_eq Arrives c.running
        (λ e.
          let all : c.handled ++ (es ++ (md ∷ [])) ≡ c.feed.got =
            ap (λ h. c.handled ++ (es ++ (h ++ []))) (sym hand) ∙ whole D T MQ SQ c e v in
          elim (Bool-cases (MQ.push md c.market_data_queue).0) [
            | inl went ↦ rw went (
                arrive D T MQ SQ
                  (record c {
                    market_data_queue = q;
                    feed = record c.feed { phase = Phase.receiving };
                  })
                  (ap (λ es. c.handled ++ es)
                      (append-nil (MQ.entries q) ∙ MQ.push_accepted md c.market_data_queue went)
                    ∙ all)
                  v.counted)
            | inr full ↦ rw full (
                arrive D T MQ SQ
                  (record c {
                    market_data_queue = q;
                    feed = record c.feed { phase = Phase.waiting md };
                  })
                  (ap (λ es. c.handled ++ (es ++ (md ∷ [])))
                      (MQ.push_refused md c.market_data_queue full)
                    ∙ all)
                  v.counted)
          ])
        (λ e. record {
          dropped = md ∷ [];
          in_order =
              let nothing : v.dropped ≡ [] = elim v.at_shutdown [ inl n ↦ n | inr x ↦ absurd cc ] in
              ap (λ hd. c.handled ++ (es ++ hd))
                (sym (
                  ap (λ ds. in_hand D T MQ SQ c.feed.phase ++ ds) nothing ∙ ap (λ h. h ++ []) hand))
              ∙ v.in_order;
          at_shutdown = inr (e, refl, refl);
          counted = v.counted;
        })

  network_by :
      (p : Phase D) (c : Client D T MQ SQ)
      → c.feed.phase ≡ p
      → Arrives c
      → Arrives (elim p [
        | Phase.receiving ↦ receive_step D T MQ SQ c
        | Phase.retrying k ↦ retry_step D T MQ SQ k c
        | Phase.waiting md ↦ wait_step D T MQ SQ md c
        | Phase.exited ↦ c
      ])
  network_by Phase.receiving c at v = TicksArrive-receive_step c (ap (in_hand D T MQ SQ) at) v
  network_by (Phase.retrying k) c at v = TicksArrive-retry_step k c (ap (in_hand D T MQ SQ) at) v
  network_by (Phase.waiting md) c at v = TicksArrive-wait_step md c at v
  network_by Phase.exited c at v = v

  pub TicksArrive-network : (c : Client D T MQ SQ) → Arrives c → Arrives (network_step D T MQ SQ c)
  unfolding network_step
  TicksArrive-network c v = network_by c.feed.phase c refl v
