-- ===== src/Client/Pipeline/Reconnect.antt =====
-- The network thread is done with its attempts to reconnect after a bounded number of rounds.
use tradingmarketsimulator.Prelude.{
  ap, sym, ◌∙◌, ℕ, zero, suc, ◌+◌, ◌≤◌, ◌≡◌, refl, true, false, Option, none, some, ltb, arith,
  Option-cases, inl, inr,
}
use tradingmarketsimulator.Spsc.{Spsc}
use tradingmarketsimulator.Client.{Doubles, MarketData, Signal, Expected, Tcp, CoreError}
use tradingmarketsimulator.Client.Pipeline.{
  Phase, Client, Feed, network_step, receive_step, receive, retry_step, reconnect, max_retries,
  in_phase,
}

module _ (D : Doubles) (T : Tcp D) (MQ : Spsc (MarketData D)) (SQ : Spsc (Signal D)) where
  abbrev pub rounds : ℕ → Client D T MQ SQ → Client D T MQ SQ
  rounds zero c = c
  rounds (suc n) c = rounds n (network_step D T MQ SQ c)

  abbrev first_of :
      Option T.Socket → T.World → Option T.Socket × T.World → Option T.Socket × T.World
  first_of none w rest = rest
  first_of (some s) w rest = (some s, w)

  -- The first of so many attempts to connect that succeeds
  abbrev pub dial : ℕ → T.World → Option T.Socket × T.World
  dial zero w = (none, w)
  dial (suc n) w = let (client, w') = T.connect w in let rest = dial n w' in first_of client w' rest

  -- The client without a connection, in a phase
  abbrev pub offline : Phase D → T.World → Client D T MQ SQ → Client D T MQ SQ
  offline p w c = record c {
    feed = record c.feed { tcp_client = none; initialized = false; phase = p };
    running = true;
    world = w;
  }

  -- It receives from the new connection, or has given up and stops the client.
  abbrev pub settled : Option T.Socket → T.World → Client D T MQ SQ → Client D T MQ SQ
  settled (some s) w c = record c {
    feed = record c.feed { tcp_client = some s; initialized = true; phase = Phase.receiving };
    running = true;
    world = w;
  }
  settled none w c = record (offline Phase.exited w c) { running = false }

  reconnect_down :
      (f : Feed D T MQ SQ) (w : T.World)
      → (T.connect w).0 ≡ none
      → reconnect D T MQ SQ f w ≡ (
        Expected.unexpected CoreError.server_not_online,
        record f { tcp_client = none; initialized = false },
        (T.connect w).1,
      )
  unfolding reconnect
  reconnect_down f w down = rw (down, reconnect) refl

  reconnect_up :
      (f : Feed D T MQ SQ) (w : T.World) (s : T.Socket)
      → (T.connect w).0 ≡ some s
      → reconnect D T MQ SQ f w
        ≡ (Expected.ok, record f { tcp_client = some s; initialized = true }, (T.connect w).1)
  unfolding reconnect
  reconnect_up f w s up = rw (up, reconnect) refl

  -- What a round makes of an attempt
  abbrev retried : ℕ → Client D T MQ SQ → Expected × Feed D T MQ SQ × T.World → Client D T MQ SQ
  retried k c (result, f, w) = elim result [
    | Expected.ok ↦ in_phase D T MQ SQ Phase.receiving (record c { feed = f; world = w })
    | Expected.unexpected _ ↦
        in_phase D T MQ SQ (Phase.retrying (suc k)) (record c { feed = f; world = w })
  ]

  redial :
      (n k : ℕ) (w : T.World) (c : Client D T MQ SQ)
      → k + n ≡ max_retries
      → (m : ℕ) × (m ≤ suc n)
        × (rounds m (offline (Phase.retrying k) w c) ≡ settled (dial n w).0 (dial n w).1 c)
  unfolding network_step retry_step reconnect
  redial zero k w c e =
      let out : ltb k max_retries ≡ false = ground arith in (1, omega arith, (rw out refl))
  redial (suc n) k w c e =
      let more : ltb k max_retries ≡ true = ground arith in
      elim (Option-cases (T.connect w).0) [
        | inr (s, up) ↦
            let f = (offline (Phase.retrying k) w c).feed in
            let w' = (T.connect w).1 in
            let again : network_step D T MQ SQ (offline (Phase.retrying k) w c)
                ≡ settled (some s) w' c =
              rw more (ap (retried k (offline (Phase.retrying k) w c)) (reconnect_up f w s up)) in
            let answer : (some s, w') ≡ dial (suc n) w =
              ap (λ o. first_of o w' (dial n w')) (sym up) in
            (1, omega arith, again ∙ ap (λ d. settled d.0 d.1 c) answer)
        | inl down ↦
            let w' = (T.connect w).1 in
            let (m, within, done) = redial n (suc k) w' c (omega arith) in
            let again : network_step D T MQ SQ (offline (Phase.retrying k) w c)
                ≡ offline (Phase.retrying (suc k)) w' c =
              rw more (
                ap (retried k (offline (Phase.retrying k) w c))
                  (reconnect_down (offline (Phase.retrying k) w c).feed w down)) in
            let answer : dial n w' ≡ dial (suc n) w =
              ap (λ o. first_of o w' (dial n w')) (sym down) in
            (suc m, omega arith, ap (rounds m) again ∙ done ∙ ap (λ d. settled d.0 d.1 c) answer)
      ]

  -- After a lost connection the network thread is done with its attempts within eight rounds: it
  -- receives from the first of the five that succeeds, or else it has stopped the client and left its
  -- loop.
  pub network_settles :
      (c : Client D T MQ SQ) (s : T.Socket) (w : T.World)
      → c.running ≡ true
      → c.feed.phase ≡ Phase.receiving
      → c.feed.tcp_client ≡ some s
      → T.recv s c.world ≡ (none, w)
      → let (client, w') = dial max_retries w in
        (m : ℕ) × (m ≤ 8) × (rounds m c ≡ settled client w' c)
  unfolding network_step receive_step receive
  network_settles c s w r p up lost =
      let (m, within, done) = redial max_retries 0 w c refl in
      let c' : Client D T MQ SQ = record c {
        feed = record c.feed { phase = Phase.receiving; tcp_client = some s };
        running = true;
      } in
      let same : c ≡ c' =
        ap (λ b. record c { running = b }) r
        ∙ ap (λ q. record c { running = true; feed = record c.feed { phase = q } }) p
        ∙ ap (λ q. record c' { feed = record c'.feed { tcp_client = q } }) up in
      let cut_off : network_step D T MQ SQ c' ≡ offline Phase.receiving w c =
        rw (lost, receive) refl in
      (
        suc (suc m),
        omega arith,
        ap (rounds (suc (suc m))) same ∙ ap (rounds (suc m)) cut_off ∙ done,
      )
