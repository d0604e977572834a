-- ===== src/Client/Pipeline/Reads.antt =====
-- The ticks that the network thread gets are the whole packets among those that `recv` answered with.
use mathlib.Core.List.{append-nil}
use tradingmarketsimulator.Prelude.{
  ℕ, suc, ◌≡◌, refl, sym, ap, ◌∙◌, Option, none, some, List, [], ◌∷◌, ◌++◌, ◌==◌, ltb, ◌&&◌,
  if◌then◌else◌, if-cases, Bool-cases, Option-cases, inl, inr, subst,
}
use tradingmarketsimulator.Spsc.{Spsc}
use tradingmarketsimulator.Client.{Doubles, MarketData, market_data_size, Signal, Tcp, Expected}
use tradingmarketsimulator.Client.Strategy.{compute_signal, is_hold}
use tradingmarketsimulator.Client.Pipeline.{
  Phase, Client, Feed, network_step, receive_step, receive, push_tick, retry_step, reconnect,
  wait_step, strategy_step, push_signal, execution_step, max_retries, is_some, in_phase, initialize,
  Step, Run,
}
use tradingmarketsimulator.Client.Pipeline.Launch.{construct_feed, launch, Launched}

-- A packet: how many bytes it has, and what a buffer with them in it reads as
abbrev pub Packet : Doubles → Type 0
Packet D = ℕ × MarketData D

abbrev pub answered : {D : Doubles} → Option (Packet D) → List (Packet D)
answered none = []
answered (some p) = p ∷ []

-- What `recv` has answered so far can be read off the world outside.
pub record Journal (D : Doubles) (T : Tcp D) : Type 0 where
  pub log : T.World → List (Packet D)
  pub log-connect : (w : T.World) → log (T.connect w).1 ≡ log w
  pub log-now : (w : T.World) → log (T.now w).1 ≡ log w
  pub log-recv :
      (s : T.Socket) (w : T.World) → log (T.recv s w).1 ≡ log w ++ answered (T.recv s w).0

module _ (D : Doubles) where
  -- The packets of the size of a tick
  unfoldable pub ticks_of : List (Packet D) → List (MarketData D)
  ticks_of [] = []
  ticks_of ((n, md) ∷ ps) =
      let rest = ticks_of ps in if n == market_data_size then md ∷ rest else rest

  ticks_of-append :
      (ps : List (Packet D)) (n : ℕ) (md : MarketData D)
      → ticks_of (ps ++ ((n, md) ∷ []))
        ≡ ticks_of ps ++ (if n == market_data_size then md ∷ [] else [])
  unfolding ticks_of
  ticks_of-append [] n md = refl
  ticks_of-append ((k, x) ∷ ps) n md = elim (Bool-cases (k == market_data_size)) [
    | inl e ↦ rw e (ap (λ xs. x ∷ xs) (ticks_of-append ps n md))
    | inr e ↦ rw e (ticks_of-append ps n md)
  ]

module _ (D : Doubles) (T : Tcp D) (MQ : Spsc (MarketData D)) (SQ : Spsc (Signal D))
    (J : Journal D T) where
  abbrev pub Reads : Client D T MQ SQ → Type 0
  Reads c = ticks_of D (J.log c.world) ≡ c.feed.got

  Reads-receive :
      (got : Option (Packet D)) (c : Client D T MQ SQ) (before : List (Packet D))
      → ticks_of D before ≡ c.feed.got
      → J.log c.world ≡ before ++ answered got
      → Reads (receive D T MQ SQ got c)
  unfolding receive push_tick
  Reads-receive none c before v e = ap (ticks_of D) (e ∙ append-nil before) ∙ v
  Reads-receive (some (n, md)) c before v e =
      let now = ap (ticks_of D) e ∙ ticks_of-append D before n md in
      elim (Bool-cases (n == market_data_size)) [
        | inl y ↦
            let all : ticks_of D (J.log c.world) ≡ c.feed.got ++ (md ∷ []) =
              now
              ∙ ap (λ b. ticks_of D before ++ (if b then md ∷ [] else [])) y
              ∙ ap (λ xs. xs ++ (md ∷ [])) v in
            rw y (if-cases Reads (MQ.push md c.market_data_queue).0 all all)
        | inr y ↦ rw y (
            now
            ∙ ap (λ b. ticks_of D before ++ (if b then md ∷ [] else [])) y
            ∙ append-nil (ticks_of D before)
            ∙ v)
      ]

  Reads-receive_step : (c : Client D T MQ SQ) → Reads c → Reads (receive_step D T MQ SQ c)
  unfolding receive_step
  Reads-receive_step c v =
      if-cases Reads c.running
        (elim (Option-cases c.feed.tcp_client) [
          | inl lost ↦ rw lost v
          | inr (s, up) ↦ rw up (
              Reads-receive (T.recv s c.world).0 (record c { world = (T.recv s c.world).1 })
                (J.log c.world) v (J.log-recv s c.world))
        ])
        v

  -- A connection was tried: nothing was read by it, and the ticks are as they were.
  Rejoins : T.World → List (MarketData D) → Expected × Feed D T MQ SQ × T.World → Type 0
  Rejoins w got (_, f, w') = (J.log w' ≡ J.log w) × (f.got ≡ got)

  reconnect-Rejoins : (f : Feed D T MQ SQ) (w : T.World) → Rejoins w f.got (reconnect D T MQ SQ f w)
  unfolding reconnect Rejoins
  reconnect-Rejoins f w = elim (Option-cases (T.connect w).0) [
    | inl lost ↦ rw (lost, reconnect) (J.log-connect w, refl)
    | inr (s, up) ↦ rw (up, reconnect) (J.log-connect w, refl)
  ]

  initialize-Rejoins :
      (w : T.World) → Rejoins w [] (initialize D T MQ SQ (construct_feed D T MQ SQ) w)
  unfolding initialize Rejoins
  initialize-Rejoins w = elim (Option-cases (T.connect w).0) [
    | inl lost ↦ rw lost (J.log-connect w, refl)
    | inr (s, up) ↦ rw up (J.log-connect w, refl)
  ]

  Reads-retried :
      (result : Expected) (k : ℕ) (f : Feed D T MQ SQ) (w : T.World) (c : Client D T MQ SQ)
      → ticks_of D (J.log w) ≡ f.got
      → Reads (elim result [
        | Expected.ok ↦ in_phase D T MQ SQ Phase.receiving (record c { feed = f; world = w })
        | Expected.unexpected _ ↦
            in_phase D T MQ SQ (Phase.retrying k) (record c { feed = f; world = w })
      ])
  Reads-retried Expected.ok k f w c v = v
  Reads-retried (Expected.unexpected x) k f w c v = v

  Reads-retry_step : (k : ℕ) (c : Client D T MQ SQ) → Reads c → Reads (retry_step D T MQ SQ k c)
  unfolding retry_step Rejoins
  Reads-retry_step k c v =
      let (result, f, w) = reconnect D T MQ SQ c.feed c.world in
      let (log, got) = reconnect-Rejoins c.feed c.world in
      if-cases Reads (ltb k max_retries && c.running)
        (Reads-retried result (suc k) f w c (ap (ticks_of D) log ∙ v ∙ sym got))
        (if-cases Reads (is_some c.feed.tcp_client) v v)

  Reads-network_step : (c : Client D T MQ SQ) → Reads c → Reads (network_step D T MQ SQ c)
  unfolding network_step wait_step
  Reads-network_step c v =
      elim c.feed.phase
        as (λ p. Reads (elim p [
          | Phase.receiving ↦ receive_step D T MQ SQ c
          | Phase.retrying k ↦ retry_step D T MQ SQ k c
          | Phase.waiting md ↦ wait_step D T MQ SQ md c
          | Phase.exited ↦ c
        ])) [
          | Phase.receiving ↦ Reads-receive_step c v
          | Phase.retrying k ↦ Reads-retry_step k c v
          | Phase.waiting md ↦ if-cases Reads c.running v v
          | Phase.exited ↦ v
        ]

  Reads-strategy_step :
      (stale : Signal D) (c : Client D T MQ SQ) → Reads c → Reads (strategy_step D T MQ SQ stale c)
  unfolding strategy_step push_signal
  Reads-strategy_step stale c v =
      if-cases Reads c.running
        (elim (Option-cases (MQ.pop c.market_data_queue).0) [
          | inl e ↦ rw e v
          | inr (md, e) ↦
              let signal = compute_signal D md stale in
              rw e (
                if-cases Reads (is_hold D signal.type) v
                  (if-cases Reads (SQ.push signal c.signal_queue).0 v v))
        ])
        v

  Reads-execution_step : (c : Client D T MQ SQ) → Reads c → Reads (execution_step D T MQ SQ c)
  unfolding execution_step
  Reads-execution_step c v =
      if-cases Reads c.running
        (elim (Option-cases (SQ.pop c.signal_queue).0) [
          | inl e ↦ rw e v
          | inr (s, e) ↦ rw e (ap (ticks_of D) (J.log-now c.world) ∙ v)
        ])
        v

  Reads-Step : (c d : Client D T MQ SQ) → Step D T MQ SQ c d → Reads c → Reads d
  Reads-Step c _ Step.network v = Reads-network_step c v
  Reads-Step c _ (Step.strategy stale) v = Reads-strategy_step stale c v
  Reads-Step c _ Step.execution v = Reads-execution_step c v
  Reads-Step c _ Step.cleared v = v

  Reads-Run : (c d : Client D T MQ SQ) → Run D T MQ SQ c d → Reads c → Reads d
  Reads-Run c _ Run.here v = v
  Reads-Run c e (Run.then_step {d = d} r s) v = Reads-Step d e s (Reads-Run c d r v)

  -- Whatever the threads have done since their start, before which `recv` had answered nothing, the
  -- ticks that the network thread got are the packets of the size of a tick among those that `recv`
  -- answered with, over all connections, in order and each once.
  pub gets_whole_packets :
      (d : Client D T MQ SQ) (l : Launched D T MQ SQ d)
      → J.log l.before ≡ []
      → d.feed.got ≡ ticks_of D (J.log d.world)
  unfolding launch Rejoins ticks_of
  gets_whole_packets d l none_read =
      let (log, new) = subst (Rejoins l.before []) l.initialized (initialize-Rejoins l.before) in
      let start : Reads (launch D T MQ SQ l.feed l.ticks l.signals l.after) =
        ap (ticks_of D) (log ∙ none_read) ∙ sym new in
      sym (Reads-Run (launch D T MQ SQ l.feed l.ticks l.signals l.after) d l.run start)
