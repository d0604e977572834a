-- ===== src/Client/Lifecycle/Start.antt =====
-- What `start_client` does.
use tradingmarketsimulator.Prelude.{
  ◌≡◌, refl, sym, ap, ◌∙◌, Bool, true, false, if◌then◌else◌, Bool-cases, inl, inr,
}
use tradingmarketsimulator.Client.{CoreError}
use tradingmarketsimulator.Client.Lifecycle.{
  Core, Outcome, Exit, initialize_client, start_threads, work_client, stop_client, reported,
  init_client, run_client, start_client,
}
use tradingmarketsimulator.Client.Lifecycle.Flags.{IsConsistent}

module _ {World : Type 0} (connect listen : World → Bool × World) where
  -- The client after a run: stopped, connected, and not running, with its threads not joined.
  abbrev pub after_run : Core World → World → Core World
  after_run c w = record c {
    market_feed = true;
    client_started = true;
    client_stopping = true;
    client_stopped = true;
    client_running = false;
    threads = true;
    world = w;
  }

  idle :
      (c : Core World)
      → IsConsistent connect listen c
      → c.client_started ≡ false
      → c.client_running ≡ false
  idle c v e = elim (Bool-cases c.client_running) [
    | inl r ↦ let impossible : true ≡ false = sym (v.running r) ∙ e in absurd cc
    | inr r ↦ r
  ]

  -- `start_client` after the outcome of `initialize_client`
  abbrev concluded : Outcome × Core World → Exit × Core World
  concluded r = elim (reported connect listen r.0) [
    | Exit.status failed ↦ if failed then (Exit.status true, r.1) else run_client connect listen r.1
    | Exit.terminated ↦ (Exit.terminated, r.1)
  ]

  fresh_start :
      (tcp feed server stopping stopped threads : Bool) (w : World)
      → let c : Core World = record {
        config = true;
        tcp_server = tcp;
        market_feed = feed;
        server_started = server;
        client_started = false;
        client_stopping = stopping;
        client_stopped = stopped;
        client_running = false;
        threads = threads;
        world = w;
      } in
        ((connect w).0 ≡ true
          → start_client connect listen c ≡ (Exit.status false, after_run c (connect w).1))
        × ((connect w).0 ≡ false
            → start_client connect listen c ≡ (
              Exit.status true,
              record c { market_feed = false; client_started = false; world = (connect w).1 },
            ))
  unfolding start_client init_client initialize_client run_client work_client start_threads
      stop_client
  fresh_start tcp feed server stopping stopped threads w =
      let c : Core World = record {
        config = true;
        tcp_server = tcp;
        market_feed = feed;
        server_started = server;
        client_started = false;
        client_stopping = stopping;
        client_stopped = stopped;
        client_running = false;
        threads = threads;
        world = w;
      } in
      let connected = λ (b : Bool). concluded (
        if b
        then (
          Outcome.returned,
          record c { market_feed = true; client_started = true; world = (connect w).1 },
        )
        else (
          Outcome.unexpected CoreError.server_not_online,
          record c { market_feed = false; client_started = false; world = (connect w).1 },
        )) in
      (λ up. ap connected up, λ down. ap connected down)

  -- From consistent flags, a client that is not connected yet is started exactly if the server can be
  -- reached: then it runs and is stopped, and otherwise there is no feed and nothing has run. A client
  -- that is connected already and not running succeeds again.
  pub start_client_lem :
      (c : Core World)
      → IsConsistent connect listen c
      → (c.client_started ≡ false
          → (connect c.world).0 ≡ true
          → start_client connect listen c ≡ (Exit.status false, after_run c (connect c.world).1))
        × (c.client_started ≡ false
            → (connect c.world).0 ≡ false
            → start_client connect listen c ≡ (
              Exit.status true,
              record c { market_feed = false; client_started = false; world = (connect c.world).1 },
            ))
        × (c.client_started ≡ true
            → c.client_running ≡ false
            → (start_client connect listen c).0 ≡ Exit.status false)
  unfolding start_client init_client initialize_client run_client work_client start_threads
      stop_client
  start_client_lem c v =
      let start = λ (fresh : c.client_started ≡ false).
        fresh_start c.tcp_server c.market_feed c.server_started c.client_stopping c.client_stopped
          c.threads c.world in
      (
        λ fresh up. rw (fresh, v.config, idle c v fresh) ((start fresh).0 up),
        λ fresh down. rw (fresh, v.config, idle c v fresh) ((start fresh).1 down),
        λ started still. rw (started, still) refl,
      )
