-- ===== src/Client/Lifecycle/Flags.antt =====
-- What the flags of the client say after its operations.
use tradingmarketsimulator.Prelude.{
  ◌≡◌, refl, sym, ◌∙◌, Bool, true, false, if-cases, if-cases_eq, List, [], ◌∷◌,
}
use tradingmarketsimulator.Client.Lifecycle.{
  Core, Outcome, construct, initialize_server, initialize_client, start_threads, work_client,
  stop_client,
}

module _ {World : Type 0} (connect listen : World → Bool × World) where
  -- The configuration is there; a client that is started or running has a feed; a client that is stopped does not run.
  pub record IsConsistent (c : Core World) : Type 0 where
    pub config : c.config ≡ true
    pub fed : c.client_started ≡ c.market_feed
    pub running : c.client_running ≡ true → c.client_started ≡ true
    pub served : c.server_started ≡ true → c.tcp_server ≡ true
    pub stopped : c.client_stopped ≡ true → c.client_running ≡ false

  pub construct-IsConsistent : (w : World) → IsConsistent (construct connect listen w)
  unfolding construct
  construct-IsConsistent w = record {
    config = refl;
    fed = refl;
    running = λ e. absurd cc;
    served = λ e. absurd cc;
    stopped = λ e. refl;
  }

  stop_client-IsConsistent :
      (c : Core World) → IsConsistent c → IsConsistent (stop_client connect listen c)
  unfolding stop_client
  stop_client-IsConsistent c v = if-cases IsConsistent c.client_stopped v (record {
    config = v.config;
    fed = v.fed;
    running = λ e. absurd cc;
    served = v.served;
    stopped = λ e. refl;
  })

  initialize_client-IsConsistent :
      (c : Core World) → IsConsistent c → IsConsistent (initialize_client connect listen c).1
  unfolding initialize_client
  initialize_client-IsConsistent c v =
      if-cases_eq (λ (r : Outcome × Core World). IsConsistent r.1) c.client_started (λ e. v)
        (λ not_started.
          let still : c.client_running ≡ true → false ≡ true = λ e. sym not_started ∙ v.running e in
          if-cases (λ (r : Outcome × Core World). IsConsistent r.1) c.config
            (if-cases (λ (r : Outcome × Core World). IsConsistent r.1) (connect c.world).0
              (record {
                config = v.config;
                fed = refl;
                running = λ e. refl;
                served = v.served;
                stopped = v.stopped;
              })
              (record {
                config = v.config;
                fed = refl;
                running = still;
                served = v.served;
                stopped = v.stopped;
              }))
            v)

  initialize_server-IsConsistent :
      (c : Core World) → IsConsistent c → IsConsistent (initialize_server connect listen c).1
  unfolding initialize_server
  initialize_server-IsConsistent c v =
      let P = λ (r : Outcome × Core World). IsConsistent r.1 in
      let up : (b : Bool) (w : World)
          → IsConsistent (record c { tcp_server = true; server_started = b; world = w }) =
        λ b w. record {
          config = v.config;
          fed = v.fed;
          running = v.running;
          served = λ e. refl;
          stopped = v.stopped;
        } in
      if-cases P c.server_started v (
        if-cases P c.config
          (if-cases P (listen c.world).0 (up true (listen c.world).1)
            (up c.server_started (listen c.world).1))
          v)

  start_threads-IsConsistent :
      (c : Core World)
      → c.client_started ≡ true
      → IsConsistent c
      → IsConsistent (start_threads connect listen c)
  unfolding start_threads
  start_threads-IsConsistent c started v = record {
    config = v.config;
    fed = v.fed;
    running = λ e. started;
    served = v.served;
    stopped = λ e. absurd cc;
  }

  initialize_client-started :
      (c : Core World)
      → (initialize_client connect listen c).0 ≡ Outcome.returned
      → (initialize_client connect listen c).1.client_started ≡ true
  unfolding initialize_client
  initialize_client-started c =
      let P = λ (r : Outcome × Core World). r.0 ≡ Outcome.returned → r.1.client_started ≡ true in
      if-cases_eq P c.client_started (λ e _. e)
        (λ _.
          if-cases P c.config (if-cases P (connect c.world).0 (λ _. refl) (λ e. absurd cc))
            (λ e. absurd cc))

  work_by :
      (r : Outcome) (c : Core World)
      → IsConsistent c
      → (r ≡ Outcome.returned → c.client_started ≡ true)
      → IsConsistent
          (elim r as (λ _. Outcome × Core World) [
            | Outcome.returned ↦ (Outcome.returned, start_threads connect listen c)
            | Outcome.unexpected e ↦ (Outcome.unexpected e, c)
            | Outcome.thrown e ↦ (Outcome.thrown e, c)
          ]).1
  work_by Outcome.returned c v started = start_threads-IsConsistent c (started refl) v
  work_by (Outcome.unexpected e) c v started = v
  work_by (Outcome.thrown e) c v started = v

  work_client-IsConsistent :
      (c : Core World) → IsConsistent c → IsConsistent (work_client connect listen c).1
  unfolding work_client
  work_client-IsConsistent c v =
      let P = λ (r : Outcome × Core World). IsConsistent r.1 in
      let kept = initialize_client-IsConsistent c v in
      if-cases P c.client_running v (
        if-cases_eq P c.client_started (λ e. start_threads-IsConsistent c e v)
          (λ fresh.
            work_by (initialize_client connect listen c).0 (initialize_client connect listen c).1
              kept (initialize_client-started c)))

  -- What the owner of a `Core` may call
  pub data Operation : Type 0 where
    server client work stop : Operation

  unfoldable pub perform : Operation → Core World → Core World
  perform Operation.server c = (initialize_server connect listen c).1
  perform Operation.client c = (initialize_client connect listen c).1
  perform Operation.work c = (work_client connect listen c).1
  perform Operation.stop c = stop_client connect listen c

  unfoldable pub perform_all : List Operation → Core World → Core World
  perform_all [] c = c
  perform_all (o ∷ os) c = perform_all os (perform o c)

  perform-IsConsistent :
      (o : Operation) (c : Core World) → IsConsistent c → IsConsistent (perform o c)
  unfolding perform
  perform-IsConsistent Operation.server c v = initialize_server-IsConsistent c v
  perform-IsConsistent Operation.client c v = initialize_client-IsConsistent c v
  perform-IsConsistent Operation.work c v = work_client-IsConsistent c v
  perform-IsConsistent Operation.stop c v = stop_client-IsConsistent c v

  -- In whatever order the operations are called, with or without success, consistent flags stay so:
  -- a client that is marked as started has its feed and one that has none is not, only a started client
  -- runs, a client that is marked as stopped does not run, and a started server has its socket.
  pub perform_all-IsConsistent :
      (os : List Operation) (c : Core World) → IsConsistent c → IsConsistent (perform_all os c)
  unfolding perform_all
  perform_all-IsConsistent [] c v = v
  perform_all-IsConsistent (o ∷ os) c v =
      perform_all-IsConsistent os (perform o c) (perform-IsConsistent o c v)
