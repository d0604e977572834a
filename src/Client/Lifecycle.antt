-- ===== src/Client/Lifecycle.antt =====
-- src/mms/app/Core.cc and src/mms/app/Controller.cc: the flags that say how far the client and the
-- server have come, and the operations that set them. `connect` is `MarketFeed::initialize` of a new
-- feed and `listen` `TcpServer::start`, with whether they succeed.
pub mod Flags
pub mod Start
use tradingmarketsimulator.Prelude.{Bool, true, false, if◌then◌else◌}
use tradingmarketsimulator.Client.{CoreError}

pub record Core (World : Type 0) : Type 0 where
  -- `p_config`, `p_tcp_server` and `p_market_feed` are not null.
  pub config : Bool
  pub tcp_server : Bool
  pub market_feed : Bool
  pub server_started : Bool
  pub client_started : Bool
  pub client_stopping : Bool
  pub client_stopped : Bool
  pub client_running : Bool
  -- The threads of the client were started; nothing but the end of the core joins them.
  pub threads : Bool
  pub world : World

-- How a member of `Core` ends: its `std::expected`, or a `CoreException`.
pub data Outcome : Type 0 where
  returned : Outcome
  unexpected thrown : CoreError → Outcome

-- How a member of `Controller` ends: zero is success. What leaves a `noexcept` function terminates.
pub data Exit : Type 0 where
  status : Bool → Exit
  terminated : Exit

module _ {World : Type 0} (connect listen : World → Bool × World) where
  -- The constructor
  unfoldable pub construct : World → Core World
  construct w = record {
    config = true;
    tcp_server = false;
    market_feed = false;
    server_started = false;
    client_started = false;
    client_stopping = false;
    client_stopped = false;
    client_running = false;
    threads = false;
    world = w;
  }

  unfoldable pub initialize_server : Core World → Outcome × Core World
  initialize_server c =
      let (up, w) = listen c.world in
      if c.server_started
      then (Outcome.returned, c)
      else if c.config
      then (if up
          then (Outcome.returned, record c { tcp_server = true; server_started = true; world = w })
          else (
            Outcome.unexpected CoreError.init_server_fail,
            record c { tcp_server = true; world = w },
          ))
      else (Outcome.thrown CoreError.invalid_state, c)

  unfoldable pub initialize_client : Core World → Outcome × Core World
  initialize_client c =
      let (up, w) = connect c.world in
      if c.client_started
      then (Outcome.returned, c)
      else if c.config
      then (if up
          then (Outcome.returned, record c { market_feed = true; client_started = true; world = w })
          else (
            Outcome.unexpected CoreError.server_not_online,
            record c { market_feed = false; client_started = false; world = w },
          ))
      else (Outcome.thrown CoreError.invalid_state, c)

  -- `work_client` sets its flags and starts the three threads.
  unfoldable pub start_threads : Core World → Core World
  start_threads c = record c {
    client_running = true;
    client_stopping = false;
    client_stopped = false;
    threads = true;
  }

  unfoldable pub work_client : Core World → Outcome × Core World
  work_client c =
      let (result, c') = initialize_client c in
      if c.client_running
      then (Outcome.returned, c)
      else if c.client_started
      then (Outcome.returned, start_threads c)
      else elim result [
        | Outcome.returned ↦ (Outcome.returned, start_threads c')
        | Outcome.unexpected e ↦ (Outcome.unexpected e, c')
        | Outcome.thrown e ↦ (Outcome.thrown e, c')
      ]

  unfoldable pub stop_client : Core World → Core World
  stop_client c =
      if c.client_stopped
      then c
      else record c { client_stopping = true; client_running = false; client_stopped = true }

  -- What `init_client` and `init_server` make of an outcome
  abbrev pub reported : Outcome → Exit
  reported Outcome.returned = Exit.status false
  reported (Outcome.unexpected _) = Exit.status true
  reported (Outcome.thrown _) = Exit.terminated

  unfoldable pub init_client : Core World → Exit × Core World
  init_client c = let (result, c') = initialize_client c in (reported result, c')

  unfoldable pub init_server : Core World → Exit × Core World
  init_server c = let (result, c') = initialize_server c in (reported result, c')

  -- `start_client` after `init_client` has succeeded; it catches what `work_client` throws.
  unfoldable pub run_client : Core World → Exit × Core World
  run_client c =
      let (result, c') = work_client c in
      elim result [
        | Outcome.returned ↦ (Exit.status false, stop_client c')
        | Outcome.unexpected _ ↦ (Exit.status true, c')
        | Outcome.thrown _ ↦ (Exit.status true, c')
      ]

  unfoldable pub start_client : Core World → Exit × Core World
  start_client c =
      let (result, c') = init_client c in
      elim result [
        | Exit.status failed ↦ if failed then (Exit.status true, c') else run_client c'
        | Exit.terminated ↦ (Exit.terminated, c')
      ]
