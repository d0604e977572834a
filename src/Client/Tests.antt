-- ===== src/Client/Tests.antt =====
-- The theorems on the client, applied to a run of its threads against a server that is there at every
-- second attempt.
use tradingmarketsimulator.Prelude.{ℕ, ◌≡◌, refl, Bool, true, false, none, some, ◌≤◌, [], ◌∷◌, inl}
use tradingmarketsimulator.Samples.{queue, numbers, alternating, dropping}
use tradingmarketsimulator.Client.{MarketData, Signal, SignalType}
use tradingmarketsimulator.Client.Pipeline.{
  Phase, Client, network_step, strategy_step, execution_step, Step, Run,
}
use tradingmarketsimulator.Client.Pipeline.Ticks.Arrival.{TicksArrive}
use tradingmarketsimulator.Client.Pipeline.Ticks.{Run-TicksArrive}
use tradingmarketsimulator.Client.Pipeline.Reconnect.{rounds, settled, network_settles}
use tradingmarketsimulator.Client.Lifecycle.{Core, construct}
use tradingmarketsimulator.Client.Lifecycle.Flags.{
  IsConsistent, construct-IsConsistent, Operation, perform_all, perform_all-IsConsistent,
}

abbrev pub stale : Signal numbers
stale = record { symbol = []; type = SignalType.sell; price = 7; quantity = 9; timestamp_ns = 0 }

abbrev wide : MarketData numbers
wide = record { seq_num = 1; bid = 100; ask = 120; timestamp_ns = 1; symbol = 65 ∷ [] }

abbrev pub ThisClient : Type 0
ThisClient = Client numbers alternating (queue (MarketData numbers)) (queue (Signal numbers))

abbrev pub client : ThisClient
client = record {
  feed = record {
    tcp_client = none;
    initialized = false;
    ticks_received = 0;
    queue_full_count = 0;
    phase = Phase.receiving;
    got = [];
  };
  running = true;
  market_data_queue = [];
  signal_queue = [];
  signals_generated = 0;
  orders_sent = 0;
  order_id = 1;
  world = 0;
  handled = [];
  pushed = [];
  executed = [];
}

abbrev pub by_network : ThisClient → ThisClient
by_network = network_step numbers alternating (queue (MarketData numbers)) (queue (Signal numbers))

-- Two attempts to connect, three ticks of which the queue takes two, then the other threads.
abbrev flooded : ThisClient
flooded = by_network (by_network (by_network (by_network (by_network (by_network client)))))

abbrev handling : ThisClient
handling =
    strategy_step numbers alternating (queue (MarketData numbers)) (queue (Signal numbers)) stale
      flooded

abbrev ordering : ThisClient
ordering =
    execution_step numbers alternating (queue (MarketData numbers)) (queue (Signal numbers))
      handling

ten_moves :
    Run numbers alternating
      (queue (MarketData numbers))
      (queue (Signal numbers))
      client
      (by_network (record ordering { running = false }))
ten_moves =
    Run.then_step
      (Run.then_step
        (Run.then_step
          (Run.then_step
            (Run.then_step
              (Run.then_step
                (Run.then_step
                  (Run.then_step (Run.then_step (Run.then_step Run.here Step.network) Step.network)
                    Step.network)
                  Step.network)
                Step.network)
              Step.network)
            (Step.strategy stale))
          Step.execution)
        Step.cleared)
      Step.network

Run-TicksArrive_example :
    TicksArrive numbers alternating
      (queue (MarketData numbers))
      (queue (Signal numbers))
      (by_network (record ordering { running = false }))
Run-TicksArrive_example =
    Run-TicksArrive numbers alternating (queue (MarketData numbers)) (queue (Signal numbers)) client
      (by_network (record ordering { running = false })) ten_moves
      (record { dropped = []; in_order = refl; at_shutdown = inl refl; counted = refl })

abbrev at_wide_tick : ThisClient
at_wide_tick = record client { market_data_queue = wide ∷ [] }

abbrev cut_off : Client numbers dropping (queue (MarketData numbers)) (queue (Signal numbers))
cut_off = record {
  feed = record {
    tcp_client = some 7;
    initialized = true;
    ticks_received = 0;
    queue_full_count = 0;
    phase = Phase.receiving;
    got = [];
  };
  running = true;
  market_data_queue = [];
  signal_queue = [];
  signals_generated = 0;
  orders_sent = 0;
  order_id = 1;
  world = 3;
  handled = [];
  pushed = [];
  executed = [];
}

-- The first attempt fails, and the second gives the socket 5.
network_settles_example :
    (m : ℕ) × (m ≤ 8)
    × (rounds numbers dropping (queue (MarketData numbers)) (queue (Signal numbers)) m cut_off
        ≡ settled numbers dropping
            (queue (MarketData numbers))
            (queue (Signal numbers))
            (some 5)
            6
            cut_off)
network_settles_example =
    network_settles numbers dropping (queue (MarketData numbers)) (queue (Signal numbers)) cut_off 7
      4 refl refl refl refl

abbrev answers : ℕ → Bool × ℕ
answers w = (true, w)

abbrev core : Core ℕ
core = record {
  config = true;
  tcp_server = false;
  market_feed = false;
  server_started = false;
  client_started = false;
  client_stopping = false;
  client_stopped = false;
  client_running = false;
  threads = false;
  world = 0;
}

core-IsConsistent : IsConsistent answers answers core
core-IsConsistent = unfold construct in construct-IsConsistent answers answers 0

perform_all-IsConsistent_example : IsConsistent answers answers (
    perform_all answers answers
      (Operation.work ∷ Operation.stop ∷ Operation.server ∷ Operation.work ∷ [])
      core)
perform_all-IsConsistent_example =
    perform_all-IsConsistent answers answers
      (Operation.work ∷ Operation.stop ∷ Operation.server ∷ Operation.work ∷ []) core
      core-IsConsistent
