-- ===== src/Trading/Tests.antt =====
-- The theorem on both ends, applied to a client that receives the first tick of a server.
use tradingmarketsimulator.Prelude.{
  ℕ, ◌+◌, ◌==◌, ◌≡◌, refl, true, some, [], ◌∷◌, length, if◌then◌else◌, arith, inl, Picks,
}
use tradingmarketsimulator.Samples.{queue, numbers}
use tradingmarketsimulator.Client.{MarketData, Signal, SignalType, Tcp}
use tradingmarketsimulator.Client.Strategy.{compute_signal}
use tradingmarketsimulator.Client.Pipeline.{
  Client, initialize, network_step, strategy_step, execution_step, Step, Run,
}
use tradingmarketsimulator.Client.Pipeline.Launch.{construct_feed, launch, Launched}
use tradingmarketsimulator.Server.{
  serve, server_round, accept_step, send_step, generate_market_data, strncpy,
}
use tradingmarketsimulator.Server.Tests.{network, server}
use tradingmarketsimulator.Trading.{AnswersAttempt, orders_answer_server}

abbrev first_tick : MarketData numbers
first_tick = record {
  seq_num = 0;
  bid = 190;
  ask = 192;
  timestamp_ns = 0;
  symbol = 65 ∷ 65 ∷ 80 ∷ 76 ∷ 0 ∷ 0 ∷ 0 ∷ 0 ∷ [];
}

-- The tick arrives whole at the first `recv`, and nothing after it.
abbrev once : Tcp numbers
once = record {
  Socket = ℕ;
  World = ℕ;
  connect = λ w. (some 5, w + 1);
  recv = λ s w. (some (if w == 1 then 40 else 0, first_tick), w + 1);
  now = λ w. (w, w + 1);
}

abbrev ThisClient : Type 0
ThisClient = Client numbers once (queue (MarketData numbers)) (queue (Signal numbers))

abbrev stale : Signal numbers
stale = record { symbol = []; type = SignalType.hold; price = 7; quantity = 9; timestamp_ns = 0 }

abbrev launched : ThisClient
launched =
    launch numbers once (queue (MarketData numbers)) (queue (Signal numbers))
      (record (construct_feed numbers once (queue (MarketData numbers)) (queue (Signal numbers))) {
        tcp_client = some 5;
        initialized = true;
      })
      [] [] 1

abbrev traded : ThisClient
traded = execution_step numbers once (queue (MarketData numbers)) (queue (Signal numbers)) (
    strategy_step numbers once (queue (MarketData numbers)) (queue (Signal numbers)) stale
      (network_step numbers once (queue (MarketData numbers)) (queue (Signal numbers)) launched))

traded-Launched : Launched numbers once (queue (MarketData numbers)) (queue (Signal numbers)) traded
unfolding initialize launch
traded-Launched = record {
  feed = launched.feed;
  before = 0;
  after = 1;
  ticks = [];
  signals = [];
  initialized = refl;
  no_ticks = refl;
  no_signals = refl;
  run =
      Run.then_step (Run.then_step (Run.then_step Run.here Step.network) (Step.strategy stale))
        Step.execution;
}

orders_answer_server_example :
    Picks
      (AnswersAttempt numbers once (queue (MarketData numbers)) (queue (Signal numbers)) network)
      (serve numbers network 3 server).attempts
      traded.executed
unfolding launch network_step strategy_step execution_step compute_signal serve server_round
    accept_step send_step generate_market_data strncpy
orders_answer_server_example =
    orders_answer_server numbers once (queue (MarketData numbers)) (queue (Signal numbers)) network
      3 server traded (omega arith) refl refl traded-Launched (inl ((refl, refl), tt))

one_order : length traded.executed ≡ 1
unfolding launch network_step strategy_step execution_step compute_signal
one_order = refl
