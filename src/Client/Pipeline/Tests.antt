-- ===== src/Client/Pipeline/Tests.antt =====
-- The theorems on the whole way through the client, applied to a run from the start of the threads.
use tradingmarketsimulator.Prelude.{
  ◌≡◌, refl, some, true, false, arith, ◌∷◌, map, length, [], Picks,
}
use tradingmarketsimulator.Samples.{queue, numbers, alternating}
use tradingmarketsimulator.Client.{MarketData, Signal}
use tradingmarketsimulator.Client.Strategy.{compute_signal}
use tradingmarketsimulator.Client.Pipeline.{
  initialize, network_step, strategy_step, execution_step, Step, Run,
}
use tradingmarketsimulator.Client.Pipeline.Launch.{construct_feed, launch, Launched}
use tradingmarketsimulator.Client.Pipeline.Origin.{Answers, orders_answer_ticks}
use tradingmarketsimulator.Client.Pipeline.Delivery.Orders.{ordered, signalled}
use tradingmarketsimulator.Client.Pipeline.Drain.{strategy_rounds, execution_rounds, queues_drain}
use tradingmarketsimulator.Client.Tests.{ThisClient, by_network, stale}

-- The attempt at time 1 connects.
abbrev launched : ThisClient
launched =
    launch numbers alternating (queue (MarketData numbers)) (queue (Signal numbers))
      (record (construct_feed numbers alternating (queue (MarketData numbers))
        (queue (Signal numbers))) { tcp_client = some 1; initialized = true })
      [] [] 2

-- Two ticks arrive, one is handled, its order is sent, and the flag is cleared.
abbrev handling : ThisClient
handling =
    strategy_step numbers alternating (queue (MarketData numbers)) (queue (Signal numbers)) stale
      (by_network (by_network launched))

abbrev ordering : ThisClient
ordering =
    execution_step numbers alternating (queue (MarketData numbers)) (queue (Signal numbers))
      handling

abbrev stopped : ThisClient
stopped = by_network (record ordering { running = false })

stopped-Launched :
    Launched numbers alternating (queue (MarketData numbers)) (queue (Signal numbers)) stopped
unfolding initialize launch
stopped-Launched = record {
  feed = launched.feed;
  before = 1;
  after = 2;
  ticks = [];
  signals = [];
  initialized = refl;
  no_ticks = refl;
  no_signals = refl;
  run =
      Run.then_step
        (Run.then_step
          (Run.then_step
            (Run.then_step (Run.then_step (Run.then_step Run.here Step.network) Step.network)
              (Step.strategy stale))
            Step.execution)
          Step.cleared)
        Step.network;
}

orders_answer_ticks_example :
    Picks
      (Answers numbers alternating (queue (MarketData numbers)) (queue (Signal numbers)))
      stopped.feed.got
      stopped.executed
orders_answer_ticks_example =
    orders_answer_ticks numbers alternating (queue (MarketData numbers)) (queue (Signal numbers))
      stopped stopped-Launched

one_order : length stopped.executed ≡ 1
unfolding launch network_step strategy_step execution_step compute_signal
one_order = refl

abbrev flooded : ThisClient
flooded = by_network (by_network launched)

flooded-Launched :
    Launched numbers alternating (queue (MarketData numbers)) (queue (Signal numbers)) flooded
unfolding initialize launch
flooded-Launched = record {
  feed = launched.feed;
  before = 1;
  after = 2;
  ticks = [];
  signals = [];
  initialized = refl;
  no_ticks = refl;
  no_signals = refl;
  run = Run.then_step (Run.then_step Run.here Step.network) Step.network;
}

queues_drain_example :
    let e =
      execution_rounds numbers alternating (queue (MarketData numbers)) (queue (Signal numbers)) 2 (
        strategy_rounds numbers alternating
          (queue (MarketData numbers))
          (queue (Signal numbers))
          (stale ∷ stale ∷ [])
          flooded) in
    (e.handled ≡ flooded.feed.got)
    × (map
          (ordered numbers alternating (queue (MarketData numbers)) (queue (Signal numbers)))
          e.executed
        ≡ map
            (signalled numbers alternating (queue (MarketData numbers)) (queue (Signal numbers)))
            e.pushed)
unfolding launch network_step strategy_rounds strategy_step compute_signal
queues_drain_example =
    queues_drain numbers alternating (queue (MarketData numbers)) (queue (Signal numbers)) flooded
      (stale ∷ stale ∷ []) 2 flooded-Launched refl refl (omega arith) (omega arith)
