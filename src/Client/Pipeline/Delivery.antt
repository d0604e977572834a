-- ===== src/Client/Pipeline/Delivery.antt =====
-- What the three threads do to the ticks and signals that pass through them, in any order of steps.
pub mod Orders
use tradingmarketsimulator.Prelude.{false}
use tradingmarketsimulator.Spsc.{Spsc}
use tradingmarketsimulator.Client.{Doubles, MarketData, Signal, Tcp}
use tradingmarketsimulator.Client.Pipeline.{Client, Step, Run}
use tradingmarketsimulator.Client.Pipeline.Delivery.Orders.{
  OrdersFollow, OrdersFollow-execution, OrdersFollow-elsewhere, OrdersFollow-strategy,
}
use tradingmarketsimulator.Client.Pipeline.Frame.{beyond-network_step}

module _ (D : Doubles) (T : Tcp D) (MQ : Spsc (MarketData D)) (SQ : Spsc (Signal D)) where
  OrdersFollow-Step :
      (c d : Client D T MQ SQ)
      → Step D T MQ SQ c d
      → OrdersFollow D T MQ SQ c
      → OrdersFollow D T MQ SQ d
  OrdersFollow-Step c _ Step.network v =
      beyond-network_step D T MQ SQ (OrdersFollow D T MQ SQ) c
        (λ f r q w. OrdersFollow-elsewhere D T MQ SQ c f r q w c.handled v)
  OrdersFollow-Step c _ (Step.strategy stale) v = OrdersFollow-strategy D T MQ SQ stale c v
  OrdersFollow-Step c _ Step.execution v = OrdersFollow-execution D T MQ SQ c v
  OrdersFollow-Step c _ Step.cleared v =
      OrdersFollow-elsewhere D T MQ SQ c c.feed false c.market_data_queue c.world c.handled v

  -- However the threads' steps interleave, from a state where this holds on (one where nothing was
  -- pushed, say), the orders that were executed and the signals that are still
  -- queued are, in order and each once, the signals that the strategy pushed; the counters of signals
  -- and orders count them, and the next order takes the next identifier.
  pub Run-OrdersFollow :
      (c d : Client D T MQ SQ)
      → Run D T MQ SQ c d
      → OrdersFollow D T MQ SQ c
      → OrdersFollow D T MQ SQ d
  Run-OrdersFollow c _ Run.here v = v
  Run-OrdersFollow c e (Run.then_step {d = d} r s) v =
      OrdersFollow-Step d e s (Run-OrdersFollow c d r v)
