-- ===== src/Client/Pipeline/Ticks.antt =====
-- No tick is lost on its way from the network to the strategy while the client runs.
pub mod Arrival
pub mod Network
pub mod Others
use tradingmarketsimulator.Prelude.{
  ℕ, suc, ◌%◌, ◌^◌, ◌≡◌, refl, sym, ap, ◌∙◌, Bool, true, false, Option, none, some, List, [], ◌∷◌,
  ◌++◌, length, length-append, append_assoc, append-nil, ltb, ◌==◌, ◌&&◌, arith, Bool-cases,
  if-cases, if-cases_eq, List-cases, Option-cases, inl, inr, ◌⊎◌,
}
use tradingmarketsimulator.Spsc.{Spsc}
use tradingmarketsimulator.Client.{
  Doubles, MarketData, market_data_size, Signal, ClientOrder, Tcp, Expected,
}
use tradingmarketsimulator.Client.Strategy.{compute_signal, generate_order, is_hold}
use tradingmarketsimulator.Client.Pipeline.{
  Phase, Client, Feed, count_on, network_step, receive_step, receive, push_tick, retry_step,
  reconnect, wait_step, strategy_step, push_signal, execution_step, Step, Run, max_retries, is_some,
  in_phase,
}
use tradingmarketsimulator.Client.Pipeline.Ticks.Arrival.{TicksArrive, quiet}
use tradingmarketsimulator.Client.Pipeline.Ticks.Network.{TicksArrive-network}
use tradingmarketsimulator.Client.Pipeline.Ticks.Others.{
  TicksArrive-strategy, TicksArrive-execution,
}

module _ (D : Doubles) (T : Tcp D) (MQ : Spsc (MarketData D)) (SQ : Spsc (Signal D)) where
  TicksArrive-Step :
      (c d : Client D T MQ SQ)
      → Step D T MQ SQ c d
      → TicksArrive D T MQ SQ c
      → TicksArrive D T MQ SQ d
  TicksArrive-Step c _ Step.network v = TicksArrive-network D T MQ SQ c v
  TicksArrive-Step c _ (Step.strategy stale) v = TicksArrive-strategy D T MQ SQ stale c v
  TicksArrive-Step c _ Step.execution v = TicksArrive-execution D T MQ SQ c v
  TicksArrive-Step c _ Step.cleared v =
      quiet D T MQ SQ c c.feed false c.world refl refl refl (λ _. refl) v

  -- However the threads' steps interleave, from a state where this holds on (one where nothing was
  -- received, say), every tick that was received has been handled by the
  -- strategy, or waits in the queue, or in the hand of the network thread, in the order of arrival and
  -- each once; at most one is dropped, and that only after the flag was cleared. The counter counts the
  -- ticks that were received.
  pub Run-TicksArrive :
      (c d : Client D T MQ SQ)
      → Run D T MQ SQ c d
      → TicksArrive D T MQ SQ c
      → TicksArrive D T MQ SQ d
  Run-TicksArrive c _ Run.here v = v
  Run-TicksArrive c e (Run.then_step {d = d} r s) v =
      TicksArrive-Step d e s (Run-TicksArrive c d r v)
