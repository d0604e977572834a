-- ===== src/Client/Shutdown.antt =====
-- src/mms/market/MarketFeed.cc, `receive_loop`, with the wait in `recv` as a step of its own: the flag may be
-- cleared while the network thread waits.
pub mod Late
pub mod Tests
use tradingmarketsimulator.Prelude.{Option, none, some, false, if◌then◌else◌}
use tradingmarketsimulator.Spsc.{Spsc}
use tradingmarketsimulator.Client.{Doubles, MarketData, Signal, Tcp}
use tradingmarketsimulator.Client.Pipeline.{
  Phase, Client, in_phase, receive, retry_step, wait_step, strategy_step, execution_step,
}

module _ (D : Doubles) (T : Tcp D) (MQ : Spsc (MarketData D)) (SQ : Spsc (Signal D)) where
  -- The client, and the socket on which the network thread waits in `recv`, if it does
  pub record Waiting : Type 0 where
    pub client : Client D T MQ SQ
    pub waits_on : Option T.Socket

  -- The test of the flag and of the connection, after which the thread waits
  unfoldable pub test_step : Client D T MQ SQ → Waiting
  test_step c =
      if c.running
      then elim c.feed.tcp_client [
        | none ↦ record { client = in_phase D T MQ SQ (Phase.retrying 0) c; waits_on = none }
        | some s ↦ record { client = c; waits_on = some s }
      ]
      else record { client = in_phase D T MQ SQ Phase.exited c; waits_on = none }

  -- `recv` answers, and the answer is handled.
  unfoldable pub answer_step : T.Socket → Client D T MQ SQ → Waiting
  answer_step s c =
      let (got, w) = T.recv s c.world in
      record { client = receive D T MQ SQ got (record c { world = w }); waits_on = none }

  -- The network thread goes on; the rounds of its other loops are as in Client/Pipeline.
  unfoldable pub wait_or_answer : Waiting → Waiting
  unfolding test_step answer_step
  wait_or_answer f = elim f.waits_on [
    | some s ↦ answer_step s f.client
    | none ↦ elim f.client.feed.phase [
      | Phase.receiving ↦ test_step f.client
      | Phase.retrying k ↦ record { client = retry_step D T MQ SQ k f.client; waits_on = none }
      | Phase.waiting md ↦ record { client = wait_step D T MQ SQ md f.client; waits_on = none }
      | Phase.exited ↦ f
    ]
  ]

  -- The threads take turns, and `stop_client` may clear the flag while the network thread waits.
  pub data LateStep : Waiting → Waiting → Type 0 where
    network : {f : Waiting} → LateStep f (wait_or_answer f)
    strategy :
        {f : Waiting} (stale : Signal D)
        → LateStep f (record f { client = strategy_step D T MQ SQ stale f.client })
    execution : {f : Waiting} → LateStep f (record f { client = execution_step D T MQ SQ f.client })
    cleared : {f : Waiting} → LateStep f (record f { client = record f.client { running = false } })

  pub data LateRun : Waiting → Waiting → Type 0 where
    here : {f : Waiting} → LateRun f f
    then_step : {f g h : Waiting} → LateRun f g → LateStep g h → LateRun f h
