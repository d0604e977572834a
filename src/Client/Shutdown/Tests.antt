-- ===== src/Client/Shutdown/Tests.antt =====
-- The theorem on late ticks, applied to a client that waits in `recv` when its flag is cleared.
use tradingmarketsimulator.Prelude.{◌≡◌, refl, true, false, some, length}
use tradingmarketsimulator.Samples.{queue, numbers, alternating}
use tradingmarketsimulator.Client.{MarketData, Signal}
use tradingmarketsimulator.Client.Pipeline.{receive}
use tradingmarketsimulator.Client.Shutdown.{Waiting, answer_step, wait_or_answer, LateStep, LateRun}
use tradingmarketsimulator.Client.Shutdown.Late.{Receives, late_ticks}
use tradingmarketsimulator.Client.Tests.{client}

abbrev ThisWaiting : Type 0
ThisWaiting = Waiting numbers alternating (queue (MarketData numbers)) (queue (Signal numbers))

abbrev go_on : ThisWaiting → ThisWaiting
go_on = wait_or_answer numbers alternating (queue (MarketData numbers)) (queue (Signal numbers))

abbrev cut_off : ThisWaiting
cut_off = record {
  client = record client {
    running = false;
    feed = record client.feed { tcp_client = some 1; initialized = true };
  };
  waits_on = some 1;
}

-- A tick arrives, and the thread leaves its loop.
late_ticks_example :
    Receives numbers alternating
      (queue (MarketData numbers))
      (queue (Signal numbers))
      cut_off
      (go_on (go_on cut_off))
late_ticks_example =
    late_ticks numbers alternating (queue (MarketData numbers)) (queue (Signal numbers)) cut_off
      (go_on (go_on cut_off))
      (LateRun.then_step (LateRun.then_step LateRun.here LateStep.network) LateStep.network) refl

one_late : length (go_on (go_on cut_off)).client.feed.got ≡ 1
unfolding wait_or_answer answer_step receive
one_late = refl
