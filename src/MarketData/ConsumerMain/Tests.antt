-- ===== src/MarketData/ConsumerMain/Tests.antt =====
-- The theorem on the consumer's output, applied to one datagram and two rounds of the loop.
use tradingmarketsimulator.Prelude.{
  All, arith, ◌≡◌, refl, some, [], ◌∷◌, ◌++◌, length, replicate, ltb, if◌then◌else◌,
}
use tradingmarketsimulator.Prelude.Int.{pos, ◌+ℤ◌, ◌-ℤ◌}
use tradingmarketsimulator.Samples.{queue, lowest}
use tradingmarketsimulator.Structs.{InternalMessage, DepthMessage}
use tradingmarketsimulator.MarketData.Wire.{Buffer, wire_size, deserialize}
use tradingmarketsimulator.MarketData.DepthConsumer
use tradingmarketsimulator.MarketData.DepthConsumer.{Consumer, Recv, read_msg, store, try_pop}
use tradingmarketsimulator.MarketData.ConsumerMain.{
  Micro, line_up, Program, started, poll, accepted, Turn, Turns,
}
use tradingmarketsimulator.MarketData.DepthGenerator
use tradingmarketsimulator.MarketData.DepthGenerator.{
  DepthGenerator, generate_depth_message, enqueue, send_msg,
}
use tradingmarketsimulator.MarketData.DepthGenerator.Rounds.{IsIdle}
use tradingmarketsimulator.MarketData.Wire.RoundTrip.{Fits}
use tradingmarketsimulator.MarketData.ConsumerMain.Feed.{
  arrivals, all_received, watch, CallsPutAndAsk, made, feed_prints,
}
use tradingmarketsimulator.MarketData.ConsumerMain.Printed.{Prints, started-Prints}

abbrev coarse : Micro
coarse a b = if ltb a b then "before" else "after"

abbrev ThisConsumer : Type 0
ThisConsumer = Consumer (queue InternalMessage)

abbrev ThisProgram : Type 0
ThisProgram = Program (queue InternalMessage) coarse

abbrev receipt : Recv
receipt allowance = record { count = pos 32; bytes = replicate wire_size 1 }

abbrev at_start : ThisProgram
at_start = started (queue InternalMessage) coarse []

abbrev filled_buffer : Buffer
filled_buffer = replicate wire_size 1

abbrev with_message : ThisConsumer
with_message = record { buf = filled_buffer; recv_queue = deserialize filled_buffer 9 ∷ [] }

receives_one :
    DepthConsumer.round (queue InternalMessage) receipt 9 at_start.consumer ≡ some with_message
unfolding DepthConsumer.round read_msg store started DepthConsumer.init
receives_one = refl

abbrev after_two : ThisProgram
after_two = poll (queue InternalMessage) coarse (
    poll (queue InternalMessage) coarse (record at_start {
      consumer = with_message;
      arrived =
          at_start.arrived ++ accepted (queue InternalMessage) coarse receipt 9 at_start.consumer;
    }))

started-Prints_example : Prints (queue InternalMessage) coarse after_two
started-Prints_example = started-Prints (queue InternalMessage) coarse [] after_two refl (
    Turns.then_step
      (Turns.then_step
        (Turns.then_step Turns.here (Turn.receives receipt 9 with_message receives_one)) Turn.polls)
      Turn.polls)

one_line : length after_two.lines ≡ 1
unfolding poll started
one_line = refl

abbrev source : DepthGenerator lowest (queue DepthMessage)
source = record {
  send_q = [];
  clients = 7 ∷ [];
  symbols = (65 ∷ 65 ∷ 80 ∷ 76 ∷ 0 ∷ 0 ∷ []) ∷ [];
  strikes = pos 20000 ∷ [];
  base_prices = pos 21000 ∷ [];
  seq = 65535;
  world = 3;
}

source-IsIdle : IsIdle lowest (queue DepthMessage) source
source-IsIdle = record {
  drained = refl;
  some_symbol = omega arith;
  symbols = (refl, tt);
  seq_fits = omega arith;
}

two-Fits : All Fits (made lowest (queue DepthMessage) (queue InternalMessage) coarse 2 source)
unfolding made DepthGenerator.round generate_depth_message enqueue send_msg ◌+ℤ◌ ◌-ℤ◌
two-Fits = (
  record {
    ts_ns = omega arith;
    seq = omega arith;
    symbol = refl;
    strike = (omega arith, omega arith);
    price = (omega arith, omega arith);
  },
  (
    record {
      ts_ns = omega arith;
      seq = omega arith;
      symbol = refl;
      strike = (omega arith, omega arith);
      price = (omega arith, omega arith);
    },
    tt,
  ),
)

feed_prints_example :
    (r : ThisProgram) × (watch
        (queue InternalMessage)
        coarse
        (arrivals (λ k. k) 0 (DepthGenerator.run lowest (queue DepthMessage) 2 source).0)
        at_start
      ≡ some r)
    × (r.lines
        ≡ at_start.lines
          ++ line_up coarse at_start.t_last (
              all_received
                (λ k. k)
                0
                (made lowest (queue DepthMessage) (queue InternalMessage) coarse 2 source)))
    × All CallsPutAndAsk (
        line_up coarse at_start.t_last (
          all_received
            (λ k. k)
            0
            (made lowest (queue DepthMessage) (queue InternalMessage) coarse 2 source)))
unfolding started DepthConsumer.init
feed_prints_example =
    feed_prints lowest (queue DepthMessage) (queue InternalMessage) coarse 2 7 source (λ k. k)
      at_start source-IsIdle refl two-Fits (refl, refl)
