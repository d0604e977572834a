-- ===== src/MarketData/Tests.antt =====
-- The theorems on the depth messages, applied to the generator's own symbols and one message.
use Prim.Native.Nat.{bit_and}
use tradingmarketsimulator.Prelude.{
  ℕ, ◌≡◌, ◌↔◌, refl, some, List, [], ◌∷◌, arith, replicate, map, All,
}
use tradingmarketsimulator.Prelude.Int.{pos, negsuc, ◌≤ℤ◌, ◌-ℤ◌, ◌+ℤ◌}
use tradingmarketsimulator.Structs.{DepthMessage, InternalMessage}
use tradingmarketsimulator.Samples.{lowest, queue}
use tradingmarketsimulator.MarketData.Wire.{serialize, deserialize}
use tradingmarketsimulator.MarketData.Wire.RoundTrip.{Fits, received, deserialize-serialize}
use tradingmarketsimulator.MarketData.DepthGenerator
use tradingmarketsimulator.MarketData.DepthGenerator.{DepthGenerator, init, generate_depth_message}
use tradingmarketsimulator.MarketData.DepthGenerator.Rounds.{
  IsIdle, drawn_side, drawn_base, addressed, side_is_lost, run_numbers,
}
use tradingmarketsimulator.MarketData.DepthConsumer.{
  Consumer, IsReceipt, market_depth_msg_len, run, try_pop,
}
use tradingmarketsimulator.MarketData.DepthConsumer
use tradingmarketsimulator.MarketData.DepthConsumer.Receive.{
  failure, Arrival, answers, IsShort, error_replays, run_iff,
}

abbrev message : DepthMessage
message = record {
  header = record { version = 1; seq = 65535; ts_ns = 1234567 };
  option = record {
    strike = pos 20000;
    symbol = 65 ∷ 65 ∷ 80 ∷ 76 ∷ 0 ∷ 0 ∷ [];
    year = 26;
    month = 6;
    day = 19;
    flags = 1;
  };
  price = negsuc 99;
  flags = 1;
  pad = 0;
}

message-Fits : Fits message
message-Fits = record {
  ts_ns = omega arith;
  seq = omega arith;
  symbol = refl;
  strike = (omega arith, omega arith);
  price = (omega arith, omega arith);
}

deserialize-serialize_example : deserialize (serialize message) 7 ≡ received message 7
deserialize-serialize_example = deserialize-serialize message 7 message-Fits

abbrev generator : DepthGenerator lowest (queue DepthMessage)
generator = record {
  send_q = [];
  clients = 7 ∷ 8 ∷ [];
  symbols = (65 ∷ 65 ∷ 80 ∷ 76 ∷ 0 ∷ 0 ∷ []) ∷ (65 ∷ 77 ∷ 90 ∷ 78 ∷ 0 ∷ 0 ∷ []) ∷ [];
  strikes = pos 20000 ∷ pos 30000 ∷ [];
  base_prices = pos 21000 ∷ pos 32000 ∷ [];
  seq = 65535;
  world = 3;
}

generator-IsIdle : IsIdle lowest (queue DepthMessage) generator
generator-IsIdle = record {
  drained = refl;
  some_symbol = omega arith;
  symbols = (refl, (refl, tt));
  seq_fits = omega arith;
}

-- The generator that the constructor makes is idle too.
init-IsIdle : IsIdle lowest (queue DepthMessage) (init lowest (queue DepthMessage) (7 ∷ []) [] 0)
unfolding init
init-IsIdle = record {
  drained = refl;
  some_symbol = omega arith;
  symbols = (refl, (refl, (refl, (refl, (refl, tt)))));
  seq_fits = omega arith;
}

side_is_lost_example :
    let m = (generate_depth_message lowest (queue DepthMessage) generator).0 in
    let base = drawn_base lowest (queue DepthMessage) generator in
    (bit_and (deserialize (serialize m) 9).flags 1 ≡ 0)
    × (drawn_side lowest (queue DepthMessage) generator ≡ 1
        → (m.price ≤ℤ base -ℤ pos 1000) × (base -ℤ pos 5000 ≤ℤ m.price))
    × (drawn_side lowest (queue DepthMessage) generator ≡ 0
        → (base +ℤ pos 1000 ≤ℤ m.price) × (m.price ≤ℤ base +ℤ pos 5000))
side_is_lost_example = side_is_lost lowest (queue DepthMessage) generator 9 generator-IsIdle

-- After 65535 comes 0.
run_numbers_example :
    map
      (addressed lowest (queue DepthMessage))
      (DepthGenerator.run lowest (queue DepthMessage) 2 generator).0
    ≡ (7, 65535) ∷ (8, 65535) ∷ (7, 0) ∷ (8, 0) ∷ []
run_numbers_example = run_numbers lowest (queue DepthMessage) 2 generator generator-IsIdle

abbrev used_consumer : Consumer (queue InternalMessage)
used_consumer = record { buf = serialize message; recv_queue = [] }

error_replays_example :
    IsReceipt market_depth_msg_len (failure 0 market_depth_msg_len)
    × ((c' : Consumer (queue InternalMessage)) × (DepthConsumer.round
            (queue InternalMessage)
            (failure 0)
            8
            used_consumer
          ≡ some c')
        × ((try_pop (queue InternalMessage) c').0 ≡ some (received message 8)))
error_replays_example =
    error_replays (queue InternalMessage) message 8 0 used_consumer message-Fits refl refl

-- The third datagram is longer than a message, and `recv` is allowed it.
abbrev arriving : List (Arrival × ℕ)
arriving =
    (Arrival.packet (serialize message), 1)
    ∷ (Arrival.failed 3, 2)
    ∷ (Arrival.packet (replicate 40 1), 3)
    ∷ []

run_iff_example :
    ((c' : Consumer (queue InternalMessage)) × (run
          (queue InternalMessage)
          (answers arriving)
          (DepthConsumer.init (queue InternalMessage) [])
        ≡ some c'))
    ↔ All (λ p. IsShort p.0) arriving
run_iff_example = run_iff (queue InternalMessage) arriving []

generated-Fits : Fits (generate_depth_message lowest (queue DepthMessage) generator).0
unfolding generate_depth_message ◌+ℤ◌
generated-Fits = record {
  ts_ns = omega arith;
  seq = omega arith;
  symbol = refl;
  strike = (omega arith, omega arith);
  price = (omega arith, omega arith);
}
