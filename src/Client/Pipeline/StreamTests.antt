-- ===== src/Client/Pipeline/StreamTests.antt =====
-- The theorem on partial reads, applied to three ticks of which the second is torn.
use mathlib.Core.List.{append-nil}
use tradingmarketsimulator.Prelude.{
  ℕ, ◌≡◌, refl, sym, ap, true, Option, none, some, List, [], ◌∷◌, ◌++◌, length, length-append, take,
  take-front, replicate, arith,
}
use tradingmarketsimulator.Samples.{queue, numbers, tick}
use tradingmarketsimulator.Client.{MarketData, Signal, Tcp, Expected}
use tradingmarketsimulator.Client.Pipeline.{Client, Feed, initialize, network_step, Step, Run}
use tradingmarketsimulator.Client.Pipeline.Launch.{construct_feed, launch, Launched}
use tradingmarketsimulator.Client.Pipeline.Reads.{
  Packet, answered, Journal, ticks_of, gets_whole_packets,
}
use tradingmarketsimulator.Client.Pipeline.Stream.{
  Layout, IsWhole, stream, packets, torn, partial_read_tears,
}

-- The packets to come, and those that were read
abbrev Wire : Type 0
Wire = List (Packet numbers) × List (Packet numbers)

abbrev recv_next : Wire → Option (Packet numbers) × Wire
recv_next ([], log) = (none, ([], log))
recv_next (p ∷ ps, log) = (some p, (ps, log ++ (p ∷ [])))

abbrev wired : Tcp numbers
wired = record {
  Socket = ℕ;
  World = Wire;
  connect = λ w. (some 0, w);
  recv = λ s w. recv_next w;
  now = λ w. (0, w);
}

recv_next-log : (w : Wire) → (recv_next w).1.1 ≡ w.1 ++ answered (recv_next w).0
recv_next-log ([], log) = sym (append-nil log)
recv_next-log (p ∷ ps, log) = refl

abbrev journal : Journal numbers wired
journal = record {
  log = λ w. w.1;
  log-connect = λ w. refl;
  log-now = λ w. refl;
  log-recv = λ s w. recv_next-log w;
}

-- Numbers count as one byte; the rest is filled up.
abbrev bytes_of : MarketData numbers → List ℕ
bytes_of md = md.seq_num ∷ md.bid ∷ md.ask ∷ md.timestamp_ns ∷ (md.symbol ++ replicate 28 0)

abbrev reads_as : List ℕ → MarketData numbers
reads_as (a ∷ b ∷ c ∷ d ∷ rest) = record {
  seq_num = a;
  bid = b;
  ask = c;
  timestamp_ns = d;
  symbol = take 8 rest;
}
reads_as _ = tick 0

length-bytes_of : (md : MarketData numbers) → IsWhole md → length (bytes_of md) ≡ 40
length-bytes_of md h = omega (arith, length-append md.symbol (replicate 28 0))

reads_as-bytes_of : (md : MarketData numbers) → IsWhole md → reads_as (bytes_of md) ≡ md
reads_as-bytes_of md h =
    ap (λ (s : List ℕ). record md { symbol = s }) (take-front md.symbol (replicate 28 0) 8 h)

abbrev layout : Layout numbers
layout = record {
  bytes = bytes_of;
  reads = reads_as;
  length-bytes = length-bytes_of;
  reads-bytes = reads_as-bytes_of;
}

abbrev full_tick : ℕ → MarketData numbers
full_tick n = record (tick n) { symbol = replicate 8 65 }

abbrev ticks : List (MarketData numbers)
ticks = full_tick 1 ∷ full_tick 2 ∷ full_tick 3 ∷ []

abbrev answers : List (Packet numbers)
answers = packets numbers layout (40 ∷ 7 ∷ 40 ∷ []) (stream numbers layout ticks)

abbrev WiredClient : Type 0
WiredClient = Client numbers wired (queue (MarketData numbers)) (queue (Signal numbers))

abbrev ThisFeed : Type 0
ThisFeed = Feed numbers wired (queue (MarketData numbers)) (queue (Signal numbers))

abbrev new_feed : ThisFeed
new_feed = construct_feed numbers wired (queue (MarketData numbers)) (queue (Signal numbers))

abbrev connected_feed : ThisFeed
connected_feed = record new_feed { tcp_client = some 0; initialized = true }

connects :
    initialize numbers wired
      (queue (MarketData numbers))
      (queue (Signal numbers))
      new_feed
      (answers, [])
    ≡ (Expected.ok, connected_feed, (answers, []))
unfolding initialize
connects = refl

abbrev connected : WiredClient
connected =
    launch numbers wired (queue (MarketData numbers)) (queue (Signal numbers)) connected_feed [] []
      (answers, [])

abbrev round : WiredClient → WiredClient
round c = network_step numbers wired (queue (MarketData numbers)) (queue (Signal numbers)) c

abbrev torn_off : WiredClient
torn_off = round (round (round connected))

abbrev torn_off-Launched :
    Launched numbers wired (queue (MarketData numbers)) (queue (Signal numbers)) torn_off
torn_off-Launched = record {
  feed = connected_feed;
  before = (answers, []);
  after = (answers, []);
  ticks = [];
  signals = [];
  initialized = connects;
  no_ticks = refl;
  no_signals = refl;
  run =
      Run.then_step (Run.then_step (Run.then_step Run.here Step.network) Step.network) Step.network;
}

all_read : torn_off.world.1 ≡ answers
unfolding launch network_step stream packets
all_read = refl

partial_read_tears_example :
    torn_off.feed.got ≡ (full_tick 1 ∷ []) ++ torn numbers layout 7 (full_tick 2) (full_tick 3 ∷ [])
partial_read_tears_example =
    partial_read_tears numbers wired (queue (MarketData numbers)) (queue (Signal numbers)) journal
      layout torn_off torn_off-Launched 7 (full_tick 1 ∷ []) (full_tick 2) (full_tick 3 ∷ [])
      (refl, (refl, (refl, tt))) refl (omega arith) all_read

gets_whole_packets_example : torn_off.feed.got ≡ ticks_of numbers (journal.log torn_off.world)
gets_whole_packets_example =
    gets_whole_packets numbers wired (queue (MarketData numbers)) (queue (Signal numbers)) journal
      torn_off torn_off-Launched refl
