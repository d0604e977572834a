-- ===== src/Server/Tests.antt =====
-- The theorems on the server, applied to one whose first client leaves after two ticks.
use tradingmarketsimulator.Prelude.{
  ℕ, ◌+◌, ◌≡◌, refl, Bool, true, false, none, some, [], length, ltb, ◌==◌, not, if◌then◌else◌,
  arith, Chain,
}
use tradingmarketsimulator.Prelude.Int.{pos, negsuc}
use tradingmarketsimulator.Samples.{numbers}
use tradingmarketsimulator.Client.Lifecycle.{Core, construct}
use tradingmarketsimulator.Client.Lifecycle.Flags.{IsConsistent, construct-IsConsistent}
use tradingmarketsimulator.Server.{
  Network, Server, ServerPhase, generate_market_data, accept_step, send_step, server_round, serve,
  strncpy,
}
use tradingmarketsimulator.Server.Sequence.{InOrder, SameClient, serve_lem}

-- The world counts the calls: the first accept fails, the fifth send fails, an accept after that gives
-- an invalid descriptor.
abbrev pub network : Network numbers
network = record {
  World = ℕ;
  accept_client =
      λ w. (if w == 0 then none else if ltb w 9 then some (pos 4) else some (negsuc 0), w + 1);
  send = λ fd md w. (not (w == 7), w + 1);
  draw_price = λ w. (190, w + 1);
  draw_spread = λ w. (2, w);
}

abbrev pub server : Server numbers network
server = record { tick_counter = 0; i = 0; phase = ServerPhase.accepting; world = 0; attempts = [] }

two_arrive : length (serve numbers network 6 server).attempts ≡ 3
unfolding serve server_round accept_step send_step generate_market_data strncpy
two_arrive = refl

serve_lem_example :
    let sent = (serve numbers network 6 server).attempts in
    InOrder numbers network 0 sent × Chain (SameClient numbers network) sent
serve_lem_example = serve_lem numbers network 6 server (omega arith) refl refl

abbrev listens : ℕ → Bool × ℕ
listens w = (true, w)

abbrev core : Core ℕ
core = record {
  config = true;
  tcp_server = false;
  market_feed = false;
  server_started = false;
  client_started = false;
  client_stopping = false;
  client_stopped = false;
  client_running = false;
  threads = false;
  world = 0;
}

core-IsConsistent : IsConsistent listens listens core
core-IsConsistent = unfold construct in construct-IsConsistent listens listens 0
