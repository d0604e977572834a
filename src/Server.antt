-- ===== src/Server.antt =====
-- src/mms/app/Core.cc and src/mms/app/Controller.cc, the side of the server: the ticks that it makes
-- and the loop that accepts clients and sends to them. A step is one round of the inner or of the
-- outer loop; the pauses are left out, and what the log says of each tick is kept in a list.
pub mod Start
pub mod Symbol
pub mod Sequence
pub mod Tests
use tradingmarketsimulator.Prelude.{
  ℕ, zero, suc, ◌+◌, ◌%◌, ◌^◌, Bool, Option, none, some, List, [], ◌∷◌, ◌++◌, ◌==◌, if◌then◌else◌,
}
use tradingmarketsimulator.Prelude.Int.{ℤ, pos, ltb_ℤ}
use tradingmarketsimulator.Client.{Doubles, MarketData}

-- What the server takes from outside: `fiah::TcpServer`, whose `accept_client` answers a descriptor or
-- an error and whose `send` answers whether it went through, and draws from `price_dist` and
-- `spread_dist`.
pub record Network (D : Doubles) : Type 1 where
  pub World : Type 0
  pub accept_client : World → Option ℤ × World
  pub send : ℤ → MarketData D → World → Bool × World
  pub draw_price : World → D.Double × World
  pub draw_spread : World → D.Double × World

-- `std::strncpy` of a text into so many bytes: it ends at the first zero and fills up with zeros.
unfoldable pub strncpy : ℕ → List ℕ → List ℕ
strncpy zero text = []
strncpy (suc n) [] = 0 ∷ strncpy n []
strncpy (suc n) (c ∷ text) =
    let copied = strncpy n text in
    let filled = strncpy n [] in if c == 0 then 0 ∷ filled else c ∷ copied

-- `sizeof(md.symbol)`
abbrev pub symbol_size : ℕ
symbol_size = 8

-- "AAPL"
abbrev pub aapl : List ℕ
aapl = 65 ∷ 65 ∷ 80 ∷ 76 ∷ []

-- Where the server stands: before `accept_client`, or in the loop that sends to a client.
pub data ServerPhase : Type 0 where
  accepting : ServerPhase
  sending : ℤ → ServerPhase

module _ (D : Doubles) (N : Network D) where
  -- A call of `send`: to whom, what, whether it went through, and the number that the log then gives it
  pub record Attempt : Type 0 where
    pub fd : ℤ
    pub tick : MarketData D
    pub delivered : Bool
    pub named : Option ℕ

  pub record Server : Type 0 where
    -- `tick_counter`
    pub tick_counter : ℕ
    -- `i` of `work_server`
    pub i : ℕ
    pub phase : ServerPhase
    pub world : N.World
    pub attempts : List Attempt

  unfoldable pub generate_market_data : List ℕ → Server → MarketData D × Server
  generate_market_data symbol s =
      let tick_id = s.tick_counter in
      let (bid, w) = N.draw_price s.world in
      let (spread, w') = N.draw_spread w in
      (
        record {
          seq_num = tick_id;
          bid = bid;
          ask = D.plus bid spread;
          timestamp_ns = tick_id;
          symbol = strncpy 7 symbol ++ (0 ∷ []);
        },
        record s { tick_counter = (tick_id + 1) % 2 ^ 64; world = w' },
      )

  -- A round of the loop that accepts
  unfoldable pub accept_step : Server → Server
  accept_step s =
      let (client_socket, w) = N.accept_client s.world in
      elim client_socket [
        | none ↦ record s { world = w }
        | some fd ↦ record s { world = w; phase = ServerPhase.sending fd }
      ]

  -- A round of the loop that sends
  unfoldable pub send_step : ℤ → Server → Server
  unfolding generate_market_data
  send_step fd s =
      let (tick, s') = generate_market_data aapl s in
      let (sent, w) = N.send fd tick s'.world in
      if ltb_ℤ fd (pos 1) then record s { phase = ServerPhase.accepting } else record s' {
        world = w;
        phase = if sent then ServerPhase.sending fd else ServerPhase.accepting;
        attempts =
            s'.attempts
            ++ (record {
              fd = fd;
              tick = tick;
              delivered = sent;
              named = if sent then some s'.i else none;
            }
                ∷ []);
      }

  -- A round of the loop that the server stands in
  unfoldable pub server_round : ServerPhase → Server → Server
  unfolding accept_step send_step
  server_round ServerPhase.accepting s = accept_step s
  server_round (ServerPhase.sending fd) s = send_step fd s

  -- The loops of `work_server` for so many rounds, from their start
  unfoldable pub serve : ℕ → Server → Server
  serve zero s = s
  serve (suc n) s = let s' = serve n s in server_round s'.phase s'
