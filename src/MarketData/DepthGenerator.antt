-- ===== src/MarketData/DepthGenerator.antt =====
-- include/mms/market_data/MarketDepthGenerator.hh and src/mms/market_data/MarketDepthGenerator.cc:
-- the thread that makes depth messages, queues them and sends them to every client.
pub mod Rounds
use Prim.Native.Nat.{bit_and}
use tradingmarketsimulator.Prelude.{
  ℕ, zero, suc, ◌+◌, ◌-◌, ◌%◌, ◌^◌, Bool, true, false, Option, none, some, List, [], ◌∷◌, ◌++◌, map,
  length, get_or, if◌then◌else◌, ◌==◌,
}
use tradingmarketsimulator.Prelude.Int.{ℤ, pos, negsuc, ◌+ℤ◌, ◌-ℤ◌, pos_part}
use tradingmarketsimulator.Outside.{Outside}
use tradingmarketsimulator.Spsc.{Spsc}
use tradingmarketsimulator.Market.Price.{Price, invalid_price}
use tradingmarketsimulator.Structs.{Contract, Header, DepthMessage}
use tradingmarketsimulator.MarketData.Wire.{Buffer, serialize, version}

-- The members, without the thread, the pause and `m_gen_fn`, which is `generate_depth_message`. A
-- client is the number of its address.
pub record DepthGenerator (E : Outside) (Q : Spsc DepthMessage) : Type 0 where
  pub send_q : Q.Queue
  pub clients : List ℕ
  pub symbols : List (List ℕ)
  pub strikes : List Price
  pub base_prices : List Price
  pub seq : ℕ
  pub world : E.World

-- A packet on its way to a client
abbrev pub Sent : Type 0
Sent = ℕ × Buffer

module _ (E : Outside) (Q : Spsc DepthMessage) where
  -- The constructor. The symbols are "AAPL", "AMZN", "SPCX", "TSLA" and "MSFT".
  unfoldable pub init : List ℕ → Q.Queue → E.World → DepthGenerator E Q
  init clients q w = record {
    send_q = q;
    clients = clients;
    symbols =
        (65 ∷ 65 ∷ 80 ∷ 76 ∷ 0 ∷ 0 ∷ [])
        ∷ (65 ∷ 77 ∷ 90 ∷ 78 ∷ 0 ∷ 0 ∷ [])
        ∷ (83 ∷ 80 ∷ 67 ∷ 88 ∷ 0 ∷ 0 ∷ [])
        ∷ (84 ∷ 83 ∷ 76 ∷ 65 ∷ 0 ∷ 0 ∷ [])
        ∷ (77 ∷ 83 ∷ 70 ∷ 84 ∷ 0 ∷ 0 ∷ [])
        ∷ [];
    strikes = pos 20000 ∷ pos 30000 ∷ pos 20000 ∷ pos 80000 ∷ pos 100000 ∷ [];
    base_prices = pos 21000 ∷ pos 32000 ∷ pos 16000 ∷ pos 85000 ∷ pos 92000 ∷ [];
    seq = 0;
    world = w;
  }

  unfoldable pub generate_header : DepthGenerator E Q → Header × DepthGenerator E Q
  generate_header g =
      let (now, w) = E.ticks g.world in
      (record { version = version; seq = g.seq; ts_ns = now }, record g { world = w })

  -- An index out of range does not occur: the lists are as long as `symbols`.
  unfoldable pub generate_option : DepthGenerator E Q → ℕ → Contract
  generate_option g idx = record {
    strike = get_or g.strikes idx invalid_price;
    symbol = get_or g.symbols idx [];
    year = 26;
    month = 6;
    day = 19;
    flags = 1;
  }

  -- The braces of the `return` give a zero to `flags`, and the computed flags to the padding byte.
  unfoldable pub generate_depth_message : DepthGenerator E Q → DepthMessage × DepthGenerator E Q
  unfolding generate_header generate_option
  generate_depth_message g =
      let (drawn, w) = E.draw_nat 0 (length g.symbols - 1) g.world in
      let idx : ℕ = drawn in
      let (is_bid, w') = E.draw_nat 0 1 w in
      let (modifier, w'') = E.draw_int (pos 1000) (pos 5000) w' in
      let base = get_or g.base_prices idx invalid_price in
      let price : Price = if is_bid == 0 then base +ℤ modifier else base -ℤ modifier in
      let flags = bit_and is_bid 1 in
      let (header, g') = generate_header (record g { world = w'' }) in
      (
        record {
          header = header;
          option = generate_option g idx;
          price = price;
          flags = 0;
          pad = flags;
        },
        g',
      )

  unfoldable pub enqueue : DepthMessage → DepthGenerator E Q → DepthGenerator E Q
  enqueue msg g = record g { send_q = (Q.push msg g.send_q).1 }

  -- `++m_seq` wraps at 16 bits.
  unfoldable pub send_msg : DepthGenerator E Q → List Sent × DepthGenerator E Q
  send_msg g =
      let (popped, q) = Q.pop g.send_q in
      elim popped [
        | none ↦ ([], record g { send_q = q })
        | some msg ↦ (
          map (λ client. (client, serialize msg)) g.clients,
          record g { send_q = q; seq = (g.seq + 1) % 2 ^ 16 },
        )
      ]

  -- The body of the loop of `run`
  unfoldable pub round : DepthGenerator E Q → List Sent × DepthGenerator E Q
  round g = let (msg, g') = generate_depth_message g in send_msg (enqueue msg g')

  -- `run`, for a number of rounds
  unfoldable pub run : ℕ → DepthGenerator E Q → List Sent × DepthGenerator E Q
  run zero g = ([], g)
  run (suc n) g = let (out, g') = round g in let (rest, g'') = run n g' in (out ++ rest, g'')
