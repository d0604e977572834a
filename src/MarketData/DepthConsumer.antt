-- ===== src/MarketData/DepthConsumer.antt =====
-- include/mms/market_data/MarketDepthConsumer.hh and src/mms/market_data/MarketDepthConsumer.cc: the
-- thread that receives packets, decodes them and queues the messages.
pub mod Receive
use tradingmarketsimulator.Prelude.{
  ℕ, zero, ◌+◌, ◌≤◌, ◌≡◌, Bool, true, false, Option, none, some, List, [], ◌∷◌, ◌++◌, length, leb,
  drop, replicate, if◌then◌else◌, ◌==◌,
}
use tradingmarketsimulator.Prelude.Int.{ℤ, pos, negsuc, eqb_ℤ}
use tradingmarketsimulator.Spsc.{Spsc}
use tradingmarketsimulator.Structs.{InternalMessage}
use tradingmarketsimulator.MarketData.Wire.{Buffer, wire_size, deserialize}

-- `sizeof(MarketDepthMessage)`, which the `static_assert` of Structs.hh gives as the sum of header
-- (16), option (16), price (4), and two, one and one bytes.
abbrev pub market_depth_msg_len : ℕ
market_depth_msg_len = 16 + 16 + 4 + 2 + 1 + 1

-- What `UdpClient::recv` answers: the count that it returns, and the bytes that it stores at the
-- front of the buffer, of which there are at most as many as it was allowed.
pub record Receipt : Type 0 where
  pub count : ℤ
  pub bytes : List ℕ

-- What `recv` documents: it stores as many bytes as it counts, within the allowance, or fails with a
-- negative count and stores none.
abbrev pub IsReceipt : ℕ → Receipt → Type 0
IsReceipt allowance r = elim r.count [
  | pos n ↦ (length r.bytes ≡ n) × (n ≤ allowance)
  | negsuc _ ↦ r.bytes ≡ []
]

-- A call of `recv` that is still open: what it answers for each allowance
abbrev pub Recv : Type 0
Recv = ℕ → Receipt

-- The bytes of a receipt are in the buffer afterwards: `none` is a write beyond its end.
unfoldable pub store : List ℕ → Buffer → Option Buffer
store bytes buf =
    if leb (length bytes) (length buf) then some (bytes ++ drop (length bytes) buf) else none

-- `recv` may store as many bytes as `MARKET_DEPTH_MSG_LEN`.
unfoldable pub read_msg : Recv → Buffer → Option (ℤ × Buffer)
unfolding store
read_msg recv buf =
    let r = recv market_depth_msg_len in
    elim (store r.bytes buf) [ none ↦ none | some buf' ↦ some (r.count, buf') ]

pub record Consumer (Q : Spsc InternalMessage) : Type 0 where
  pub buf : Buffer
  pub recv_queue : Q.Queue

module _ (Q : Spsc InternalMessage) where
  unfoldable pub init : Q.Queue → Consumer Q
  init q = record { buf = replicate wire_size 0; recv_queue = q }

  -- The body of the loop of `run`: any count but zero is taken for a message.
  unfoldable pub round : Recv → ℕ → Consumer Q → Option (Consumer Q)
  round recv now c = elim (read_msg recv c.buf) [
    | none ↦ none
    | some (read_bytes, buf) ↦
        if eqb_ℤ read_bytes (pos 0)
        then some (record c { buf = buf })
        else some (record { buf = buf; recv_queue = (Q.push (deserialize buf now) c.recv_queue).1 })
  ]

  -- `run`, for the calls of `recv` and the times at which they return
  unfoldable pub run : List (Recv × ℕ) → Consumer Q → Option (Consumer Q)
  run [] c = some c
  run ((recv, now) ∷ rest) c = elim (round recv now c) [ none ↦ none | some c' ↦ run rest c' ]

  unfoldable pub try_pop : Consumer Q → Option InternalMessage × Consumer Q
  try_pop c = let (m, q) = Q.pop c.recv_queue in (m, record c { recv_queue = q })
