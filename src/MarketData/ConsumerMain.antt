-- ===== src/MarketData/ConsumerMain.antt =====
-- src/mms/market_data/consumer_main.cc: the loop that prints messages while a thread receives them.
pub mod Printed
pub mod Feed
pub mod Tests
use Prim.Native.String.{String}
use mathlib.Core.List.{map-append}
use tradingmarketsimulator.Prelude.{
  ℕ, zero, suc, ◌≡◌, refl, sym, ap, ◌∙◌, Bool, true, false, Option, none, some, List, [], ◌∷◌, ◌++◌,
  append_assoc, if◌then◌else◌, All, Bool-cases, List-cases, Option-cases, if-cases, inl, inr, ◌⊎◌,
}
use tradingmarketsimulator.Prelude.Int.{ℤ, pos, eqb_ℤ}
use tradingmarketsimulator.Spsc.{Spsc}
use tradingmarketsimulator.Structs.{InternalMessage}
use tradingmarketsimulator.MarketData.Wire.{Buffer, deserialize}
use tradingmarketsimulator.MarketData.Display.{contract_word, side_word}
use tradingmarketsimulator.MarketData.DepthConsumer
use tradingmarketsimulator.MarketData.DepthConsumer.{Consumer, Recv, read_msg, try_pop}

-- `to_micro` of the difference of two times, as it is printed
abbrev pub Micro : Type 0
Micro = ℕ → ℕ → String

-- What a line says: the message, the words for its flags, and the two differences of times
pub record Line : Type 0 where
  pub msg : InternalMessage
  pub contract : String
  pub side : String
  pub behind_market : String
  pub since_last : String

unfoldable pub line : Micro → ℕ → InternalMessage → Line
line micro t_last msg = record {
  msg = msg;
  contract = contract_word msg;
  side = side_word msg;
  behind_market = micro msg.local_ts msg.market_ts_ns;
  since_last = micro msg.local_ts t_last;
}

-- The lines that a sequence of messages makes
pub line_up : Micro → ℕ → List InternalMessage → List Line
line_up micro t [] = []
line_up micro t (m ∷ ms) = line micro t m ∷ line_up micro m.local_ts ms

-- The time of the last message
pub last_ts : ℕ → List InternalMessage → ℕ
last_ts t [] = t
last_ts t (m ∷ ms) = last_ts m.local_ts ms

line_up-append :
    (micro : Micro) (t : ℕ) (ms : List InternalMessage) (m : InternalMessage)
    → line_up micro t (ms ++ (m ∷ [])) ≡ line_up micro t ms ++ (line micro (last_ts t ms) m ∷ [])
unfolding line_up last_ts
line_up-append micro t [] m = refl
line_up-append micro t (x ∷ ms) m =
    ap (λ ls. line micro t x ∷ ls) (line_up-append micro x.local_ts ms m)

last_ts-append :
    (t : ℕ) (ms : List InternalMessage) (m : InternalMessage)
    → last_ts t (ms ++ (m ∷ [])) ≡ m.local_ts
unfolding last_ts
last_ts-append t [] m = refl
last_ts-append t (x ∷ ms) m = last_ts-append x.local_ts ms m

module _ (Q : Spsc InternalMessage) (micro : Micro) where
  -- The variables of `main`, the lines that it has printed, and the messages that the receiving thread
  -- has put into the queue
  pub record Program : Type 0 where
    pub consumer : Consumer Q
    pub t_last : ℕ
    pub lines : List Line
    pub arrived : List InternalMessage

  -- Before the loop
  unfoldable pub started : Q.Queue → Program
  started q = record { consumer = DepthConsumer.init Q q; t_last = 0; lines = []; arrived = [] }

  -- A failed `bind_local` ends the program, with 1.
  unfoldable pub consumer_main : Bool → Q.Queue → Program ⊎ ℕ
  consumer_main bound q = if bound then inl (started q) else inr 1

  -- A round of the loop
  unfoldable pub poll : Program → Program
  unfolding try_pop
  poll p =
      let (popped, c) = try_pop Q p.consumer in
      elim popped [
        | none ↦ record p { consumer = c }
        | some msg ↦ record p {
          consumer = c;
          t_last = msg.local_ts;
          lines = p.lines ++ (line micro p.t_last msg ∷ []);
        }
      ]

  -- What a round of the receiving thread puts into the queue
  unfoldable pub accepted : Recv → ℕ → Consumer Q → List InternalMessage
  accepted r now c = elim (read_msg r c.buf) [
    | none ↦ []
    | some (read_bytes, buf) ↦
        if eqb_ℤ read_bytes (pos 0)
        then []
        else if (Q.push (deserialize buf now) c.recv_queue).0
        then deserialize buf now ∷ []
        else []
  ]

  -- The two threads take turns in any order. A round that writes beyond the buffer has no sequel.
  pub data Turn : Program → Program → Type 0 where
    polls : {p : Program} → Turn p (poll p)
    receives :
        {p : Program} (r : Recv) (now : ℕ) (c : Consumer Q)
        → DepthConsumer.round Q r now p.consumer ≡ some c
        → Turn p (record p { consumer = c; arrived = p.arrived ++ accepted r now p.consumer })

  pub data Turns : Program → Program → Type 0 where
    here : {p : Program} → Turns p p
    then_step : {p q r : Program} → Turns p q → Turn q r → Turns p r
