-- ===== src/MarketData/Display.antt =====
-- src/mms/market_data/consumer_main.cc: the two words of a printed line that depend on flags.
use Prim.Native.Nat.{bit_and}
use Prim.Native.String.{String}
use tradingmarketsimulator.Prelude.{ℕ, ◌==◌, if◌then◌else◌}
use tradingmarketsimulator.Structs.{InternalMessage}

-- `Flags::IsCall` and `InternalDepthMessage::Flags::IsBid`
abbrev pub is_call_flag : ℕ
is_call_flag = 1

abbrev pub is_bid_flag : ℕ
is_bid_flag = 1

unfoldable pub contract_word : InternalMessage → String
contract_word msg = if bit_and msg.option.flags is_call_flag == 0 then "P" else "C"

unfoldable pub side_word : InternalMessage → String
side_word msg = if bit_and msg.flags is_bid_flag == 0 then "ask" else "bid"
