-- ===== src/MarketData/Wire/Signed.antt =====
-- src/mms/market_data/MarketDepthConsumer.cc: the readers of signed integers that no message uses yet.
use tradingmarketsimulator.Prelude.{ℕ, ◌-◌, ◌*◌, ◌^◌, ◌<◌, ◌≡◌, arith, ltb, if◌then◌else◌}
use tradingmarketsimulator.Prelude.Int.{ℤ, pos, negsuc}
use tradingmarketsimulator.MarketData.Wire.{Buffer, read_u8, read_u16, read_u64}

-- A word below twice `half` as two's complement
abbrev pub to_signed : ℕ → ℕ → ℤ
to_signed half w = if ltb w half then pos w else negsuc (2 * half - 1 - w)

unfoldable pub read_i8 : Buffer → ℕ → ℤ
unfolding read_u8
read_i8 buf offset = to_signed (2 ^ 7) (read_u8 buf offset)

unfoldable pub read_i16 : Buffer → ℕ → ℤ
unfolding read_u16
read_i16 buf offset = to_signed (2 ^ 15) (read_u16 buf offset)

unfoldable pub read_i64 : Buffer → ℕ → ℤ
unfolding read_u64
read_i64 buf offset = to_signed (2 ^ 63) (read_u64 buf offset)

-- The two's complement of a signed integer of that width
abbrev pub of_signed : ℕ → ℤ → ℕ
of_signed half (pos n) = n
of_signed half (negsuc n) = 2 * half - 1 - n

abbrev pub InWidth : ℕ → ℤ → Type 0
InWidth half (pos n) = n < half
InWidth half (negsuc n) = n < half

pub to_signed-of_signed :
    (half : ℕ) (z : ℤ) → InWidth half z → to_signed half (of_signed half z) ≡ z
to_signed-of_signed half (pos n) h = ground arith
to_signed-of_signed half (negsuc n) h = ground arith
