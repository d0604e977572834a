-- ===== src/MarketData/Wire/RoundTrip.antt =====
-- What a consumer decodes of an encoded message.
use tradingmarketsimulator.Prelude.{ℕ, ◌-◌, ◌%◌, ◌^◌, ◌<◌, ◌≡◌, refl, arith, List, [], ◌∷◌, length}
use tradingmarketsimulator.Prelude.Int.{ℤ, pos, negsuc, ◌≤ℤ◌}
use tradingmarketsimulator.Structs.{DepthMessage, InternalMessage}
use tradingmarketsimulator.MarketData.Wire.{
  serialize, deserialize, read_u8, read_u16, to_u32, to_i32, type_offset, version_offset,
  length_offset, depth_type, version, wire_size, max_symbol_size,
}
use tradingmarketsimulator.MarketData.Wire.Words.{
  word16_bytes, word32_bytes, word64_bytes, to_i32-to_u32, to_u32-lt,
}

abbrev pub FitsInt32 : ℤ → Type 0
FitsInt32 n = (negsuc (2 ^ 31 - 1) ≤ℤ n) × (n ≤ℤ pos (2 ^ 31 - 1))

-- The widths of the fields that are written in more than one byte.
pub record Fits (m : DepthMessage) : Type 0 where
  pub ts_ns : m.header.ts_ns < 2 ^ 64
  pub seq : m.header.seq < 2 ^ 16
  pub symbol : length m.option.symbol ≡ max_symbol_size
  pub strike : FitsInt32 m.option.strike
  pub price : FitsInt32 m.price

-- The message that a consumer makes of one that was sent: the flags of the option are lost.
abbrev pub received : DepthMessage → ℕ → InternalMessage
received m now = record {
  option = record m.option { flags = 0 };
  market_ts_ns = m.header.ts_ns;
  local_ts = now;
  price = m.price;
  seq = m.header.seq;
  flags = m.flags;
}

abbrev with_symbol : DepthMessage → List ℕ → DepthMessage
with_symbol m s = record m { option = record m.option { symbol = s } }

int32_back : (n : ℤ) → FitsInt32 n → to_i32 (to_u32 n % 2 ^ 32) ≡ n
int32_back n fits =
    let small : to_u32 n % 2 ^ 32 ≡ to_u32 n = omega (arith, to_u32-lt n) in
    rw small (to_i32-to_u32 n fits.0 fits.1)

round_trip :
    (s : List ℕ) (m : DepthMessage) (now : ℕ)
    → Fits (with_symbol m s)
    → deserialize (serialize (with_symbol m s)) now ≡ received (with_symbol m s) now
unfolding deserialize serialize
round_trip (a ∷ b ∷ c ∷ d ∷ e ∷ f ∷ []) m now fits =
    let small : m.header.seq % 2 ^ 16 ≡ m.header.seq = omega arith in
    rw (
      word64_bytes m.header.ts_ns fits.ts_ns,
      word16_bytes m.header.seq,
      small,
      word32_bytes (to_u32 m.option.strike),
      int32_back m.option.strike fits.strike,
      word32_bytes (to_u32 m.price),
      int32_back m.price fits.price,
    )
round_trip _ m now fits = absurd (omega arith)

-- A message whose fields fit their widths comes back from the wire as it was sent, with the time of
-- arrival; only the flags of its option are replaced by zero.
pub deserialize-serialize :
    (m : DepthMessage) (now : ℕ) → Fits m → deserialize (serialize m) now ≡ received m now
deserialize-serialize m now fits = round_trip m.option.symbol m now fits

header_of :
    (s : List ℕ) (m : DepthMessage)
    → length s ≡ max_symbol_size
    → let buf = serialize (with_symbol m s) in
      (length buf ≡ wire_size)
      × (read_u8 buf type_offset ≡ depth_type)
      × (read_u8 buf version_offset ≡ version)
      × (read_u16 buf length_offset ≡ length buf)
unfolding serialize read_u8 read_u16
header_of (a ∷ b ∷ c ∷ d ∷ e ∷ f ∷ []) m h = (refl, refl, refl, refl)
header_of _ m h = absurd (omega arith)

-- The header announces what follows: a packet is as long as the wire format says, and carries its
-- type, its version and its own length.
pub serialize-header :
    (m : DepthMessage)
    → length m.option.symbol ≡ max_symbol_size
    → let buf = serialize m in
      (length buf ≡ wire_size)
      × (read_u8 buf type_offset ≡ depth_type)
      × (read_u8 buf version_offset ≡ version)
      × (read_u16 buf length_offset ≡ length buf)
serialize-header m h = header_of m.option.symbol m h

-- Two fields that come back whatever the others hold.
loose_fields :
    (s : List ℕ) (m : DepthMessage) (now : ℕ)
    → length s ≡ max_symbol_size
    → let i = deserialize (serialize (with_symbol m s)) now in
      (i.flags ≡ m.flags) × (i.seq ≡ m.header.seq % 2 ^ 16)
unfolding deserialize serialize
loose_fields (a ∷ b ∷ c ∷ d ∷ e ∷ f ∷ []) m now h = (refl, word16_bytes m.header.seq)
loose_fields _ m now h = absurd (omega arith)

pub deserialize_flags :
    (m : DepthMessage) (now : ℕ)
    → length m.option.symbol ≡ max_symbol_size
    → let i = deserialize (serialize m) now in (i.flags ≡ m.flags) × (i.seq ≡ m.header.seq % 2 ^ 16)
deserialize_flags m now h = loose_fields m.option.symbol m now h
