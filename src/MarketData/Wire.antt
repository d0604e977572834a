-- ===== src/MarketData/Wire.antt =====
-- The wire format of a depth message: the offsets of include/mms/structs/Structs.hh, `_serialize`
-- and the writers of src/mms/market_data/MarketDepthGenerator.cc, `_deserialize` and the readers of
-- src/mms/market_data/MarketDepthConsumer.cc.
pub mod Words
pub mod RoundTrip
pub mod Signed
use Prim.Native.Nat.{bit_or}
use tradingmarketsimulator.Prelude.{
  ℕ, suc, ◌+◌, ◌-◌, ◌*◌, ◌/◌, ◌%◌, ◌^◌, List, [], ◌∷◌, ltb, if◌then◌else◌, get_or, set, take, drop,
  replicate,
}
use tradingmarketsimulator.Prelude.Int.{ℤ, pos, negsuc}
use tradingmarketsimulator.Structs.{Contract, Header, DepthMessage, InternalMessage}

-- `Symbol::MAX_SYMBOL_SIZE`
abbrev pub max_symbol_size : ℕ
max_symbol_size = 6

-- `WireMessage`
abbrev pub type_offset : ℕ
type_offset = 0

abbrev pub version_offset : ℕ
version_offset = type_offset + 1

abbrev pub length_offset : ℕ
length_offset = version_offset + 1

abbrev pub header_size : ℕ
header_size = length_offset + 2

-- `MessageType::Depth`
abbrev pub depth_type : ℕ
depth_type = 1

-- `WireDepthMsgV1`
abbrev pub version : ℕ
version = 1

abbrev pub timestamp_offset : ℕ
timestamp_offset = header_size

abbrev pub sequence_offset : ℕ
sequence_offset = timestamp_offset + 8

abbrev pub symbol_offset : ℕ
symbol_offset = sequence_offset + 2

abbrev pub year_offset : ℕ
year_offset = symbol_offset + max_symbol_size

abbrev pub month_offset : ℕ
month_offset = year_offset + 1

abbrev pub day_offset : ℕ
day_offset = month_offset + 1

abbrev pub flags_offset : ℕ
flags_offset = day_offset + 1

abbrev pub strike_offset : ℕ
strike_offset = flags_offset + 1

abbrev pub price_offset : ℕ
price_offset = strike_offset + 4

abbrev pub wire_size : ℕ
wire_size = price_offset + 4

-- `std::array<std::byte, SIZE>`
abbrev pub Buffer : Type 0
Buffer = List ℕ

-- The low byte, `& 0xFF`
abbrev pub low_byte : ℕ → ℕ
low_byte n = n % 2 ^ 8

unfoldable pub write_u8 : Buffer → ℕ → ℕ → Buffer
write_u8 buf offset val = set buf offset val

unfoldable pub write_u16 : Buffer → ℕ → ℕ → Buffer
write_u16 buf offset val =
    let buf = set buf offset (low_byte (val / 2 ^ 8)) in set buf (offset + 1) (low_byte val)

unfoldable pub write_u32 : Buffer → ℕ → ℕ → Buffer
write_u32 buf offset val =
    let buf = set buf offset (low_byte (val / 2 ^ 24)) in
    let buf = set buf (offset + 1) (low_byte (val / 2 ^ 16)) in
    let buf = set buf (offset + 2) (low_byte (val / 2 ^ 8)) in set buf (offset + 3) (low_byte val)

unfoldable pub write_u64 : Buffer → ℕ → ℕ → Buffer
write_u64 buf offset val =
    let buf = set buf offset (low_byte (val / 2 ^ 56)) in
    let buf = set buf (offset + 1) (low_byte (val / 2 ^ 48)) in
    let buf = set buf (offset + 2) (low_byte (val / 2 ^ 40)) in
    let buf = set buf (offset + 3) (low_byte (val / 2 ^ 32)) in
    let buf = set buf (offset + 4) (low_byte (val / 2 ^ 24)) in
    let buf = set buf (offset + 5) (low_byte (val / 2 ^ 16)) in
    let buf = set buf (offset + 6) (low_byte (val / 2 ^ 8)) in set buf (offset + 7) (low_byte val)

-- `std::memcpy` into the buffer
abbrev pub copy_to : Buffer → ℕ → List ℕ → Buffer
copy_to buf offset [] = buf
copy_to buf offset (b ∷ bs) = copy_to (set buf offset b) (offset + 1) bs

-- `int32_t` to `uint32_t` and back: two's complement
abbrev pub to_u32 : ℤ → ℕ
to_u32 (pos n) = n % 2 ^ 32
to_u32 (negsuc n) = 2 ^ 32 - 1 - n % 2 ^ 32

abbrev pub to_i32 : ℕ → ℤ
to_i32 w = if ltb w (2 ^ 31) then pos w else negsuc (2 ^ 32 - 1 - w)

unfoldable pub serialize : DepthMessage → Buffer
unfolding write_u8 write_u16 write_u32 write_u64
serialize msg =
    let buf : Buffer = replicate wire_size 0 in
    let buf = write_u8 buf type_offset depth_type in
    let buf = write_u8 buf version_offset version in
    let buf = write_u16 buf length_offset wire_size in
    let buf = write_u64 buf timestamp_offset msg.header.ts_ns in
    let buf = write_u16 buf sequence_offset msg.header.seq in
    let buf = copy_to buf symbol_offset (take max_symbol_size msg.option.symbol) in
    let buf = write_u8 buf year_offset msg.option.year in
    let buf = write_u8 buf month_offset msg.option.month in
    let buf = write_u8 buf day_offset msg.option.day in
    let buf = write_u8 buf flags_offset msg.flags in
    let buf = write_u32 buf strike_offset (to_u32 msg.option.strike) in
    write_u32 buf price_offset (to_u32 msg.price)

unfoldable pub read_u8 : Buffer → ℕ → ℕ
read_u8 buf offset = get_or buf offset 0

unfoldable pub read_u16 : Buffer → ℕ → ℕ
read_u16 buf offset =
    let hi = get_or buf offset 0 in
    let lo = get_or buf (offset + 1) 0 in bit_or (hi * 2 ^ 8) lo % 2 ^ 16

unfoldable pub read_u32 : Buffer → ℕ → ℕ
unfolding read_u16
read_u32 buf offset =
    let hi = read_u16 buf offset in
    let lo = read_u16 buf (offset + 2) in bit_or (hi * 2 ^ 16 % 2 ^ 32) lo

unfoldable pub read_u64 : Buffer → ℕ → ℕ
unfolding read_u32
read_u64 buf offset =
    let hi = read_u32 buf offset in
    let lo = read_u32 buf (offset + 4) in bit_or (hi * 2 ^ 32 % 2 ^ 64) lo

unfoldable pub read_i32 : Buffer → ℕ → ℤ
unfolding read_u32
read_i32 buf offset = to_i32 (read_u32 buf offset)

-- `now` is what `TimeStamp{}.update_now().get_ticks()` answers. The flags of the option are not on
-- the wire, and stay as `InternalDepthMessage msg{}` set them.
unfoldable pub deserialize : Buffer → ℕ → InternalMessage
unfolding read_u8 read_u16 read_u64 read_i32
deserialize buf now = record {
  option = record {
    strike = read_i32 buf strike_offset;
    symbol = take max_symbol_size (drop symbol_offset buf);
    year = read_u8 buf year_offset;
    month = read_u8 buf month_offset;
    day = read_u8 buf day_offset;
    flags = 0;
  };
  market_ts_ns = read_u64 buf timestamp_offset;
  local_ts = now;
  price = read_i32 buf price_offset;
  seq = read_u16 buf sequence_offset;
  flags = read_u8 buf flags_offset;
}
