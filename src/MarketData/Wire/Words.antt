-- ===== src/MarketData/Wire/Words.antt =====
-- Big-endian words from their bytes: the readers undo the writers.
use Prim.Native.Nat.{bit_or}
use tradingmarketsimulator.Prelude.{ℕ, ◌-◌, ◌*◌, ◌/◌, ◌%◌, ◌^◌, ◌<◌, ◌≡◌, arith, ◌∙◌, ap}
use tradingmarketsimulator.Prelude.Bits.{bit_or_disjoint}
use tradingmarketsimulator.Prelude.Int.{ℤ, pos, negsuc, ◌≤ℤ◌}
use tradingmarketsimulator.MarketData.Wire.{low_byte, to_u32, to_i32}

ap₃ : (f : ℕ → ℕ → ℕ → ℕ) {a a' b b' c c' : ℕ} → a ≡ a' → b ≡ b' → c ≡ c' → f a b c ≡ f a' b' c'
ap₃ f p q r = cc

-- What `read_u16`, `read_u32` and `read_u64` compute from bytes.
abbrev pub word16 : ℕ → ℕ → ℕ
word16 a b = bit_or (a * 2 ^ 8) b % 2 ^ 16

abbrev pub word32 : ℕ → ℕ → ℕ
word32 hi lo = bit_or (hi * 2 ^ 16 % 2 ^ 32) lo

abbrev pub word64 : ℕ → ℕ → ℕ
word64 hi lo = bit_or (hi * 2 ^ 32 % 2 ^ 64) lo

pub word16_bytes : (v : ℕ) → word16 (low_byte (v / 2 ^ 8)) (low_byte v) ≡ v % 2 ^ 16
word16_bytes v = omega (arith, bit_or_disjoint 8 (low_byte (v / 2 ^ 8)) (low_byte v) (omega arith))

shifted16 : (hi : ℕ) → hi < 2 ^ 16 → hi * 2 ^ 16 % 2 ^ 32 ≡ hi * 2 ^ 16
shifted16 hi h = omega arith

shifted32 : (hi : ℕ) → hi < 2 ^ 32 → hi * 2 ^ 32 % 2 ^ 64 ≡ hi * 2 ^ 32
shifted32 hi h = omega arith

pub word32_halves : (v : ℕ) → v < 2 ^ 32 → word32 (v / 2 ^ 16 % 2 ^ 16) (v % 2 ^ 16) ≡ v
word32_halves v h =
    rw (shifted16 (v / 2 ^ 16 % 2 ^ 16) (omega arith))
      (omega (arith, bit_or_disjoint 16 (v / 2 ^ 16 % 2 ^ 16) (v % 2 ^ 16) (omega arith)))

pub word64_halves : (v : ℕ) → v < 2 ^ 64 → word64 (v / 2 ^ 32) (v % 2 ^ 32) ≡ v
word64_halves v h =
    rw (shifted32 (v / 2 ^ 32) (omega arith))
      (omega (arith, bit_or_disjoint 32 (v / 2 ^ 32) (v % 2 ^ 32) (omega arith)))

-- Four bytes, as `write_u32` writes them.
pub word32_bytes :
    (v : ℕ)
    → word32
        (word16 (low_byte (v / 2 ^ 24)) (low_byte (v / 2 ^ 16)))
        (word16 (low_byte (v / 2 ^ 8)) (low_byte v))
      ≡ v % 2 ^ 32
word32_bytes v =
    let high : word16 (low_byte (v / 2 ^ 24)) (low_byte (v / 2 ^ 16))
        ≡ v % 2 ^ 32 / 2 ^ 16 % 2 ^ 16 =
      ap (λ (n : ℕ). word16 (low_byte n) (low_byte (v / 2 ^ 16))) (omega arith)
      ∙ word16_bytes (v / 2 ^ 16)
      ∙ omega arith in
    let low : word16 (low_byte (v / 2 ^ 8)) (low_byte v) ≡ v % 2 ^ 32 % 2 ^ 16 =
      word16_bytes v ∙ omega arith in
    rw (high, low) (word32_halves (v % 2 ^ 32) (omega arith))

-- Eight bytes, as `write_u64` writes them.
pub word64_bytes :
    (v : ℕ)
    → v < 2 ^ 64
    → word64
        (word32
          (word16 (low_byte (v / 2 ^ 56)) (low_byte (v / 2 ^ 48)))
          (word16 (low_byte (v / 2 ^ 40)) (low_byte (v / 2 ^ 32))))
        (word32
          (word16 (low_byte (v / 2 ^ 24)) (low_byte (v / 2 ^ 16)))
          (word16 (low_byte (v / 2 ^ 8)) (low_byte v)))
      ≡ v
word64_bytes v h =
    let q = v / 2 ^ 32 in
    let regroup : word32 (word16 (low_byte (v / 2 ^ 56)) (low_byte (v / 2 ^ 48)))
          (word16 (low_byte (v / 2 ^ 40)) (low_byte (v / 2 ^ 32)))
        ≡ word32 (word16 (low_byte (q / 2 ^ 24)) (low_byte (q / 2 ^ 16)))
            (word16 (low_byte (q / 2 ^ 8)) (low_byte q)) =
      ap₃
        (λ (x y z : ℕ).
          word32 (word16 (low_byte x) (low_byte y)) (word16 (low_byte z) (low_byte q)))
        (omega arith) (omega arith) (omega arith) in
    let high = regroup ∙ word32_bytes q in
    let small : q % 2 ^ 32 ≡ q = omega arith in rw (high, word32_bytes v, small) (word64_halves v h)

pub to_i32-to_u32 :
    (n : ℤ) → negsuc (2 ^ 31 - 1) ≤ℤ n → n ≤ℤ pos (2 ^ 31 - 1) → to_i32 (to_u32 n) ≡ n
to_i32-to_u32 (pos n) lo hi = ground arith
to_i32-to_u32 (negsuc n) lo hi = ground arith

pub to_u32-lt : (n : ℤ) → to_u32 n < 2 ^ 32
to_u32-lt (pos n) = omega arith
to_u32-lt (negsuc n) = omega arith
