-- ===== src/Prelude/Bits.antt =====
-- `|` of two numbers whose bits do not meet is their sum.
use Prim.Native.Nat.{max, digits, bit_or, bit_or-bitwise}
use native.Mathlib.Nat.{pow-suc, le_refl}
use tradingmarketsimulator.Prelude.{
  ℕ, zero, suc, ◌+◌, ◌*◌, ◌/◌, ◌≤◌, ◌<◌, ◌^◌, ◌≡◌, refl, ◌∙◌, arith, ap,
}

twice : (hi k : ℕ) → hi * 2 ^ suc k ≡ 2 * (hi * 2 ^ k)
twice hi k = omega (arith, ap (λ (t : ℕ). hi * t) (pow-suc 2 k))

-- `a` is shifted by `k`, `lo` has at most `k` bits, and `n` steps are enough for `a`.
shifted_digits :
    (n k hi lo a : ℕ) → a ≡ hi * 2 ^ k → lo < 2 ^ k → a ≤ n → digits (λ y. y) max n a lo ≡ a + lo
shifted_digits zero k hi lo zero e h p = omega arith
shifted_digits (suc n) k hi lo zero e h p = omega arith
shifted_digits zero k hi lo (suc a) e h p = absurd (omega arith)
shifted_digits (suc n) zero hi lo (suc a) e h p = omega (
  arith,
  shifted_digits n zero (suc a / 2) (lo / 2) (suc a / 2) (omega arith) (omega arith) (omega arith),
)
shifted_digits (suc n) (suc k) hi lo (suc a) e h p =
    let half : suc a / 2 ≡ hi * 2 ^ k = omega (arith, e, twice hi k) in
    omega (
      arith,
      e,
      twice hi k,
      shifted_digits n k hi (lo / 2) (suc a / 2) half (omega (arith, pow-suc 2 k)) (omega arith),
    )

-- `(hi << k) | lo` is a sum where `lo` has at most `k` bits.
pub bit_or_disjoint : (k hi lo : ℕ) → lo < 2 ^ k → bit_or (hi * 2 ^ k) lo ≡ hi * 2 ^ k + lo
bit_or_disjoint k hi lo h =
    bit_or-bitwise (hi * 2 ^ k) lo
    ∙ shifted_digits (hi * 2 ^ k) k hi lo (hi * 2 ^ k) refl h (le_refl _)
