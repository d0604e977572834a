-- ===== src/Prelude/Decimal.antt =====
-- What `std::format` makes of numbers: decimal digits, a sign, and a width that is filled with spaces.
-- A text is a list of character codes.
pub mod Reading
use tradingmarketsimulator.Prelude.Tests.{ltb, ◌==◌, if◌then◌else◌, Bool-cases}
use tradingmarketsimulator.Prelude.Lists.{length, replicate, length-append, All}
use tradingmarketsimulator.Prelude.Int.{ℤ, pos, negsuc}
use Prim.Native.Nat.{ℕ, zero, suc, ◌+◌, ◌-◌, ◌*◌, ◌/◌, ◌%◌, ◌≤◌, ◌<◌}
use Prim.Native.String.{String}
use Prim.Native.Char.{code}
use mathlib.Core.Path.{◌≡◌, refl, ap, ◌∙◌}
use mathlib.Core.Logic.{◌≢◌, inl, inr}
use mathlib.Core.Bool.{true, false}
use mathlib.Core.Option.{Option, none, some}
use mathlib.Core.List.{List, [], ◌∷◌, ◌++◌, append-nil}
use native.Mathlib.Omega.{arith}

-- The codes of a literal
abbrev pub codes : String → List ℕ
codes String.[] = []
codes (String.◌∷◌ c s) = code c ∷ codes s

abbrev pub limit : ℕ → ℕ
limit zero = 1
limit (suc k) = 10 * limit k

-- Up to so many digits
unfoldable pub digits : ℕ → ℕ → List ℕ
digits zero n = []
digits (suc f) n =
    let rest = digits f (n / 10) in if ltb n 10 then (48 + n) ∷ [] else rest ++ ((48 + n % 10) ∷ [])

-- Ten digits are enough for 32 bits.
unfoldable pub decimal : ℕ → List ℕ
decimal n = digits 10 n

unfoldable pub integer : ℤ → List ℕ
integer (pos n) = decimal n
integer (negsuc n) = b'-' ∷ decimal (suc n)

-- `{:>w}` and `{:<w}`
unfoldable pub pad_left : ℕ → List ℕ → List ℕ
pad_left w text = replicate (w - length text) b' ' ++ text

unfoldable pub pad_right : ℕ → List ℕ → List ℕ
pad_right w text = text ++ replicate (w - length text) b' '

-- The number that digits stand for
pub read_digits : ℕ → List ℕ → ℕ
read_digits acc [] = acc
read_digits acc (c ∷ cs) = read_digits (acc * 10 + (c - 48)) cs

read_digits-append :
    (acc : ℕ) (cs : List ℕ) (c : ℕ)
    → read_digits acc (cs ++ (c ∷ [])) ≡ read_digits acc cs * 10 + (c - 48)
unfolding read_digits
read_digits-append acc [] c = refl
read_digits-append acc (x ∷ cs) c = read_digits-append (acc * 10 + (x - 48)) cs c

pub read_digits-digits : (f n : ℕ) → n < limit f → read_digits 0 (digits f n) ≡ n
unfolding digits read_digits
read_digits-digits zero n h = omega arith
read_digits-digits (suc f) n h = elim (Bool-cases (ltb n 10)) [
  | inl small ↦ rw small (omega arith)
  | inr large ↦
      let before = read_digits-digits f (n / 10) (omega arith) in
      let last = read_digits-append 0 (digits f (n / 10)) (48 + n % 10) in
      rw large (omega (arith, before, last))
]

pub length-digits : (f k n : ℕ) → n < limit (suc k) → length (digits f n) ≤ suc k
unfolding digits
length-digits zero k n h = omega arith
length-digits (suc f) zero n h =
    let small : ltb n 10 ≡ true = ground arith in rw small (omega arith)
length-digits (suc f) (suc k) n h = elim (Bool-cases (ltb n 10)) [
  | inl small ↦ rw small (omega arith)
  | inr large ↦ rw large (
      omega (
        arith,
        length-digits f k (n / 10) (omega arith),
        length-append (digits f (n / 10)) ((48 + n % 10) ∷ []),
      ))
]

-- Digits are no spaces.
abbrev pub IsDigit : ℕ → Type 0
IsDigit c = (48 ≤ c) × (c < 58)

All-append : (P : ℕ → Type 0) (xs : List ℕ) (x : ℕ) → All P xs → P x → All P (xs ++ (x ∷ []))
All-append P [] x h p = (p, tt)
All-append P (y ∷ xs) x h p = (h.0, All-append P xs x h.1 p)

pub digits-IsDigit : (f n : ℕ) → All IsDigit (digits f n)
unfolding digits
digits-IsDigit zero n = tt
digits-IsDigit (suc f) n = elim (Bool-cases (ltb n 10)) [
  | inl small ↦ rw (small, All) ((ground arith, ground arith), tt)
  | inr large ↦
      rw (large, All)
        (All-append IsDigit (digits f (n / 10)) (48 + n % 10) (digits-IsDigit f (n / 10))
          (omega arith, omega arith))
]

pub length-digits_pos : (f n : ℕ) → 0 < length (digits (suc f) n)
unfolding digits
length-digits_pos f n = elim (Bool-cases (ltb n 10)) [
  | inl small ↦ rw small (omega arith)
  | inr large ↦ rw large (omega (arith, length-append (digits f (n / 10)) ((48 + n % 10) ∷ [])))
]
