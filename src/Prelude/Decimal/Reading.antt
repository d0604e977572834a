-- ===== src/Prelude/Decimal/Reading.antt =====
-- Numbers are read back from the text that they were printed as, spaces taken off.
use tradingmarketsimulator.Prelude.Tests.{◌==◌, if◌then◌else◌}
use tradingmarketsimulator.Prelude.Lists.{length, replicate, length-append, All}
use tradingmarketsimulator.Prelude.Decimal.{
  digits, decimal, integer, pad_left, pad_right, read_digits, read_digits-digits, length-digits,
  IsDigit, digits-IsDigit, length-digits_pos,
}
use tradingmarketsimulator.Prelude.Int.{ℤ, pos, negsuc}
use Prim.Native.Nat.{ℕ, zero, suc, ◌+◌, ◌-◌, ◌≤◌, ◌<◌}
use mathlib.Core.Path.{◌≡◌, refl, ap, ◌∙◌}
use mathlib.Core.Logic.{◌≢◌}
use mathlib.Core.Bool.{false}
use mathlib.Core.Option.{Option, none, some}
use mathlib.Core.List.{List, [], ◌∷◌, ◌++◌, append-nil}
use native.Mathlib.Omega.{arith}

-- The text without its spaces
unfoldable pub strip : List ℕ → List ℕ
strip [] = []
strip (c ∷ cs) = let rest = strip cs in if c == b' ' then rest else c ∷ rest

pub negated : ℕ → ℤ
negated zero = pos 0
negated (suc n) = negsuc n

-- The integer that a text without spaces stands for, if there is any text
unfoldable pub read_integer : List ℕ → Option ℤ
read_integer [] = none
read_integer (c ∷ cs) =
    if c == b'-' then some (negated (read_digits 0 cs)) else some (pos (read_digits 0 (c ∷ cs)))

strip-append : (xs ys : List ℕ) → strip (xs ++ ys) ≡ strip xs ++ strip ys
unfolding strip
strip-append [] ys = refl
strip-append (x ∷ xs) ys = ground (arith, strip-append xs ys)

strip-spaces : (n : ℕ) → strip (replicate n b' ') ≡ []
unfolding strip
strip-spaces zero = refl
strip-spaces (suc n) = strip-spaces n

-- No space among the characters
abbrev NotSpace : ℕ → Type 0
NotSpace c = c ≢ b' '

strip-All : (xs : List ℕ) → All NotSpace xs → strip xs ≡ xs
unfolding strip
strip-All [] h = refl
strip-All (x ∷ xs) h = ground (arith, strip-All xs h.1, h.0)

NotSpace-digits : (xs : List ℕ) → All IsDigit xs → All NotSpace xs
NotSpace-digits [] h = tt
NotSpace-digits (x ∷ xs) h = (λ e. absurd (omega arith), NotSpace-digits xs h.1)

NotSpace-integer : (z : ℤ) → All NotSpace (integer z)
unfolding integer decimal
NotSpace-integer (pos n) = NotSpace-digits (digits 10 n) (digits-IsDigit 10 n)
NotSpace-integer (negsuc n) =
    (λ e. absurd (omega arith), NotSpace-digits (digits 10 (suc n)) (digits-IsDigit 10 (suc n)))

pub strip-pad_left : (w : ℕ) (z : ℤ) → strip (pad_left w (integer z)) ≡ integer z
unfolding pad_left
strip-pad_left w z =
    let spaces : List ℕ = replicate (w - length (integer z)) b' ' in
    strip-append spaces (integer z)
    ∙ ap (λ xs. xs ++ strip (integer z)) (strip-spaces (w - length (integer z)))
    ∙ strip-All (integer z) (NotSpace-integer z)

pub strip-pad_right : (w : ℕ) (z : ℤ) → strip (pad_right w (integer z)) ≡ integer z
unfolding pad_right
strip-pad_right w z =
    let spaces : List ℕ = replicate (w - length (integer z)) b' ' in
    strip-append (integer z) spaces
    ∙ ap (λ xs. strip (integer z) ++ xs) (strip-spaces (w - length (integer z)))
    ∙ append-nil (strip (integer z))
    ∙ strip-All (integer z) (NotSpace-integer z)

pub strip-blank : (w : ℕ) → strip (pad_left w []) ≡ []
unfolding pad_left
strip-blank w = ap strip (append-nil (replicate (w - 0) b' ')) ∙ strip-spaces (w - 0)

read_integer-digits :
    (xs : List ℕ) → All IsDigit xs → 0 < length xs → read_integer xs ≡ some (pos (read_digits 0 xs))
unfolding read_integer
read_integer-digits [] h l = absurd (omega arith)
read_integer-digits (x ∷ xs) h l =
    let no_sign : (x == b'-') ≡ false = ground arith in rw no_sign refl

-- Of at most six characters
abbrev pub FitsCell : ℤ → Type 0
FitsCell (pos n) = n < 1000000
FitsCell (negsuc n) = n + 1 < 100000

pub read_integer-integer : (z : ℤ) → FitsCell z → read_integer (integer z) ≡ some z
unfolding integer decimal
read_integer-integer (pos n) h =
    read_integer-digits (digits 10 n) (digits-IsDigit 10 n) (length-digits_pos 9 n)
    ∙ ap (λ k. some (pos k)) (read_digits-digits 10 n (omega arith))
read_integer-integer (negsuc n) h =
    unfold read_integer negated in
    ap (λ k. some (negated k)) (read_digits-digits 10 (suc n) (omega arith))

pub length-integer : (z : ℤ) → FitsCell z → length (integer z) ≤ 6
unfolding integer decimal
length-integer (pos n) h = length-digits 10 5 n (omega arith)
length-integer (negsuc n) h = omega (arith, length-digits 10 4 (suc n) (omega arith))

length-replicate : (n a : ℕ) → length (replicate n a) ≡ n
length-replicate zero a = refl
length-replicate (suc n) a = omega (arith, length-replicate n a)

pub length-pad_left : (w : ℕ) (xs : List ℕ) → length xs ≤ w → length (pad_left w xs) ≡ w
unfolding pad_left
length-pad_left w xs h = omega (
  arith,
  length-append (replicate (w - length xs) b' ') xs,
  length-replicate (w - length xs) b' ',
)

pub length-pad_right : (w : ℕ) (xs : List ℕ) → length xs ≤ w → length (pad_right w xs) ≡ w
unfolding pad_right
length-pad_right w xs h = omega (
  arith,
  length-append xs (replicate (w - length xs) b' '),
  length-replicate (w - length xs) b' ',
)
