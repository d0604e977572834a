-- ===== src/Options/Tests.antt =====
-- The theorems on options, applied in an arithmetic of integers and one value that is not a number.
use tradingmarketsimulator.Prelude.{
  ℕ, ◌+◌, ◌*◌, ◌≤◌, ◌≡◌, ◌≢◌, refl, Bool, true, false, Option, none, some, if◌then◌else◌, [], ◌∷◌,
  map, arith,
}
use tradingmarketsimulator.Prelude.Int.{
  ℤ, pos, negsuc, pos_part, neg_part, sub_ℕ, ◌-ℤ◌, ltb_ℤ, leb_ℤ, eqb_ℤ,
}
use tradingmarketsimulator.Options.{
  Floats, cumulative, VanillaOption, init, copy, d_1, d_2, calc_call_price, calc_put_price,
  pay_off_double_digital, options_main,
}
use tradingmarketsimulator.Options.Distribution.{IsOrdered}
use tradingmarketsimulator.Options.Prices.{prices_return, IsSigned}

abbrev Number : Type 0
Number = Option ℤ

abbrev test : (ℤ → ℤ → Bool) → Number → Number → Bool
test f none y = false
test f (some a) none = false
test f (some a) (some b) = f a b

abbrev lift : (ℤ → ℤ → Number) → Number → Number → Number
lift f none y = none
lift f (some a) none = none
lift f (some a) (some b) = f a b

abbrev negated : Number → Number
negated none = none
negated (some a) = some (sub_ℕ (neg_part a) (pos_part a))

negated_twice : (x : Number) → negated (negated x) ≡ x
negated_twice none = refl
negated_twice (some (pos n)) = ground arith
negated_twice (some (negsuc n)) = ground arith

test_asym : (x y : Number) → test ltb_ℤ x y ≡ true → test ltb_ℤ y x ≡ false
test_asym none y h = absurd cc
test_asym (some a) none h = absurd cc
test_asym (some a) (some b) h = ground arith

test_trans :
    (x y z : Number) → test leb_ℤ x y ≡ true → test leb_ℤ y z ≡ true → test ltb_ℤ z x ≡ false
test_trans none y z h i = absurd cc
test_trans (some a) none z h i = absurd cc
test_trans (some a) (some b) none h i = absurd cc
test_trans (some a) (some b) (some c) h i = ground arith

test-lift :
    (x y : Number) → test ltb_ℤ (some (pos 0)) (lift (λ a b. some (a -ℤ b)) x y) ≡ test ltb_ℤ y x
unfolding ◌-ℤ◌
test-lift none none = refl
test-lift none (some b) = refl
test-lift (some a) none = refl
test-lift (some a) (some b) = ground arith

-- Only a quotient by zero is not a number.
abbrev integers : Floats
integers = record {
  Double = Number;
  less = test ltb_ℤ;
  less_eq = test leb_ℤ;
  neg = negated;
  plus = lift (λ a b. some (sub_ℕ (pos_part a + pos_part b) (neg_part a + neg_part b)));
  minus = lift (λ a b. some (a -ℤ b));
  times = lift (λ a b. some (
      sub_ℕ (pos_part a * pos_part b + neg_part a * neg_part b)
        (pos_part a * neg_part b + neg_part a * pos_part b)));
  over = lift (λ a b. if eqb_ℤ b (pos 0) then none else some a);
  sqrt = λ x. x;
  log = λ x. x;
  exp = λ x. x;
  pow = λ x y. x;
  pi = some (pos 3);
  decimal = λ n d. some (pos n);
  neg_neg = negated_twice;
  less_asym = test_asym;
  less_eq_trans = test_trans;
  less-minus = test-lift;
}

abbrev at_strike : ℕ → VanillaOption integers
at_strike t = record {
  strike = some (pos 10);
  rate = some (pos 0);
  maturity = some (pos t);
  spot = some (pos 10);
  sigma = some (pos 2);
}

copied :
    copy integers (at_strike 0) (init integers (at_strike 1)).0 ≡ (init integers (at_strike 0)).0
unfolding copy init
copied = refl

-- The pay-offs that `main` prints: below, between and above the barriers
main_pays : map (λ p. p.1) (options_main integers) ≡ some (pos 0) ∷ some (pos 1) ∷ some (pos 0) ∷ []
unfolding options_main pay_off_double_digital
main_pays = refl

-- With no time left `d_1` is a quotient by zero.
expired : calc_call_price integers 9 (at_strike 0) ≡ none
unfolding calc_call_price cumulative d_1 d_2
expired = refl

d_1_positive : d_1 integers (at_strike 1) ≡ some (pos 30)
unfolding d_1
d_1_positive = refl

d_2_positive : d_2 integers (at_strike 1) ≡ some (pos 28)
unfolding d_1 d_2 ◌-ℤ◌
d_2_positive = refl

prices_return_example :
    let o = at_strike 1 in
    (IsOrdered integers (d_1 integers o)
      → IsOrdered integers (d_2 integers o)
      → (n : ℕ) → 2 ≤ n
      → (calc_call_price integers n o ≢ none) × (calc_put_price integers n o ≢ none))
    × ((¬ (IsOrdered integers (d_1 integers o) × IsOrdered integers (d_2 integers o)))
        → (n : ℕ) → (calc_call_price integers n o ≡ none) × (calc_put_price integers n o ≡ none))
prices_return_example = prices_return integers (at_strike 1)

IsSigned-d_1 : IsSigned integers (d_1 integers (at_strike 1))
IsSigned-d_1 = rw d_1_positive (λ h. let apart : true ≡ false = h in absurd cc)

IsSigned-d_2 : IsSigned integers (d_2 integers (at_strike 1))
IsSigned-d_2 = rw d_2_positive (λ h. let apart : true ≡ false = h in absurd cc)
