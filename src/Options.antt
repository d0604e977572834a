-- ===== src/Options.antt =====
-- src/mms/options and include/mms/options: the pay-offs and the price of a European option. The
-- arithmetic on `double` and the functions of <cmath> are a parameter.
pub mod Distribution
pub mod Prices
pub mod PayOffs
pub mod Copies
pub mod Tests
use tradingmarketsimulator.Prelude.{
  ℕ, zero, suc, ◌≡◌, Bool, true, false, ◌&&◌, Option, none, some, if◌then◌else◌, List, [], ◌∷◌,
}

-- `decimal n d` is the literal for n / 10 ^ d. The laws are those of IEEE 754: a sign is flipped back,
-- an order has one direction, bounds chain, and a difference is positive if its parts are in order
-- (since an underflow is gradual). All hold with infinities and NaN, of which every comparison is false.
pub record Floats : Type 1 where
  pub Double : Type 0
  pub less : Double → Double → Bool
  pub less_eq : Double → Double → Bool
  pub neg : Double → Double
  pub plus : Double → Double → Double
  pub minus : Double → Double → Double
  pub times : Double → Double → Double
  pub over : Double → Double → Double
  pub sqrt : Double → Double
  pub log : Double → Double
  pub exp : Double → Double
  pub pow : Double → Double → Double
  -- `M_PI`
  pub pi : Double
  pub decimal : ℕ → ℕ → Double
  pub neg_neg : (x : Double) → neg (neg x) ≡ x
  pub less_asym : (x y : Double) → less x y ≡ true → less y x ≡ false
  pub less_eq_trans : (x y z : Double) → less_eq x y ≡ true → less_eq y z ≡ true → less z x ≡ false
  pub less-minus : (x y : Double) → less (decimal 0 0) (minus x y) ≡ less y x

module _ (F : Floats) where
  abbrev pub nought : F.Double
  nought = F.decimal 0 0

  abbrev pub one : F.Double
  one = F.decimal 1 0

  -- `std::max`
  abbrev pub max_of : F.Double → F.Double → F.Double
  max_of a b = if F.less a b then b else a

  -- `PayOffCall` and `PayOffPut` of a strike, and `PayOffDoubleDigital` of its barriers, at a spot
  unfoldable pub pay_off_call : F.Double → F.Double → F.Double
  pay_off_call k s = max_of (F.minus s k) nought

  unfoldable pub pay_off_put : F.Double → F.Double → F.Double
  pay_off_put k s = max_of (F.minus k s) nought

  unfoldable pub pay_off_double_digital : F.Double → F.Double → F.Double → F.Double
  pay_off_double_digital u d s = if F.less_eq d s && F.less_eq s u then one else nought

  -- `main`: the spots that it prints, each with the pay-off between 10 and 20
  unfoldable pub options_main : List (F.Double × F.Double)
  unfolding pay_off_double_digital
  options_main =
      let d = F.decimal 100 1 in
      let u = F.decimal 200 1 in
      let pay : F.Double → F.Double × F.Double = λ s. (s, pay_off_double_digital u d s) in
      pay (F.decimal 50 1) ∷ pay (F.decimal 150 1) ∷ pay (F.decimal 250 1) ∷ []

  -- The polynomial `k_sum` of `N`
  unfoldable pub k_sum : F.Double → F.Double
  k_sum x =
      let k = F.over one (F.plus one (F.times (F.decimal 2316419 7) x)) in
      let k5 = F.plus (F.neg (F.decimal 1821255978 9)) (F.times (F.decimal 1330274429 9) k) in
      let k4 = F.plus (F.decimal 1781477937 9) (F.times k k5) in
      let k3 = F.plus (F.neg (F.decimal 356563782 9)) (F.times k k4) in
      F.times k (F.plus (F.decimal 319381530 9) (F.times k k3))

  -- `N` for an argument that is not negative
  unfoldable pub upper_half : F.Double → F.Double
  unfolding k_sum
  upper_half x =
      let scale = F.over one (F.pow (F.times (F.decimal 2 0) F.pi) (F.decimal 5 1)) in
      let bell = F.exp (F.times (F.times (F.neg (F.decimal 5 1)) x) x) in
      F.minus one (F.times (F.times scale bell) (k_sum x))

  -- `N`, with as many calls as the fuel allows
  unfoldable pub cumulative : ℕ → F.Double → Option F.Double
  cumulative zero x = none
  cumulative (suc n) x =
      let rest = cumulative n (F.neg x) in
      if F.less_eq nought x
      then some (upper_half x)
      else elim rest [ none ↦ none | some p ↦ some (F.minus one p) ]

  pub record VanillaOption : Type 0 where
    pub strike : F.Double
    pub rate : F.Double
    pub maturity : F.Double
    pub spot : F.Double
    pub sigma : F.Double

  -- `init`, and what it returns
  unfoldable pub init : VanillaOption → VanillaOption × ℕ
  init o = (
    record {
      strike = F.decimal 1000 1;
      rate = F.decimal 5 2;
      maturity = F.decimal 1 1;
      spot = F.decimal 1000 1;
      sigma = F.decimal 2 1;
    },
    1,
  )

  -- `copy`, which the copy constructor and the assignment call
  unfoldable pub copy : VanillaOption → VanillaOption → VanillaOption
  copy o rhs = record o {
    strike = rhs.strike;
    rate = rhs.rate;
    maturity = rhs.maturity;
    spot = rhs.spot;
    sigma = rhs.sigma;
  }

  -- The constructors; what stands in the members before is `raw`.
  unfoldable pub construct : F.Double → F.Double → F.Double → F.Double → F.Double → VanillaOption
  construct k r t s sigma = record { strike = k; rate = r; maturity = t; spot = s; sigma = sigma }

  unfoldable pub construct_default : VanillaOption → VanillaOption
  unfolding init
  construct_default raw = (init raw).0

  unfoldable pub construct_copy : VanillaOption → VanillaOption → VanillaOption
  unfolding copy
  construct_copy raw other = copy raw other

  -- `operator=`; `same` tells whether both sides are one object.
  unfoldable pub assign : Bool → VanillaOption → VanillaOption → VanillaOption
  unfolding copy
  assign same o rhs = if same then o else copy o rhs

  -- `d_1` and `d_2` of the two prices
  unfoldable pub d_1 : VanillaOption → F.Double
  d_1 o =
      let sigma_sqrt_t = F.times o.sigma (F.sqrt o.maturity) in
      let drift = F.plus o.rate (F.times (F.times o.sigma o.sigma) (F.decimal 5 1)) in
      F.over (F.plus (F.log (F.over o.spot o.strike)) (F.times drift o.maturity)) sigma_sqrt_t

  unfoldable pub d_2 : VanillaOption → F.Double
  d_2 o = F.minus (d_1 o) (F.times o.sigma (F.sqrt o.maturity))

  -- `_K * exp(-_r * _T)`
  unfoldable pub discounted_strike : VanillaOption → F.Double
  discounted_strike o = F.times o.strike (F.exp (F.times (F.neg o.rate) o.maturity))

  -- Two results that are both needed
  abbrev pub both :
      Option F.Double → Option F.Double → (F.Double → F.Double → F.Double) → Option F.Double
  both none q f = none
  both (some a) none f = none
  both (some a) (some b) f = some (f a b)

  unfoldable pub calc_call_price : ℕ → VanillaOption → Option F.Double
  unfolding cumulative d_1 d_2 discounted_strike
  calc_call_price n o =
      both (cumulative n (d_1 o)) (cumulative n (d_2 o))
        (λ n1 n2. F.minus (F.times o.spot n1) (F.times (discounted_strike o) n2))

  unfoldable pub calc_put_price : ℕ → VanillaOption → Option F.Double
  unfolding cumulative d_1 d_2 discounted_strike
  calc_put_price n o =
      both (cumulative n (F.neg (d_2 o))) (cumulative n (F.neg (d_1 o)))
        (λ n2 n1. F.minus (F.times (discounted_strike o) n2) (F.times o.spot n1))
