-- ===== src/Options/Prices.antt =====
-- When the prices of an option are returned, and what the call and the put have in common.
use tradingmarketsimulator.Prelude.{
  ℕ, ◌≤◌, ◌≡◌, refl, sym, ap, ap₂, subst, ◌≢◌, ◌⊎◌, ◌∙◌, Option, none, some, Bool-cases, inl, inr,
}
use tradingmarketsimulator.Options.{
  Floats, nought, cumulative, VanillaOption, d_1, d_2, discounted_strike, both, calc_call_price,
  calc_put_price,
}
use tradingmarketsimulator.Options.Distribution.{
  IsOrdered, value, cumulative_lem, value-neg, IsComplement,
}

module _ (F : Floats) where
  IsOrdered-neg : (x : F.Double) → IsOrdered F x → IsOrdered F (F.neg x)
  IsOrdered-neg x (inl h) = inr (ap (F.less_eq (nought F)) (F.neg_neg x) ∙ h)
  IsOrdered-neg x (inr h) = inl h

  IsOrdered-neg_neg : (x : F.Double) → IsOrdered F (F.neg x) → IsOrdered F x
  IsOrdered-neg_neg x o = subst (IsOrdered F) (F.neg_neg x) (IsOrdered-neg (F.neg x) o)

  IsOrdered-dec : (x : F.Double) → IsOrdered F x ⊎ (¬ IsOrdered F x)
  IsOrdered-dec x = elim (Bool-cases (F.less_eq (nought F) x)) [
    | inl e ↦ inl (inl e)
    | inr e ↦ elim (Bool-cases (F.less_eq (nought F) (F.neg x))) [
      | inl f ↦ inl (inr f)
      | inr f ↦ inr (λ o. elim o [ inl h ↦ absurd cc | inr h ↦ absurd cc ])
    ]
  ]

  both-none :
      (p q : Option F.Double) (f : F.Double → F.Double → F.Double)
      → (p ≡ none) ⊎ (q ≡ none)
      → both F p q f ≡ none
  both-none none q f h = refl
  both-none (some a) none f h = refl
  both-none (some a) (some b) f (inl h) = absurd cc
  both-none (some a) (some b) f (inr h) = absurd cc

  abbrev call_of : VanillaOption F → F.Double → F.Double → F.Double
  call_of o n1 n2 = F.minus (F.times o.spot n1) (F.times (discounted_strike F o) n2)

  abbrev put_of : VanillaOption F → F.Double → F.Double → F.Double
  put_of o n2 n1 = F.minus (F.times (discounted_strike F o) n2) (F.times o.spot n1)

  endless : (n : ℕ) (x : F.Double) → ¬ IsOrdered F x → cumulative F n x ≡ none
  endless n x u = (cumulative_lem F x).1 u n

  prices_endless :
      (o : VanillaOption F) (n : ℕ)
      → (¬ IsOrdered F (d_1 F o)) ⊎ (¬ IsOrdered F (d_2 F o))
      → (calc_call_price F n o ≡ none) × (calc_put_price F n o ≡ none)
  unfolding calc_call_price calc_put_price
  prices_endless o n (inl u) = (
    both-none (cumulative F n (d_1 F o)) (cumulative F n (d_2 F o)) (call_of o)
        (inl (endless n (d_1 F o) u)),
    both-none (cumulative F n (F.neg (d_2 F o))) (cumulative F n (F.neg (d_1 F o))) (put_of o)
        (inr (endless n (F.neg (d_1 F o)) (λ h. u (IsOrdered-neg_neg (d_1 F o) h)))),
  )
  prices_endless o n (inr u) = (
    both-none (cumulative F n (d_1 F o)) (cumulative F n (d_2 F o)) (call_of o)
        (inr (endless n (d_2 F o) u)),
    both-none (cumulative F n (F.neg (d_2 F o))) (cumulative F n (F.neg (d_1 F o))) (put_of o)
        (inl (endless n (F.neg (d_2 F o)) (λ h. u (IsOrdered-neg_neg (d_2 F o) h)))),
  )

  prices_value :
      (o : VanillaOption F) (n : ℕ)
      → IsOrdered F (d_1 F o)
      → IsOrdered F (d_2 F o)
      → 2 ≤ n
      → (calc_call_price F n o ≡ some (call_of o (value F (d_1 F o)) (value F (d_2 F o))))
        × (calc_put_price F n o
            ≡ some (put_of o (value F (F.neg (d_2 F o))) (value F (F.neg (d_1 F o)))))
  unfolding calc_call_price calc_put_price
  prices_value o n o1 o2 h =
      let n1 = (cumulative_lem F (d_1 F o)).0 o1 n h in
      let n2 = (cumulative_lem F (d_2 F o)).0 o2 n h in
      let m1 = (cumulative_lem F (F.neg (d_1 F o))).0 (IsOrdered-neg (d_1 F o) o1) n h in
      let m2 = (cumulative_lem F (F.neg (d_2 F o))).0 (IsOrdered-neg (d_2 F o) o2) n h in
      (ap₂ (λ p q. both F p q (call_of o)) n1 n2, ap₂ (λ p q. both F p q (put_of o)) m2 m1)

  -- The two prices return, within two calls of `N` for each of its uses, if `d_1` and `d_2` are ordered;
  -- an option with a `d_1` or a `d_2` that is not, which is NaN, has neither price however long it runs.
  pub prices_return :
      (o : VanillaOption F)
      → (IsOrdered F (d_1 F o)
          → IsOrdered F (d_2 F o)
          → (n : ℕ) → 2 ≤ n
          → (calc_call_price F n o ≢ none) × (calc_put_price F n o ≢ none))
        × ((¬ (IsOrdered F (d_1 F o) × IsOrdered F (d_2 F o)))
            → (n : ℕ) → (calc_call_price F n o ≡ none) × (calc_put_price F n o ≡ none))
  prices_return o = (
    λ o1 o2 n h. let (call, put) = prices_value o n o1 o2 h in (λ e. absurd cc, λ e. absurd cc),
    λ u n. elim (IsOrdered-dec (d_1 F o)) [
      | inr u1 ↦ prices_endless o n (inl u1)
      | inl o1 ↦ prices_endless o n (inr (λ o2. u (o1, o2)))
    ],
  )

  -- The sign of the argument decides: it is at least zero or its negation is, and not both.
  abbrev pub IsSigned : F.Double → Type 0
  IsSigned x = F.less_eq (nought F) x ≢ F.less_eq (nought F) (F.neg x)

  IsSigned-IsOrdered : (x : F.Double) → IsSigned x → IsOrdered F x
  IsSigned-IsOrdered x s = elim (Bool-cases (F.less_eq (nought F) x)) [
    | inl e ↦ inl e
    | inr e ↦ elim (Bool-cases (F.less_eq (nought F) (F.neg x))) [
      | inl f ↦ inr f
      | inr f ↦ absurd (s (e ∙ sym f))
    ]
  ]

  -- For a `d_1` and a `d_2` that are not zero, the call and the put are computed from the same values
  -- of `N`: the values that the put uses, for the negations, are 1.0 less those that the call uses, or
  -- the other way round, without any rounding between.
  pub calc_put_price-IsComplement :
      (o : VanillaOption F) (n : ℕ)
      → IsSigned (d_1 F o)
      → IsSigned (d_2 F o)
      → 2 ≤ n
      → let u1 = value F (d_1 F o) in
        let u2 = value F (d_2 F o) in
        let v1 = value F (F.neg (d_1 F o)) in
        let v2 = value F (F.neg (d_2 F o)) in
        IsComplement F u1 v1
        × IsComplement F u2 v2
        × (calc_call_price F n o
            ≡ some (F.minus (F.times o.spot u1) (F.times (discounted_strike F o) u2)))
        × (calc_put_price F n o
            ≡ some (F.minus (F.times (discounted_strike F o) v2) (F.times o.spot v1)))
  calc_put_price-IsComplement o n s1 s2 h =
      let (call, put) =
        prices_value o n (IsSigned-IsOrdered (d_1 F o) s1) (IsSigned-IsOrdered (d_2 F o) s2) h in
      (value-neg F (d_1 F o) s1, value-neg F (d_2 F o) s2, call, put)
