-- ===== src/Options/Distribution.antt =====
-- When the distribution function and the prices return, and how the two prices are related.
use tradingmarketsimulator.Prelude.{
  ℕ, zero, suc, ◌≤◌, ◌≡◌, ◌≢◌, ◌⊎◌, refl, sym, ap, ◌∙◌, true, false, Option, none, some,
  if◌then◌else◌, Bool-cases, inl, inr, arith,
}
use tradingmarketsimulator.Options.{Floats, nought, one, upper_half, cumulative}

module _ (F : Floats) where
  -- The argument or its negation is at least zero: it is not NaN.
  abbrev pub IsOrdered : F.Double → Type 0
  IsOrdered x = (F.less_eq (nought F) x ≡ true) ⊎ (F.less_eq (nought F) (F.neg x) ≡ true)

  -- The value that `N` has
  abbrev pub value : F.Double → F.Double
  value x =
      if F.less_eq (nought F) x then upper_half F x else F.minus (one F) (upper_half F (F.neg x))

  abbrev less_one : Option F.Double → Option F.Double
  less_one none = none
  less_one (some p) = some (F.minus (one F) p)

  cumulative_upper :
      (n : ℕ) (x : F.Double)
      → F.less_eq (nought F) x ≡ true
      → cumulative F (suc n) x ≡ some (upper_half F x)
  unfolding cumulative
  cumulative_upper n x e = rw e refl

  cumulative_lower :
      (n : ℕ) (x : F.Double)
      → F.less_eq (nought F) x ≡ false
      → cumulative F (suc n) x ≡ less_one (cumulative F n (F.neg x))
  unfolding cumulative
  cumulative_lower n x e = rw e refl

  value_upper : (x : F.Double) → F.less_eq (nought F) x ≡ true → value x ≡ upper_half F x
  value_upper x e = rw e refl

  value_lower :
      (x : F.Double)
      → F.less_eq (nought F) x ≡ false
      → value x ≡ F.minus (one F) (upper_half F (F.neg x))
  value_lower x e = rw e refl

  above :
      {x : F.Double}
      → IsOrdered x
      → F.less_eq (nought F) x ≡ false
      → F.less_eq (nought F) (F.neg x) ≡ true
  above (inl h) e = absurd cc
  above (inr h) e = h

  cumulative-value :
      (n : ℕ) (x : F.Double) → IsOrdered x → 2 ≤ n → cumulative F n x ≡ some (value x)
  cumulative-value zero x o h = absurd (omega arith)
  cumulative-value (suc zero) x o h = absurd (omega arith)
  cumulative-value (suc (suc n)) x o h = elim (Bool-cases (F.less_eq (nought F) x)) [
    | inl e ↦ cumulative_upper (suc n) x e ∙ ap some (sym (value_upper x e))
    | inr e ↦
        cumulative_lower (suc n) x e
        ∙ ap less_one (cumulative_upper n (F.neg x) (above o e))
        ∙ ap some (sym (value_lower x e))
  ]

  cumulative_unordered :
      (n : ℕ) (x : F.Double)
      → F.less_eq (nought F) x ≡ false
      → F.less_eq (nought F) (F.neg x) ≡ false
      → cumulative F n x ≡ none
  unfolding cumulative
  cumulative_unordered zero x e f = refl
  cumulative_unordered (suc n) x e f =
      cumulative_lower n x e
      ∙ ap less_one
          (cumulative_unordered n (F.neg x) f (ap (F.less_eq (nought F)) (F.neg_neg x) ∙ e))

  -- `N` returns within two calls for every argument that is ordered, always the same value; for any
  -- other, which is NaN, it calls itself without end.
  pub cumulative_lem :
      (x : F.Double)
      → (IsOrdered x → (n : ℕ) → 2 ≤ n → cumulative F n x ≡ some (value x))
        × (¬ IsOrdered x → (n : ℕ) → cumulative F n x ≡ none)
  cumulative_lem x = (
    λ o n h. cumulative-value n x o h,
    λ u n. elim (Bool-cases (F.less_eq (nought F) x)) [
      | inl e ↦ absurd (u (inl e))
      | inr e ↦ elim (Bool-cases (F.less_eq (nought F) (F.neg x))) [
        | inl f ↦ absurd (u (inr f))
        | inr f ↦ cumulative_unordered n x e f
      ]
    ],
  )

  -- One of two numbers is what the other leaves of one.
  abbrev pub IsComplement : F.Double → F.Double → Type 0
  IsComplement u v = (v ≡ F.minus (one F) u) ⊎ (u ≡ F.minus (one F) v)

  pub value-neg :
      (x : F.Double)
      → F.less_eq (nought F) x ≢ F.less_eq (nought F) (F.neg x)
      → IsComplement (value x) (value (F.neg x))
  value-neg x h = elim (Bool-cases (F.less_eq (nought F) x)) [
    | inl e ↦ elim (Bool-cases (F.less_eq (nought F) (F.neg x))) [
      | inl f ↦ absurd (h (e ∙ sym f))
      | inr f ↦ inl (
          value_lower (F.neg x) f
          ∙ ap (λ y. F.minus (one F) (upper_half F y)) (F.neg_neg x)
          ∙ ap (F.minus (one F)) (sym (value_upper x e)))
    ]
    | inr e ↦ elim (Bool-cases (F.less_eq (nought F) (F.neg x))) [
      | inl f ↦ inr (value_lower x e ∙ ap (F.minus (one F)) (sym (value_upper (F.neg x) f)))
      | inr f ↦ absurd (h (e ∙ sym f))
    ]
  ]
