-- ===== src/Options/PayOffs.antt =====
-- What the pay-offs of options say of the spot price.
use tradingmarketsimulator.Prelude.{
  ◌≡◌, refl, sym, ◌∙◌, true, false, ◌&&◌, if_false, Bool-cases, inl, inr,
}
use tradingmarketsimulator.Options.{
  Floats, nought, max_of, pay_off_call, pay_off_put, pay_off_double_digital,
}

module _ (F : Floats) where
  less_irrefl : (x : F.Double) → F.less x x ≡ false
  less_irrefl x = elim (Bool-cases (F.less x x)) [ inl e ↦ F.less_asym x x e | inr e ↦ e ]

  -- The better of a difference and nothing is not negative, and positive if the parts are in order.
  max_of-minus :
      (x y : F.Double)
      → let pay = max_of F (F.minus x y) (nought F) in
        (F.less pay (nought F) ≡ false) × (F.less (nought F) pay ≡ F.less y x)
  max_of-minus x y = elim (Bool-cases (F.less (F.minus x y) (nought F))) [
    | inl e ↦ rw e (
      less_irrefl (nought F),
      less_irrefl (nought F) ∙ sym (F.less_asym (F.minus x y) (nought F) e) ∙ F.less-minus x y,
    )
    | inr e ↦ rw e (e, F.less-minus x y)
  ]

  not_both : (x y : F.Double) → F.less x y && F.less y x ≡ false
  not_both x y = elim (Bool-cases (F.less x y)) [
    | inl e ↦ rw e (F.less_asym x y e)
    | inr e ↦ rw e refl
  ]

  outside : (u d s : F.Double) → F.less u d ≡ true → F.less_eq d s && F.less_eq s u ≡ false
  outside u d s h = elim (Bool-cases (F.less_eq d s)) [
    | inl e ↦ elim (Bool-cases (F.less_eq s u)) [
      | inl f ↦ let ordered = F.less_eq_trans d s u e f in absurd cc
      | inr f ↦ rw (e, f) refl
    ]
    | inr e ↦ rw e refl
  ]

  -- At any spot, the call and the put of a strike are not negative; the call is positive just above the
  -- strike and the put just below it, never both; and the double digital pays one or nothing, and never
  -- if its upper barrier is below its lower one.
  pub pay_offs_lem :
      (k u d s : F.Double)
      → (F.less (pay_off_call F k s) (nought F) ≡ false)
        × (F.less (pay_off_put F k s) (nought F) ≡ false)
        × (F.less (nought F) (pay_off_call F k s) ≡ F.less k s)
        × (F.less (nought F) (pay_off_put F k s) ≡ F.less s k)
        × (F.less (nought F) (pay_off_call F k s) && F.less (nought F) (pay_off_put F k s) ≡ false)
        × (F.less u d ≡ true → pay_off_double_digital F u d s ≡ nought F)
  unfolding pay_off_call pay_off_put pay_off_double_digital
  pay_offs_lem k u d s =
      let (call_least, call_positive) = max_of-minus s k in
      let (put_least, put_positive) = max_of-minus k s in
      (
        call_least,
        put_least,
        call_positive,
        put_positive,
        rw (call_positive, put_positive) (not_both k s),
        λ h. if_false (F.less_eq d s && F.less_eq s u) _ _ (outside u d s h),
      )
