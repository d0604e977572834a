-- ===== src/Options/Copies.antt =====
-- Copies of an option have its prices.
use tradingmarketsimulator.Prelude.{◌≡◌, refl, Bool, true, false}
use tradingmarketsimulator.Options.{Floats, VanillaOption, copy, construct_copy, assign}

module _ (F : Floats) where
  copy_lem : (o rhs : VanillaOption F) → copy F o rhs ≡ rhs
  unfolding copy
  copy_lem o rhs = refl

  -- However an option is copied or assigned, from itself included, the result is the option.
  pub assign_lem :
      (same : Bool) (o rhs : VanillaOption F)
      → (same ≡ true → o ≡ rhs)
      → (assign F same o rhs ≡ rhs) × (construct_copy F o rhs ≡ rhs)
  unfolding assign construct_copy
  assign_lem true o rhs h = (h refl, copy_lem o rhs)
  assign_lem false o rhs h = (copy_lem o rhs, copy_lem o rhs)
