-- ===== src/Outside.antt =====
-- What the two generators take from outside: the distributions of <random> over their source of
-- random numbers, `float`, and the ticks of `fiah::TimeStamp`. A distribution returns values within
-- its bounds.
use tradingmarketsimulator.Prelude.{ℕ, Bool, ◌≤◌}
use tradingmarketsimulator.Prelude.Int.{ℤ, ◌≤ℤ◌}

pub record Outside : Type 1 where
  pub World : Type 0
  pub Float : Type 0
  pub less : Float → Float → Bool
  pub plus : Float → Float → Float
  pub draw_unit : World → Float × World
  pub draw_int : ℤ → ℤ → World → ℤ × World
  pub draw_nat : ℕ → ℕ → World → ℕ × World
  pub ticks : World → ℕ × World
  pub draw_int_bounds :
      (lo hi : ℤ) (w : World)
      → lo ≤ℤ hi
      → (lo ≤ℤ (draw_int lo hi w).0) × ((draw_int lo hi w).0 ≤ℤ hi)
  pub draw_nat_bounds :
      (lo hi : ℕ) (w : World) → lo ≤ hi → (lo ≤ (draw_nat lo hi w).0) × ((draw_nat lo hi w).0 ≤ hi)
