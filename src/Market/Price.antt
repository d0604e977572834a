-- ===== src/Market/Price.antt =====
-- include/mms/market/Price.hh: the fixed-point price of 32 bits.
use tradingmarketsimulator.Prelude.{◌-◌, ◌^◌, Bool, not, if◌then◌else◌}
use tradingmarketsimulator.Prelude.Int.{ℤ, negsuc, ltb_ℤ, eqb_ℤ}

-- `Price32` holds one `std::int32_t`, to which it converts by `operator type()`; the order of
-- prices is that of the integers.
abbrev pub Price : Type 0
Price = ℤ

-- `std::numeric_limits<int>::min()`
abbrev pub invalid_price : Price
invalid_price = negsuc (2 ^ 31 - 1)

unfoldable pub is_valid : Price → Bool
is_valid p = not (eqb_ℤ p invalid_price)

unfoldable pub is_more_aggro : Price → Price → Bool → Bool
is_more_aggro lhs rhs is_bid = if is_bid then ltb_ℤ rhs lhs else ltb_ℤ lhs rhs

unfoldable pub is_more_cons : Price → Price → Bool → Bool
is_more_cons lhs rhs is_bid = if is_bid then ltb_ℤ lhs rhs else ltb_ℤ rhs lhs
