-- ===== src/Value/Double.antt =====
-- Comparison of `double`s by their IEEE 754 bit patterns (binary64).
use printer_fw.Base.{
  ℕ, ◌+◌, ◌-◌, ◌*◌, ◌%◌, ◌^◌, Bool, not, ◌&&◌, ◌||◌, ltb, leb, ◌==◌, if◌then◌else◌,
}

-- The exponent is all ones and the fraction is not zero.
unfoldable pub is_nan : ℕ → Bool
is_nan x = ltb (2047 * 2 ^ 52) (x % 2 ^ 63)

unfoldable pub is_zero : ℕ → Bool
is_zero x = x % 2 ^ 63 == 0

-- x != y: a NaN differs from everything, itself included, and the two zeros are equal.
unfoldable pub double_ne : ℕ → ℕ → Bool
unfolding is_nan is_zero
double_ne x y = is_nan x || is_nan y || (not (x == y) && not (is_zero x && is_zero y))

-- The order of the bit patterns of numbers: the two zeros have one place.
unfoldable pub order_key : ℕ → ℕ
order_key x = if ltb x (2 ^ 63) then 2 ^ 63 + x else 2 ^ 64 - x

-- x >= y: false if either is a NaN.
unfoldable pub double_ge : ℕ → ℕ → Bool
unfolding is_nan order_key
double_ge x y = not (is_nan x) && not (is_nan y) && leb (order_key y) (order_key x)
