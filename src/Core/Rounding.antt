-- ===== src/Core/Rounding.antt =====
-- `round_up` and `ceil_div` of src/lib.rs.
use native.Mathlib.Nat.{div-add-mod', mod-lt}
use calx_mill.Base.{
  ℕ, zero, suc, ◌+◌, ◌-◌, ◌*◌, ◌/◌, ◌%◌, ◌≤◌, ◌<◌, ◌≡◌, ◌↔◌, arith, ◌==◌, if◌then◌else◌, u32_max,
  saturating_add, div-lt_of_le-mul, next_multiple-le, div-le_of_le-mul_exact, le-mul_of_div-le,
  le-mul_of_div-lt, next_multiple-mod,
}

unfoldable pub round_up : ℕ → ℕ → ℕ
round_up x unit =
    if unit == 0
    then x
    else (let rem = x % unit in if rem == 0 then x else saturating_add x (unit - rem))

unfoldable pub ceil_div : ℕ → ℕ → ℕ
ceil_div a b = if b == 0 then 0 else (let q = a / b in if a % b == 0 then q else saturating_add q 1)

-- Rounding a u32 up goes neither below it nor beyond u32::MAX.
pub round_up_bounds :
    (x unit : ℕ) → x ≤ u32_max → (x ≤ round_up x unit) × (round_up x unit ≤ u32_max)
unfolding round_up
round_up_bounds x unit h = ground arith

-- For a u32 and a positive unit, rounding up stays within a multiple of the unit that is a u32 exactly
-- when the number does.
pub round_up_iff_le :
    (x unit m : ℕ)
    → x ≤ u32_max
    → 0 < unit
    → m * unit ≤ u32_max
    → (round_up x unit ≤ m * unit) ↔ (x ≤ m * unit)
unfolding round_up
round_up_iff_le x unit m h u k =
    (ground (arith), λ l. ground (arith, next_multiple-le x unit m l, div-add-mod' x unit))

-- Away from saturation the result is a multiple.
pub round_up-mod : (x unit : ℕ) → 0 < unit → x + unit ≤ u32_max → round_up x unit % unit ≡ 0
unfolding round_up
round_up-mod x unit u h = ground (arith, next_multiple-mod x unit, mod-lt x u)

-- For a u32 and a positive divisor, the quotient rounded up is at most `n` exactly when `n` divisors
-- reach the number.
pub ceil_div_iff_le : (a b n : ℕ) → a ≤ u32_max → 0 < b → (ceil_div a b ≤ n) ↔ (a ≤ n * b)
unfolding ceil_div
ceil_div_iff_le a b n h k = (
  λ l. ground (arith, le-mul_of_div-le a b n, le-mul_of_div-lt a b n),
  λ l. ground (arith, div-lt_of_le-mul a b n l, div-le_of_le-mul_exact a b n k l),
)

-- A smaller demand never rounds up to more.
pub round_up_mono : (x y unit : ℕ) → x ≤ y → y ≤ u32_max → round_up x unit ≤ round_up y unit
unfolding round_up
round_up_mono x y zero l h = l
round_up_mono x y (suc u) l h = ground (
  arith,
  next_multiple-le x (suc u) (y / suc u),
  next_multiple-le x (suc u) (y / suc u + 1),
  div-add-mod' x (suc u),
  div-add-mod' y (suc u),
  mod-lt y {m = suc u},
)

pub ceil_div_mono : (x y b : ℕ) → x ≤ y → y ≤ u32_max → ceil_div x b ≤ ceil_div y b
ceil_div_mono x y zero l h = unfold ceil_div in omega arith
ceil_div_mono x y (suc b) l h =
    (ceil_div_iff_le x (suc b) (ceil_div y (suc b)) (omega arith) (omega arith)).1 (
      omega
        (arith, (ceil_div_iff_le y (suc b) (ceil_div y (suc b)) h (omega arith)).0 (omega arith)))
