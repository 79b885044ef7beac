-- ===== src/Base/Arith.antt =====
-- Division facts in the form that rounding up needs.
use Prim.Native.Nat.{ℕ, zero, suc, min, max, ◌+◌, ◌-◌, ◌*◌, ◌/◌, ◌%◌, ◌≤◌, ◌<◌}
use mathlib.Core.Path.{◌≡◌, ap}
use mathlib.Core.Logic.{◌↔◌}
use calx_mill.Base.Word.{u32_max}
use native.Mathlib.Nat.{
  div-add-mod', lt_of_mul-lt-mul_right, mul-le-mul_right, le_of_mul-le-mul_right, mul-mod_left,
  mod-lt, mul-div_cancel_left, le-div_iff_mul-le,
}
use native.Mathlib.Omega.{arith}
use native.Mathlib.Decide.{dec_le}

-- A multiple of `u` that is at least `x` is at least the next one above `x / u * u`, unless `u`
-- divides `x`.
pub div-lt_of_le-mul : (x u m : ℕ) → x ≤ m * u → 0 < x % u → x / u < m
div-lt_of_le-mul x u m l r = lt_of_mul-lt-mul_right u (omega (arith, div-add-mod' x u))

pub next_multiple-le : (x u m : ℕ) → x ≤ m * u → 0 < x % u → x / u * u + u ≤ m * u
next_multiple-le x u m l r = omega (arith, mul-le-mul_right u (div-lt_of_le-mul x u m l r))

pub div-le_of_le-mul_exact : (x u m : ℕ) → 0 < u → x ≤ m * u → x / u ≤ m
div-le_of_le-mul_exact x u m h l = le_of_mul-le-mul_right (omega (arith, div-add-mod' x u)) h

pub le-mul_of_div-le : (x u m : ℕ) → x % u ≡ 0 → x / u ≤ m → x ≤ m * u
le-mul_of_div-le x u m r h = omega (arith, div-add-mod' x u, mul-le-mul_right u h)

pub le-mul_of_div-lt : (x u m : ℕ) → 0 < u → x / u < m → x ≤ m * u
le-mul_of_div-lt x u m p h = omega (arith, div-add-mod' x u, mod-lt x p, mul-le-mul_right u h)

pub next_multiple-mod : (x u : ℕ) → 0 < u → (x + (u - x % u)) % u ≡ 0
next_multiple-mod x u p =
    let e : x + (u - x % u) ≡ (x / u + 1) * u = omega (arith, div-add-mod' x u, mod-lt x p) in
    rw e (mul-mod_left (x / u + 1) u)

-- A whole percentage of a part.
pub percent_bounds :
    (c k : ℕ)
    → c ≤ k
    → 0 < k
    → (c * 100 / k ≤ 100) × (c * 100 / k * k ≤ c * 100) × (c * 100 < (c * 100 / k + 1) * k)
percent_bounds c k h p =
    let d = div-add-mod' (c * 100) k in
    let m = mod-lt (c * 100) p in
    (div-le_of_le-mul_exact (c * 100) k 100 p (omega arith), omega arith, omega arith)

pub div-lt_of_lt-mul : (a k n : ℕ) → 0 < k → a < k * n → a / k < n
div-lt_of_lt-mul a k n p h = lt_of_mul-lt-mul_right k (omega (arith, div-add-mod' a k))

-- Only the whole is 100 percent of itself.
pub percent_full : (t m : ℕ) → t ≤ m → 0 < m → (t * 100 / m ≡ 100) ↔ (t ≡ m)
percent_full t m h p = (
  λ e. omega (arith, percent_bounds t m h p, ap (λ (q : ℕ). q * m) e),
  λ e. rw e (mul-div_cancel_left 100 p),
)

pub div-le-div : (a b k : ℕ) → a ≤ b → 0 < k → a / k ≤ b / k
div-le-div a b k h p = (le-div_iff_mul-le p).1 (omega (arith, div-add-mod' a k))

-- Against a fixed floor, a larger part is at least as large a percentage.
pub percent_mono : (t u f : ℕ) → t ≤ u → 0 < max t f → t * 100 / max t f ≤ u * 100 / max u f
percent_mono t u f h p = elim (dec_le u f) [
  | yes small ↦
      let e : max t f ≡ f = omega arith in
      let e' : max u f ≡ f = omega arith in
      rw (e, e') (div-le-div (t * 100) (u * 100) f (omega arith) (omega arith))
  | no large ↦
      let e : max u f ≡ u = omega arith in
      rw e (
        rw (mul-div_cancel_left 100 {n = u} (omega arith))
          (div-le_of_le-mul_exact (t * 100) (max t f) 100 p (omega arith)))
]

-- Saturating a factor first changes nothing of a saturated product.
pub saturate-mul : (x c : ℕ) → min (min x u32_max * c) u32_max ≡ min (x * c) u32_max
saturate-mul x zero = omega arith
saturate-mul x (suc c) = grind arith

pub le-mul_of_pos : (m k : ℕ) → 0 < k → m ≤ m * k
le-mul_of_pos m k p = grind arith
