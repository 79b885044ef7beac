-- ===== src/Core/Block.antt =====
-- `Block`, `blocks_per_instance` and `cooperative_fits` of src/lib.rs.
use native.Mathlib.Nat.{le-div_iff_mul-le, le_refl, mul-le-mul_left, mul-le-mul_right}
use calx_mill.Base.{
  ℕ, zero, suc, ◌*◌, ◌/◌, ◌≤◌, ◌<◌, ◌≡◌, ◌↔◌, ◌⊎◌, Bool, true, ◌||◌, min, max, arith, ◌==◌, leb,
  leb→le, le→leb, Bool-cases, ltb, ltb→lt, inl, inr, if◌then◌else◌, u32_max, saturating_mul,
  le-mul_of_pos,
}
use calx_mill.Core.Rounding.{round_up, round_up_bounds}
use calx_mill.Core.Occupancy.{Substrate}

pub record Block : Type 0 where
  pub units : ℕ
  pub unit_registers : ℕ
  pub local_store_bytes : ℕ

unfoldable pub blocks_per_instance : Substrate → Block → ℕ
blocks_per_instance s b =
    if b.units == 0
    then 0
    else (let reg_per_unit = round_up (max b.unit_registers 1) s.register_granularity in
        let reg_per_block = saturating_mul reg_per_unit b.units in
        let by_reg = s.register_capacity / reg_per_block in
        let by_local =
          if b.local_store_bytes == 0 || s.local_store_bytes == 0
          then u32_max
          else (let ls_per = max (round_up b.local_store_bytes s.local_store_granularity) 1 in
              s.local_store_bytes / ls_per) in
        let by_ceiling = s.concurrency_ceiling / b.units in min (min by_reg by_local) by_ceiling)

unfoldable pub cooperative_fits : Substrate → Block → ℕ → ℕ → Bool
cooperative_fits s b grid_blocks instances =
    leb grid_blocks (saturating_mul (blocks_per_instance s b) instances)

-- `n` whole blocks fit on one instance. A block of no units fits nowhere.
pub record BlocksFit (s : Substrate) (b : Block) (n : ℕ) : Type 0 where
  pub has_units : (0 < b.units) ⊎ (n ≡ 0)
  pub slots : n * b.units ≤ s.concurrency_ceiling
  pub registers_fit :
      n * (round_up (max b.unit_registers 1) s.register_granularity * b.units) ≤ s.register_capacity
  pub store_fits :
      (b.local_store_bytes ≡ 0)
      ⊎ (s.local_store_bytes ≡ 0)
      ⊎ (n * round_up b.local_store_bytes s.local_store_granularity ≤ s.local_store_bytes)

-- The fields of a block are u32s, and so are those of the substrate that bound a result. A register
-- file of u32::MAX is left out: there a saturated product still looks as if it fitted once.
pub record InRange (s : Substrate) (b : Block) : Type 0 where
  pub registers_range : b.unit_registers ≤ u32_max
  pub store_range : b.local_store_bytes ≤ u32_max
  pub ceiling_range : s.concurrency_ceiling ≤ u32_max
  pub capacity_range : s.register_capacity < u32_max

-- Below u32::MAX a saturated product bounds what the exact one bounds.
saturated-le_iff : (n a b k : ℕ) → k < u32_max → (n * saturating_mul a b ≤ k) ↔ (n * (a * b) ≤ k)
saturated-le_iff zero a b k h = (λ l. omega arith, λ l. omega arith)
saturated-le_iff (suc n) a b k h = (
  λ l.
      let small : a * b ≤ u32_max =
        omega (arith, mul-le-mul_right (min (a * b) u32_max) (one_le n)) in
      let e : min (a * b) u32_max ≡ a * b = omega arith in rw e at l,
  λ l. omega (arith, mul-le-mul_left (suc n) (min_le (a * b))),
)
  where
    min_le : (c : ℕ) → min c u32_max ≤ c
    min_le c = omega arith

    one_le : (m : ℕ) → 1 ≤ suc m
    one_le m = omega arith

module _ (s : Substrate) (b : Block) (n : ℕ) (r : InRange s b) (p : 0 < b.units) where
  counted : (n ≤ blocks_per_instance s b) ↔ BlocksFit s b n
  unfolding blocks_per_instance
  counted =
      let unit_reg = round_up (max b.unit_registers 1) s.register_granularity in
      let reg = saturating_mul unit_reg b.units in
      let loc = max (round_up b.local_store_bytes s.local_store_granularity) 1 in
      let rb = round_up_bounds (max b.unit_registers 1) s.register_granularity (omega arith) in
      let lb = round_up_bounds b.local_store_bytes s.local_store_granularity r.store_range in
      let some_reg : 0 < reg = omega (arith, le-mul_of_pos unit_reg b.units p) in
      let by_reg = le-div_iff_mul-le {k = reg} {x = n} {y = s.register_capacity} some_reg in
      let by_loc = le-div_iff_mul-le {k = loc} {x = n} {y = s.local_store_bytes} (omega arith) in
      let by_ceil = le-div_iff_mul-le {k = b.units} {x = n} {y = s.concurrency_ceiling} p in
      let exact = saturated-le_iff n unit_reg b.units s.register_capacity r.capacity_range in
      let few = le-mul_of_pos n b.units p in (ground arith, ground arith)

-- For operands in range, `n` blocks is within the count exactly when `n` whole blocks fit.
pub blocks_per_instance_iff_le :
    (s : Substrate) (b : Block) (n : ℕ)
    → InRange s b
    → (n ≤ blocks_per_instance s b) ↔ BlocksFit s b n
unfolding blocks_per_instance
blocks_per_instance_iff_le s b n r = elim (Bool-cases (ltb 0 b.units)) [
  | inl p ↦ counted s b n r (ltb→lt _ _ p)
  | inr p ↦ (ground arith, ground arith)
]

-- For operands in range, the launch is accepted exactly when some number of blocks fits on one
-- instance that covers the grid over all instances.
pub cooperative_fits_iff :
    (s : Substrate) (b : Block) (grid_blocks instances : ℕ)
    → InRange s b
    → grid_blocks ≤ u32_max
    → (cooperative_fits s b grid_blocks instances ≡ true)
      ↔ ((n : ℕ) × BlocksFit s b n × (grid_blocks ≤ n * instances))
unfolding cooperative_fits
cooperative_fits_iff s b grid instances r h = (
  λ e. (
    blocks_per_instance s b,
    (blocks_per_instance_iff_le s b _ r).0 (le_refl _),
    omega (arith, leb→le _ _ e),
  ),
  λ (n, f, cover).
      le→leb _ _
        (omega (arith, mul-le-mul_right instances ((blocks_per_instance_iff_le s b n r).1 f))),
)
