-- ===== src/Core/Occupancy.antt =====
-- `Substrate`, `WorkUnit`, `concurrency` and `occupancy_pct` of src/lib.rs.
use native.Mathlib.Nat.{le-div_iff_mul-le, le_refl, mul-le-mul_left}
use calx_mill.Base.{
  ℕ, ◌+◌, ◌*◌, ◌/◌, ◌≤◌, ◌<◌, ◌≡◌, ◌↔◌, ◌⊎◌, ◌||◌, min, max, arith, ◌==◌, if◌then◌else◌, u32_max,
  wrapping_mul, percent_bounds, div-lt_of_lt-mul,
}
use calx_mill.Core.Rounding.{round_up, round_up_bounds, round_up_mono}

-- The resource axes, each a u32.
pub record Substrate : Type 0 where
  pub register_capacity : ℕ
  pub register_granularity : ℕ
  pub local_store_bytes : ℕ
  pub local_store_granularity : ℕ
  pub concurrency_ceiling : ℕ
  pub issue_cap : ℕ
  pub mem_bandwidth : ℕ

pub record WorkUnit : Type 0 where
  pub registers : ℕ
  pub local_store_bytes : ℕ

unfoldable pub concurrency : Substrate → WorkUnit → ℕ
concurrency s w =
    let reg_per = round_up (max w.registers 1) s.register_granularity in
    let by_reg = s.register_capacity / reg_per in
    let by_local =
      if w.local_store_bytes == 0 || s.local_store_bytes == 0
      then s.concurrency_ceiling
      else (let ls_per = max (round_up w.local_store_bytes s.local_store_granularity) 1 in
          s.local_store_bytes / ls_per) in
    min (min by_reg by_local) s.concurrency_ceiling

-- `c * 100` is the plain product of two u32s, in a build without overflow checks.
pub occupancy_pct : Substrate → WorkUnit → ℕ
occupancy_pct s w =
    let c = concurrency s w in
    if s.concurrency_ceiling == 0 then 0 else wrapping_mul c 100 / s.concurrency_ceiling

-- `n` units fit side by side: the slots, the register file and the local store all hold them. A
-- demand or a capacity of 0 means that there is no local store to share.
pub record Fits (s : Substrate) (w : WorkUnit) (n : ℕ) : Type 0 where
  pub slots : n ≤ s.concurrency_ceiling
  pub registers_fit : n * round_up (max w.registers 1) s.register_granularity ≤ s.register_capacity
  pub store_fits :
      (w.local_store_bytes ≡ 0)
      ⊎ (s.local_store_bytes ≡ 0)
      ⊎ (n * round_up w.local_store_bytes s.local_store_granularity ≤ s.local_store_bytes)

-- For demands that are u32s, `n` is within the concurrency exactly when `n` units fit side by side.
pub concurrency_iff_le :
    (s : Substrate) (w : WorkUnit) (n : ℕ)
    → w.registers ≤ u32_max
    → w.local_store_bytes ≤ u32_max
    → (n ≤ concurrency s w) ↔ Fits s w n
unfolding concurrency
concurrency_iff_le s w n hr hl =
    let reg = round_up (max w.registers 1) s.register_granularity in
    let loc = max (round_up w.local_store_bytes s.local_store_granularity) 1 in
    let rb = round_up_bounds (max w.registers 1) s.register_granularity in
    let lb = round_up_bounds w.local_store_bytes s.local_store_granularity in
    let by_reg = le-div_iff_mul-le {k = reg} {x = n} {y = s.register_capacity} (omega arith) in
    let by_loc = le-div_iff_mul-le {k = loc} {x = n} {y = s.local_store_bytes} (omega arith) in
    (ground arith, ground arith)

pub concurrency-Fits :
    (s : Substrate) (w : WorkUnit)
    → w.registers ≤ u32_max
    → w.local_store_bytes ≤ u32_max
    → Fits s w (concurrency s w)
concurrency-Fits s w hr hl = (concurrency_iff_le s w (concurrency s w) hr hl).0 (le_refl _)

-- The demands of `v` are at most those of `w`.
pub record Lighter (v w : WorkUnit) : Type 0 where
  pub registers_le : v.registers ≤ w.registers
  pub store_le : v.local_store_bytes ≤ w.local_store_bytes

Fits-Lighter :
    (s : Substrate) (v w : WorkUnit) (n : ℕ)
    → w.registers ≤ u32_max
    → w.local_store_bytes ≤ u32_max
    → Lighter v w
    → Fits s w n
    → Fits s v n
Fits-Lighter s v w n hr hl le f =
    let r =
      round_up_mono (max v.registers 1) (max w.registers 1) s.register_granularity (omega arith)
        (omega arith) in
    let l =
      round_up_mono v.local_store_bytes w.local_store_bytes s.local_store_granularity (omega arith)
        hl in
    ground (arith, mul-le-mul_left n r, mul-le-mul_left n l)

-- Registers and local store within their ranges, a unit with smaller demands runs at least as
-- many copies at once.
pub concurrency_mono :
    (s : Substrate) (v w : WorkUnit)
    → w.registers ≤ u32_max
    → w.local_store_bytes ≤ u32_max
    → Lighter v w
    → concurrency s w ≤ concurrency s v
concurrency_mono s v w hr hl le =
    (concurrency_iff_le s v (concurrency s w) (omega arith) (omega arith)).1
      (Fits-Lighter s v w _ hr hl le (concurrency-Fits s w hr hl))

pub concurrency-le : (s : Substrate) (w : WorkUnit) → concurrency s w ≤ s.concurrency_ceiling
unfolding concurrency
concurrency-le s w = omega arith

-- For a ceiling that is positive and at most 42949672, the percentage is at most 100 and is the
-- quotient of 100 times the concurrency by the ceiling, rounded down.
pub occupancy_pct_exact :
    (s : Substrate) (w : WorkUnit)
    → s.concurrency_ceiling ≤ 42949672
    → 0 < s.concurrency_ceiling
    → (occupancy_pct s w ≤ 100)
      × (occupancy_pct s w * s.concurrency_ceiling ≤ concurrency s w * 100)
      × (concurrency s w * 100 < (occupancy_pct s w + 1) * s.concurrency_ceiling)
unfolding occupancy_pct
occupancy_pct_exact s w hc hp =
    ground (arith, concurrency-le s w, percent_bounds (concurrency s w) s.concurrency_ceiling)

-- For a u32 ceiling above 42949672, a full device is reported as less than 100 percent.
pub occupancy_pct_wraps :
    (s : Substrate) (w : WorkUnit)
    → 42949672 < s.concurrency_ceiling
    → s.concurrency_ceiling ≤ u32_max
    → concurrency s w ≡ s.concurrency_ceiling
    → occupancy_pct s w < 100
unfolding occupancy_pct
occupancy_pct_wraps s w hc hm full =
    ground
      (arith, div-lt_of_lt-mul (wrapping_mul s.concurrency_ceiling 100) s.concurrency_ceiling 100)
