-- ===== src/Core/Latency.antt =====
-- `DepChain`, `project_latency`, `chain_cycles` and `chain_utilization_pct` of src/lib.rs: the
-- initiation-interval bound max(ResMII, RecMII).
use native.Mathlib.Nat.{mul-le-mul_right}
use calx_mill.Base.{
  ℕ, ◌*◌, ◌/◌, ◌%◌, ◌^◌, ◌≤◌, ◌<◌, ◌≡◌, ◌≢◌, ◌↔◌, min, max, arith, ltb, if◌then◌else◌, u32_max,
  saturating_mul, saturate-mul, percent_full, percent_mono, percent_bounds,
}
use calx_mill.Core.Throughput.{pipe, latency, Projection}

pub record DepChain : Type 0 where
  pub depth : ℕ
  pub op_latency : ℕ

unfoldable pub latency_floor : DepChain → ℕ
latency_floor c = saturating_mul c.depth c.op_latency

unfoldable pub project_latency : Projection → DepChain → Projection
unfolding latency_floor
project_latency throughput chain =
    let floor = latency_floor chain in
    if ltb throughput.cycles floor
    then record { cycles = floor; bottleneck = latency }
    else throughput

unfoldable pub chain_cycles : ℕ → ℕ → ℕ → ℕ → Projection
unfolding project_latency
chain_cycles chains depth cyc_per_op op_latency =
    let total_ops = saturating_mul chains depth in
    let throughput : Projection = record {
      cycles = saturating_mul total_ops cyc_per_op;
      bottleneck = pipe 0;
    } in
    project_latency throughput (record { depth = depth; op_latency = op_latency })

-- The product with 100 is a u64 product of a u32, so it does not overflow.
unfoldable pub chain_utilization_pct : ℕ → ℕ → ℕ → ℕ → ℕ
chain_utilization_pct chains depth cyc_per_op op_latency =
    let throughput = saturating_mul (saturating_mul chains depth) cyc_per_op in
    let mii = max (chain_cycles chains depth cyc_per_op op_latency).cycles 1 in
    (throughput * 100 / mii) % 2 ^ 32

-- The cycles are the larger of the two bounds, saturated; no intermediate saturation shows.
pub chain_cycles_exact :
    (chains depth cyc_per_op op_latency : ℕ)
    → (chain_cycles chains depth cyc_per_op op_latency).cycles
      ≡ min (max (chains * depth * cyc_per_op) (depth * op_latency)) u32_max
unfolding chain_cycles
chain_cycles_exact c d r l = ground (arith, saturate-mul (c * d) r)

-- The projection is latency-bound exactly when the saturated recurrence exceeds the saturated
-- resource term.
pub chain_cycles-latency_iff :
    (c d r l : ℕ)
    → ((chain_cycles c d r l).bottleneck ≡ latency)
      ↔ (min (c * d * r) u32_max < min (d * l) u32_max)
unfolding chain_cycles
chain_cycles-latency_iff c d r l = rw (saturate-mul (c * d) r) (ground arith, ground arith)

-- Utilization, with the saturations and the u32 cast resolved.
utilization_lem :
    (c d r l : ℕ)
    → let t = min (c * d * r) u32_max in
      chain_utilization_pct c d r l ≡ t * 100 / max t (max (min (d * l) u32_max) 1)
unfolding chain_utilization_pct
utilization_lem c d r l =
    let t = min (c * d * r) u32_max in
    let m = max t (max (min (d * l) u32_max) 1) in
    let e : max (min (max (c * d * r) (d * l)) u32_max) 1 ≡ m = omega arith in
    rw (saturate-mul (c * d) r, chain_cycles_exact, e)
      (omega (arith, percent_bounds t m (omega arith) (omega arith)))

-- Utilization is a percentage. It is 100 exactly when the chains hide the latency, unless the
-- resource term is 0.
pub chain_utilization_full_iff :
    (c d r l : ℕ)
    → 0 < c * d * r
    → (chain_utilization_pct c d r l ≤ 100)
      × ((chain_utilization_pct c d r l ≡ 100) ↔ ((chain_cycles c d r l).bottleneck ≢ latency))
chain_utilization_full_iff c d r l p =
    let t = min (c * d * r) u32_max in
    let m = max t (max (min (d * l) u32_max) 1) in
    let full = percent_full t m (omega arith) (omega arith) in
    let bound = chain_cycles-latency_iff c d r l in
    rw utilization_lem (
      (percent_bounds t m (omega arith) (omega arith)).0,
      (
        λ e b. omega (arith, full.0 e, bound.0 b),
        λ h. full.1 (omega (arith, λ (w : t < min (d * l) u32_max). h (bound.1 w))),
      ),
    )

-- More chains never lower the utilization.
pub chain_utilization_mono :
    (c c' d r l : ℕ) → c ≤ c' → chain_utilization_pct c d r l ≤ chain_utilization_pct c' d r l
chain_utilization_mono c c' d r l h =
    let wider = mul-le-mul_right r (mul-le-mul_right d h) in
    rw (utilization_lem c d r l, utilization_lem c' d r l)
      (percent_mono (min (c * d * r) u32_max) (min (c' * d * r) u32_max)
        (max (min (d * l) u32_max) 1) (omega arith) (omega arith))
