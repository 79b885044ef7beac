-- ===== src/Core/Template.antt =====
-- `unrolled_registers`, `achievable_chains` and `OpTemplate` of src/lib.rs: the register budget
-- coupled to the latency model.
use native.Mathlib.Nat.{le_of_mul-le-mul_left, mul-le-mul_left}
use calx_mill.Base.{
  ℕ, ◌+◌, ◌-◌, ◌*◌, ◌/◌, ◌≤◌, ◌<◌, ◌≡◌, ◌≢◌, ◌↔◌, Bool, true, false, min, max, arith, leb, leb→le,
  u32_max, saturating_add, saturating_mul, saturating_sub, div-le-div, le-mul_of_pos,
}
use calx_mill.Core.Rounding.{ceil_div, ceil_div_iff_le}
use calx_mill.Core.Throughput.{Bottleneck, latency, Projection}
use calx_mill.Core.Latency.{
  chain_cycles, chain_utilization_pct, chain_cycles-latency_iff, chain_utilization_mono,
}

pub unrolled_registers : ℕ → ℕ → ℕ → ℕ
unrolled_registers base unroll per_iter_live =
    saturating_add base (saturating_mul unroll per_iter_live)

unfoldable pub achievable_chains : ℕ → ℕ → ℕ → ℕ
achievable_chains reg_budget base_registers regs_per_chain =
    saturating_sub reg_budget base_registers / max regs_per_chain 1

pub record OpTemplate : Type 0 where
  pub chains : ℕ
  pub depth : ℕ
  pub cyc_per_op : ℕ
  pub op_latency : ℕ

unfoldable pub cycles : OpTemplate → Projection
cycles t = chain_cycles t.chains t.depth t.cyc_per_op t.op_latency

pub utilization_pct : OpTemplate → ℕ
utilization_pct t = chain_utilization_pct t.chains t.depth t.cyc_per_op t.op_latency

is_latency : Bottleneck → Bool
is_latency latency = true
is_latency _ = false

pub latency_bound : OpTemplate → Bool
unfolding is_latency
latency_bound t = is_latency (cycles t).bottleneck

unfoldable pub chains_to_hide : OpTemplate → ℕ
chains_to_hide t = ceil_div t.op_latency (max t.cyc_per_op 1)

pub utilization_under_registers : OpTemplate → ℕ → ℕ → ℕ → ℕ
utilization_under_registers t reg_budget base_registers regs_per_chain =
    let ach = max (min (achievable_chains reg_budget base_registers regs_per_chain) t.chains) 1 in
    chain_utilization_pct ach t.depth t.cyc_per_op t.op_latency

unfoldable pub overlap_keeps_hidden : OpTemplate → ℕ → ℕ → ℕ → ℕ → Bool
overlap_keeps_hidden t reg_budget base_registers regs_per_chain spend =
    let ach = achievable_chains reg_budget (saturating_add base_registers spend) regs_per_chain in
    leb (chains_to_hide t) ach

latency_bound-eq : (t : OpTemplate) → (latency_bound t ≡ false) ↔ ((cycles t).bottleneck ≢ latency)
unfolding latency_bound
latency_bound-eq t = (ground arith, ground arith)

-- The template is hidden exactly when the saturated terms do not put the recurrence above.
hidden_iff :
    (t : OpTemplate)
    → (latency_bound t ≡ false)
      ↔ (min (t.depth * t.op_latency) u32_max ≤ min (t.chains * t.depth * t.cyc_per_op) u32_max)
unfolding cycles
hidden_iff t =
    let bound = chain_cycles-latency_iff t.chains t.depth t.cyc_per_op t.op_latency in
    let shown = latency_bound-eq t in
    let recurrence = min (t.depth * t.op_latency) u32_max in
    let throughput = min (t.chains * t.depth * t.cyc_per_op) u32_max in
    (
      λ e. omega (arith, λ (w : throughput < recurrence). shown.0 e (bound.1 w)),
      λ h. shown.1 (λ e. omega (arith, bound.0 e)),
    )

-- Latency against throughput, with the depth divided out.
module _ (c d r l : ℕ) where
  scaled-le : l ≤ c * r → d * l ≤ c * d * r
  scaled-le h = omega (arith, mul-le-mul_left d h)

  le-scaled : 0 < d → d * l ≤ c * d * r → l ≤ c * r
  le-scaled p h = le_of_mul-le-mul_left {k = d} (omega arith) p

hidden-of_threshold :
    (t : OpTemplate)
    → 0 < t.cyc_per_op
    → t.op_latency ≤ u32_max
    → chains_to_hide t ≤ t.chains
    → latency_bound t ≡ false
unfolding chains_to_hide
hidden-of_threshold t p h le =
    let enough : t.op_latency ≤ t.chains * t.cyc_per_op =
      let e : max t.cyc_per_op 1 ≡ t.cyc_per_op = omega arith in
      (ceil_div_iff_le t.op_latency t.cyc_per_op t.chains h p).0 (rw e at le) in
    (hidden_iff t).1 (omega (arith, scaled-le t.chains t.depth t.cyc_per_op t.op_latency enough))

-- Little's law: for a positive depth and issue time, and a recurrence that is a u32, the latency is
-- hidden exactly from `chains_to_hide` chains on.
pub latency_hidden_iff :
    (t : OpTemplate)
    → 0 < t.depth
    → 0 < t.cyc_per_op
    → t.depth * t.op_latency ≤ u32_max
    → (latency_bound t ≡ false) ↔ (chains_to_hide t ≤ t.chains)
unfolding chains_to_hide
latency_hidden_iff t dp rp h =
    let small : t.op_latency ≤ u32_max = omega (arith, le-mul_of_pos t.op_latency t.depth dp) in
    let e : max t.cyc_per_op 1 ≡ t.cyc_per_op = omega arith in
    (
      λ hidden. rw e (
          (ceil_div_iff_le t.op_latency t.cyc_per_op t.chains small rp).1 (
            le-scaled t.chains t.depth t.cyc_per_op t.op_latency dp
              (omega (arith, (hidden_iff t).0 hidden)))),
      hidden-of_threshold t rp small,
    )

-- The template as the register file sustains it.
abbrev pub sustained : OpTemplate → ℕ → ℕ → ℕ → OpTemplate
sustained t reg_budget base_registers regs_per_chain = record t {
  chains = achievable_chains reg_budget base_registers regs_per_chain;
}

-- For a positive issue time and a latency that is a u32, an overlap that is said to keep the latency
-- hidden does: what the registers sustain after the spend is not latency-bound.
pub overlap_keeps_hidden_sound :
    (t : OpTemplate) (budget base per_chain spend : ℕ)
    → 0 < t.cyc_per_op
    → t.op_latency ≤ u32_max
    → overlap_keeps_hidden t budget base per_chain spend ≡ true
    → latency_bound (sustained t budget (saturating_add base spend) per_chain) ≡ false
unfolding overlap_keeps_hidden chains_to_hide
overlap_keeps_hidden_sound t budget base per_chain spend p h e =
    hidden-of_threshold (sustained t budget (saturating_add base spend) per_chain) p h
      (leb→le _ _ e)

-- More registers held, or a smaller budget, never sustain more chains.
pub achievable_chains_mono :
    (budget budget' base base' per_chain : ℕ)
    → budget ≤ budget'
    → base' ≤ base
    → achievable_chains budget base per_chain ≤ achievable_chains budget' base' per_chain
unfolding achievable_chains
achievable_chains_mono budget budget' base base' per_chain h k =
    div-le-div (budget - base) (budget' - base') (max per_chain 1) (omega arith) (omega arith)

-- Spending registers never raises the utilization, and the register clamp itself never does if at
-- least one chain was asked for.
pub utilization_under_registers_mono :
    (t : OpTemplate) (budget base spend per_chain : ℕ)
    → 0 < t.chains
    → (utilization_under_registers t budget (base + spend) per_chain
        ≤ utilization_under_registers t budget base per_chain)
      × (utilization_under_registers t budget base per_chain ≤ utilization_pct t)
unfolding utilization_under_registers utilization_pct
utilization_under_registers_mono t budget base spend per_chain p =
    let fewer =
      achievable_chains_mono budget budget (base + spend) base per_chain (omega arith)
        (omega arith) in
    (
      chain_utilization_mono _ _ t.depth t.cyc_per_op t.op_latency (omega arith),
      chain_utilization_mono _ _ t.depth t.cyc_per_op t.op_latency (omega arith),
    )
