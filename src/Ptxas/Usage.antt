-- ===== src/Ptxas/Usage.antt =====
-- `KernelUsage` of src/nvidia/ptxas.rs and its demand on the SM of the TU102.
use native.Mathlib.Nat.{le_refl, mul_assoc, mul_comm}
use calx_mill.Base.{
  ℕ, ◌≡◌, ◌*◌, ◌≤◌, Option, none, some, inl, List, arith, max, sym, ap, ◌∙◌, u32_max, wrapping_mul,
}
use calx_mill.Base.Text.{Text}
use calx_mill.Core.Rounding.{ceil_div, round_up, ceil_div_iff_le}
use calx_mill.Core.Occupancy.{Substrate, WorkUnit, concurrency, concurrency_iff_le}
use calx_mill.Core.Block.{Block, InRange, blocks_per_instance, blocks_per_instance_iff_le}

pub record KernelUsage : Type 0 where
  pub name : Text
  pub arch : Text
  pub registers : ℕ
  pub barriers : ℕ
  pub smem_bytes : ℕ
  pub cmem_bytes : List (ℕ × ℕ)
  pub lmem_bytes : ℕ
  pub stack_frame : ℕ
  pub spill_stores : ℕ
  pub spill_loads : ℕ

-- The SM of the TU102.
abbrev pub tu102_sm : Substrate
tu102_sm = record {
  register_capacity = 65536;
  register_granularity = 256;
  local_store_bytes = 65536;
  local_store_granularity = 128;
  concurrency_ceiling = 32;
  issue_cap = 4;
  mem_bandwidth = 64;
}

abbrev pub tu102_sms : ℕ
tu102_sms = 72

-- The warps of a block.
abbrev pub warps : ℕ → ℕ
warps block_threads = max (ceil_div (max block_threads 1) 32) 1

unfoldable pub work_unit : KernelUsage → ℕ → WorkUnit
work_unit usage block_threads = record {
  registers = wrapping_mul usage.registers 32;
  local_store_bytes = ceil_div usage.smem_bytes (warps block_threads);
}

or_static : Option ℕ → ℕ → ℕ
or_static none static = static
or_static (some n) static = n

unfoldable pub block : KernelUsage → ℕ → Option ℕ → Block
unfolding or_static
block usage block_threads smem_bytes = record {
  units = warps block_threads;
  unit_registers = wrapping_mul usage.registers 32;
  local_store_bytes = or_static smem_bytes usage.smem_bytes;
}

regroup : (n r u : ℕ) → n * (r * u) ≡ n * u * r
regroup n r u = ap (λ m. n * m) (mul_comm r u) ∙ sym (mul_assoc n u r)

no_share :
    (usage : KernelUsage) (block_threads : ℕ)
    → usage.smem_bytes ≡ 0
    → (work_unit usage block_threads).local_store_bytes ≡ 0
unfolding work_unit
no_share usage block_threads e = rw e (
    omega (
      arith,
      (ceil_div_iff_le 0 (warps block_threads) 0 (omega arith) (omega arith)).1 (omega arith),
    ))

register_range : (usage : KernelUsage) → wrapping_mul usage.registers 32 ≤ u32_max
register_range usage = omega arith

-- For a kernel that uses no shared memory, the warps of all the blocks that the block form fits on an
-- SM are no more than the warps that the per-warp form fits.
pub blocks-warps :
    (usage : KernelUsage) (block_threads : ℕ)
    → usage.smem_bytes ≡ 0
    → blocks_per_instance tu102_sm (block usage block_threads none) * warps block_threads
      ≤ concurrency tu102_sm (work_unit usage block_threads)
unfolding block work_unit
blocks-warps usage block_threads none_used =
    let b = block usage block_threads none in
    let w = work_unit usage block_threads in
    let n = blocks_per_instance tu102_sm b in
    let range : InRange tu102_sm b = record {
      registers_range = register_range usage;
      store_range = omega (arith, none_used);
      ceiling_range = omega arith;
      capacity_range = omega arith;
    } in
    let share = no_share usage block_threads none_used in
    let fit = (blocks_per_instance_iff_le tu102_sm b n range).0 (le_refl n) in
    (concurrency_iff_le tu102_sm w (n * warps block_threads) (register_range usage)
        (omega (arith, share))).1
      (record {
        slots = fit.slots;
        registers_fit = omega (
          arith,
          fit.registers_fit,
          regroup n (round_up (max w.registers 1) 256) (warps block_threads),
        );
        store_fits = inl share;
      })
