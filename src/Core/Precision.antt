-- ===== src/Core/Precision.antt =====
-- `Precision`, `stream_bytes` and `acc_registers` of src/lib.rs.
use native.Mathlib.Nat.{mul-le-mul_left}
use calx_mill.Base.{ℕ, ◌≤◌, arith, u32_max, saturating_add, saturating_mul}
use calx_mill.Core.Rounding.{ceil_div, ceil_div_mono}
use calx_mill.Core.Occupancy.{Substrate, WorkUnit, concurrency, concurrency_mono}

pub record Precision : Type 0 where
  pub acc_bytes : ℕ
  pub data_bytes : ℕ
  pub pipe : ℕ

pub stream_bytes : ℕ → Precision → ℕ
stream_bytes elems p = saturating_mul elems p.data_bytes

pub acc_registers : ℕ → ℕ → Precision → ℕ
acc_registers base_registers acc_elems p =
    let acc_regs = ceil_div (saturating_mul acc_elems p.acc_bytes) 4 in
    saturating_add base_registers acc_regs

-- `p` is at most as wide as `q`, in its accumulator and in its data.
pub record Narrower (p q : Precision) : Type 0 where
  pub acc_le : p.acc_bytes ≤ q.acc_bytes
  pub data_le : p.data_bytes ≤ q.data_bytes

acc_registers_mono :
    (base elems : ℕ) (p q : Precision)
    → Narrower p q
    → acc_registers base elems p ≤ acc_registers base elems q
unfolding acc_registers
acc_registers_mono base elems p q n =
    let wide = mul-le-mul_left elems n.acc_le in
    omega (
      arith,
      ceil_div_mono (saturating_mul elems p.acc_bytes) (saturating_mul elems q.acc_bytes) 4
          (omega arith) (omega arith),
    )

acc_registers-le : (base elems : ℕ) (p : Precision) → acc_registers base elems p ≤ u32_max
unfolding acc_registers
acc_registers-le base elems p = omega arith

stream_bytes_mono :
    (elems : ℕ) (p q : Precision) → Narrower p q → stream_bytes elems p ≤ stream_bytes elems q
unfolding stream_bytes
stream_bytes_mono elems p q n = omega (arith, mul-le-mul_left elems n.data_le)

stream_bytes-le : (elems : ℕ) (p : Precision) → stream_bytes elems p ≤ u32_max
unfolding stream_bytes
stream_bytes-le elems p = omega arith

-- A unit whose registers are those of an accumulator at a precision.
abbrev pub accumulating : ℕ → ℕ → ℕ → Precision → WorkUnit
accumulating base elems store p = record {
  registers = acc_registers base elems p;
  local_store_bytes = store;
}

-- For a local store demand in range, a narrower precision runs at least as many units at once, and
-- the memory time of its stream is at most that of the wider one.
pub precision_tradeoff :
    (s : Substrate) (base elems store streamed : ℕ) (p q : Precision)
    → store ≤ u32_max
    → Narrower p q
    → (concurrency s (accumulating base elems store q)
        ≤ concurrency s (accumulating base elems store p))
      × (ceil_div (stream_bytes streamed p) s.mem_bandwidth
          ≤ ceil_div (stream_bytes streamed q) s.mem_bandwidth)
precision_tradeoff s base elems store streamed p q h n = (
  concurrency_mono s (accumulating base elems store p) (accumulating base elems store q)
      (acc_registers-le base elems q) h
      (record { registers_le = acc_registers_mono base elems p q n; store_le = omega arith }),
  ceil_div_mono _ _ s.mem_bandwidth (stream_bytes_mono streamed p q n) (stream_bytes-le streamed q),
)
