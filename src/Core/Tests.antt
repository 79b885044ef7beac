-- ===== src/Core/Tests.antt =====
-- The theorems about src/lib.rs at concrete data.
use calx_mill.Base.{
  ℕ, ◌*◌, ◌≤◌, ◌<◌, ◌≡◌, ◌↔◌, refl, true, false, max, min, List, [], ◌∷◌, arith, u32_max,
  saturating_add, some,
}
use calx_mill.Base.Float.{◌≼◌, Sample, sample_float, Sample-IsOrdered}
use calx_mill.Core.Rounding.{round_up, ceil_div, round_up_bounds}
use calx_mill.Core.Occupancy.{
  Substrate, WorkUnit, concurrency, occupancy_pct, Fits, Lighter, concurrency_iff_le,
  concurrency_mono, occupancy_pct_wraps,
}
use calx_mill.Core.Block.{
  Block, blocks_per_instance, cooperative_fits, BlocksFit, InRange, blocks_per_instance_iff_le,
  cooperative_fits_iff,
}
use calx_mill.Core.Precision.{Precision, Narrower}
use calx_mill.Core.Throughput.{Bottleneck, project, demand, project_is_max}
use calx_mill.Core.Template.{
  OpTemplate, achievable_chains, latency_bound, chains_to_hide, sustained, overlap_keeps_hidden,
  overlap_keeps_hidden_sound, achievable_chains_mono,
}
use calx_mill.Core.Composition.{
  Phase, memory, compute, overlapped_if, lane_cycles, total, overlapped_if_never_optimistic,
}
use calx_mill.Core.Mix.{pipe, memory_bw, issue, Demands, select_bound}
use calx_mill.Core.Mix.Bound.{Within, FirstMax, select_bound-FirstMax}
use calx_mill.Core.Contention.{overlapped_contended}
use calx_mill.Core.Contention.Bracket.{ppm, contention_at_most_serial}

abbrev chip : Substrate
chip = record {
  register_capacity = 65536;
  register_granularity = 256;
  local_store_bytes = 65536;
  local_store_granularity = 256;
  concurrency_ceiling = 32;
  issue_cap = 4;
  mem_bandwidth = 8;
}

-- A device with more slots than a u32 percentage can count.
abbrev vast : Substrate
vast = record chip {
  concurrency_ceiling = 42949673;
  register_capacity = 4294967295;
  register_granularity = 1;
}

abbrev heavy : WorkUnit
heavy = record { registers = 8000; local_store_bytes = 5000 }

abbrev light : WorkUnit
light = record { registers = 32; local_store_bytes = 0 }

abbrev tile : Block
tile = record { units = 4; unit_registers = 2048; local_store_bytes = 9000 }

abbrev chain_op : OpTemplate
chain_op = record { chains = 8; depth = 100; cyc_per_op = 2; op_latency = 12 }

abbrev half : Precision
half = record { acc_bytes = 2; data_bytes = 2; pipe = 1 }

abbrev full : Precision
full = record { acc_bytes = 4; data_bytes = 4; pipe = 0 }

round_up_bounds_example : (5000 ≤ round_up 5000 256) × (round_up 5000 256 ≤ u32_max)
round_up_bounds_example = round_up_bounds 5000 256 (omega arith)

concurrency_iff_le_example : (8 ≤ concurrency chip heavy) ↔ Fits chip heavy 8
concurrency_iff_le_example = concurrency_iff_le chip heavy 8 (omega arith) (omega arith)

light-Lighter : Lighter light heavy
light-Lighter = record { registers_le = omega arith; store_le = omega arith }

concurrency_mono_example : concurrency chip heavy ≤ concurrency chip light
concurrency_mono_example =
    concurrency_mono chip light heavy (omega arith) (omega arith) light-Lighter

vast-full : concurrency vast light ≡ 42949673
unfolding concurrency round_up
vast-full = refl

occupancy_pct_wraps_example : occupancy_pct vast light < 100
occupancy_pct_wraps_example = occupancy_pct_wraps vast light (omega arith) (omega arith) vast-full

tile-InRange : InRange chip tile
tile-InRange = record {
  registers_range = omega arith;
  store_range = omega arith;
  ceiling_range = omega arith;
  capacity_range = omega arith;
}

blocks_per_instance_iff_le_example : (7 ≤ blocks_per_instance chip tile) ↔ BlocksFit chip tile 7
blocks_per_instance_iff_le_example = blocks_per_instance_iff_le chip tile 7 tile-InRange

cooperative_fits_iff_example :
    (cooperative_fits chip tile 500 72 ≡ true) ↔ ((n : ℕ) × BlocksFit chip tile n × (500 ≤ n * 72))
cooperative_fits_iff_example = cooperative_fits_iff chip tile 500 72 tile-InRange (omega arith)

half-Narrower : Narrower half full
half-Narrower = record { acc_le = omega arith; data_le = omega arith }

project_is_max_example :
    let p = project chip (32 ∷ 16 ∷ []) (640 ∷ 400 ∷ []) 100 in
    (p.cycles ≡ demand chip (32 ∷ 16 ∷ []) (640 ∷ 400 ∷ []) 100 p.bottleneck)
    × ((r : Bottleneck) → demand chip (32 ∷ 16 ∷ []) (640 ∷ 400 ∷ []) 100 r ≤ p.cycles)
project_is_max_example = project_is_max chip (32 ∷ 16 ∷ []) (640 ∷ 400 ∷ []) 100

chain_op-kept : overlap_keeps_hidden chain_op 255 40 16 32 ≡ true
unfolding overlap_keeps_hidden chains_to_hide achievable_chains ceil_div
chain_op-kept = refl

overlap_keeps_hidden_sound_example :
    latency_bound (sustained chain_op 255 (saturating_add 40 32) 16) ≡ false
overlap_keeps_hidden_sound_example =
    overlap_keeps_hidden_sound chain_op 255 40 16 32 (omega arith) (omega arith) chain_op-kept

achievable_chains_mono_example : achievable_chains 128 60 16 ≤ achievable_chains 255 40 16
achievable_chains_mono_example = achievable_chains_mono 128 255 60 40 16 (omega arith) (omega arith)

abbrev two_phases : List Phase
two_phases = record { cycles = 70; lane = memory } ∷ record { cycles = 50; lane = compute } ∷ []

overlapped_if_never_optimistic_example :
    (overlapped_if two_phases false ≡ min (total two_phases) u32_max)
    × (overlapped_if two_phases false
        ≡ saturating_add (lane_cycles two_phases memory) (lane_cycles two_phases compute))
    × (overlapped_if two_phases true
        ≡ max (lane_cycles two_phases memory) (lane_cycles two_phases compute))
    × (overlapped_if two_phases true ≤ overlapped_if two_phases false)
overlapped_if_never_optimistic_example = overlapped_if_never_optimistic two_phases

abbrev lane_a : Demands Sample
lane_a = (pipe 0, some 3) ∷ (memory_bw, some 9) ∷ []

abbrev lane_b : Demands Sample
lane_b = (pipe 0, some 5) ∷ (issue, some 4) ∷ []

select_bound-FirstMax_example :
    Within (select_bound lane_a).ppm_cycles lane_a
    × FirstMax lane_a (select_bound lane_a).ppm_bound (select_bound lane_a).ppm_cycles
select_bound-FirstMax_example =
    select_bound-FirstMax Sample-IsOrdered (pipe 0, some 3) ((memory_bw, some 9) ∷ [])
      (refl, (refl, tt))

abbrev pipe_costs : List Sample
pipe_costs = some 2 ∷ some 3 ∷ []

contention_at_most_serial_example :
    overlapped_contended lane_a lane_b ≼ sample_float.add (ppm lane_a) (ppm lane_b)
contention_at_most_serial_example =
    contention_at_most_serial Sample-IsOrdered lane_a lane_b (refl, (refl, tt)) (refl, (refl, tt))
      (refl, (refl, tt))
