-- ===== src/Core/Composition.antt =====
-- `Lane`, `Phase` and `OpComposition` of src/lib.rs: phases in series, and two overlapped lanes.
use mathlib.Core.List.{foldl}
use calx_mill.Base.{
  ℕ, ◌+◌, ◌≤◌, ◌≡◌, refl, Bool, true, false, List, [], ◌∷◌, min, max, arith, if◌then◌else◌, u32_max,
  saturating_add, keep,
}
use calx_mill.Core.Template
use calx_mill.Core.Template.{OpTemplate}

pub data Lane : Type 0 where
  memory : Lane
  compute : Lane

pub record Phase : Type 0 where
  pub cycles : ℕ
  pub lane : Lane

-- `Phase::compute` and `Phase::memory`.
pub compute_phase : OpTemplate → Phase
compute_phase t = record { cycles = (Template.cycles t).cycles; lane = compute }

pub memory_phase : ℕ → Phase
memory_phase c = record { cycles = c; lane = memory }

same_lane : Lane → Lane → Bool
same_lane memory memory = true
same_lane compute compute = true
same_lane _ _ = false

pub serial_cycles : List Phase → ℕ
serial_cycles phases = foldl (λ acc p. saturating_add acc p.cycles) 0 phases

pub lane_cycles : List Phase → Lane → ℕ
unfolding same_lane
lane_cycles phases lane =
    foldl (λ acc p. saturating_add acc p.cycles) 0 (keep (λ p. same_lane p.lane lane) phases)

pub overlapped_cycles : List Phase → ℕ
overlapped_cycles phases = max (lane_cycles phases memory) (lane_cycles phases compute)

pub overlapped_if : List Phase → Bool → ℕ
overlapped_if phases creditable =
    if creditable then overlapped_cycles phases else serial_cycles phases

-- The plain sum of the costs, and of those on one lane.
pub total : List Phase → ℕ
total [] = 0
total (p ∷ phases) = p.cycles + total phases

-- A fold of saturating additions is the saturated sum.
foldl-saturating :
    (phases : List Phase) (acc : ℕ)
    → acc ≤ u32_max
    → foldl (λ (a : ℕ) (p : Phase). saturating_add a p.cycles) acc phases
      ≡ min (acc + total phases) u32_max
unfolding total
foldl-saturating [] acc h = omega arith
foldl-saturating (p ∷ phases) acc h =
    omega (arith, foldl-saturating phases (saturating_add acc p.cycles) (omega arith))

-- Every phase is on one of the two lanes.
total-lanes :
    (phases : List Phase)
    → total phases
      ≡ total (keep (λ p. same_lane p.lane memory) phases)
        + total (keep (λ p. same_lane p.lane compute) phases)
unfolding total same_lane
total-lanes [] = omega arith
total-lanes (p ∷ phases) = ground (arith, total-lanes phases)

-- In series the phases take the saturated sum of all their cycles, which is the saturated sum of the
-- two lanes. An overlap that is not creditable costs that, and one that is costs the larger lane,
-- which is never more.
pub overlapped_if_never_optimistic :
    (phases : List Phase)
    → (overlapped_if phases false ≡ min (total phases) u32_max)
      × (overlapped_if phases false
          ≡ saturating_add (lane_cycles phases memory) (lane_cycles phases compute))
      × (overlapped_if phases true ≡ max (lane_cycles phases memory) (lane_cycles phases compute))
      × (overlapped_if phases true ≤ overlapped_if phases false)
unfolding overlapped_if overlapped_cycles serial_cycles lane_cycles
overlapped_if_never_optimistic phases =
    let loads = keep (λ (p : Phase). same_lane p.lane memory) phases in
    let maths = keep (λ (p : Phase). same_lane p.lane compute) phases in
    let serial = foldl-saturating phases 0 (omega arith) in
    let load = foldl-saturating loads 0 (omega arith) in
    let math = foldl-saturating maths 0 (omega arith) in
    let split = total-lanes phases in (omega arith, omega arith, refl, omega arith)
