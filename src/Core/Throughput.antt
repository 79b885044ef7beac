-- ===== src/Core/Throughput.antt =====
-- `Bottleneck`, `Projection` and `project` of src/lib.rs: the per-pipe-max projection.
use native.Mathlib.Nat.{zero-add, add-suc, suc-add, add-zero}
use mathlib.Core.Option.{some-injective}
use mathlib.Core.List.{foldl}
use calx_mill.Base.{
  ℕ, zero, suc, ◌+◌, ◌≤◌, ◌<◌, ◌≡◌, ◌⊎◌, inl, inr, refl, ◌&&◌, Option, some, none, List, [], ◌∷◌,
  max, arith, ltb, leb, if◌then◌else◌, get_elem?, get_or, saturating_add, Option-cases, ap, ◌∙◌,
}
use calx_mill.Core.Rounding.{ceil_div}
use calx_mill.Core.Occupancy.{Substrate}

pub data Bottleneck : Type 0 where
  pipe : ℕ → Bottleneck
  issue_cap : Bottleneck
  memory : Bottleneck
  latency : Bottleneck

pub record Projection : Type 0 where
  pub cycles : ℕ
  pub bottleneck : Bottleneck

-- Cycles that pipe `i` needs at issue rate `rate`. A rate of 0 counts as 1, and a pipe beyond the
-- op counts has no ops.
pub pipe_cycles : List ℕ → ℕ → ℕ → ℕ
pipe_cycles ops_per_pipe i rate = ceil_div (get_or ops_per_pipe i 0) (max rate 1)

-- One round of the loop over the pipes: a strictly larger demand is the new best.
busier : List ℕ → ℕ → ℕ → ℕ × ℕ → ℕ × ℕ
busier ops i rate (cyc_pipe, bind) =
    let c = pipe_cycles ops i rate in if ltb cyc_pipe c then (c, i) else (cyc_pipe, bind)

-- The loop from index `i` on: the largest demand so far and its pipe.
busiest : List ℕ → List ℕ → ℕ → ℕ × ℕ → ℕ × ℕ
unfolding busier
busiest [] ops i best = best
busiest (rate ∷ rates) ops i best = busiest rates ops (suc i) (busier ops i rate best)

-- The comparison of the three terms that ends `project`.
bind_term : ℕ → ℕ → ℕ → ℕ → Projection
bind_term cyc_pipe bind cyc_issue cyc_mem =
    if leb cyc_pipe cyc_mem && leb cyc_issue cyc_mem
    then record { cycles = cyc_mem; bottleneck = memory }
    else if leb cyc_pipe cyc_issue
    then record { cycles = cyc_issue; bottleneck = issue_cap }
    else record { cycles = cyc_pipe; bottleneck = pipe bind }

pub project : Substrate → List ℕ → List ℕ → ℕ → Projection
project s pipe_rates ops_per_pipe total_bytes =
    let (cyc_pipe, bind) = busiest pipe_rates ops_per_pipe 0 (0, 0) in
    let total_ops = foldl saturating_add 0 ops_per_pipe in
    let cyc_issue = ceil_div total_ops (max s.issue_cap 1) in
    let cyc_mem = ceil_div total_bytes s.mem_bandwidth in bind_term cyc_pipe bind cyc_issue cyc_mem

demand_at : List ℕ → ℕ → Option ℕ → ℕ
demand_at ops i none = 0
demand_at ops i (some rate) = ceil_div (get_or ops i 0) (max rate 1)

-- What each resource alone demands.
pub demand : Substrate → List ℕ → List ℕ → ℕ → Bottleneck → ℕ
unfolding demand_at
demand s rates ops bytes (pipe i) = demand_at ops i (get_elem? rates i)
demand s rates ops bytes issue_cap = ceil_div (foldl saturating_add 0 ops) (max s.issue_cap 1)
demand s rates ops bytes memory = ceil_div bytes s.mem_bandwidth
demand s rates ops bytes latency = 0

busier-ge :
    (ops : List ℕ) (i rate : ℕ) (best : ℕ × ℕ)
    → (best.0 ≤ (busier ops i rate best).0) × (pipe_cycles ops i rate ≤ (busier ops i rate best).0)
unfolding busier
busier-ge ops i rate (c, b) = ground arith

busier-cases :
    (ops : List ℕ) (i rate : ℕ) (best : ℕ × ℕ)
    → (busier ops i rate best ≡ best) ⊎ (busier ops i rate best ≡ (pipe_cycles ops i rate, i))
unfolding busier
busier-cases ops i rate (c, b) = ground arith

-- A later pipe only replaces the best so far by a larger demand.
busiest-ge : (rates ops : List ℕ) (i : ℕ) (best : ℕ × ℕ) → best.0 ≤ (busiest rates ops i best).0
unfolding busiest
busiest-ge [] ops i best = omega arith
busiest-ge (r ∷ rates) ops i best =
    omega (arith, busier-ge ops i r best, busiest-ge rates ops (suc i) (busier ops i r best))

busiest-covers :
    (rates ops : List ℕ) (i j : ℕ) (best : ℕ × ℕ) (rate : ℕ)
    → get_elem? rates j ≡ some rate
    → pipe_cycles ops (j + i) rate ≤ (busiest rates ops i best).0
unfolding busiest
busiest-covers [] ops i j best rate e = cc
busiest-covers (r ∷ rates) ops i zero best rate e =
    rw (zero-add i, ← some-injective _ _ e)
      (omega (arith, busier-ge ops i r best, busiest-ge rates ops (suc i) (busier ops i r best)))
busiest-covers (r ∷ rates) ops i (suc j) best rate e =
    rw suc-add
      (rw (← add-suc j i) (busiest-covers rates ops (suc i) j (busier ops i r best) rate e))

-- The pair is the demand of some pipe, and that pipe.
abbrev Found : List ℕ → List ℕ → ℕ → ℕ × ℕ → Type 0
Found rates ops i w =
    (j : ℕ) × (rate : ℕ) × (get_elem? rates j ≡ some rate)
    × (w ≡ (pipe_cycles ops (j + i) rate, j + i))

Found-suc :
    (r : ℕ) (rates ops : List ℕ) (i : ℕ) (w : ℕ × ℕ)
    → Found rates ops (suc i) w
    → Found (r ∷ rates) ops i w
Found-suc r rates ops i w (j, rate, e, f) = (suc j, rate, e, rw suc-add (rw (← add-suc j i) f))

busiest-Found :
    (rates ops : List ℕ) (i : ℕ) (best : ℕ × ℕ)
    → (busiest rates ops i best ≡ best) ⊎ Found rates ops i (busiest rates ops i best)
unfolding busiest
busiest-Found [] ops i best = inl refl
busiest-Found (r ∷ rates) ops i best =
    elim (busiest-Found rates ops (suc i) (busier ops i r best)) [
      | inl same ↦ elim (busier-cases ops i r best) [
        | inl e ↦ inl (same ∙ e)
        | inr e ↦ inr (zero, r, refl, rw zero-add (same ∙ e))
      ]
      | inr found ↦ inr (Found-suc r rates ops i _ found)
    ]

-- The result of the whole loop: no pipe demands more, and if it is not 0 it is the demand of the
-- pipe that it names.
busiest-demand :
    (s : Substrate) (rates ops : List ℕ) (bytes : ℕ)
    → let w = busiest rates ops 0 (0, 0) in
      (0 < w.0 → w.0 ≡ demand s rates ops bytes (pipe w.1))
      × ((i : ℕ) → demand s rates ops bytes (pipe i) ≤ w.0)
unfolding demand pipe_cycles ceil_div
busiest-demand s rates ops bytes = (
  λ p. elim (busiest-Found rates ops 0 (0, 0)) [
    | inl same ↦ absurd (omega (arith, ap (λ (w : ℕ × ℕ). w.0) same))
    | inr (j, rate, e, f) ↦ rw f (rw add-zero (rw e))
  ],
  λ i. elim (Option-cases (get_elem? rates i)) [
    | inl e ↦ rw e (omega arith)
    | inr (rate, e) ↦ rw e (rw (← add-zero i) (busiest-covers rates ops 0 i (0, 0) rate e))
  ],
)

-- `bind_term` takes the largest of its terms and names it; a pipe is named only above both others.
bind_term_max :
    (cyc_pipe bind cyc_issue cyc_mem : ℕ)
    → let p = bind_term cyc_pipe bind cyc_issue cyc_mem in
      (cyc_pipe ≤ p.cycles)
      × (cyc_issue ≤ p.cycles)
      × (cyc_mem ≤ p.cycles)
      × ((p ≡ record { cycles = cyc_mem; bottleneck = memory })
          ⊎ (p ≡ record { cycles = cyc_issue; bottleneck = issue_cap })
          ⊎ ((p ≡ record { cycles = cyc_pipe; bottleneck = pipe bind }) × (0 < cyc_pipe)))
unfolding bind_term
bind_term_max cp b ci cm = ground arith

module _ (s : Substrate) (rates ops : List ℕ) (bytes : ℕ) where
  project-terms :
      ((busiest rates ops 0 (0, 0)).0 ≤ (project s rates ops bytes).cycles)
      × (demand s rates ops bytes issue_cap ≤ (project s rates ops bytes).cycles)
      × (demand s rates ops bytes memory ≤ (project s rates ops bytes).cycles)
  unfolding project demand
  project-terms =
      let (cyc_pipe, bind) = busiest rates ops 0 (0, 0) in
      let cyc_issue = ceil_div (foldl saturating_add 0 ops) (max s.issue_cap 1) in
      let b = bind_term_max cyc_pipe bind cyc_issue (ceil_div bytes s.mem_bandwidth) in
      (b.0, b.1, b.2)

  project-covers :
      (r : Bottleneck) → demand s rates ops bytes r ≤ (project s rates ops bytes).cycles
  project-covers (pipe i) = omega (arith, project-terms, (busiest-demand s rates ops bytes).1 i)
  project-covers issue_cap = project-terms.1
  project-covers memory = project-terms.2
  project-covers latency = unfold demand in omega arith

-- The projected cycles are the demand of the named bottleneck, and no resource demands more.
pub project_is_max :
    (s : Substrate) (rates ops : List ℕ) (bytes : ℕ)
    → let p = project s rates ops bytes in
      (p.cycles ≡ demand s rates ops bytes p.bottleneck)
      × ((r : Bottleneck) → demand s rates ops bytes r ≤ p.cycles)
unfolding project demand
project_is_max s rates ops bytes =
    let (cyc_pipe, bind) = busiest rates ops 0 (0, 0) in
    let (attained, _) = busiest-demand s rates ops bytes in
    let cyc_issue = ceil_div (foldl saturating_add 0 ops) (max s.issue_cap 1) in
    let cyc_mem = ceil_div bytes s.mem_bandwidth in
    (
      ground (arith, bind_term_max cyc_pipe bind cyc_issue cyc_mem),
      project-covers s rates ops bytes,
    )
