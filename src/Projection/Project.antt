-- ===== src/Projection/Project.antt =====
-- `project` of src/nvidia/projection.rs: a census projected over the measured rates.
use calx_mill.Base.{ℕ, Option, none, some, inr, List, [], ◌∷◌, ◌++◌, map, if◌then◌else◌, get_elem?}
use calx_mill.Base.Result.{◌>>=◌, ok_or}
use calx_mill.Base.Text.{Text, codes, text_eq}
use calx_mill.Base.Float.{Float}
use calx_mill.Core.Mix.{
  ResourceKind, pipe, local_store_bw, memory_bw, issue, SteadyState, project_mix,
}
use calx_mill.Projection.Census.{Census}
use calx_mill.Projection.Rates.{RateRow, Rates, get}
use calx_mill.Projection.Demand.{bad_rate, Demand}
use calx_mill.Projection.Fold.{Projected, project_ops}

pub data MemClass : Type 0 where
  no_memory : MemClass
  dram : MemClass
  l1 : MemClass

unfoldable pub parse_mem_class : Text → Option MemClass
parse_mem_class s =
    if text_eq s (codes "none")
    then some no_memory
    else if text_eq s (codes "dram")
    then some dram
    else if text_eq s (codes "l1")
    then some l1
    else none

-- The resource that a demand is of, with a pipe's name.
pub data Resource : Type 0 where
  named_pipe : Text → Resource
  smem mem issue_cap : Resource

pub record ProjectResult (F : Type 0) : Type 0 where
  pub ppm_cycles : F
  pub ppm_bound : Resource
  pub add_cycles : F
  pub per_resource : List (Resource × F)
  pub defaulted : List Text

name_at : List Text → ℕ → Text
name_at names i = elim (get_elem? names i) [ some name ↦ name | none ↦ [] ]

resource : List Text → ResourceKind → Resource
unfolding name_at
resource names (pipe i) = named_pipe (name_at names i)
resource names local_store_bw = smem
resource names memory_bw = mem
resource names issue = issue_cap

module _ {F : Type 0} ⦃fl : Float F⦄ where
  open fl use {nought, of_ℕ, eq}

  unfoldable pub no_demand : Demand F
  no_demand = record { pipes = []; smem = nought; bytes = nought; insts = 0; defaulted = [] }

  unfoldable pub l1_row : Option RateRow → List Text → Projected (F × List Text)
  l1_row none defaulted = inr (of_ℕ 32, defaulted ++ codes "mem.l1.bw(default32)" ∷ [])
  l1_row (some r) defaulted = do x ← ok_or (fl.parse r.value) (bad_rate r.value); inr (x, defaulted)

  -- The bytes per cycle of the L1, with the name of the default where there is no row.
  unfoldable pub l1_budget : Rates → List Text → Projected (F × List Text)
  l1_budget rates defaulted = l1_row (get rates (codes "mem.l1.bw")) defaulted

  unfoldable pub class_budget : MemClass → F → Rates → List Text → Projected (F × List Text)
  class_budget dram dram_budget rates defaulted = inr (dram_budget, defaulted)
  class_budget no_memory dram_budget rates defaulted = l1_budget rates defaulted
  class_budget l1 dram_budget rates defaulted = l1_budget rates defaulted

  -- The budget is looked up only where there is memory traffic.
  unfoldable pub budget_of : MemClass → F → Rates → Demand F → Projected (F × List Text)
  unfolding class_budget
  budget_of mem_class dram_budget rates d =
      if eq d.bytes nought
      then inr (of_ℕ 1, d.defaulted)
      else class_budget mem_class dram_budget rates d.defaulted

  -- The kind of the demand that binds. The list is never empty.
  bound_kind : List (ResourceKind × F) → ℕ → ResourceKind
  bound_kind demands i = elim (get_elem? demands i) [ some e ↦ e.0 | none ↦ issue ]

  unfoldable pub named : Demand F → List Text → SteadyState F → ProjectResult F
  unfolding resource bound_kind
  named d defaulted ss =
      let names = map (λ (p : Text × F). p.0) d.pipes in
      record {
        ppm_cycles = ss.ppm_cycles;
        ppm_bound = resource names (bound_kind ss.per_resource ss.ppm_bound);
        add_cycles = ss.add_cycles;
        per_resource = map (λ (e : ResourceKind × F). (resource names e.0, e.1)) ss.per_resource;
        defaulted = defaulted;
      }

  unfoldable pub project : Census → F → MemClass → Rates → F → Projected (ProjectResult F)
  unfolding no_demand budget_of named
  project census warps mem_class rates dram_budget = do
    d ← project_ops rates census no_demand
    budget ← budget_of mem_class dram_budget rates d
    inr (
        named d budget.1 (
          project_mix warps (map (λ (p : Text × F). p.1) d.pipes) d.smem d.bytes budget.0
            (of_ℕ d.insts) (of_ℕ 4)))
