-- ===== src/Core/Mix.antt =====
-- `ResourceKind`, `SteadyState`, `mix_demands`, `select_bound` and `project_mix` of src/lib.rs: the
-- projection over fractional rates.
pub mod Bound
pub mod Additive
use mathlib.Core.List.{foldl}
use calx_mill.Base.{
  ℕ, zero, suc, ◌+◌, ◌≡◌, ◌⊎◌, inl, inr, refl, ap, ◌∙◌, Bool, true, false, not, Option, none, some,
  List, [], ◌∷◌, ◌++◌, arith, ◌==◌, if◌then◌else◌, All, Bool-cases,
}
use calx_mill.Base.Float.{Float, ◌≼◌, IsNum, NonNeg, IsOrdered}

pub data ResourceKind : Type 0 where
  pipe : ℕ → ResourceKind
  local_store_bw : ResourceKind
  memory_bw : ResourceKind
  issue : ResourceKind

-- The derived `==` of the enum.
abbrev pub same_kind : ResourceKind → ResourceKind → Bool
same_kind (pipe i) (pipe j) = i == j
same_kind local_store_bw local_store_bw = true
same_kind memory_bw memory_bw = true
same_kind issue issue = true
same_kind _ _ = false

abbrev pub Demands : Type 0 → Type 0
Demands F = List (ResourceKind × F)

pub record SteadyState (F : Type 0) : Type 0 where
  pub per_resource : Demands F
  pub ppm_cycles : F
  pub ppm_bound : ℕ
  pub add_cycles : F

module _ {F : Type 0} ⦃fl : Float F⦄ where
  open fl use {nought, add, mul, div, lt, eq}

  -- The loop over the pipes, from index `i` on.
  pipe_demands : F → ℕ → List F → Demands F
  pipe_demands concurrency i [] = []
  pipe_demands concurrency i (c ∷ cs) =
      (pipe i, mul concurrency c) ∷ pipe_demands concurrency (suc i) cs

  unfoldable pub mix_demands : F → List F → F → F → F → F → F → Demands F
  unfolding pipe_demands
  mix_demands concurrency pipe_cycles local_store_cycles mem_bytes mem_bytes_per_cycle total_ops
        cap =
      pipe_demands concurrency 0 pipe_cycles
      ++ (if not (eq local_store_cycles nought)
          then (local_store_bw, mul concurrency local_store_cycles) ∷ []
          else [])
      ++ (if not (eq mem_bytes nought)
          then (memory_bw, div (mul concurrency mem_bytes) mem_bytes_per_cycle) ∷ []
          else [])
      ++ (issue, div (mul concurrency total_ops) cap) ∷ []

  -- The scan from index `i` on: a strictly greater demand displaces the best so far.
  first_max : Demands F → ℕ → ℕ × F → ℕ × F
  first_max [] i best = best
  first_max ((kind, c) ∷ es) i (bound, top) =
      first_max es (suc i) (if lt top c then (i, c) else (bound, top))

  -- One round of the sum: the demand of the issue cap is set aside.
  add_up : F × Option F → ResourceKind × F → F × Option F
  add_up (sum, held) (kind, cycles) =
      if same_kind kind issue then (sum, some cycles) else (add sum cycles, held)

  unwrap_or : Option F → F → F
  unwrap_or none d = d
  unwrap_or (some x) d = x

  -- The sum if it is positive, else the demand that was set aside.
  additive : F × Option F → F
  unfolding unwrap_or
  additive (sum, held) = if lt nought sum then sum else unwrap_or held sum

  unfoldable pub select_bound : Demands F → SteadyState F
  unfolding first_max add_up additive
  select_bound [] = record {
    per_resource = [];
    ppm_cycles = nought;
    ppm_bound = 0;
    add_cycles = nought;
  }
  select_bound ((kind, c) ∷ es) =
      let (bound, top) = first_max es 1 (0, c) in
      record {
        per_resource = (kind, c) ∷ es;
        ppm_cycles = top;
        ppm_bound = bound;
        add_cycles = additive (foldl add_up (nought, none) ((kind, c) ∷ es));
      }

  unfoldable pub project_mix : F → List F → F → F → F → F → F → SteadyState F
  project_mix concurrency pipe_cycles local_store_cycles mem_bytes mem_bytes_per_cycle total_ops
        cap =
      select_bound (
        mix_demands concurrency pipe_cycles local_store_cycles mem_bytes mem_bytes_per_cycle
          total_ops cap)
