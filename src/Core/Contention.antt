-- ===== src/Core/Contention.antt =====
-- `merge_demands` and `overlapped_contended` of src/lib.rs: two overlapped lanes that share
-- resources.
pub mod Bracket
use mathlib.Core.List.{foldl}
use calx_mill.Base.{Bool, List, [], ◌∷◌, if◌then◌else◌}
use calx_mill.Base.Float.{Float}
use calx_mill.Core.Mix.{ResourceKind, same_kind, Demands, select_bound}

module _ {F : Type 0} ⦃fl : Float F⦄ where
  open fl use {add}

  -- The first entry of the kind grows, or the demand becomes a new last entry.
  add_demand : Demands F → ResourceKind × F → Demands F
  add_demand [] (kind, c) = (kind, c) ∷ []
  add_demand ((k, e) ∷ out) (kind, c) =
      if same_kind k kind then (k, add e c) ∷ out else (k, e) ∷ add_demand out (kind, c)

  pub merge_demands : Demands F → Demands F → Demands F
  unfolding add_demand
  merge_demands a b = foldl add_demand a b

  pub overlapped_contended : Demands F → Demands F → F
  overlapped_contended mem_lane compute_lane =
      (select_bound (merge_demands mem_lane compute_lane)).ppm_cycles
