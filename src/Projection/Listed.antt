-- ===== src/Projection/Listed.antt =====
-- `report` of src/nvidia/projection.rs, less its padding: the demands by size and the defaulted rates
-- by name. It panics where a NaN is compared.
use calx_mill.Base.{Option, none, some, List, [], ◌∷◌, all, if◌then◌else◌}
use calx_mill.Base.Text.{Text}
use calx_mill.Base.Float.{Float}
use calx_mill.Base.Sort.{sort_by, text_leb, dedup}
use calx_mill.Projection.Project.{Resource, ProjectResult}

pub record ProjectReport (F : Type 0) : Type 0 where
  pub ppm : F
  pub bound : Resource
  pub summed : F
  pub demands : List (Resource × F)
  pub missing : List Text

module _ {F : Type 0} ⦃fl : Float F⦄ where
  -- Sorting compares every item where there are two.
  unfoldable pub by_demand : List (Resource × F) → Option (List (Resource × F))
  by_demand [] = some []
  by_demand (x ∷ []) = some (x ∷ [])
  by_demand (x ∷ y ∷ items) =
      if all (λ item. fl.le item.1 item.1) (x ∷ y ∷ items)
      then some (sort_by (λ a b. fl.le b.1 a.1) (x ∷ y ∷ items))
      else none

  unfoldable pub report : ProjectResult F → Option (ProjectReport F)
  report r = elim (by_demand r.per_resource) [
    | none ↦ none
    | some items ↦ some (record {
      ppm = r.ppm_cycles;
      bound = r.ppm_bound;
      summed = r.add_cycles;
      demands = items;
      missing = dedup (sort_by text_leb r.defaulted);
    })
  ]
