-- ===== src/MkTable/Values.antt =====
-- The values of a group, by run and by device, in `mk_table` of src/nvidia/mktable.rs.
use calx_mill.Base.{ℕ, ◌+◌, ◌&&◌, inl, inr, List, [], ◌∷◌, ◌++◌, ltb, if◌then◌else◌}
use calx_mill.Base.Result.{◌>>=◌}
use calx_mill.Base.Text.{Text, text_eq}
use calx_mill.Base.Float.{Float}
use calx_mill.Base.Groups.{Group, members, push_group}
use calx_mill.MkTable.Rows.{out_of_range, Made, Meas, fval}
use calx_mill.MkTable.Grouping.{GroupKey, sweep, standalone}

-- What a row of the table is made of: a value for each run, the values of each device, the variation
-- within each run, and the variant that the row stands for.
pub record Values (F : Type 0) : Type 0 where
  pub run_vals : List F
  pub gpu_vals : List (Group Text F)
  pub cvs : List F
  pub variant : Text

-- A count of each variant, in the order of first sight.
unfoldable pub count_variant : Text → List (Text × ℕ) → List (Text × ℕ)
count_variant v [] = (v, 1) ∷ []
count_variant v ((k, n) ∷ counted) =
    let rest = count_variant v counted in
    if text_eq k v then (k, n + 1) ∷ counted else (k, n) ∷ rest

unfoldable pub count_variants : List Text → List (Text × ℕ) → List (Text × ℕ)
count_variants [] counted = counted
count_variants (v ∷ vs) counted = count_variants vs (count_variant v counted)

-- The first of the highest counts.
unfoldable pub best_count : Text × ℕ → List (Text × ℕ) → Text
best_count best [] = best.0
best_count best (c ∷ counted) = best_count (if ltb best.1 c.1 then c else best) counted

unfoldable pub most_common : List (Text × ℕ) → Made Text
most_common [] = inl out_of_range
most_common (c ∷ counted) = inr (best_count c counted)

unfoldable pub per_run :
    List Meas → List (Group (Text × Text) Meas) → List (Group (Text × Text) Meas)
per_run [] runs = runs
per_run (m ∷ grp) runs = per_run grp (
    push_group (λ (k : Text × Text). text_eq k.0 m.run_id && text_eq k.1 m.gpu_index)
      (m.run_id, m.gpu_index) m runs)

module _ {F : Type 0} where
  unfoldable pub push_gpu : Text → F → List (Group Text F) → List (Group Text F)
  push_gpu gpu x gv = push_group (λ k. text_eq k gpu) gpu x gv

module _ (F : Type 0) ⦃fl : Float F⦄ where
  -- The first of the largest values of a run.
  unfoldable pub peak_of : Meas → List Meas → Made Meas
  peak_of peak [] = inr peak
  peak_of peak (m ∷ ms) = do
    x ← fval F m.value
    y ← fval F peak.value
    peak_of (if fl.lt y x then m else peak) ms

  -- The peak of each run, the variants that they are of, and the other columns.
  unfoldable pub peaks :
      List (Group (Text × Text) Meas)
      → List F
      → List (Group Text F)
      → List Text
      → List F
      → Made (List F × List (Group Text F) × List Text × List F)
  unfolding push_gpu
  peaks [] rv gv variants cv = inr (rv, gv, variants, cv)
  peaks (run ∷ runs) rv gv variants cv = do
    p ← peak_of run.first run.more
    x ← fval F p.value
    c ← fval F p.cv_pct
    peaks runs (rv ++ x ∷ []) (push_gpu run.key.1 x gv) (variants ++ p.variant ∷ []) (cv ++ c ∷ [])

  unfoldable pub sweep_values : List Meas → Made (Values F)
  sweep_values grp = do
    found ← peaks (per_run grp []) [] [] [] []
    variant ← most_common (count_variants found.2 [])
    inr (record { run_vals = found.0; gpu_vals = found.1; cvs = found.3; variant = variant })

  unfoldable pub each_value : List Meas → Made (List F)
  each_value [] = inr []
  each_value (m ∷ grp) = do x ← fval F m.value; more ← each_value grp; inr (x ∷ more)

  unfoldable pub each_cv : List Meas → Made (List F)
  each_cv [] = inr []
  each_cv (m ∷ grp) = do x ← fval F m.cv_pct; more ← each_cv grp; inr (x ∷ more)

  unfoldable pub by_gpu : List Meas → List (Group Text F) → Made (List (Group Text F))
  unfolding push_gpu
  by_gpu [] gv = inr gv
  by_gpu (m ∷ grp) gv = do x ← fval F m.value; by_gpu grp (push_gpu m.gpu_index x gv)

  unfoldable pub variant_values : Text → List Meas → Made (Values F)
  variant_values v grp = do
    rv ← each_value grp
    gv ← by_gpu grp []
    cv ← each_cv grp
    inr (record { run_vals = rv; gpu_vals = gv; cvs = cv; variant = v })

  unfoldable pub values_by : GroupKey → List Meas → Made (Values F)
  values_by (sweep s) grp = sweep_values grp
  values_by (standalone v) grp = variant_values v grp

  unfoldable pub values_of : Group GroupKey Meas → Made (Values F)
  values_of g = values_by g.key (members g)
