-- ===== src/Verify/Judge.antt =====
-- The gate of `verify_projection` of src/nvidia/verify.rs. Reading a file, and reading or making a
-- disassembly, are parameters.
use calx_mill.Base.{
  ℕ, ◌+◌, Bool, false, not, ◌&&◌, Option, none, some, inl, inr, List, [], ◌∷◌, ◌++◌, ◌==◌, ltb,
  get_or, if◌then◌else◌,
}
use calx_mill.Base.Result.{Result, ◌>>=◌, ok_or}
use calx_mill.Base.Text.{Text, codes, text_eq}
use calx_mill.Base.Float.{Float}
use calx_mill.Csv.Reader.{parse_table, col}
use calx_mill.Pattern.Compile.{new}
use calx_mill.Projection.Rates.{Rates, RatesError, parse_rates}
use calx_mill.Projection.Tables.{lookup}
use calx_mill.Projection.Census.{Census}
use calx_mill.Projection.Demand.{ProjectPanic}
use calx_mill.Projection.Project.{ProjectResult, project}
use calx_mill.Sass.Scan.{SassPanic}
use calx_mill.Sass.Mix.{loop_mix}
use calx_mill.MkTable.Median.{median}
use calx_mill.Verify.Rows.{VerifyRow, verify_rows}

-- The ends without a report: a file that cannot be read, a value that is no number, and panics.
pub data VerifyStop : Type 0 where
  unreadable : Text → VerifyStop
  bad_rates : RatesError → VerifyStop
  no_column : Text → VerifyStop
  bad_value : Text → VerifyStop
  nan_measured : VerifyStop
  bad_pattern : Text → VerifyStop
  sass_panics : SassPanic → VerifyStop
  project_panics : ProjectPanic → VerifyStop

unfoldable pub stop_with {ℓ} :
    {E : Type 0} {A : Type ℓ} → (E → VerifyStop) → Result E A → Result VerifyStop A
stop_with f (inl e) = inl (f e)
stop_with f (inr x) = inr x

module _ {F : Type 0} ⦃fl : Float F⦄ where
  open fl use {nought, add, sub, div, abs, le, of_ℕ}

  -- The values of each row id, in the order of the table.
  unfoldable pub add_measured : Text → F → List (Text × List F) → List (Text × List F)
  add_measured id v [] = (id, v ∷ []) ∷ []
  add_measured id v ((k, vals) ∷ meas) =
      let rest = add_measured id v meas in
      if text_eq k id then (k, vals ++ v ∷ []) ∷ meas else (k, vals) ∷ rest

  unfoldable pub measured_rows :
      ℕ → ℕ → List (List Text) → List (Text × List F) → Result VerifyStop (List (Text × List F))
  measured_rows id value [] meas = inr meas
  measured_rows id value (row ∷ rows) meas = do
    v ← ok_or (fl.parse (get_or row value [])) (bad_value (get_or row value []))
    measured_rows id value rows (add_measured (get_or row id []) v meas)

-- What is found of a row: no measurement, no kernel, or the relative error of the projection.
pub data Finding (F : Type 0) : Type 0 where
  no_measurement : Finding F
  no_match : Finding F
  projected : F → Finding F

module _ {F : Type 0} ⦃fl : Float F⦄ where
  open fl use {sub, div, abs, le, of_ℕ}

  abbrev pub tolerance : F
  tolerance = div (of_ℕ 1) (of_ℕ 5)

  unfoldable pub is_close : Finding F → Bool
  is_close no_measurement = false
  is_close no_match = false
  is_close (projected err) = le (abs err) tolerance

  unfoldable pub projected_error :
      F → Result ProjectPanic (ProjectResult F) → Result VerifyStop (Finding F)
  unfolding stop_with
  projected_error m r = do
    p ← stop_with project_panics r
    inr (projected (div (sub p.ppm_cycles m) m))

  unfoldable pub project_row : VerifyRow → Rates → F → Census × ℕ → Result VerifyStop (Finding F)
  project_row row rates m (mix, n) =
      if n == 0
      then inr no_match
      else projected_error m
          (project mix (of_ℕ row.warps) row.mem_class rates (div (of_ℕ 582) (of_ℕ 100)))

module _ (F : Type 0) ⦃fl : Float F⦄ (read_file bench_sass : Text → Option Text) where
  unfoldable pub judge_measured :
      VerifyRow → Rates → Option (List F) → Result VerifyStop (Finding F)
  unfolding stop_with
  judge_measured row rates none = inr no_measurement
  judge_measured row rates (some vals) = do
    m ← ok_or (median vals) nan_measured
    sass ← ok_or (bench_sass row.binary) (unreadable row.binary)
    pat ← ok_or (new row.regex) (bad_pattern row.regex)
    found ← stop_with sass_panics (loop_mix sass pat)
    project_row row rates m found

  -- The rows, each with what is found.
  unfoldable pub judge_rows :
      List VerifyRow
      → Rates
      → List (Text × List F)
      → Result VerifyStop (List (VerifyRow × Finding F))
  judge_rows [] rates meas = inr []
  judge_rows (row ∷ rows) rates meas = do
    finding ← judge_measured row rates (lookup meas row.row_id)
    more ← judge_rows rows rates meas
    inr ((row, finding) ∷ more)

  unfoldable pub read_measured : Text → Result VerifyStop (List (Text × List F))
  read_measured results = do
    let t = parse_table results
    id ← ok_or (col (codes "row_id") t) (no_column (codes "row_id"))
    value ← ok_or (col (codes "value") t) (no_column (codes "value"))
    measured_rows id value t.rows []

  unfoldable pub verify_projection : Result VerifyStop (List (VerifyRow × Finding F))
  unfolding stop_with
  verify_projection = do
    table ←
        ok_or (read_file (codes "table/tu102_ops.csv")) (unreadable (codes "table/tu102_ops.csv"))
    rates ← stop_with bad_rates (parse_rates F table)
    results ←
        ok_or (read_file (codes "data/results/t5820-2xrtx6000/proj.csv"))
          (unreadable (codes "data/results/t5820-2xrtx6000/proj.csv"))
    meas ← read_measured results
    judge_rows verify_rows rates meas

module _ {F : Type 0} ⦃fl : Float F⦄ where
  unfoldable pub failures : List (VerifyRow × Finding F) → ℕ
  failures [] = 0
  failures ((row, finding) ∷ found) =
      if row.gated && not (is_close finding) then 1 + failures found else failures found

  -- The exit code of a report.
  unfoldable pub verify_code : List (VerifyRow × Finding F) → ℕ
  verify_code found = if ltb 0 (failures found) then 1 else 0
