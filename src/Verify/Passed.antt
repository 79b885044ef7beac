-- ===== src/Verify/Passed.antt =====
-- What an exit code of 0 of the projection gate of src/nvidia/verify.rs says of its rows.
use calx_mill.Base.{
  ℕ, ◌≡◌, ◌≢◌, ◌⊎◌, inl, ◌+◌, refl, sym, ap, ◌∙◌, inr, Bool, true, false, not, ◌&&◌, Option, none,
  some, List, [], ◌∷◌, ltb, ◌==◌, ==_iff, All, arith, false≢true, if◌then◌else◌, if-both,
}
use calx_mill.Base.Result.{Result, inr_back, bind-inr, ok_or-inr}
use calx_mill.Base.Text.{Text, codes}
use calx_mill.Base.Float.{Float}
use calx_mill.Pattern.Syntax.{Pattern}
use calx_mill.Pattern.Compile.{new}
use calx_mill.Projection.Rates.{Rates, parse_rates}
use calx_mill.Projection.Tables.{lookup}
use calx_mill.Projection.Census.{Census}
use calx_mill.Projection.Demand.{ProjectPanic}
use calx_mill.Projection.Project.{ProjectResult, project}
use calx_mill.Sass.Mix.{loop_mix}
use calx_mill.MkTable.Median.{median}
use calx_mill.Verify.Rows.{VerifyRow, verify_rows}
use calx_mill.Verify.Judge.{
  VerifyStop, stop_with, Finding, is_close, projected_error, project_row, judge_measured,
  judge_rows, read_measured, verify_projection, failures, verify_code,
}

suc≢zero : (n : ℕ) → ¬ (1 + n ≡ 0)
suc≢zero n = omega arith

failures-step :
    (gated close : Bool) (rest : ℕ)
    → (if gated && not close then 1 + rest else rest) ≡ 0
    → (rest ≡ 0) × ((gated ≡ false) ⊎ (close ≡ true))
failures-step true true rest h = (h, inr refl)
failures-step true false rest h = elim (suc≢zero rest h) [ ]
failures-step false close rest h = (h, inl refl)

code-failures : (n : ℕ) → ◌≡◌ {A = ℕ} (if ltb 0 n then 1 else 0) 0 → n ≡ 0
code-failures n h = ground (arith, h)

stop_with-inr {ℓ} :
    {E : Type 0} {A : Type ℓ} (f : E → VerifyStop) (r : Result E A) {x : A}
    → stop_with f r ≡ inr x
    → r ≡ inr x
unfolding stop_with
stop_with-inr f (inl e) h = cc
stop_with-inr f (inr y) h = ap inr (inr_back h)

module _ (F : Type 0) ⦃fl : Float F⦄ (read_file bench_sass : Text → Option Text) where
  -- The row's kernels have hot loops, whose mix is projected on the rates at the row's warps and memory
  -- class, and the projected cycles are within 20 percent of the median of the measured ones.
  pub record Close (rates : Rates) (meas : List (Text × List F)) (row : VerifyRow) : Type 0 where
    pub vals : List F
    pub m : F
    pub sass : Text
    pub kernels : Pattern
    pub mix : Census
    pub loops : ℕ
    pub projection : ProjectResult F
    pub has_vals : lookup meas row.row_id ≡ some vals
    pub is_median : median vals ≡ some m
    pub has_sass : bench_sass row.binary ≡ some sass
    pub has_kernels : new row.regex ≡ some kernels
    pub has_mix : loop_mix sass kernels ≡ inr (mix, loops)
    pub some_loop : loops ≢ 0
    pub is_projected :
        project mix (fl.of_ℕ row.warps) row.mem_class rates (fl.div (fl.of_ℕ 582) (fl.of_ℕ 100))
        ≡ inr projection
    pub within_tolerance :
        fl.le (fl.abs (fl.div (fl.sub projection.ppm_cycles m) m)) (fl.div (fl.of_ℕ 1) (fl.of_ℕ 5))
        ≡ true

  -- A projection that is close, of a row, its median and its mix.
  projected_error-close :
      (m : F) (r : Result ProjectPanic (ProjectResult F)) (finding : Finding F)
      → projected_error m r ≡ inr finding
      → is_close finding ≡ true
      → (p : ProjectResult F) × (r ≡ inr p)
        × (fl.le (fl.abs (fl.div (fl.sub p.ppm_cycles m) m)) (fl.div (fl.of_ℕ 1) (fl.of_ℕ 5))
            ≡ true)
  unfolding projected_error is_close
  projected_error-close m r finding h close =
      let (p, (ran, last)) = bind-inr _ _ h in
      (p, stop_with-inr _ r ran, ap is_close (inr_back last) ∙ close)

  abbrev Projects : VerifyRow → Rates → F → Census → ℕ → Type 0
  Projects row rates m mix n =
      (n ≢ 0)
      × ((p : ProjectResult F) × (project mix (fl.of_ℕ row.warps) row.mem_class rates
              (fl.div (fl.of_ℕ 582) (fl.of_ℕ 100))
            ≡ inr p)
          × (fl.le (fl.abs (fl.div (fl.sub p.ppm_cycles m) m)) (fl.div (fl.of_ℕ 1) (fl.of_ℕ 5))
              ≡ true))

  project_row-close :
      (row : VerifyRow) (rates : Rates) (m : F) (mix : Census) (n : ℕ) (finding : Finding F)
      → project_row row rates m (mix, n) ≡ inr finding
      → is_close finding ≡ true
      → Projects row rates m mix n
  unfolding project_row is_close
  project_row-close row rates m mix n finding h close =
      if-both (λ r. r ≡ inr finding → Projects row rates m mix n) (n == 0)
        (λ _ e. elim (false≢true (ap is_close (inr_back e) ∙ close)) [ ])
        (λ some_loop e. (
          λ z. false≢true (sym some_loop ∙ (==_iff n 0).1 z),
          projected_error-close m _ finding e close,
        ))
        h

  judge_measured-Close :
      (row : VerifyRow) (rates : Rates) (meas : List (Text × List F)) (o : Option (List F))
      (finding : Finding F)
      → lookup meas row.row_id ≡ o
      → judge_measured F read_file bench_sass row rates o ≡ inr finding
      → is_close finding ≡ true
      → Close rates meas row
  unfolding judge_measured is_close
  judge_measured-Close row rates meas none finding e h close =
      elim (false≢true (ap is_close (inr_back h) ∙ close)) [ ]
  judge_measured-Close row rates meas (some vals) finding e h close =
      let (m, (middle, h1)) = bind-inr _ _ h in
      let (sass, (read, h2)) = bind-inr _ _ h1 in
      let (pat, (compiled, h3)) = bind-inr _ _ h2 in
      let (found, (mixed, last)) = bind-inr _ _ h3 in
      let (some_loop, (p, ran, near)) =
        project_row-close row rates m found.0 found.1 finding last close in
      record {
        vals = vals;
        m = m;
        sass = sass;
        kernels = pat;
        mix = found.0;
        loops = found.1;
        projection = p;
        has_vals = e;
        is_median = ok_or-inr _ _ middle;
        has_sass = ok_or-inr _ _ read;
        has_kernels = ok_or-inr _ _ compiled;
        has_mix = stop_with-inr _ _ mixed;
        some_loop = some_loop;
        is_projected = ran;
        within_tolerance = near;
      }

  abbrev pub GatedClose : Rates → List (Text × List F) → VerifyRow → Type 0
  GatedClose rates meas row = (row.gated ≡ false) ⊎ Close rates meas row

  judge_rows-Close :
      (rows : List VerifyRow) (rates : Rates) (meas : List (Text × List F))
      (found : List (VerifyRow × Finding F))
      → judge_rows F read_file bench_sass rows rates meas ≡ inr found
      → failures found ≡ 0
      → All (GatedClose rates meas) rows
  unfolding judge_rows failures
  judge_rows-Close [] rates meas found h z = tt
  judge_rows-Close (row ∷ rows) rates meas found h z =
      let (finding, (judged, rest)) = bind-inr _ _ h in
      let (more, (others, last)) = bind-inr _ _ rest in
      let (none_fails, close) =
        failures-step row.gated (is_close finding) (failures more)
          (ap failures (inr_back last) ∙ z) in
      (
        elim close [
          | inl free ↦ inl free
          | inr near ↦ inr (judge_measured-Close row rates meas _ finding refl judged near)
        ],
        judge_rows-Close rows rates meas more others none_fails,
      )

  -- The rates and the measurements that are read, and every row of the gate: it is not gated, or close.
  pub record Meets : Type 0 where
    pub table : Text
    pub results : Text
    pub rates : Rates
    pub meas : List (Text × List F)
    pub has_table : read_file (codes "table/tu102_ops.csv") ≡ some table
    pub has_rates : parse_rates F table ≡ inr rates
    pub has_results : read_file (codes "data/results/t5820-2xrtx6000/proj.csv") ≡ some results
    pub has_meas : read_measured F read_file bench_sass results ≡ inr meas
    pub all_close : All (GatedClose rates meas) verify_rows

  -- When the gate gives a report whose exit code is 0, the rates and the measurements were read, and
  -- every row of the gate that is gated has kernels whose loops are projected within 20 percent of the
  -- median of the row's measurements.
  pub verify_code_zero :
      (found : List (VerifyRow × Finding F))
      → verify_projection F read_file bench_sass ≡ inr found
      → verify_code found ≡ 0
      → Meets
  unfolding verify_projection verify_code
  verify_code_zero found h z =
      let (table, (tabled, h1)) = bind-inr _ _ h in
      let (rates, (rated, h2)) = bind-inr _ _ h1 in
      let (results, (read, h3)) = bind-inr _ _ h2 in
      let (meas, (measured, h4)) = bind-inr _ _ h3 in
      record {
        table = table;
        results = results;
        rates = rates;
        meas = meas;
        has_table = ok_or-inr _ _ tabled;
        has_rates = stop_with-inr _ _ rated;
        has_results = ok_or-inr _ _ read;
        has_meas = measured;
        all_close =
            judge_rows-Close verify_rows rates meas found h4 (code-failures (failures found) z);
      }
