-- ===== src/Projection/Tests.antt =====
-- Runs of the rates, the census and the projection, and the theorems at concrete data.
use mathlib.Core.List.{Memᴰ}
use calx_mill.Base.{ℕ, ◌≡◌, refl, inr, some, List, [], ◌∷◌, All}
use calx_mill.Base.Result.{◌>>=◌, ok_or}
use calx_mill.Base.Text.{Text, codes, split}
use calx_mill.Base.Float.{Sample, sample_float, Sample-IsOrdered}
use calx_mill.Base.Numeral.{parse_u64}
use calx_mill.Csv.Reader.{parse_table, col}
use calx_mill.Projection.Census.{Census, add, add_all, from_census_csv}
use calx_mill.Projection.Rates.{
  RateRow, Rates, get, parse_value, keep_peak, insert_rate, insert_rates, parse_rates,
}
use calx_mill.Projection.Peak.{AtMost}
use calx_mill.Projection.Filled.{insert_rates_peak}
use calx_mill.Sass.Functions.{base_of}
use calx_mill.Pattern.Match.{match_here}
use calx_mill.Pattern.Search.{is_match}
use calx_mill.Projection.Tables.{lookup}
use calx_mill.Projection.Demand.{tensor_shape, shape_measured, base_measured}
use calx_mill.Projection.Fold.{add_cycles}
use calx_mill.Projection.Project.{ProjectResult, named_pipe, mem, issue_cap}
use calx_mill.Projection.Flagged.{flagged, is_flagged, is_unrated, is_local}

abbrev additions : List (Text × ℕ)
additions = (codes "FFMA", 3) ∷ (codes "MOV", 1) ∷ (codes "FFMA", 2) ∷ []

added : add_all [] additions ≡ (codes "FFMA", 5) ∷ (codes "MOV", 1) ∷ []
unfolding add_all add
added = refl

-- The empty pattern matches every kernel.
census_read :
    from_census_csv (codes "kernel,op,count\na,MOV,2\nb,MOV,3\n") [] ≡ inr ((codes "MOV", 5) ∷ [])
unfolding from_census_csv parse_table col ◌>>=◌ ok_or parse_u64 add_all add is_match match_here
census_read = refl

abbrev row : Text → Text → RateRow
row value pipe = record { value = value; pipe = pipe }

abbrev rate_rows : List (Text × RateRow)
rate_rows =
    (codes "alu.ffma.tput", row (codes "2") (codes "fma"))
    ∷ (codes "alu.lop3.tput", row (codes "1") [])
    ∷ (codes "alu.ffma.tput", row (codes "3") (codes "fma"))
    ∷ []

abbrev rates : Rates
rates =
    (codes "alu.ffma.tput", row (codes "3") (codes "fma"))
    ∷ (codes "alu.lop3.tput", row (codes "1") [])
    ∷ []

peaks_kept :
    parse_rates Sample
      (codes "row_id,value,pipe\nalu.ffma.tput,2,fma\nalu.lop3.tput,1,\nalu.ffma.tput,3,fma\n")
    ≡ inr rates
unfolding parse_rates parse_table col ◌>>=◌ ok_or insert_rates insert_rate keep_peak parse_value
peaks_kept = refl

insert_rates_peak_example :
    (out : Rates) × (insert_rates Sample [] rate_rows ≡ inr out)
    × All (λ r. (kept : RateRow) × ((get out r.0 ≡ some kept) × AtMost Sample r.1 kept)) rate_rows
    × ((id : Text) (r : RateRow) → get out id ≡ some r → Memᴰ (id, r) rate_rows)
insert_rates_peak_example =
    insert_rates_peak Sample Sample-IsOrdered rate_rows
      ((some 2, refl, refl), ((some 1, refl, refl), ((some 3, refl, refl), tt)))

abbrev census : Census
census =
    (codes "FFMA.FTZ", 6)
    ∷ (codes "LDG.E.64", 1)
    ∷ (codes "LDL", 1)
    ∷ (codes "MUFU.EX2", 2)
    ∷ (codes "BRA", 1)
    ∷ []

flags : flagged rates census ≡ codes "LDL" ∷ codes "MUFU.EX2" ∷ []
unfolding flagged is_flagged is_unrated is_local base_of split tensor_shape shape_measured
    base_measured get lookup
flags = refl

abbrev projected : ProjectResult Sample
projected = record {
  ppm_cycles = some 512;
  ppm_bound = mem;
  add_cycles = some 520;
  per_resource =
      (named_pipe (codes "fma"), some 8)
      ∷ (named_pipe (codes "own_xu"), some 0)
      ∷ (mem, some 512)
      ∷ (issue_cap, some 11)
      ∷ [];
  defaulted = codes "LDL" ∷ codes "MUFU.EX2" ∷ [];
}
