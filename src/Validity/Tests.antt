-- ===== src/Validity/Tests.antt =====
-- Runs of the registry, and the theorems at concrete data.
use mathlib.Core.List.{map}
use calx_mill.Base.{
  ◌≡◌, ◌≢◌, ◌↔◌, ◌⊎◌, refl, true, false, false≢true, none, some, inr, List, [], ◌∷◌,
}
use calx_mill.Base.Result.{◌>>=◌, ok_or}
use calx_mill.Base.Text.{Text, codes, trim, split, split_once}
use calx_mill.Base.Float.{Sample, sample_float, Sample-IsOrdered, IsNum}
use calx_mill.Csv.Reader.{parse_table, col}
use calx_mill.Validity.Authority.{
  cross_checked, gate, at_anchor, out_of_domain, compose, ◌⊑◌, compose_greatest,
}
use calx_mill.Validity.Fit.{range, AnchorRow, meets_bounds, is_anchor_point, computed_fit}
use calx_mill.Validity.Covered.{Covered}
use calx_mill.Validity.Certified.{computed_fit_admits_nan}
use calx_mill.Validity.Registry.{
  parse_kv, cell, parse_row, has_id, next_row, load_rows, check_columns, load_table, parse_registry,
}
use calx_mill.Validity.Command.{parse_query}
use calx_mill.Base.Distinct.{Distinct}
use calx_mill.Validity.Loaded.{ids, parse_registry-Distinct}

abbrev context_row : AnchorRow Sample
context_row = record {
  id = codes "decode";
  anchor = record { measured = some 5; tol = some 1 };
  units = codes "us";
  at = (codes "ctx", codes "4") ∷ [];
  domain = (codes "ctx", range (some 1) (some 8)) ∷ [];
}

abbrev at_four : List (Text × Text)
at_four = (codes "ctx", codes "4") ∷ []

fit_at_four : computed_fit context_row at_four ≡ at_anchor
unfolding computed_fit meets_bounds is_anchor_point
fit_at_four = refl

compose_greatest_example : (cross_checked ⊑ compose gate gate false) ↔ (
    (cross_checked ⊑ gate)
    × (cross_checked ⊑ gate)
    × ((false ≡ true) ⊎ (cross_checked ⊑ cross_checked)))
compose_greatest_example = compose_greatest gate gate cross_checked false

nan-NotNum : ¬ (IsNum {F = Sample} none)
nan-NotNum h = false≢true h

computed_fit_admits_nan_example :
    computed_fit
      (record context_row { domain = (codes "ctx", range (some 1) (some 8)) ∷ [] })
      ((codes "ctx", codes "nan") ∷ [])
    ≢ out_of_domain
computed_fit_admits_nan_example =
    computed_fit_admits_nan Sample-IsOrdered context_row (codes "ctx") (codes "nan") (some 1)
      (some 8) none refl nan-NotNum

abbrev registry_text : Text
registry_text =
    codes
      "id,measured,tol,tol_kind,units,at,domain\r\na,5,1,abs,us,ctx=4,ctx=1..8\r\nb,7,0,rel,us,,\r\n"

abbrev registry_rows : List (AnchorRow Sample)
registry_rows =
    record context_row { id = codes "a" }
    ∷ record {
      id = codes "b";
      anchor = record { measured = some 7; tol = some 0 };
      units = codes "us";
      at = [];
      domain = [];
    }
    ∷ []

registry_loads : parse_registry registry_text ≡ inr registry_rows
unfolding parse_registry load_table check_columns load_rows next_row has_id parse_row ◌>>=◌ ok_or
    parse_kv cell parse_table col split split_once trim
registry_loads = refl

parse_registry-Distinct_example :
    Distinct (ids registry_rows)
    × (ids registry_rows
        ≡ map (cell (parse_table registry_text) (codes "id")) (parse_table registry_text).rows)
parse_registry-Distinct_example = parse_registry-Distinct registry_text registry_rows registry_loads

query :
    parse_query (codes "ctx=4, dtype = f16")
    ≡ inr ((codes "ctx", codes "4") ∷ (codes "dtype", codes "f16") ∷ [])
unfolding parse_query split split_once trim ◌>>=◌ ok_or
query = refl
