-- ===== src/Projection/Census.antt =====
-- `Census` of src/nvidia/projection.rs: a counter that keeps its keys in the order in which they were
-- first seen. A count is a `u64`, which wraps around.
use calx_mill.Base.{ℕ, Bool, true, false, inr, List, [], ◌∷◌, if◌then◌else◌, get_or, wrapping_add64}
use calx_mill.Base.Result.{Result, ◌>>=◌, ok_or}
use calx_mill.Base.Text.{Text, codes, text_eq}
use calx_mill.Base.Numeral.{parse_u64}
use calx_mill.Csv.Reader.{Table, parse_table, col}
use calx_mill.Pattern.Syntax.{Pattern}
use calx_mill.Pattern.Search.{is_match}

abbrev pub Census : Type 0
Census = List (Text × ℕ)

unfoldable pub add : Census → Text → ℕ → Census
add [] op n = (op, n) ∷ []
add ((k, count) ∷ items) op n =
    let rest = add items op n in
    if text_eq k op then (k, wrapping_add64 count n) ∷ items else (k, count) ∷ rest

-- The additions of a list, from the first on.
unfoldable pub add_all : Census → List (Text × ℕ) → Census
add_all census [] = census
add_all census ((op, n) ∷ adds) = add_all (add census op n) adds

unfoldable pub is_empty_census : Census → Bool
is_empty_census [] = true
is_empty_census (item ∷ items) = false

-- What makes `from_census_csv` panic: a column that is not there, or a count that is no number.
pub data CensusPanic : Type 0 where
  no_column : Text → CensusPanic
  no_count : Text → CensusPanic

column : Text → Table → Result CensusPanic ℕ
column name t = ok_or (col name t) (no_column name)

-- The rows whose kernel matches, each with its operation and its count.
counted_rows : Pattern → ℕ → ℕ → ℕ → List (List Text) → Result CensusPanic (List (Text × ℕ))
counted_rows kernel k op count [] = inr []
counted_rows kernel k op count (row ∷ rows) =
    let rest = counted_rows kernel k op count rows in
    if is_match kernel (get_or row k [])
    then (do
      n ← ok_or (parse_u64 (get_or row count [])) (no_count (get_or row count []))
      adds ← rest
      inr ((get_or row op [], n) ∷ adds))
    else rest

unfoldable pub from_census_csv : Text → Pattern → Result CensusPanic Census
unfolding column counted_rows
from_census_csv text kernel = do
  let t = parse_table text
  k ← column (codes "kernel") t
  op ← column (codes "op") t
  count ← column (codes "count") t
  adds ← counted_rows kernel k op count t.rows
  inr (add_all [] adds)
