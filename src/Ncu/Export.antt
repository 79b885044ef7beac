-- ===== src/Ncu/Export.antt =====
-- `parse_ncu_csv` and what is read of its rows, of src/nvidia/ncu.rs.
use calx_mill.Base.{
  ℕ, suc, max, Bool, not, ◌&&◌, Option, none, some, inl, inr, List, [], ◌∷◌, ◌++◌, leb, ◌==◌,
  if◌then◌else◌, length, get_or, keep,
}
use calx_mill.Base.Result.{Result, ◌>>=◌, ok_or}
use calx_mill.Base.Text.{Text, codes, text_eq, contains_text}
use calx_mill.Base.Words.{lines}
use calx_mill.Base.Float.{Float}
use calx_mill.Csv.Reader.{parse_records}

abbrev pub achieved_metric : Text
achieved_metric = codes "sm__warps_active.avg.pct_of_peak_sustained_active"

pub record MetricRow : Type 0 where
  pub launch : Text
  pub kernel : Text
  pub metric : Text
  pub unit : Text
  pub value : Text

pub data NcuError : Type 0 where
  no_header : NcuError
  is_empty_csv : NcuError
  no_named_column : Text → NcuError

is_header : Text → Bool
is_header l = contains_text (codes "Metric Name") l && contains_text (codes "Metric Value") l

-- The lines from the header on.
from_header : List Text → Option (List Text)
unfolding is_header
from_header [] = none
from_header (l ∷ ls) = let rest = from_header ls in if is_header l then some (l ∷ ls) else rest

join_lines : List Text → Text
join_lines [] = []
join_lines (l ∷ []) = l
join_lines (l ∷ m ∷ ls) = l ++ (10 ∷ join_lines (m ∷ ls))

column_of : Text → List Text → ℕ → Option ℕ
column_of name [] i = none
column_of name (h ∷ header) i =
    let rest = column_of name header (suc i) in if text_eq h name then some i else rest

some_records : List (List Text) → Result NcuError (List Text × List (List Text))
some_records [] = inl is_empty_csv
some_records (header ∷ records) = inr (header, records)

text_at : List Text → Option ℕ → Text
text_at r none = []
text_at r (some i) = get_or r i []

-- A record that is too short for the columns that are needed is passed over.
metric_rows : ℕ → ℕ → ℕ → Option ℕ → Option ℕ → List (List Text) → List MetricRow
unfolding text_at
metric_rows kernel metric value unit launch [] = []
metric_rows kernel metric value unit launch (r ∷ records) =
    let rest = metric_rows kernel metric value unit launch records in
    if leb (length r) (max (max value metric) kernel)
    then rest
    else record {
      launch = text_at r launch;
      kernel = get_or r kernel [];
      metric = get_or r metric [];
      unit = text_at r unit;
      value = get_or r value [];
    }
      ∷ rest

named_column : Text → List Text → Result NcuError ℕ
unfolding column_of
named_column name header = ok_or (column_of name header 0) (no_named_column name)

unfoldable pub parse_ncu_csv : Text → Result NcuError (List MetricRow)
unfolding from_header join_lines column_of some_records metric_rows named_column
parse_ncu_csv text = do
  body ← ok_or (from_header (lines text)) no_header
  parts ← some_records (parse_records (join_lines body))
  kernel ← named_column (codes "Kernel Name") parts.0
  metric ← named_column (codes "Metric Name") parts.0
  value ← named_column (codes "Metric Value") parts.0
  inr (
      metric_rows kernel metric value (column_of (codes "Metric Unit") parts.0 0)
        (column_of (codes "ID") parts.0 0) parts.1)

module _ {F : Type 0} ⦃fl : Float F⦄ where
  -- A value without its thousands separators, as a number.
  unfoldable pub metric_value : MetricRow → Option F
  metric_value row = fl.parse (keep (λ c. not (c == b',')) row.value)

  unfoldable pub with_value : MetricRow → Option F → List (Text × Text × F) → List (Text × Text × F)
  with_value row none rest = rest
  with_value row (some v) rest = (row.launch, row.kernel, v) ∷ rest

  unfoldable pub achieved_occupancy : List MetricRow → List (Text × Text × F)
  unfolding with_value
  achieved_occupancy [] = []
  achieved_occupancy (row ∷ rows) =
      let rest = achieved_occupancy rows in
      if text_eq row.metric achieved_metric then with_value row (metric_value row) rest else rest
