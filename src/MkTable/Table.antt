-- ===== src/MkTable/Table.antt =====
-- The table of operations: the rows that `mk_table` of src/nvidia/mktable.rs publishes.
use calx_mill.Base.{ℕ, Option, none, some, inl, inr, List, [], ◌∷◌, ◌++◌, map, length, get_or}
use calx_mill.Base.Result.{◌>>=◌}
use calx_mill.Base.Text.{Text, codes, split}
use calx_mill.Base.Words.{first_or_empty}
use calx_mill.Base.Float.{Float}
use calx_mill.Base.Decimal.{FloatText, show_ℕ}
use calx_mill.Base.Sort.{text_leb, sort_by, dedup}
use calx_mill.Base.Groups.{Group, members}
use calx_mill.Csv.Reader.{parse_table}
use calx_mill.Csv.RoundTrip.{write_all}
use calx_mill.Pyfmt.General.{g6}
use calx_mill.MkTable.Rows.{
  not_printed, Made, Meas, Measurements, Prior, column, read_priors, measured,
}
use calx_mill.MkTable.Labels.{instruction_for, pipe_labels, table_rows, pipe_of_row}
use calx_mill.MkTable.Grouping.{GroupKey, sorted_groups}
use calx_mill.MkTable.Values.{Values, values_of}
use calx_mill.MkTable.Judge.{
  Flag, flag_text, last_note, median_of, within_cv_of, gpu_diff_of, judge_runs, judge_gpus, Priors,
  prior_for, judge_prior,
}

-- What is found of a group.
pub record Row (F : Type 0) : Type 0 where
  pub variant : Text
  pub value : F
  pub within_cv : F
  pub prior_value : Text
  pub prior_src : Text
  pub deviation : Option F
  pub flag : Flag
  pub notes : List Text

join : Text → List Text → Text
join sep [] = []
join sep (t ∷ []) = t
join sep (t ∷ u ∷ ts) = t ++ (sep ++ join sep (u ∷ ts))

-- The texts in order, each once.
sorted_once : List Text → List Text
sorted_once ts = dedup (sort_by text_leb ts)

value_text : Option Prior → Text
value_text none = []
value_text (some p) = p.prior_value

src_text : Option Prior → Text
src_text none = []
src_text (some p) = p.prior_src

-- The note of the measurements in front of the others.
with_note : Text → List Text → List Text
with_note [] extra = extra
with_note (c ∷ note) extra = (c ∷ note) ∷ extra

module _ {F : Type 0} ⦃fl : Float F⦄ ⦃ft : FloatText F⦄ where
  unfoldable pub row_of : Priors → Text → Text → Text → List Meas → Values F → Made (Row F)
  unfolding value_text src_text with_note
  row_of priors row_id kind unit grp vals = do
    value ← median_of vals.run_vals
    within ← within_cv_of vals.cvs
    diff ← gpu_diff_of vals.gpu_vals value
    let judged = judge_gpus diff within (judge_runs kind unit vals.run_vals value within)
    let prior = prior_for priors row_id kind vals.variant
    found ← judge_prior prior value judged.0
    inr (record {
      variant = vals.variant;
      value = value;
      within_cv = within;
      prior_value = value_text prior;
      prior_src = src_text prior;
      deviation = found.0;
      flag = found.1;
      notes = with_note (last_note grp []) judged.1;
    })

-- How many of the group's runs are not the same.
run_count : List Meas → ℕ
unfolding sorted_once
run_count grp = length (sorted_once (map (λ (m : Meas). m.run_id) grp))

-- Where the row was measured, by which versions, and in how many runs.
measured_by : Text → List Meas → Text
unfolding join sorted_once run_count
measured_by bench_src grp =
    bench_src
    ++ (codes "@"
        ++ (join (codes "+") (sorted_once (map (λ (m : Meas). m.git_sha) grp))
            ++ (codes " n_runs=" ++ show_ℕ (run_count grp))))

abbrev pub table_fields : List Text
table_fields =
    codes "row_id"
    ∷ codes "class"
    ∷ codes "instruction"
    ∷ codes "variant"
    ∷ codes "kind"
    ∷ codes "value"
    ∷ codes "unit"
    ∷ codes "cv_pct"
    ∷ codes "pipe"
    ∷ codes "prior_value"
    ∷ codes "prior_src"
    ∷ codes "deviation_pct"
    ∷ codes "flag"
    ∷ codes "measured_by"
    ∷ codes "clock_mhz"
    ∷ codes "notes"
    ∷ []

module _ (F : Type 0) ⦃fl : Float F⦄ ⦃ft : FloatText F⦄ where
  deviation_text : Option F → Text
  deviation_text none = []
  deviation_text (some d) = ft.fixed 1 d

  unfoldable pub printed : F → Made Text
  printed x = elim (g6 x) [ inl e ↦ inl not_printed | inr t ↦ inr t ]

  -- The record of a row. The first measurement of the row id gives its kind, unit and family.
  unfoldable pub record_of_row :
      List (Text × Text) → Text → Meas → List Meas → Row F → Text → List Text
  unfolding join measured_by deviation_text
  record_of_row labels row_id m grp row value =
      row_id
      ∷ m.family
      ∷ instruction_for row_id
      ∷ row.variant
      ∷ m.kind
      ∷ value
      ∷ m.unit
      ∷ ft.fixed 3 row.within_cv
      ∷ pipe_of_row labels row_id
      ∷ row.prior_value
      ∷ row.prior_src
      ∷ deviation_text row.deviation
      ∷ flag_text row.flag
      ∷ measured_by m.bench_src grp
      ∷ codes "1455"
      ∷ join (codes "; ") row.notes
      ∷ []

  unfoldable pub publish_groups :
      List (Text × Text)
      → Priors
      → Text
      → Meas
      → List (Group GroupKey Meas)
      → Made (List (List Text))
  publish_groups labels priors row_id m [] = inr []
  publish_groups labels priors row_id m (g ∷ groups) = do
    vals ← values_of F g
    row ← row_of priors row_id m.kind m.unit (members g) vals
    value ← printed row.value
    more ← publish_groups labels priors row_id m groups
    inr (record_of_row labels row_id m (members g) row value ∷ more)

  unfoldable pub publish_rows : List (Text × Text) → Priors → Measurements → Made (List (List Text))
  publish_rows labels priors [] = inr []
  publish_rows labels priors (g ∷ rows) = do
    now ← publish_groups labels priors g.key g.first (sorted_groups g.first.kind (members g))
    more ← publish_rows labels priors rows
    inr (now ++ more)

  -- The row ids in order.
  unfoldable pub publish : Priors → Measurements → Made (List (List Text))
  publish priors meas = publish_rows (pipe_labels meas) priors (
      sort_by (λ (a : Group Text Meas) (b : Group Text Meas). text_leb a.key b.key)
        (table_rows meas))

-- A feature that the device does not have.
unfoldable pub absent_record : ℕ → ℕ → ℕ → ℕ → List Text → List Text
absent_record id inst src notes row =
    get_or row id []
    ∷ first_or_empty (split b'.' (get_or row id []))
    ∷ get_or row inst []
    ∷ []
    ∷ codes "na"
    ∷ []
    ∷ []
    ∷ []
    ∷ []
    ∷ []
    ∷ get_or row src []
    ∷ []
    ∷ codes "NA_SM75"
    ∷ codes "table/na_sm75.csv"
    ∷ []
    ∷ get_or row notes []
    ∷ []

unfoldable pub absent_records : Option Text → Made (List (List Text))
absent_records none = inr []
absent_records (some na) = do
  let t = parse_table na
  id ← column t (codes "row_id")
  inst ← column t (codes "instruction")
  src ← column t (codes "prior_src")
  notes ← column t (codes "notes")
  inr (map (absent_record id inst src notes) t.rows)

module _ (F : Type 0) ⦃fl : Float F⦄ ⦃ft : FloatText F⦄ where
  -- The records behind the header.
  unfoldable pub table_records : List (Text × Text) → Text → Option Text → Made (List (List Text))
  table_records results priors_csv na_csv = do
    priors ← read_priors priors_csv
    meas ← measured results
    rows ← publish F priors meas
    absent ← absent_records na_csv
    inr (rows ++ absent)

  -- The table as text, and how many records it has behind the header.
  unfoldable pub mk_table : List (Text × Text) → Text → Option Text → Made (Text × ℕ)
  mk_table results priors_csv na_csv = do
    records ← table_records results priors_csv na_csv
    inr (write_all (table_fields ∷ records), length records)
