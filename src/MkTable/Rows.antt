-- ===== src/MkTable/Rows.antt =====
-- What `mk_table` of src/nvidia/mktable.rs reads: the priors, and the measurements of each row id.
use calx_mill.Base.{
  ℕ, Bool, not, ◌||◌, inr, List, [], ◌∷◌, length, take, ◌-◌, get_or, if◌then◌else◌,
}
use calx_mill.Base.Result.{Result, ◌>>=◌, ok_or}
use calx_mill.Base.Text.{Text, codes, text_eq}
use calx_mill.Base.Words.{ends_with}
use calx_mill.Base.Float.{Float}
use calx_mill.Base.Sort.{text_leb, sort_by}
use calx_mill.Base.Groups.{Group, push_group}
use calx_mill.Csv.Reader.{Table, parse_table, col}

-- The panics: a column that is missing, a text that is no number, a median that is not there, a
-- read behind the end, and a number that is not printed as expected.
pub data MkPanic : Type 0 where
  no_column : Text → MkPanic
  not_a_number : Text → MkPanic
  no_median : MkPanic
  out_of_range : MkPanic
  not_printed : MkPanic

abbrev pub Made : Type 0 → Type 0
Made A = Result MkPanic A

pub record Meas : Type 0 where
  pub run_id : Text
  pub gpu_index : Text
  pub row_id : Text
  pub kind : Text
  pub variant : Text
  pub value : Text
  pub unit : Text
  pub cv_pct : Text
  pub bench_src : Text
  pub git_sha : Text
  pub notes : Text
  pub family : Text

module _ (F : Type 0) ⦃fl : Float F⦄ where
  unfoldable pub fval : Text → Made F
  fval s = ok_or (fl.parse s) (not_a_number s)

pub record Prior : Type 0 where
  pub prior_value : Text
  pub prior_src : Text

-- A later row of an id takes the place of the earlier.
unfoldable pub put_prior : Text → Prior → List (Text × Prior) → List (Text × Prior)
put_prior id prior [] = (id, prior) ∷ []
put_prior id prior ((k, p) ∷ priors) =
    let rest = put_prior id prior priors in
    if text_eq k id then (k, prior) ∷ priors else (k, p) ∷ rest

unfoldable pub put_priors : ℕ → ℕ → ℕ → List (List Text) → List (Text × Prior) → List (Text × Prior)
put_priors id value src [] priors = priors
put_priors id value src (row ∷ rows) priors = put_priors id value src rows (
    put_prior (get_or row id [])
      (record { prior_value = get_or row value []; prior_src = get_or row src [] }) priors)

unfoldable pub column : Table → Text → Made ℕ
column t name = ok_or (col name t) (no_column name)

unfoldable pub read_priors : Text → Made (List (Text × Prior))
unfolding column
read_priors priors_csv = do
  let t = parse_table priors_csv
  id ← column t (codes "row_id")
  value ← column t (codes "prior_value")
  src ← column t (codes "prior_src")
  inr (put_priors id value src t.rows [])

-- The columns of a file of measurements.
pub record Columns : Type 0 where
  pub run_id : ℕ
  pub gpu : ℕ
  pub row_id : ℕ
  pub kind : ℕ
  pub variant : ℕ
  pub value : ℕ
  pub unit : ℕ
  pub cv : ℕ
  pub src : ℕ
  pub sha : ℕ
  pub notes : ℕ

unfoldable pub columns : Table → Made Columns
unfolding column
columns t = do
  run_id ← column t (codes "run_id")
  gpu ← column t (codes "gpu_index")
  row_id ← column t (codes "row_id")
  kind ← column t (codes "kind")
  variant ← column t (codes "variant")
  value ← column t (codes "value")
  unit ← column t (codes "unit")
  cv ← column t (codes "cv_pct")
  src ← column t (codes "bench_src")
  sha ← column t (codes "git_sha")
  notes ← column t (codes "notes")
  inr (record {
    run_id = run_id;
    gpu = gpu;
    row_id = row_id;
    kind = kind;
    variant = variant;
    value = value;
    unit = unit;
    cv = cv;
    src = src;
    sha = sha;
    notes = notes;
  })

unfoldable pub meas_of : Text → Columns → List Text → Meas
meas_of family c row = record {
  run_id = get_or row c.run_id [];
  gpu_index = get_or row c.gpu [];
  row_id = get_or row c.row_id [];
  kind = get_or row c.kind [];
  variant = get_or row c.variant [];
  value = get_or row c.value [];
  unit = get_or row c.unit [];
  cv_pct = get_or row c.cv [];
  bench_src = get_or row c.src [];
  git_sha = get_or row c.sha [];
  notes = get_or row c.notes [];
  family = family;
}

-- The measurements, by their row ids, in the order of first sight.
abbrev pub Measurements : Type 0
Measurements = List (Group Text Meas)

unfoldable pub add_meas : Meas → Measurements → Measurements
add_meas m measurements = push_group (λ k. text_eq k m.row_id) m.row_id m measurements

unfoldable pub add_meas_rows : Text → Columns → List (List Text) → Measurements → Measurements
add_meas_rows family c [] measurements = measurements
add_meas_rows family c (row ∷ rows) measurements =
    add_meas_rows family c rows (add_meas (meas_of family c row) measurements)

-- The files that hold no rows of the table.
unfoldable pub is_passed_over : Text → Bool
is_passed_over fname =
    text_eq fname (codes "runs.csv")
    || not (ends_with (codes ".csv") fname)
    || text_eq fname (codes "proj.csv")

unfoldable pub read_results : List (Text × Text) → Measurements → Made Measurements
read_results [] measurements = inr measurements
read_results ((fname, content) ∷ files) measurements =
    let skip = read_results files measurements in
    let take_in = (do
      let t = parse_table content
      c ← columns t
      read_results files (add_meas_rows (take (length fname - 4) fname) c t.rows measurements)) in
    if is_passed_over fname then skip else take_in

-- The files in the order of their names.
unfoldable pub measured : List (Text × Text) → Made Measurements
measured results =
    read_results (sort_by (λ (a : Text × Text) (b : Text × Text). text_leb a.0 b.0) results) []
