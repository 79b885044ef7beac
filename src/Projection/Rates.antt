-- ===== src/Projection/Rates.antt =====
-- src/nvidia/table.rs: the measured rates by row id, of each id the peak.
use calx_mill.Base.{ℕ, Option, none, some, inr, List, [], ◌∷◌, if◌then◌else◌, get_or}
use calx_mill.Base.Result.{Result, ◌>>=◌, ok_or}
use calx_mill.Base.Text.{Text, codes, text_eq}
use calx_mill.Base.Float.{Float}
use calx_mill.Csv.Reader.{parse_table, col}

pub record RateRow : Type 0 where
  pub value : Text
  pub pipe : Text

abbrev pub Rates : Type 0
Rates = List (Text × RateRow)

-- The first row with the id.
unfoldable pub get : Rates → Text → Option RateRow
get [] row_id = none
get ((id, r) ∷ rates) row_id = if text_eq id row_id then some r else get rates row_id

-- A value that is no number, by its row's id, and a column that is not there, where the code panics.
pub data RatesError : Type 0 where
  not_a_number : Text → Text → RatesError
  no_column : Text → RatesError

module _ (F : Type 0) ⦃fl : Float F⦄ where
  unfoldable pub parse_value : Text → Text → Result RatesError F
  parse_value s row_id = ok_or (fl.parse s) (not_a_number row_id s)

  -- The row that is kept of the one that is there and a new one.
  unfoldable pub keep_peak : Text → RateRow → RateRow → Result RatesError RateRow
  keep_peak id existing row = do
    old ← parse_value existing.value id
    new ← parse_value row.value id
    inr (if fl.le new old then existing else row)

  unfoldable pub insert_rate : Text → RateRow → Rates → Result RatesError Rates
  insert_rate id row [] = inr ((id, row) ∷ [])
  insert_rate id row ((k, existing) ∷ rates) =
      let rest = insert_rate id row rates in
      if text_eq k id
      then (do kept ← keep_peak id existing row; inr ((k, kept) ∷ rates))
      else (do more ← rest; inr ((k, existing) ∷ more))

  unfoldable pub insert_rates : Rates → List (Text × RateRow) → Result RatesError Rates
  insert_rates rates [] = inr rates
  insert_rates rates ((id, row) ∷ rows) = do more ← insert_rate id row rates; insert_rates more rows

  -- The loop, on the cells of the three columns.
  rate_rows : ℕ → ℕ → ℕ → List (List Text) → List (Text × RateRow)
  rate_rows id value pipe [] = []
  rate_rows id value pipe (row ∷ rows) =
      (get_or row id [], record { value = get_or row value []; pipe = get_or row pipe [] })
      ∷ rate_rows id value pipe rows

  unfoldable pub parse_rates : Text → Result RatesError Rates
  unfolding rate_rows
  parse_rates csv_text = do
    let t = parse_table csv_text
    id ← ok_or (col (codes "row_id") t) (no_column (codes "row_id"))
    value ← ok_or (col (codes "value") t) (no_column (codes "value"))
    pipe ← ok_or (col (codes "pipe") t) (no_column (codes "pipe"))
    insert_rates [] (rate_rows id value pipe t.rows)
