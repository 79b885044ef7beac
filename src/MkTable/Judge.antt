-- ===== src/MkTable/Judge.antt =====
-- The flag, the notes and the prior of a row of the table, in `mk_table` of src/nvidia/mktable.rs.
use calx_mill.Base.{
  ℕ, Bool, not, ◌&&◌, ◌||◌, Option, none, some, inr, List, [], ◌∷◌, ◌++◌, ltb, length, any,
  if◌then◌else◌,
}
use calx_mill.Base.Result.{◌>>=◌, ok_or}
use calx_mill.Base.Text.{Text, codes, text_eq}
use calx_mill.Base.Float.{Float}
use calx_mill.Base.Decimal.{FloatText}
use calx_mill.Base.Groups.{Group, members}
use calx_mill.Csv.Reader.{is_empty}
use calx_mill.Projection.Tables.{lookup}
use calx_mill.MkTable.Median.{median}
use calx_mill.MkTable.Rows.{no_median, Made, Meas, Prior, fval}

pub data Flag : Type 0 where
  fine : Flag
  unverified : Flag
  deviates : Flag

unfoldable pub flag_text : Flag → Text
flag_text fine = codes "ok"
flag_text unverified = codes "UNVERIFIED"
flag_text deviates = codes "DEV>25%"

-- A flag, and the notes that were added with it.
abbrev pub Judged : Type 0
Judged = Flag × List Text

-- The notes of the last measurement that has some.
unfoldable pub last_note : List Meas → Text → Text
last_note [] note = note
last_note (m ∷ grp) note = last_note grp (if is_empty m.notes then note else m.notes)

module _ {F : Type 0} ⦃fl : Float F⦄ where
  unfoldable pub median_of : List F → Made F
  median_of vals = ok_or (median vals) no_median

  unfoldable pub medians : List (Group Text F) → Made (List F)
  unfolding median_of
  medians [] = inr []
  medians (g ∷ gv) = do x ← median_of (members g); more ← medians gv; inr (x ∷ more)

  unfoldable pub within_cv_of : List F → Made F
  unfolding median_of
  within_cv_of [] = inr fl.nought
  within_cv_of (c ∷ cvs) = median_of (c ∷ cvs)

  -- `100.0 * d / value`, or nothing where the value is 0.
  unfoldable pub percent_of : F → F → F
  percent_of d value =
      if fl.eq value fl.nought then fl.nought else fl.div (fl.mul fl.hundred d) value

  -- The difference between the first two devices, in percent of the value.
  unfoldable pub gpu_diff : List F → F → Option F
  gpu_diff (a ∷ b ∷ meds) value = some (percent_of (fl.abs (fl.sub a b)) value)
  gpu_diff _ value = none

  -- Devices are compared where there are two.
  unfoldable pub gpu_diff_of : List (Group Text F) → F → Made (Option F)
  gpu_diff_of [] value = inr none
  gpu_diff_of (g ∷ []) value = inr none
  gpu_diff_of (g ∷ h ∷ gv) value = do meds ← medians (g ∷ h ∷ gv); inr (gpu_diff meds value)

  abbrev pub tenths : ℕ → F
  tenths n = fl.div (fl.of_ℕ n) (fl.of_ℕ 10)

module _ {F : Type 0} ⦃fl : Float F⦄ ⦃ft : FloatText F⦄ where
  -- The variation that a row may have between runs whatever it has within them.
  unfoldable pub floor_of : Text → Text → F
  floor_of kind unit =
      if text_eq kind (codes "time_us")
      then fl.of_ℕ 5
      else if text_eq kind (codes "bandwidth") && text_eq unit (codes "GB/s")
      then tenths 5
      else tenths 1

  unfoldable pub greatest : List F → F → F
  greatest [] hi = hi
  greatest (x ∷ xs) hi = greatest xs (ft.greater hi x)

  unfoldable pub least : List F → F → F
  least [] lo = lo
  least (x ∷ xs) lo = least xs (ft.lesser lo x)

  -- The spread between runs, in percent of the value.
  unfoldable pub spread_of : List F → F → F
  unfolding greatest least
  spread_of vals value =
      percent_of (fl.sub (greatest vals ft.neg_infinity) (least vals ft.infinity)) value

  spread_note : F → F → Text
  spread_note spread within =
      codes "between-run spread "
      ++ (ft.fixed 2 spread
          ++ (codes "% exceeds within-run cv " ++ (ft.fixed 2 within ++ codes "%")))

  unfoldable pub judge_runs : Text → Text → List F → F → F → Judged
  unfolding spread_note
  judge_runs kind unit vals value within =
      if ltb (length vals) 2
      then (unverified, codes "between-run rule unmet (single invocation)" ∷ [])
      else if fl.lt (ft.greater within (floor_of kind unit)) (spread_of vals value)
      then (unverified, spread_note (spread_of vals value) within ∷ [])
      else (fine, [])

  gpu_note : F → Text
  gpu_note diff = codes "GPU0-vs-GPU1 medians differ " ++ (ft.fixed 2 diff ++ codes "%")

  unfoldable pub judge_gpus : Option F → F → Judged → Judged
  unfolding gpu_note
  judge_gpus none within judged = judged
  judge_gpus (some diff) within (flag, extra) =
      if fl.lt (ft.greater (fl.mul (fl.of_ℕ 2) within) (tenths 3)) diff
      then (unverified, extra ++ gpu_note diff ∷ [])
      else (flag, extra)

abbrev pub Priors : Type 0
Priors = List (Text × Prior)

unfoldable pub base_variants : List Text
base_variants = [] ∷ codes "l1hit" ∷ codes "broadcast" ∷ codes "conflict1" ∷ codes "derived" ∷ []

-- Whether a prior of the bare row does not speak of the variant.
unfoldable pub is_other_variant : Text → Text → Bool
unfolding base_variants
is_other_variant kind variant =
    not (is_empty variant)
    && ((text_eq kind (codes "latency_cycles") || text_eq kind (codes "latency_ns"))
        && not (any (λ b. text_eq b variant) base_variants))

unfoldable pub bare_prior : Text → Text → Option Prior → Option Prior
bare_prior kind variant prior = if is_other_variant kind variant then none else prior

-- The prior of the variant, or else that of the row.
unfoldable pub prior_for : Priors → Text → Text → Text → Option Prior
unfolding bare_prior
prior_for priors row_id kind variant = elim (lookup priors (row_id ++ (codes "." ++ variant))) [
  | some p ↦ some p
  | none ↦ bare_prior kind variant (lookup priors row_id)
]

module _ {F : Type 0} ⦃fl : Float F⦄ where
  abbrev pub deviation_of : F → F → F
  deviation_of value pv = fl.div (fl.mul fl.hundred (fl.sub value pv)) pv

  unfoldable pub judge_deviation : F → Flag → Flag
  judge_deviation dev fine = if fl.lt (fl.of_ℕ 25) (fl.abs dev) then deviates else fine
  judge_deviation dev flag = flag

  -- The deviation from the prior, and the flag with it.
  unfoldable pub judge_prior : Option Prior → F → Flag → Made (Option F × Flag)
  unfolding judge_deviation
  judge_prior none value flag = inr (none, flag)
  judge_prior (some p) value flag = do
    pv ← fval F p.prior_value
    inr (some (deviation_of value pv), judge_deviation (deviation_of value pv) flag)
