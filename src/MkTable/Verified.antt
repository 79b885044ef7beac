-- ===== src/MkTable/Verified.antt =====
-- When a row of the table of src/nvidia/mktable.rs is published without a flag.
use mathlib.Core.Path.{subst}
use mathlib.Core.List.{foldl}
use calx_mill.Base.{
  ◌≡◌, ◌≢◌, ◌≤◌, ◌↔◌, ◌⊎◌, ◌&&◌, refl, sym, ap, ◌∙◌, inl, inr, false≢true, true, false, Option,
  none, some, List, [], ◌∷◌, ltb, length, arith, if-both,
}
use calx_mill.Base.Result.{inr_back, bind-inr, ok_or-inr}
use calx_mill.Base.Scan.{both_iff}
use calx_mill.Base.Text.{Text, codes, text_eq, text_eq_iff}
use calx_mill.Base.Float.{Float, IsOrdered}
use calx_mill.Base.Decimal.{FloatText}
use calx_mill.Base.Groups.{Group, members}
use calx_mill.MkTable.Middle.{MedianOf, median-MedianOf}
use calx_mill.MkTable.PriorOf.{PriorOf, prior_for-PriorOf}
use calx_mill.MkTable.Rows.{fval, Meas, Prior}
use calx_mill.MkTable.Values.{Values}
use calx_mill.MkTable.Judge.{
  Flag, fine, unverified, deviates, Judged, median_of, medians, within_cv_of, percent_of, gpu_diff,
  gpu_diff_of, greatest, least, floor_of, spread_of, judge_runs, judge_gpus, judge_deviation,
  judge_prior, deviation_of, tenths, Priors, prior_for,
}
use calx_mill.MkTable.Table.{Row, row_of}

unverified≢fine : unverified ≢ fine
unverified≢fine h = cc

deviates≢fine : deviates ≢ fine
deviates≢fine h = cc

module _ {F : Type 0} ⦃fl : Float F⦄ ⦃ft : FloatText F⦄ where
  -- A part of the value, in percent, or nothing where the value is 0.
  abbrev pub Percent : F → F → F → Type 0
  Percent d value p =
      ((fl.eq value fl.nought ≡ true) × (p ≡ fl.nought))
      ⊎ ((fl.eq value fl.nought ≡ false) × (p ≡ fl.div (fl.mul fl.hundred d) value))

  -- The difference between the greatest and the least of the values, in percent of the value.
  abbrev pub Spread : List F → F → F → Type 0
  Spread vals value p =
      Percent (fl.sub (foldl ft.greater ft.neg_infinity vals) (foldl ft.lesser ft.infinity vals))
        value p

  -- The variation between runs that a row of a kind may have whatever it has within them: 5 percent
  -- of a time, 0.5 percent of a bandwidth in GB/s, and else 0.1 percent.
  abbrev pub Floor : Text → Text → F → Type 0
  Floor kind unit x =
      ((kind ≡ codes "time_us") × (x ≡ fl.of_ℕ 5))
      ⊎ ((kind ≢ codes "time_us")
          × (((kind ≡ codes "bandwidth") × (unit ≡ codes "GB/s"))
              × (x ≡ fl.div (fl.of_ℕ 5) (fl.of_ℕ 10))))
      ⊎ ((kind ≢ codes "time_us")
          × ((¬ ((kind ≡ codes "bandwidth") × (unit ≡ codes "GB/s")))
              × (x ≡ fl.div (fl.of_ℕ 1) (fl.of_ℕ 10))))

  percent_of-Percent : (d value : F) → Percent d value (percent_of d value)
  unfolding percent_of
  percent_of-Percent d value =
      if-both (Percent d value) (fl.eq value fl.nought) (λ e. inl (e, refl)) (λ e. inr (e, refl))

  greatest-foldl : (vals : List F) (hi : F) → greatest vals hi ≡ foldl ft.greater hi vals
  unfolding greatest
  greatest-foldl [] hi = refl
  greatest-foldl (x ∷ xs) hi = greatest-foldl xs (ft.greater hi x)

  least-foldl : (vals : List F) (lo : F) → least vals lo ≡ foldl ft.lesser lo vals
  unfolding least
  least-foldl [] lo = refl
  least-foldl (x ∷ xs) lo = least-foldl xs (ft.lesser lo x)

  spread_of-Spread : (vals : List F) (value : F) → Spread vals value (spread_of vals value)
  unfolding spread_of
  spread_of-Spread vals value =
      subst
        (λ d.
          Percent d value
            (percent_of (fl.sub (greatest vals ft.neg_infinity) (least vals ft.infinity)) value))
        (ap (λ x. fl.sub x (least vals ft.infinity)) (greatest-foldl vals ft.neg_infinity)
          ∙ ap (fl.sub _) (least-foldl vals ft.infinity))
        (percent_of-Percent _ value)

  floor_of-Floor : (kind unit : Text) → Floor kind unit (floor_of kind unit)
  unfolding floor_of
  floor_of-Floor kind unit =
      let bandwidth =
        both_iff (text_eq_iff kind (codes "bandwidth")) (text_eq_iff unit (codes "GB/s")) in
      if-both (Floor kind unit) (text_eq kind (codes "time_us"))
        (λ e. inl ((text_eq_iff kind (codes "time_us")).0 e, refl))
        (λ e.
          let other : kind ≢ codes "time_us" =
            λ same. false≢true (sym e ∙ (text_eq_iff kind (codes "time_us")).1 same) in
          if-both (Floor kind unit)
            (text_eq kind (codes "bandwidth") && text_eq unit (codes "GB/s"))
            (λ b. inr (inl (other, (bandwidth.0 b, refl))))
            (λ b. inr (inr (other, (λ both. false≢true (sym b ∙ bandwidth.1 both), refl)))))

  -- There are at least two runs, and they spread no further than the variation within them, or the
  -- floor of the kind, allows.
  abbrev pub RunsAgree : List F → F → F → F → Type 0
  RunsAgree vals within spread floor =
      (2 ≤ length vals) × (fl.lt (ft.greater within floor) spread ≡ false)

  -- There are not two devices, or they differ no further than twice that variation allows, or 0.3
  -- percent.
  abbrev pub GpusAgree : Option F → F → Type 0
  GpusAgree diff within =
      (diff ≡ none)
      ⊎ ((d : F) × (diff ≡ some d)
          × (fl.lt (ft.greater (fl.mul (fl.of_ℕ 2) within) (fl.div (fl.of_ℕ 3) (fl.of_ℕ 10))) d
              ≡ false))

  judge_runs_iff :
      (kind unit : Text) (vals : List F) (value within : F)
      → ((judge_runs kind unit vals value within).0 ≡ fine)
        ↔ RunsAgree vals within (spread_of vals value) (floor_of kind unit)
  unfolding judge_runs
  judge_runs_iff kind unit vals value within =
      if-both
        (λ (j : Judged).
          (j.0 ≡ fine) ↔ RunsAgree vals within (spread_of vals value) (floor_of kind unit))
        (ltb (length vals) 2)
        (λ few. (λ h. elim (unverified≢fine h) [ ], λ (two, _). absurd (ground (arith, few, two))))
        (λ enough.
          if-both
            (λ (j : Judged).
              (j.0 ≡ fine) ↔ RunsAgree vals within (spread_of vals value) (floor_of kind unit))
            (fl.lt (ft.greater within (floor_of kind unit)) (spread_of vals value))
            (λ wide. (λ h. elim (unverified≢fine h) [ ], λ (_, narrow). cc))
            (λ narrow. (λ _. (ground (arith, enough), narrow), λ _. refl)))

  judge_gpus_iff :
      (diff : Option F) (within : F) (judged : Judged)
      → ((judge_gpus diff within judged).0 ≡ fine) ↔ ((judged.0 ≡ fine) × GpusAgree diff within)
  unfolding judge_gpus
  judge_gpus_iff none within judged = (λ h. (h, inl refl), λ (h, _). h)
  judge_gpus_iff (some d) within (flag, extra) =
      if-both (λ (j : Judged). (j.0 ≡ fine) ↔ ((flag ≡ fine) × GpusAgree (some d) within))
        (fl.lt (ft.greater (fl.mul (fl.of_ℕ 2) within) (tenths 3)) d)
        (λ wide. (
          λ h. elim (unverified≢fine h) [ ],
          λ (_, agree). elim agree [ inl e ↦ cc | inr (x, e, close) ↦ cc ],
        ))
        (λ close. (λ h. (h, inr (d, refl, close)), λ (h, _). h))

  -- There is no prior, or the value deviates from it by at most 25 percent.
  abbrev pub PriorAgrees : Option F → Type 0
  PriorAgrees deviation =
      (deviation ≡ none)
      ⊎ ((dev : F) × (deviation ≡ some dev) × (fl.lt (fl.of_ℕ 25) (fl.abs dev) ≡ false))

  judge_deviation_iff :
      (dev : F) (flag : Flag)
      → (judge_deviation dev flag ≡ fine) ↔ ((flag ≡ fine) × PriorAgrees (some dev))
  unfolding judge_deviation
  judge_deviation_iff dev fine =
      if-both (λ (f : Flag). (f ≡ fine) ↔ ((◌≡◌ {A = Flag} fine fine) × PriorAgrees (some dev)))
        (fl.lt (fl.of_ℕ 25) (fl.abs dev))
        (λ far. (
          λ h. elim (deviates≢fine h) [ ],
          λ (_, agree). elim agree [ inl e ↦ cc | inr (x, e, close) ↦ cc ],
        ))
        (λ close. (λ _. (refl, inr (dev, refl, close)), λ _. refl))
  judge_deviation_iff dev unverified = (λ h. cc, λ (h, _). h)
  judge_deviation_iff dev deviates = (λ h. cc, λ (h, _). h)

  judge_prior_iff :
      (o : Option Prior) (value : F) (flag : Flag) (found : Option F × Flag)
      → judge_prior o value flag ≡ inr found
      → (found.1 ≡ fine) ↔ ((flag ≡ fine) × PriorAgrees found.0)
  unfolding judge_prior
  judge_prior_iff none value flag found h =
      subst (λ (f : Option F × Flag). (f.1 ≡ fine) ↔ ((flag ≡ fine) × PriorAgrees f.0)) (inr_back h)
        (λ k. (k, inl refl), λ (k, _). k)
  judge_prior_iff (some p) value flag found h =
      let (pv, (_, last)) = bind-inr _ _ h in
      subst (λ (f : Option F × Flag). (f.1 ≡ fine) ↔ ((flag ≡ fine) × PriorAgrees f.0))
        (inr_back last) (judge_deviation_iff (deviation_of value pv) flag)

  -- The value deviates from the prior, where there is one, by so many percent of the prior.
  abbrev pub Deviates : Option Prior → F → Option F → Type 0
  Deviates none value deviation = deviation ≡ none
  Deviates (some p) value deviation =
      (pv : F) × (fl.parse p.prior_value ≡ some pv)
      × (deviation ≡ some (fl.div (fl.mul fl.hundred (fl.sub value pv)) pv))

  judge_prior-Deviates :
      (o : Option Prior) (value : F) (flag : Flag) (found : Option F × Flag)
      → judge_prior o value flag ≡ inr found
      → Deviates o value found.0
  unfolding judge_prior fval
  judge_prior-Deviates none value flag found h =
      ap (λ (f : Option F × Flag). f.0) (sym (inr_back h))
  judge_prior-Deviates (some p) value flag found h =
      let (pv, (read, last)) = bind-inr _ _ h in
      (pv, ok_or-inr _ _ read, ap (λ (f : Option F × Flag). f.0) (sym (inr_back last)))

  -- The devices' difference: of the medians of the first two, in percent of the value.
  pub data GpuDiff (value : F) : List (Group Text F) → Option F → Type 0 where
    no_device : GpuDiff value [] none
    one_device : {g : Group Text F} → GpuDiff value (g ∷ []) none
    devices :
        {g h : Group Text F} {gv : List (Group Text F)} {x y p : F}
        → MedianOf (members g) x
        → MedianOf (members h) y
        → Percent (fl.abs (fl.sub x y)) value p
        → GpuDiff value (g ∷ h ∷ gv) (some p)

  -- The variation within the runs: the median of the variations, or 0 where there is none.
  abbrev pub WithinCv : List F → F → Type 0
  WithinCv [] x = x ≡ fl.nought
  WithinCv (c ∷ cvs) x = MedianOf (c ∷ cvs) x

  -- What a row that is published without a flag has met.
  pub record IsVerified (vals : Values F) (row : Row F) (spread floor : F) (diff : Option F)
      : Type 0 where
    pub runs_agree : RunsAgree vals.run_vals row.within_cv spread floor
    pub gpus_agree : GpusAgree diff row.within_cv
    pub prior_agrees : PriorAgrees row.deviation

  -- What a row is judged by: its median and the variation within its runs, the spread between them and
  -- what its kind allows, the difference of the devices and the deviation from the prior.
  pub record Judgement (priors : Priors) (row_id kind unit : Text) (vals : Values F) (row : Row F)
      : Type 0 where
    pub spread : F
    pub floor : F
    pub diff : Option F
    pub prior : Option Prior
    pub is_median : MedianOf vals.run_vals row.value
    pub is_within : WithinCv vals.cvs row.within_cv
    pub is_spread : Spread vals.run_vals row.value spread
    pub is_floor : Floor kind unit floor
    pub is_diff : GpuDiff row.value vals.gpu_vals diff
    pub is_prior : PriorOf priors row_id kind vals.variant prior
    pub is_deviation : Deviates prior row.value row.deviation
    pub fine_iff : (row.flag ≡ fine) ↔ IsVerified vals row spread floor diff

  IsVerified-iff :
      (prior : Option Prior) (kind unit : Text) (vals : Values F) (diff : Option F) (row : Row F)
      → judge_prior prior row.value
          (judge_gpus diff row.within_cv
            (judge_runs kind unit vals.run_vals row.value row.within_cv)).0
        ≡ inr (row.deviation, row.flag)
      → (row.flag ≡ fine)
        ↔ IsVerified vals row (spread_of vals.run_vals row.value) (floor_of kind unit) diff
  IsVerified-iff prior kind unit vals diff row judged =
      let by_prior = judge_prior_iff prior row.value _ (row.deviation, row.flag) judged in
      let by_gpus =
        judge_gpus_iff diff row.within_cv
          (judge_runs kind unit vals.run_vals row.value row.within_cv) in
      let by_runs = judge_runs_iff kind unit vals.run_vals row.value row.within_cv in
      (
        λ h.
            let (g, p) = by_prior.0 h in
            let (r, q) = by_gpus.0 g in
            record { runs_agree = by_runs.0 r; gpus_agree = q; prior_agrees = p },
        λ v. by_prior.1 (by_gpus.1 (by_runs.1 v.runs_agree, v.gpus_agree), v.prior_agrees),
      )

  module _ (o : IsOrdered F) where
    median_of-MedianOf : (vals : List F) (x : F) → median_of vals ≡ inr x → MedianOf vals x
    unfolding median_of
    median_of-MedianOf vals x h = median-MedianOf o vals x (ok_or-inr _ _ h)

    within_cv_of-WithinCv : (cvs : List F) (x : F) → within_cv_of cvs ≡ inr x → WithinCv cvs x
    unfolding within_cv_of
    within_cv_of-WithinCv [] x h = sym (inr_back h)
    within_cv_of-WithinCv (c ∷ cvs) x h = median_of-MedianOf (c ∷ cvs) x h

    gpu_diff_of-GpuDiff :
        (gv : List (Group Text F)) (value : F) (diff : Option F)
        → gpu_diff_of gv value ≡ inr diff
        → GpuDiff value gv diff
    unfolding gpu_diff_of medians gpu_diff
    gpu_diff_of-GpuDiff [] value diff h = subst (GpuDiff value []) (inr_back h) no_device
    gpu_diff_of-GpuDiff (g ∷ []) value diff h =
        subst (GpuDiff value (g ∷ [])) (inr_back h) one_device
    gpu_diff_of-GpuDiff (g ∷ h ∷ gv) value diff e =
        let (meds, (all, last)) = bind-inr _ _ e in
        let (x, (left, rest)) = bind-inr _ _ all in
        let (more, (others, joined)) = bind-inr _ _ rest in
        let (y, (right, rest2)) = bind-inr _ _ others in
        let (tails, (_, joined2)) = bind-inr _ _ rest2 in
        subst (GpuDiff value (g ∷ h ∷ gv))
          (ap (λ l. gpu_diff (x ∷ l) value) (inr_back joined2)
            ∙ ap (λ l. gpu_diff l value) (inr_back joined)
            ∙ inr_back last)
          (devices (median_of-MedianOf (members g) x left) (median_of-MedianOf (members h) y right)
            (percent_of-Percent (fl.abs (fl.sub x y)) value))

    -- A row that is published has the median of its runs as its value and the median of the variations
    -- within them as its own. Its deviation is from the prior of its variant, or of the row where that
    -- speaks of the variant, and there is none without such a prior. Its flag is `ok` exactly when
    -- there are two runs or more that spread no further than allowed, two devices, where there are two,
    -- whose medians differ no further than allowed, and a deviation, where there is one, of at most 25
    -- percent. Of the numbers it is assumed that they are ordered.
    pub row_of-IsVerified :
        (priors : Priors) (row_id kind unit : Text) (grp : List Meas) (vals : Values F)
        (row : Row F)
        → row_of priors row_id kind unit grp vals ≡ inr row
        → Judgement priors row_id kind unit vals row
    unfolding row_of
    row_of-IsVerified priors row_id kind unit grp vals row h =
        let (value, (middle, h1)) = bind-inr _ _ h in
        let (within, (varied, h2)) = bind-inr _ _ h1 in
        let (diff, (apart, h3)) = bind-inr _ _ h2 in
        let (found, (judged, last)) = bind-inr _ _ h3 in
        let prior = prior_for priors row_id kind vals.variant in
        subst (Judgement priors row_id kind unit vals) (inr_back last) (record {
          spread = spread_of vals.run_vals value;
          floor = floor_of kind unit;
          diff = diff;
          prior = prior;
          is_median = median_of-MedianOf vals.run_vals value middle;
          is_within = within_cv_of-WithinCv vals.cvs within varied;
          is_spread = spread_of-Spread vals.run_vals value;
          is_floor = floor_of-Floor kind unit;
          is_diff = gpu_diff_of-GpuDiff vals.gpu_vals value diff apart;
          is_prior = prior_for-PriorOf priors row_id kind vals.variant;
          is_deviation = judge_prior-Deviates prior value _ found judged;
          fine_iff = IsVerified-iff prior kind unit vals diff _ judged;
        })
