-- ===== src/Projection/Peak.antt =====
-- What the rates of src/nvidia/table.rs keep of a table's rows.
use mathlib.Core.Path.{subst}
use mathlib.Core.Option.{some-injective}
use calx_mill.Base.{
  ◌≡◌, inl, inr, refl, sym, ap, ◌∙◌, true, false, some, ◌⊎◌, [], ◌∷◌, All, if-both, Bool-cases,
  none≢some, false≢true,
}
use calx_mill.Base.Result.{Result, ◌>>=◌, ok_or}
use calx_mill.Base.Text.{Text, text_eq, text_eq_iff}
use calx_mill.Base.Float.{Float, ◌≼◌, IsNum, IsOrdered}
use calx_mill.Projection.Rates.{
  RateRow, Rates, get, RatesError, parse_value, keep_peak, insert_rate,
}

module _ (F : Type 0) ⦃fl : Float F⦄ where
  -- The value is a number.
  abbrev pub Measured : RateRow → Type 0
  Measured r = (x : F) × (fl.parse r.value ≡ some x) × IsNum x

  -- The value of the first row is at most that of the second.
  abbrev pub AtMost : RateRow → RateRow → Type 0
  AtMost r s = (x y : F) × (fl.parse r.value ≡ some x) × (fl.parse s.value ≡ some y) × (x ≼ y)

  -- The row that is kept of two: one of them, and neither has a greater value.
  record Kept (existing row kept : RateRow) : Type 0 where
    pub is_one : (kept ≡ row) ⊎ (kept ≡ existing)
    pub is_measured : Measured kept
    pub over_existing : AtMost existing kept
    pub over_row : AtMost row kept

  -- An insertion changes the row of its id only.
  pub record Inserted (id : Text) (row : RateRow) (rates more : Rates) : Type 0 where
    pub all_measured : All (λ r. Measured r.1) more
    pub kept : RateRow
    pub has_kept : get more id ≡ some kept
    pub over_row : AtMost row kept
    pub is_one : (kept ≡ row) ⊎ (get rates id ≡ some kept)
    pub over_old : (old : RateRow) → get rates id ≡ some old → AtMost old kept
    pub others : (k : Text) → text_eq id k ≡ false → get more k ≡ get rates k

  AtMost-self : (r : RateRow) → Measured r → AtMost r r
  AtMost-self r (x, e, num) = (x, x, e, e, num)

module _ (F : Type 0) ⦃fl : Float F⦄ (ordered : IsOrdered F) where
  pub AtMost-trans : (r s t : RateRow) → AtMost F r s → AtMost F s t → AtMost F r t
  AtMost-trans r s t (x, y, rx, sy, le) (u, z, su, tz, later) = (
    x,
    z,
    rx,
    tz,
    ordered.le_trans x y z le (subst (λ w. w ≼ z) (some-injective _ _ (sym su ∙ sy)) later),
  )

  keep_peak-Kept :
      (id : Text) (existing row : RateRow)
      → Measured F existing
      → Measured F row
      → (kept : RateRow) × ((keep_peak F id existing row ≡ inr kept) × Kept F existing row kept)
  unfolding keep_peak parse_value ok_or ◌>>=◌
  keep_peak-Kept id existing row (x, ex, x_num) (y, ey, y_num) =
      rw (ex, ey)
        (if-both
          (λ b.
            (kept : RateRow) × ((◌≡◌ {A = Result RatesError RateRow} (inr b) (inr kept))
              × Kept F existing row kept))
          (fl.le y x)
          (λ le. (
            existing,
            (
              refl,
              record {
                is_one = inr refl;
                is_measured = (x, ex, x_num);
                over_existing = (x, x, ex, ex, x_num);
                over_row = (y, x, ey, ex, le);
              },
            ),
          ))
          (λ not_le. (
            row,
            (
              refl,
              record {
                is_one = inl refl;
                is_measured = (y, ey, y_num);
                over_existing = (
                  x,
                  y,
                  ex,
                  ey,
                  elim (ordered.le_total x y x_num y_num) [
                    | inl le ↦ le
                    | inr le ↦ elim (false≢true (sym not_le ∙ le)) [ ]
                  ],
                );
                over_row = (y, y, ey, ey, y_num);
              },
            ),
          )))

  pub get-nil : (id : Text) (old : RateRow) → ¬ (get [] id ≡ some old)
  unfolding get
  get-nil id old h = none≢some h

  get-here :
      (k id : Text) (r : RateRow) (rates : Rates)
      → text_eq k id ≡ true
      → get ((k, r) ∷ rates) id ≡ some r
  unfolding get
  get-here k id r rates h = rw h refl

  get-there :
      (k id : Text) (r : RateRow) (rates : Rates)
      → text_eq k id ≡ false
      → get ((k, r) ∷ rates) id ≡ get rates id
  unfolding get
  get-there k id r rates h = rw h refl

  Inserted-new :
      (id : Text) (row : RateRow) → Measured F row → Inserted F id row [] ((id, row) ∷ [])
  Inserted-new id row good = record {
    all_measured = (good, tt);
    kept = row;
    has_kept = get-here id id row [] ((text_eq_iff id id).1 refl);
    over_row = AtMost-self F row good;
    is_one = inl refl;
    over_old = λ old h. elim (get-nil id old h) [ ];
    others = λ k other. get-there id k row [] other;
  }

  Inserted-same :
      (k id : Text) (row existing kept : RateRow) (rates : Rates)
      → text_eq k id ≡ true
      → All (λ r. Measured F r.1) rates
      → Kept F existing row kept
      → Inserted F id row ((k, existing) ∷ rates) ((k, kept) ∷ rates)
  Inserted-same k id row existing kept rates same later p = record {
    all_measured = (p.is_measured, later);
    kept = kept;
    has_kept = get-here k id kept rates same;
    over_row = p.over_row;
    is_one = elim p.is_one [
      | inl e ↦ inl e
      | inr e ↦ inr (get-here k id existing rates same ∙ ap some (sym e))
    ];
    over_old = λ old h.
        subst (λ r. AtMost F r kept)
          (some-injective _ _ (sym (get-here k id existing rates same) ∙ h)) p.over_existing;
    others = λ j other.
        let apart : text_eq k j ≡ false =
          subst (λ t. text_eq t j ≡ false) (sym ((text_eq_iff k id).0 same)) other in
        get-there k j kept rates apart ∙ sym (get-there k j existing rates apart);
  }

  Inserted-later :
      (k id : Text) (row existing : RateRow) (rates more : Rates)
      → text_eq k id ≡ false
      → Measured F existing
      → Inserted F id row rates more
      → Inserted F id row ((k, existing) ∷ rates) ((k, existing) ∷ more)
  Inserted-later k id row existing rates more apart good p = record {
    all_measured = (good, p.all_measured);
    kept = p.kept;
    has_kept = get-there k id existing more apart ∙ p.has_kept;
    over_row = p.over_row;
    is_one = elim p.is_one [
      | inl e ↦ inl e
      | inr e ↦ inr (get-there k id existing rates apart ∙ e)
    ];
    over_old = λ old h. p.over_old old (sym (get-there k id existing rates apart) ∙ h);
    others = λ j other. elim (Bool-cases (text_eq k j)) [
      | inl here ↦ get-here k j existing more here ∙ sym (get-here k j existing rates here)
      | inr there ↦
          get-there k j existing more there
          ∙ p.others j other
          ∙ sym (get-there k j existing rates there)
    ];
  }

  pub insert_rate-Inserted :
      (id : Text) (row : RateRow) (rates : Rates)
      → Measured F row
      → All (λ r. Measured F r.1) rates
      → (more : Rates) × ((insert_rate F id row rates ≡ inr more) × Inserted F id row rates more)
  unfolding insert_rate ◌>>=◌
  insert_rate-Inserted id row [] good all = ((id, row) ∷ [], (refl, Inserted-new id row good))
  insert_rate-Inserted id row ((k, existing) ∷ rates) good (now, later) =
      elim (Bool-cases (text_eq k id)) [
        | inl same ↦
            let (kept, (e, p)) = keep_peak-Kept id existing row now good in
            (
              (k, kept) ∷ rates,
              (rw (same, e) refl, Inserted-same k id row existing kept rates same later p),
            )
        | inr apart ↦
            let (more, (e, p)) = insert_rate-Inserted id row rates good later in
            (
              (k, existing) ∷ more,
              (rw (apart, e) refl, Inserted-later k id row existing rates more apart now p),
            )
      ]
