-- ===== src/Projection/Filled.antt =====
-- `Rates::parse` of src/nvidia/table.rs keeps the peak of the rows of each id.
use mathlib.Core.List.{Memᴰ}
use mathlib.Core.List.Memᴰ.{head, tail}
use mathlib.Core.Option.{some-injective}
use calx_mill.Base.{◌≡◌, inl, inr, refl, sym, ap, ◌∙◌, some, ◌⊎◌, List, [], ◌∷◌, All, Bool-cases}
use calx_mill.Base.Result.{◌>>=◌}
use calx_mill.Base.Text.{Text, text_eq, text_eq_iff}
use calx_mill.Base.Float.{Float, IsOrdered}
use calx_mill.Projection.Rates.{RateRow, Rates, get, insert_rates}
use calx_mill.Projection.Peak.{
  Measured, AtMost, AtMost-trans, Inserted, get-nil, insert_rate-Inserted,
}

-- Of the id of each row, and of each id that was there before, a row is there whose value is not
-- below. What is there is one of the rows, or was there before.
pub record Filled (F : Type 0) ⦃fl : Float F⦄ (start : Rates) (rows : List (Text × RateRow))
    (out : Rates) : Type 0 where
  pub over_rows : All (λ r. (kept : RateRow) × ((get out r.0 ≡ some kept) × AtMost F r.1 kept)) rows
  pub over_start :
      (k : Text) (old : RateRow)
      → get start k ≡ some old
      → Measured F old
      → (kept : RateRow) × ((get out k ≡ some kept) × AtMost F old kept)
  pub from_rows :
      (k : Text) (r : RateRow) → get out k ≡ some r → (get start k ≡ some r) ⊎ Memᴰ (k, r) rows

module _ (F : Type 0) ⦃fl : Float F⦄ (ordered : IsOrdered F) where
  AtMost-Measured : (r s : RateRow) → AtMost F r s → Measured F s
  AtMost-Measured r s (x, y, rx, sy, le) = (y, sy, (ordered.num_of_le x y le).1)

  Filled-nil : (start : Rates) → Filled F start [] start
  Filled-nil start = record {
    over_rows = tt;
    over_start = λ k old h (x, e, num). (old, (h, (x, x, e, e, num)));
    from_rows = λ k r h. inl h;
  }

  Filled-cons :
      (id : Text) (row : RateRow) (rows : List (Text × RateRow)) (start more out : Rates)
      → Inserted F id row start more
      → Filled F more rows out
      → Filled F start ((id, row) ∷ rows) out
  Filled-cons id row rows start more out p f = record {
    over_rows = (
      (let (kept, (e, later)) =
            f.over_start id p.kept p.has_kept (AtMost-Measured row p.kept p.over_row) in
          (kept, (e, AtMost-trans F ordered row p.kept kept p.over_row later))),
      f.over_rows,
    );
    over_start = λ k old h good. elim (Bool-cases (text_eq id k)) [
      | inl same ↦
          let here : get start id ≡ some old = ap (get start) ((text_eq_iff id k).0 same) ∙ h in
          let first : AtMost F old p.kept = p.over_old old here in
          let (kept, (e, later)) =
            f.over_start id p.kept p.has_kept (AtMost-Measured old p.kept first) in
          (
            kept,
            (
              ap (get out) (sym ((text_eq_iff id k).0 same)) ∙ e,
              AtMost-trans F ordered old p.kept kept first later,
            ),
          )
      | inr other ↦ f.over_start k old (p.others k other ∙ h) good
    ];
    from_rows = λ k r h. elim (f.from_rows k r h) [
      | inr mem ↦ inr (tail mem)
      | inl there ↦ elim (Bool-cases (text_eq id k)) [
        | inr other ↦ inl (sym (p.others k other) ∙ there)
        | inl same ↦
            let e : id ≡ k = (text_eq_iff id k).0 same in
            let is_kept : p.kept ≡ r =
              some-injective _ _ (sym p.has_kept ∙ ap (get more) e ∙ there) in
            elim p.is_one [
              | inl new ↦ inr (head (pair_path (sym e) (sym is_kept ∙ new)))
              | inr old ↦ inl (ap (get start) (sym e) ∙ old ∙ ap some is_kept)
            ]
      ]
    ];
  }
    where
      pair_path :
          {a b : Text} {r s : RateRow} → a ≡ b → r ≡ s → ◌≡◌ {A = Text × RateRow} (a, r) (b, s)
      pair_path u v = cc

  insert_rates-Filled :
      (rows : List (Text × RateRow)) (start : Rates)
      → All (λ r. Measured F r.1) rows
      → All (λ r. Measured F r.1) start
      → (out : Rates) × ((insert_rates F start rows ≡ inr out) × Filled F start rows out)
  unfolding insert_rates ◌>>=◌
  insert_rates-Filled [] start all good = (start, (refl, Filled-nil start))
  insert_rates-Filled ((id, row) ∷ rows) start (now, later) good =
      let (more, (e, p)) = insert_rate-Inserted F ordered id row start now good in
      let (out, (ran, f)) = insert_rates-Filled rows more later p.all_measured in
      (out, (rw e ran, Filled-cons id row rows start more out p f))

  -- By the laws of the order, on rows whose values are numbers, the table of the rates has a result,
  -- in which the row of each id is one of the rows of that id, and none of these has a greater value.
  pub insert_rates_peak :
      (rows : List (Text × RateRow))
      → All (λ r. Measured F r.1) rows
      → (out : Rates) × (insert_rates F [] rows ≡ inr out)
        × All (λ r. (kept : RateRow) × ((get out r.0 ≡ some kept) × AtMost F r.1 kept)) rows
        × ((id : Text) (r : RateRow) → get out id ≡ some r → Memᴰ (id, r) rows)
  insert_rates_peak rows all =
      let (out, (ran, f)) = insert_rates-Filled rows [] all tt in
      (
        out,
        ran,
        f.over_rows,
        λ id r h. elim (f.from_rows id r h) [
          | inl old ↦ elim (get-nil F ordered id r old) [ ]
          | inr mem ↦ mem
        ],
      )
