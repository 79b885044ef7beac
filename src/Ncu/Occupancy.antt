-- ===== src/Ncu/Occupancy.antt =====
-- Which values `achieved_occupancy` of src/nvidia/ncu.rs reports.
use mathlib.Core.Option.{some-injective}
use mathlib.Core.List.{Memᴰ}
use mathlib.Core.List.Memᴰ.{head, tail}
use mathlib.Core.List.Memᴰ
use calx_mill.Base.{
  ◌≡◌, ◌↔◌, ◌⊎◌, refl, sym, ap, ◌∙◌, inl, inr, Option, none, some, List, [], ◌∷◌, if-both,
  none≢some, false≢true,
}
use calx_mill.Base.Text.{Text, text_eq, text_eq_iff}
use calx_mill.Base.Float.{Float}
use calx_mill.Ncu.Export.{MetricRow, achieved_metric, metric_value, with_value, achieved_occupancy}

module _ {F : Type 0} ⦃fl : Float F⦄ where
  -- A row of the metric whose value is the number.
  Reports : List MetricRow → Text × Text × F → Type 0
  Reports rows e =
      (row : MetricRow) × Memᴰ row rows
      × (row.metric ≡ achieved_metric)
      × ((v : F) × (metric_value row ≡ some v) × (e ≡ (row.launch, row.kernel, v)))

  Reports-tail :
      (row : MetricRow) (rows : List MetricRow) (e : Text × Text × F)
      → Reports rows e
      → Reports (row ∷ rows) e
  unfolding Reports
  Reports-tail row rows e (r, d, m, rest) = (r, tail d, m, rest)

  with_value-mem :
      (row : MetricRow) (o : Option F) (rest : List (Text × Text × F)) (e : Text × Text × F)
      → Memᴰ e (with_value row o rest)
      → ((v : F) × (o ≡ some v) × (e ≡ (row.launch, row.kernel, v))) ⊎ Memᴰ e rest
  unfolding with_value
  with_value-mem row none rest e d = inr d
  with_value-mem row (some v) rest e (head p) = inl (v, refl, p)
  with_value-mem row (some v) rest e (tail d) = inr d

  mem-Reports :
      (rows : List MetricRow) (e : Text × Text × F)
      → Memᴰ e (achieved_occupancy rows)
      → Reports rows e
  unfolding achieved_occupancy Reports
  mem-Reports [] e d = elim (Memᴰ.not-nil d) [ ]
  mem-Reports (row ∷ rows) e d =
      if-both (λ l. Memᴰ e l → Reports (row ∷ rows) e) (text_eq row.metric achieved_metric)
        (λ h d. elim (with_value-mem row (metric_value row) (achieved_occupancy rows) e d) [
          | inl (v, read, p) ↦
              (row, head refl, (text_eq_iff row.metric achieved_metric).0 h, (v, read, p))
          | inr later ↦ Reports-tail row rows e (mem-Reports rows e later)
        ])
        (λ _ d. Reports-tail row rows e (mem-Reports rows e d)) d

  mem-with_value :
      (row : MetricRow) (o : Option F) (rest : List (Text × Text × F)) (e : Text × Text × F)
      → Memᴰ e rest
      → Memᴰ e (with_value row o rest)
  unfolding with_value
  mem-with_value row none rest e d = d
  mem-with_value row (some v) rest e d = tail d

  here-with_value :
      (row : MetricRow) (o : Option F) (v : F) (rest : List (Text × Text × F)) (e : Text × Text × F)
      → o ≡ some v
      → e ≡ (row.launch, row.kernel, v)
      → Memᴰ e (with_value row o rest)
  unfolding with_value
  here-with_value row none v rest e h p = elim (none≢some h) [ ]
  here-with_value row (some w) v rest e h p =
      head (p ∙ ap (λ x. (row.launch, row.kernel, x)) (sym (some-injective _ _ h)))

  Reports-mem :
      (rows : List MetricRow) (e : Text × Text × F)
      → Reports rows e
      → Memᴰ e (achieved_occupancy rows)
  unfolding achieved_occupancy Reports
  Reports-mem [] e (r, d, m, rest) = elim (Memᴰ.not-nil d) [ ]
  Reports-mem (row ∷ rows) e (r, head {xs = l} same, m, (v, read, p)) =
      if-both (λ l. Memᴰ e l) (text_eq row.metric achieved_metric)
        (λ _.
          here-with_value row (metric_value row) v (achieved_occupancy rows) e
            (ap metric_value (sym same) ∙ read)
            (p ∙ ap (λ (q : MetricRow). (q.launch, q.kernel, v)) same))
        (λ other.
          elim (false≢true (
            sym other
            ∙ (text_eq_iff row.metric achieved_metric).1
                (ap (λ (q : MetricRow). q.metric) (sym same) ∙ m))) [ ])
  Reports-mem (row ∷ rows) e (r, tail d, m, rest) =
      let later = Reports-mem rows e (r, d, m, rest) in
      if-both (λ l. Memᴰ e l) (text_eq row.metric achieved_metric)
        (λ _. mem-with_value row (metric_value row) (achieved_occupancy rows) e later) (λ _. later)

  -- The occupancies that are reported are exactly those of the rows of the metric whose value, without
  -- its commas, is a number, each with its launch and its kernel.
  pub achieved_occupancy_iff :
      (rows : List MetricRow) (e : Text × Text × F)
      → Memᴰ e (achieved_occupancy rows) ↔ (
          (row : MetricRow) × Memᴰ row rows
          × (row.metric ≡ achieved_metric)
          × ((v : F) × (metric_value row ≡ some v) × (e ≡ (row.launch, row.kernel, v))))
  unfolding Reports
  achieved_occupancy_iff rows e = (mem-Reports rows e, Reports-mem rows e)
