-- ===== src/Projection/Reported.antt =====
-- What a result of `project` of src/nvidia/projection.rs says of the rates that were not measured.
use mathlib.Core.List.{append-nil}
use calx_mill.Base.{
  ◌≡◌, ◌⊎◌, refl, sym, ap, ◌∙◌, inl, inr, Option, none, some, List, [], ◌∷◌, ◌++◌, if-both,
}
use calx_mill.Base.Result.{Ensures, Ensures-inr, Ensures-from, ensures, ensured}
use calx_mill.Base.Text.{Text, codes}
use calx_mill.Base.Float.{Float}
use calx_mill.Projection.Census.{Census}
use calx_mill.Projection.Rates.{RateRow, Rates, get}
use calx_mill.Projection.Demand.{ProjectPanic, Demand}
use calx_mill.Projection.Project.{
  MemClass, no_memory, dram, l1, ProjectResult, no_demand, l1_row, l1_budget, class_budget,
  budget_of, named, project,
}
use calx_mill.Projection.Flagged.{flagged, Totals, project_ops-Totals}

abbrev pub l1_mark : Text
l1_mark = codes "mem.l1.bw(default32)"

-- Nothing, or the mark of the L1's default, which the rates then have no row for.
unfoldable pub IsBudgetMark : Rates → List Text → Type 0
IsBudgetMark rates rest =
    (rest ≡ []) ⊎ ((rest ≡ l1_mark ∷ []) × (get rates (codes "mem.l1.bw") ≡ none))

-- A list of marks, extended by that of the budget.
Marks : Rates → List Text → List Text → Type 0
Marks rates names more = (rest : List Text) × ((more ≡ names ++ rest) × IsBudgetMark rates rest)

Marks-none : (rates : Rates) (names : List Text) → Marks rates names names
unfolding Marks IsBudgetMark
Marks-none rates names = ([], (sym (append-nil names), inl refl))

module _ (F : Type 0) ⦃fl : Float F⦄ where
  l1_row-Marks :
      (rates : Rates) (o : Option RateRow) (names : List Text)
      → get rates (codes "mem.l1.bw") ≡ o
      → Ensures (λ b. Marks rates names b.1) (l1_row {F = F} o names)
  unfolding l1_row Marks IsBudgetMark
  l1_row-Marks rates none names e =
      Ensures-inr ProjectPanic _ _ (l1_mark ∷ [], (refl, inr (refl, e)))
  l1_row-Marks rates (some r) names e =
      ensures _ _ _ (λ x. Ensures-inr ProjectPanic _ _ (Marks-none rates names))

  class_budget-Marks :
      (mem_class : MemClass) (budget : F) (rates : Rates) (names : List Text)
      → Ensures (λ b. Marks rates names b.1) (class_budget mem_class budget rates names)
  unfolding class_budget l1_budget
  class_budget-Marks dram budget rates names = Ensures-inr ProjectPanic _ _ (Marks-none rates names)
  class_budget-Marks no_memory budget rates names = l1_row-Marks rates _ names refl
  class_budget-Marks l1 budget rates names = l1_row-Marks rates _ names refl

  budget_of-Marks :
      (mem_class : MemClass) (budget : F) (rates : Rates) (d : Demand F)
      → Ensures (λ b. Marks rates d.defaulted b.1) (budget_of mem_class budget rates d)
  unfolding budget_of
  budget_of-Marks mem_class budget rates d =
      if-both (Ensures (λ b. Marks rates d.defaulted b.1)) (fl.eq d.bytes fl.nought)
        (λ _. Ensures-inr ProjectPanic _ _ (Marks-none rates d.defaulted))
        (λ _. class_budget-Marks mem_class budget rates d.defaulted)

  pub project_flags :
      (census : Census) (warps : F) (mem_class : MemClass) (rates : Rates) (dram_budget : F)
      → (r : ProjectResult F) → project census warps mem_class rates dram_budget ≡ inr r
      → (rest : List Text) × (r.defaulted ≡ flagged rates census ++ rest) × IsBudgetMark rates rest
  unfolding project Totals Marks no_demand named
  project_flags census warps mem_class rates dram_budget r h =
      ensured
        (λ (r : ProjectResult F).
          (rest : List Text) × (r.defaulted ≡ flagged rates census ++ rest)
          × IsBudgetMark rates rest)
        _
        (Ensures-from (Totals rates census no_demand) _ _ _
          (project_ops-Totals rates census no_demand)
          (λ d (names, _).
            Ensures-from (λ b. Marks rates d.defaulted b.1) _ _ _
              (budget_of-Marks mem_class dram_budget rates d)
              (λ b (rest, (e, mark)).
                Ensures-inr ProjectPanic _ _
                  (rest, e ∙ ap (λ (l : List Text). l ++ rest) names, mark))))
        h
