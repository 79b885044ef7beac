-- ===== src/Core/Mix/Additive.antt =====
-- The additive model that `select_bound` reports beside the per-pipe maximum.
use mathlib.Core.List.{foldl}
use calx_mill.Base.{
  ℕ, suc, ◌≡◌, refl, ◌∙◌, ap, false, not, Option, none, some, List, [], ◌∷◌, ◌++◌, map, arith,
  if◌then◌else◌, All, All-append,
}
use calx_mill.Base.Float.{Float}
use calx_mill.Core.Mix.{
  ResourceKind, local_store_bw, memory_bw, issue, same_kind, Demands, pipe_demands, mix_demands,
  add_up, additive, select_bound, project_mix,
}

-- No entry is the issue cap's.
abbrev NoIssue : {F : Type 0} → Demands F → Type 0
NoIssue = All (λ e. same_kind e.0 issue ≡ false)

module _ {F : Type 0} ⦃fl : Float F⦄ where
  open fl use {nought, add, mul, div, lt, eq}

  -- The demands added up from the left, starting at 0.
  pub sum_of : Demands F → F
  sum_of es = foldl add nought (map (λ e. e.1) es)

  foldl-add_up :
      (es : Demands F) (s c : F) (held : Option F)
      → NoIssue es
      → foldl add_up (s, held) (es ++ (issue, c) ∷ [])
        ≡ (foldl add s (map (λ (e : ResourceKind × F). e.1) es), some c)
  unfolding add_up
  foldl-add_up [] s c held h = refl
  foldl-add_up ((k, d) ∷ es) s c held (h, hs) =
      let next : add_up (s, held) (k, d) ≡ (add s d, held) = rw h refl in
      ap (λ (w : F × Option F). foldl add_up w (es ++ (issue, c) ∷ [])) next
      ∙ foldl-add_up es (add s d) c held hs

  select_bound-add :
      (es : Demands F) (c : F)
      → NoIssue es
      → (select_bound (es ++ (issue, c) ∷ [])).add_cycles
        ≡ (if lt nought (sum_of es) then sum_of es else c)
  unfolding select_bound sum_of
  select_bound-add [] c h = refl
  select_bound-add (e ∷ es) c h = ap additive (foldl-add_up (e ∷ es) nought c none h)

  pipe_demands-NoIssue : (n : F) (i : ℕ) (cs : List F) → NoIssue (pipe_demands n i cs)
  unfolding pipe_demands
  pipe_demands-NoIssue n i [] = tt
  pipe_demands-NoIssue n i (c ∷ cs) = (refl, pipe_demands-NoIssue n (suc i) cs)

  -- Every demand of the mix but that of the issue cap.
  pub work_demands : F → List F → F → F → F → Demands F
  work_demands n pipes smem bytes rate =
      pipe_demands n 0 pipes
      ++ (if not (eq smem nought) then (local_store_bw, mul n smem) ∷ [] else [])
      ++ (if not (eq bytes nought) then (memory_bw, div (mul n bytes) rate) ∷ [] else [])

  work_demands-NoIssue :
      (n : F) (pipes : List F) (smem bytes rate : F)
      → NoIssue (work_demands n pipes smem bytes rate)
  unfolding work_demands
  work_demands-NoIssue n pipes smem bytes rate =
      All-append _ _ _
        (All-append _ (pipe_demands n 0 pipes) _ (pipe_demands-NoIssue n 0 pipes) (ground arith))
        (ground arith)

  -- The additive cycles of a projection are the sum of all demands but that of the issue cap, or the
  -- demand of the issue cap if that sum is not positive.
  pub project_mix-add :
      (n : F) (pipes : List F) (smem bytes rate ops cap : F)
      → let sum = sum_of (work_demands n pipes smem bytes rate) in
        (project_mix n pipes smem bytes rate ops cap).add_cycles
        ≡ (if lt nought sum then sum else div (mul n ops) cap)
  unfolding project_mix mix_demands work_demands
  project_mix-add n pipes smem bytes rate ops cap =
      select_bound-add (work_demands n pipes smem bytes rate) (div (mul n ops) cap)
        (work_demands-NoIssue n pipes smem bytes rate)
