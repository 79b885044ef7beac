-- ===== src/Cli/Launch.antt =====
-- When the `ptxas` command of src/main.rs accepts a launch.
use mathlib.Core.Path.{subst}
use calx_mill.Base.{
  ℕ, ◌≡◌, ◌≢◌, ◌↔◌, ◌⊎◌, refl, ap, ◌∙◌, true, Option, none, some, inl, inr, List, [], ◌∷◌, map, All,
  arith,
}
use calx_mill.Base.Result.{inr_back, ◌>>=◌, bind-inr, inr-bind}
use calx_mill.Base.Text.{Text, codes}
use calx_mill.Core.Block.{cooperative_fits}
use calx_mill.Ptxas.Usage.{KernelUsage, tu102_sm, block}
use calx_mill.Ptxas.Report.{parse_ptxas_v}
use calx_mill.Base.Float.{Float}
use calx_mill.Base.Decimal.{FloatText}
use calx_mill.Projection.Tables.{lookup}
use calx_mill.Cli.Run.{run_command, run, main}
use calx_mill.Cli.Ends.{exit_of-zero, ptxas-Small}
use calx_mill.Cli.Args.{Args, parse}
use calx_mill.Cli.Command.{World}
use calx_mill.Cli.Opened.{args_of-inr, only-inr, read-inr, inr-args_of, inr-only, inr-read}
use calx_mill.Cli.Kernels.{
  ptxas_flags, Launch, checked_launch, with_grid, launch_of, grid_report, grid_of, KernelReport,
  kernel_report, fits_of, all_fit, fit_code, kernel_reports, ptxas_command,
}

-- Of the threads and the grid of a launch: without a grid nothing has to fit. With one, the threads
-- of a block are given, and the grid is resident at once.
abbrev ResidentAt : Launch → KernelUsage → Option ℕ → Option ℕ → Type 0
ResidentAt l k threads grid =
    (grid ≡ none)
    ⊎ ((g t : ℕ) × (grid ≡ some g)
        × (threads ≡ some t)
        × (cooperative_fits tu102_sm (block k t l.block_smem) g l.instances ≡ true))

abbrev pub Resident : Launch → KernelUsage → Type 0
Resident l k = ResidentAt l k l.block_threads l.grid_blocks

-- A launch that was read: a grid comes with the threads of a block.
abbrev CompleteAt : Option ℕ → Option ℕ → Type 0
CompleteAt threads grid = (grid ≡ none) ⊎ ((t : ℕ) × (threads ≡ some t))

with_grid-Complete :
    (l m : Launch) (grid threads : Option ℕ)
    → with_grid l grid threads ≡ inr m
    → CompleteAt threads grid × (l ≡ m)
unfolding with_grid
with_grid-Complete l m none threads h = (inl refl, inr_back h)
with_grid-Complete l m (some g) none h = cc
with_grid-Complete l m (some g) (some t) h = (inr (t, refl), inr_back h)

launch_of-Complete :
    (args : Args) (l : Launch) → launch_of args ≡ inr l → CompleteAt l.block_threads l.grid_blocks
unfolding launch_of checked_launch
launch_of-Complete args l h =
    let (_, (_, h1)) = bind-inr _ _ h in
    let (_, (_, h2)) = bind-inr _ _ h1 in
    let (_, (_, h3)) = bind-inr _ _ h2 in
    let (_, (_, h4)) = bind-inr _ _ h3 in
    let (c, e) = with_grid-Complete _ l _ _ h4 in
    subst (λ m. CompleteAt m.block_threads m.grid_blocks) e c

module _ (l : Launch) where
  resident_iff :
      (k : KernelUsage) (threads grid : Option ℕ)
      → CompleteAt threads grid
      → (fits_of (grid_of k l threads grid) ≡ true) ↔ ResidentAt l k threads grid
  unfolding grid_of fits_of grid_report
  resident_iff k none none c = (λ _. inl refl, λ _. refl)
  resident_iff k none (some g) c = elim c [ inl e ↦ cc | inr (t, e) ↦ cc ]
  resident_iff k (some t) none c = (λ _. inl refl, λ _. refl)
  resident_iff k (some t) (some g) c =
      (λ e. inr (g, t, refl, refl, e), λ r. elim r [ inl e ↦ cc | inr (h, u, e, f, fits) ↦ cc ])

  all_fit_iff :
      (ks : List KernelUsage)
      → CompleteAt l.block_threads l.grid_blocks
      → (all_fit (map (kernel_report l) ks) ≡ true) ↔ All (Resident l) ks
  unfolding all_fit kernel_report
  all_fit_iff [] c = (λ _. tt, λ _. refl)
  all_fit_iff (k ∷ ks) c =
      let one = resident_iff k l.block_threads l.grid_blocks c in
      let rest = all_fit_iff ks c in (ground arith, ground arith)

fit_code-zero :
    (k : KernelReport) (ks : List KernelReport)
    → (fit_code (k ∷ ks) ≡ 0) ↔ (all_fit (k ∷ ks) ≡ true)
unfolding fit_code
fit_code-zero k ks = ground arith

-- What a launch that is accepted is: a report that can be read, with some kernel, and flags of a
-- launch under which each kernel is resident.
pub record Accepted (w : World) (raw : List Text) : Type 0 where
  pub args : Args
  pub path : Text
  pub text : Text
  pub launch : Launch
  pub has_args : parse raw ptxas_flags ≡ inr args
  pub has_path : args.positional ≡ path ∷ []
  pub has_text : w.read_file path ≡ some text
  pub has_kernel : parse_ptxas_v text ≢ []
  pub has_launch : launch_of args ≡ inr launch
  pub all_resident : All (Resident launch) (parse_ptxas_v text)

empty_fails : fit_code [] ≢ 0
unfolding fit_code
empty_fails e = absurd (omega arith)

reports-Resident :
    (args : Args) (ks : List KernelUsage) (reports : List KernelReport)
    → kernel_reports args ks ≡ inr reports
    → fit_code reports ≡ 0
    → (ks ≢ []) × ((l : Launch) × ((launch_of args ≡ inr l) × All (Resident l) ks))
unfolding kernel_reports
reports-Resident args [] reports h z = absurd (empty_fails (ap fit_code (inr_back h) ∙ z))
reports-Resident args (k ∷ ks) reports h z =
    let (l, (launched, last)) = bind-inr _ _ h in
    let fits = (fit_code-zero _ _).0 (ap fit_code (inr_back last) ∙ z) in
    let all = (all_fit_iff l (k ∷ ks) (launch_of-Complete args l launched)).0 fits in
    (λ e. cc, (l, (launched, all)))

Resident-reports :
    (args : Args) (l : Launch) (ks : List KernelUsage)
    → ks ≢ []
    → launch_of args ≡ inr l
    → All (Resident l) ks
    → (reports : List KernelReport) × ((kernel_reports args ks ≡ inr reports)
        × (fit_code reports ≡ 0))
unfolding kernel_reports ◌>>=◌
Resident-reports args l [] some_kernel h all = absurd (some_kernel refl)
Resident-reports args l (k ∷ ks) some_kernel h all = (
  map (kernel_report l) (k ∷ ks),
  (
    inr-bind _ _ l h refl,
    (fit_code-zero _ _).1 ((all_fit_iff l (k ∷ ks) (launch_of-Complete args l h)).1 all),
  ),
)

module _ (F : Type 0) ⦃fl : Float F⦄ ⦃ft : FloatText F⦄ (w : World) where
  command-Accepted : (raw : List Text) → ptxas_command w raw ≡ inr 0 → Accepted w raw
  unfolding ptxas_command
  command-Accepted raw h =
      let (args, (parsed, h1)) = bind-inr _ _ h in
      let (path, (one, h2)) = bind-inr _ _ h1 in
      let (text, (opened, h3)) = bind-inr _ _ h2 in
      let (reports, (reported, last)) = bind-inr _ _ h3 in
      let (some_kernel, (l, (launched, all))) =
        reports-Resident args (parse_ptxas_v text) reports reported (inr_back last) in
      record {
        args = args;
        path = path;
        text = text;
        launch = l;
        has_args = args_of-inr raw ptxas_flags parsed;
        has_path = only-inr _ _ one;
        has_text = read-inr w path opened;
        has_kernel = some_kernel;
        has_launch = launched;
        all_resident = all;
      }

  Accepted-command : (raw : List Text) → Accepted w raw → ptxas_command w raw ≡ inr 0
  unfolding ptxas_command
  Accepted-command raw a =
      let (reports, (reported, z)) =
        Resident-reports a.args a.launch (parse_ptxas_v a.text) a.has_kernel a.has_launch
          a.all_resident in
      inr-bind _ _ a.args (inr-args_of raw ptxas_flags a.has_args) (
        inr-bind _ _ a.path (inr-only _ _ a.has_path) (
          inr-bind _ _ a.text (inr-read w a.path a.has_text)
            (inr-bind _ _ reports reported (ap inr z))))

  -- `calx-mill ptxas` ends with 0 exactly when the arguments parse and name one file, the file can be
  -- read and lists a kernel, the flags give a launch, and for every kernel that is listed the launch
  -- has no grid, or its grid fits on the instances at once.
  pub ptxas_main-zero : (raw : List Text) → (main F w (codes "ptxas" ∷ raw) ≡ 0) ↔ Accepted w raw
  unfolding main run run_command lookup
  ptxas_main-zero raw =
      let z = exit_of-zero (ptxas_command w raw) (ptxas-Small w raw) in
      (λ e. command-Accepted raw (z.0 e), λ a. z.1 (Accepted-command raw a))
