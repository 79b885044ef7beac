-- ===== src/Cli/Loops.antt =====
-- The `project`, `census` and `check-sass` commands of src/main.rs. What is printed is a value.
use calx_mill.Base.{ℕ, Option, none, some, inl, inr, List, [], ◌∷◌, ◌++◌, if◌then◌else◌}
use calx_mill.Base.Result.{◌>>=◌, ok_or}
use calx_mill.Base.Text.{Text, codes, text_eq}
use calx_mill.Base.Words.{strip_suffix}
use calx_mill.Base.Float.{Float}
use calx_mill.Base.Decimal.{FloatText}
use calx_mill.Core.Occupancy.{concurrency, occupancy_pct}
use calx_mill.Projection.Census.{Census, is_empty_census, from_census_csv}
use calx_mill.Projection.Rates.{parse_rates}
use calx_mill.Projection.Project.{parse_mem_class, project}
use calx_mill.Projection.Listed.{ProjectReport, report}
use calx_mill.Sass.Scan.{uniform_predicated_drops}
use calx_mill.Sass.Mix.{census_per_kernel}
use calx_mill.Sass.Histogram.{census_csv}
use calx_mill.Check.Cases.{GateOpts}
use calx_mill.Check.Purity.{check, check_code}
use calx_mill.Check.Shares.{census_match, match_code}
use calx_mill.Ptxas.Usage.{tu102_sm, work_unit}
use calx_mill.Ptxas.Report.{empty_usage}
use calx_mill.Cli.Args.{Args, value, has}
use calx_mill.Cli.Command.{
  Ran, World, message, rates_stop, panics, stopped, unless_panic, args_of, only, or_text, u32_arg,
  u64_arg, float_arg, pattern_of, read, disassemble, write,
}

abbrev pub project_flags : List Text
project_flags =
    codes "table"
    ∷ codes "kernel"
    ∷ codes "warps"
    ∷ codes "mem-class"
    ∷ codes "dram-budget"
    ∷ codes "regs-per-thread"
    ∷ codes "smem-block"
    ∷ codes "block-threads"
    ∷ []

-- The warps that are resident and their percentage, where the registers are given.
unfoldable pub project_occupancy : Args → Ran (Option (ℕ × ℕ))
project_occupancy args =
    let some_warps = (do
      registers ← u32_arg args (codes "regs-per-thread") 0
      smem ← u32_arg args (codes "smem-block") 0
      threads ← u32_arg args (codes "block-threads") 32
      let w = work_unit (record empty_usage { registers = registers; smem_bytes = smem }) threads
      inr (some (concurrency tu102_sm w, occupancy_pct tu102_sm w))) in
    if has args (codes "regs-per-thread") then some_warps else inr none

abbrev pub kernel_arg : Args → Text
kernel_arg args = or_text (value args (codes "kernel")) (codes ".*")

module _ (F : Type 0) ⦃fl : Float F⦄ (w : World) where
  -- The report of a projection and of the occupancy.
  abbrev pub Projected : Type 0
  Projected = ProjectReport F × Option (ℕ × ℕ)

  -- Nothing where no operation matched.
  unfoldable pub project_report : List Text → Ran (Option Projected)
  project_report raw = do
    args ← args_of raw project_flags
    census_path ← only (codes "project: exactly one census CSV expected") args.positional
    table_path ← ok_or (value args (codes "table")) (message (codes "project: --table is required"))
    kernel ← pattern_of (kernel_arg args)
    warps ← float_arg args (codes "warps") (fl.of_ℕ 8)
    mem_class ←
        ok_or (parse_mem_class (or_text (value args (codes "mem-class")) (codes "none")))
          (message (codes "--mem-class: none, dram, or l1"))
    budget ← float_arg args (codes "dram-budget") (fl.div (fl.of_ℕ 582) (fl.of_ℕ 100))
    table ← read w table_path
    rates ← stopped rates_stop (parse_rates F table)
    text ← read w census_path
    census ← unless_panic (from_census_csv text kernel)
    let projected = (do
      r ← unless_panic (project census warps mem_class rates budget)
      shown ← ok_or (report r) panics
      warps_resident ← project_occupancy args
      inr (some (shown, warps_resident)))
    if is_empty_census census then inr none else projected

-- The exit code where there may be nothing to print.
unfoldable pub some_code {ℓ} : {A : Type ℓ} → Option A → ℕ
some_code none = 1
some_code (some x) = 0

-- The histogram of a disassembly, with the number of instructions that are dropped. None where no
-- kernel matches.
unfoldable pub histogram :
    (F : Type 0) ⦃fl : Float F⦄ ⦃ft : FloatText F⦄ → ℕ → List (Text × Census) → Option (ℕ × Text)
histogram F drops [] = none
histogram F drops (c ∷ counts) = some (drops, census_csv F (c ∷ counts))

-- The file that a flag names, where it is not `-`.
unfoldable pub out_file : Option Text → Option Text
out_file none = none
out_file (some path) = if text_eq path (codes "-") then none else some path

module _ (w : World) where
  -- Writes a histogram to a file, or prints it.
  unfoldable pub put_histogram : Option Text → Option (ℕ × Text) → Ran (Unit {0})
  put_histogram path none = inr tt
  put_histogram none (some csv) = inr tt
  put_histogram (some path) (some csv) = write w path csv.1

module _ (F : Type 0) ⦃fl : Float F⦄ ⦃ft : FloatText F⦄ (w : World) where
  unfoldable pub project_command : List Text → Ran ℕ
  project_command raw = do shown ← project_report F w raw; inr (some_code shown)

  unfoldable pub census_command : List Text → Ran ℕ
  census_command raw = do
    args ← args_of raw (codes "kernel" ∷ [])
    path ← only (codes "census: exactly one binary or .sass expected") args.positional
    kernel ← pattern_of (kernel_arg args)
    sass ← disassemble w path
    drops ← unless_panic (uniform_predicated_drops sass)
    counts ← unless_panic (census_per_kernel sass kernel (has args (codes "full")))
    let csv = histogram F drops counts
    _ ← put_histogram w (out_file (value args (codes "o"))) csv
    inr (some_code csv)

abbrev pub check_flags : List Text
check_flags =
    codes "min-primary" ∷ codes "l0-bytes" ∷ codes "staging-budget" ∷ codes "tolerance-pp" ∷ []

-- The two disassemblies to compare.
unfoldable pub two_specs : List Text → Ran (Text × Text)
two_specs (a ∷ b ∷ []) = inr (a, b)
two_specs _ = inl (message (codes "check-sass --census-match: two BIN:PAT specs expected"))

unfoldable pub opts_of : Args → Ran GateOpts
opts_of args = do
  least ← u32_arg args (codes "min-primary") 64
  bytes ← u64_arg args (codes "l0-bytes") 8192
  staging ← u64_arg args (codes "staging-budget") 6
  inr (record { min_primary = least; l0_bytes = bytes; staging_budget = staging })

-- The name of the binary behind a disassembly.
unfoldable pub binary_name : Text → Text
binary_name basename = elim (strip_suffix (codes ".sass") basename) [
  | none ↦ basename
  | some stem ↦ stem ++ codes ".bin"
]

module _ (F : Type 0) ⦃fl : Float F⦄ (w : World) where
  unfoldable pub compare_command : Args → Ran ℕ
  compare_command args = do
    specs ← two_specs args.positional
    tol ← float_arg args (codes "tolerance-pp") (fl.of_ℕ 10)
    ok_or (match_code tol (census_match F w.sass_text specs.0 specs.1)) panics

  unfoldable pub purity_command : Args → Ran ℕ
  purity_command args = do
    path ← only (codes "check-sass: exactly one binary or .sass expected") args.positional
    opts ← opts_of args
    basename ← ok_or (w.file_name path) (message (codes "check-sass: bad path"))
    sass ← disassemble w path
    found ← unless_panic (check (binary_name basename) sass opts)
    inr (check_code found)

  unfoldable pub check_command : List Text → Ran ℕ
  check_command raw = do
    args ← args_of raw check_flags
    if has args (codes "census-match") then compare_command args else purity_command args
