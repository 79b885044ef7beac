-- ===== src/Cli/Kernels.antt =====
-- The `ptxas` and `ncu` commands of src/main.rs. What is printed of a kernel is a record.
use calx_mill.Base.{
  ℕ, Bool, true, ◌&&◌, Option, none, some, inl, inr, List, [], ◌∷◌, map, if◌then◌else◌,
}
use calx_mill.Base.Result.{◌>>=◌}
use calx_mill.Base.Text.{Text, codes}
use calx_mill.Base.Float.{Float}
use calx_mill.Core.Occupancy.{concurrency, occupancy_pct}
use calx_mill.Core.Block.{blocks_per_instance, cooperative_fits}
use calx_mill.Ptxas.Usage.{KernelUsage, tu102_sm, tu102_sms, work_unit, block}
use calx_mill.Ptxas.Report.{parse_ptxas_v}
use calx_mill.Ncu.Export.{MetricRow, parse_ncu_csv, achieved_occupancy}
use calx_mill.Cli.Args.{Args, value}
use calx_mill.Cli.Command.{
  Ran, World, message, bad_export, stopped, args_of, only, u32_arg, u32_flag, read,
}

abbrev pub ptxas_flags : List Text
ptxas_flags =
    codes "block-threads" ∷ codes "grid-blocks" ∷ codes "instances" ∷ codes "block-smem" ∷ []

-- A launch as the flags describe it.
pub record Launch : Type 0 where
  pub block_threads : Option ℕ
  pub grid_blocks : Option ℕ
  pub instances : ℕ
  pub block_smem : Option ℕ

-- A grid needs the threads of a block.
unfoldable pub with_grid : Launch → Option ℕ → Option ℕ → Ran Launch
with_grid l none threads = inr l
with_grid l (some grid) none = inl (message (codes "ptxas: --grid-blocks needs --block-threads"))
with_grid l (some grid) (some threads) = inr l

unfoldable pub checked_launch : Launch → Ran Launch
checked_launch l = with_grid l l.grid_blocks l.block_threads

unfoldable pub launch_of : Args → Ran Launch
launch_of args = do
  threads ← u32_flag (codes "block-threads") (value args (codes "block-threads"))
  grid ← u32_flag (codes "grid-blocks") (value args (codes "grid-blocks"))
  sms ← u32_arg args (codes "instances") tu102_sms
  smem ← u32_flag (codes "block-smem") (value args (codes "block-smem"))
  checked_launch
      (record { block_threads = threads; grid_blocks = grid; instances = sms; block_smem = smem })

-- The blocks on an instance, and whether the whole grid is resident.
unfoldable pub grid_report : KernelUsage → Launch → ℕ → ℕ → ℕ × Bool
grid_report k l threads grid =
    let b = block k threads l.block_smem in
    (blocks_per_instance tu102_sm b, cooperative_fits tu102_sm b grid l.instances)

-- What is printed of a kernel: its usage, the warps and the percentage of occupancy where the threads
-- of a block are given, and the grid where it is given too.
pub record KernelReport : Type 0 where
  pub usage : KernelUsage
  pub occupancy : Option (ℕ × ℕ)
  pub grid : Option (ℕ × Bool)

occupancy_report : KernelUsage → Option ℕ → Option (ℕ × ℕ)
occupancy_report k none = none
occupancy_report k (some threads) =
    let w = work_unit k threads in some (concurrency tu102_sm w, occupancy_pct tu102_sm w)

unfoldable pub grid_of : KernelUsage → Launch → Option ℕ → Option ℕ → Option (ℕ × Bool)
grid_of k l none g = none
grid_of k l (some threads) none = none
grid_of k l (some threads) (some g) = some (grid_report k l threads g)

unfoldable pub kernel_report : Launch → KernelUsage → KernelReport
unfolding occupancy_report
kernel_report l k = record {
  usage = k;
  occupancy = occupancy_report k l.block_threads;
  grid = grid_of k l l.block_threads l.grid_blocks;
}

unfoldable pub fits_of : Option (ℕ × Bool) → Bool
fits_of none = true
fits_of (some g) = g.1

unfoldable pub all_fit : List KernelReport → Bool
all_fit [] = true
all_fit (r ∷ rs) = fits_of r.grid && all_fit rs

-- The exit code of the reports.
unfoldable pub fit_code : List KernelReport → ℕ
fit_code [] = 1
fit_code (r ∷ rs) = if all_fit (r ∷ rs) then 0 else 1

-- Without kernels the flags are not read.
unfoldable pub kernel_reports : Args → List KernelUsage → Ran (List KernelReport)
kernel_reports args [] = inr []
kernel_reports args (k ∷ ks) = do l ← launch_of args; inr (map (kernel_report l) (k ∷ ks))

module _ (w : World) where
  unfoldable pub ptxas_command : List Text → Ran ℕ
  ptxas_command raw = do
    args ← args_of raw ptxas_flags
    path ← only (codes "ptxas: exactly one ptxas -v output file expected") args.positional
    text ← read w path
    reports ← kernel_reports args (parse_ptxas_v text)
    inr (fit_code reports)

module _ (F : Type 0) ⦃fl : Float F⦄ (w : World) where
  -- The metrics of an export, and the achieved occupancy of its launches.
  unfoldable pub ncu_report : List Text → Ran (List MetricRow × List (Text × Text × F))
  ncu_report raw = do
    args ← args_of raw []
    path ← only (codes "ncu: exactly one ncu --csv export expected") args.positional
    text ← read w path
    rows ← stopped bad_export (parse_ncu_csv text)
    inr (rows, achieved_occupancy rows)

  unfoldable pub ncu_command : List Text → Ran ℕ
  ncu_command raw = do _ ← ncu_report raw; inr 0
