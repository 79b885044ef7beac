-- ===== src/Cli/Runs.antt =====
-- Runs of the program on a `ptxas` report and on a telemetry file, and the theorems there.
use calx_mill.Base.{◌≤◌, ◌≡◌, ◌↔◌, ◌⊎◌, refl, true, none, some, List, [], ◌∷◌, update_last}
use calx_mill.Base.Result.{◌>>=◌, ok_or}
use calx_mill.Base.Text.{Text, codes, trim, trim_start, split, split_once}
use calx_mill.Base.Words.{ends_with, strip_suffix}
use calx_mill.Base.Numeral.{parse_u32}
use calx_mill.Base.Float.{Sample, sample_float}
use calx_mill.Base.Decimal.{sample_text}
use calx_mill.Core.Rounding.{ceil_div, round_up}
use calx_mill.Core.Block.{blocks_per_instance, cooperative_fits}
use calx_mill.Ptxas.Usage.{block}
use calx_mill.Ptxas.Report.{leading_u32, split_clauses, drop_marks, use_clauses, parse_ptxas_v}
use calx_mill.Projection.Tables.{lookup}
use calx_mill.Cli.Args.{token, parse_last, parse_step, parse_from, parse, value_in, value, number}
use calx_mill.Cli.Command.{World, stopped, args_of, only, u32_arg, u32_flag, read}
use calx_mill.Cli.Kernels.{
  with_grid, checked_launch, launch_of, grid_report, grid_of, kernel_report, fits_of, all_fit,
  fit_code, kernel_reports, ptxas_command,
}
use calx_mill.Cli.Run.{run_command, run, exit_of, main}
use calx_mill.Cli.Ends.{IsPlainEnd, AsksGate, main_end}
use calx_mill.Cli.Launch.{Accepted, ptxas_main-zero}
use calx_mill.Cli.Strict.{Complete, telemetry_main-zero}

abbrev listing : Text
listing =
    codes
      "ptxas info    : Compiling entry function 'saxpy' for 'sm_75'\nptxas info    : Used 24 registers, 380 bytes cmem[0]\n"

-- Every file holds the text.
abbrev world : Text → World
world text = record {
  read_file = λ path. some text;
  sass_text = λ path. none;
  exists = λ path. true;
  read_dir = λ path. none;
  write_file = λ path text. true;
  join = λ root path. path;
  with_sass = λ path. path;
  file_name = some;
}

-- A grid of so many blocks of 256 threads.
abbrev launch : Text → List Text
launch grid = codes "f" ∷ codes "--block-threads" ∷ codes "256" ∷ codes "--grid-blocks" ∷ grid ∷ []

launch_fits : main Sample (world listing) (codes "ptxas" ∷ launch (codes "288")) ≡ 0
unfolding main run run_command lookup ptxas_command args_of stopped parse parse_from parse_step
    parse_last token only read ok_or ◌>>=◌ parse_ptxas_v leading_u32 parse_u32 trim trim_start split
    split_once ends_with strip_suffix split_clauses drop_marks update_last use_clauses
    kernel_reports launch_of u32_flag u32_arg number value value_in with_grid checked_launch
    kernel_report grid_of grid_report fits_of all_fit fit_code exit_of cooperative_fits
    blocks_per_instance block ceil_div round_up
launch_fits = refl

launch_deadlocks : main Sample (world listing) (codes "ptxas" ∷ launch (codes "289")) ≡ 1
unfolding main run run_command lookup ptxas_command args_of stopped parse parse_from parse_step
    parse_last token only read ok_or ◌>>=◌ parse_ptxas_v leading_u32 parse_u32 trim trim_start split
    split_once ends_with strip_suffix split_clauses drop_marks update_last use_clauses
    kernel_reports launch_of u32_flag u32_arg number value value_in with_grid checked_launch
    kernel_report grid_of grid_report fits_of all_fit fit_code exit_of cooperative_fits
    blocks_per_instance block ceil_div round_up
launch_deadlocks = refl

ptxas_main-zero_example :
    (main Sample (world listing) (codes "ptxas" ∷ launch (codes "288")) ≡ 0)
    ↔ Accepted (world listing) (launch (codes "288"))
ptxas_main-zero_example = ptxas_main-zero Sample (world listing) (launch (codes "288"))

abbrev telemetry : Text
telemetry = codes "op_index\tkind\n0\tMMVQ\tmem\t100\t200\t200\t4000\t0\t150\n1\tX\tcompute\tbad\n"

telemetry_main-zero_example :
    (main Sample (world telemetry) (codes "telemetry" ∷ codes "f" ∷ codes "--strict" ∷ []) ≡ 0)
    ↔ Complete Sample (world telemetry) (codes "f" ∷ codes "--strict" ∷ [])
telemetry_main-zero_example =
    telemetry_main-zero Sample (world telemetry) (codes "f" ∷ codes "--strict" ∷ [])

main_end_example :
    IsPlainEnd (main Sample (world listing) (codes "ptxas" ∷ launch (codes "289")))
    ⊎ (AsksGate (codes "ptxas" ∷ launch (codes "289"))
        × (main Sample (world listing) (codes "ptxas" ∷ launch (codes "289")) ≤ 4))
main_end_example = main_end Sample (world listing) (codes "ptxas" ∷ launch (codes "289"))
