-- ===== src/Verify/Tests.antt =====
-- A run of the projection gate that passes, and the theorem there.
use calx_mill.Base.{
  ◌≡◌, refl, ap, true, false, inr, Option, none, some, List, [], ◌∷◌, ◌++◌, map, if◌then◌else◌,
}
use calx_mill.Base.Text.{Text, codes, text_eq}
use calx_mill.Base.Float.{Sample, sample_float}
use calx_mill.Base.Decimal.{sample_text}
use calx_mill.Verify.Rows.{VerifyRow, verify_rows}
use calx_mill.Base.{update_last}
use calx_mill.Base.Text.{is_whitespace, trim_start, trim, split}
use calx_mill.Base.Words.{take_while, drop_while, split_whitespace, lines}
use calx_mill.Base.Result.{◌>>=◌, ok_or}
use calx_mill.Csv.Reader.{parse_table, col}
use calx_mill.Core.Mix.{mix_demands, select_bound, project_mix}
use calx_mill.Pattern.Syntax.{atom_ok}
use calx_mill.Pattern.Compile.{new}
use calx_mill.Pattern.Match.{match_here}
use calx_mill.Pattern.Search.{is_match}
use calx_mill.Projection.Census.{add}
use calx_mill.Projection.Rates.{get, parse_value, keep_peak, insert_rate, insert_rates, parse_rates}
use calx_mill.Projection.Tables.{lookup}
use calx_mill.Projection.Demand.{
  mem_bytes, tensor_shape, shape_measured, base_measured, or_row, class_pipe, row_pipe,
  is_shape_defaulted,
}
use calx_mill.Projection.Fold.{
  add_cycles, memory_op, on_pipe, costed_op, pipe_op, project_op, project_ops,
}
use calx_mill.Projection.Project.{project, budget_of, class_budget, named, no_demand}
use calx_mill.Sass.Scan.{
  from_hex, is_hex, is_upper, is_mnemonic_byte, behind_predicate, scan_instr, function_name,
}
use calx_mill.Sass.Functions.{base_of, mnemonic_of, decode, parse_functions}
use calx_mill.Sass.HotLoop.{
  bra_target, next_index, position_of, loop_start, backward, better, loop_from, hot_loop,
}
use calx_mill.Sass.Mix.{body_between, add_instrs, add_body, mix_function, mix_functions, loop_mix}
use calx_mill.Telemetry.Clock.{sort_clocks}
use calx_mill.MkTable.Median.{median}
use calx_mill.Verify.Judge.{
  Finding, projected, add_measured, measured_rows, is_close, projected_error, project_row,
  judge_measured, judge_rows, read_measured, verify_projection, failures, verify_code,
}
use calx_mill.Base.Result.{inr-bind}
use calx_mill.Cli.Args.{Args, token, parse_last, parse_step, parse_from, parse}
use calx_mill.Cli.Run.{run_command, run, main}
use calx_mill.Cli.Command.{World, stopped, args_of, only}
use calx_mill.Cli.Tables.{verify_stop, verify_report, verify_command}
use calx_mill.Cli.Tables
use calx_mill.Cli.Ends.{exit_of-zero, verify-Small}
use calx_mill.Cli.Written.{verify_main-Meets}
use calx_mill.Verify.Passed.{Meets}

-- Every kernel is measured at 9 cycles.
abbrev results : Text
results =
    codes
      "row_id,value\nproj.anchor.ffma,9\nproj.anchor.stream,9\nproj.anchor.smemtile,9\nproj.anchor.capmix,9\nproj.anchor.latbound,9\nproj.fa_mini.base,9\nproj.fa_mini.dp4a,9\nproj.fa_mini.staged,9\nproj.inject.base.k0,9\nproj.inject.ffma.k8,9\nproj.inject.ffma.k16,9\nproj.inject.ffma.k24,9\nproj.inject.idp4a.k8,9\nproj.inject.idp4a.k16,9\nproj.inject.idp4a.k24,9\nproj.inject.lop3.k8,9\nproj.inject.lop3.k16,9\nproj.inject.lop3.k24,9\nproj.inject.popc.k4,9\nproj.inject.popc.k8,9\nproj.inject.popc.k12,9\n"

abbrev read_file : Text → Option Text
read_file path =
    if text_eq path (codes "table/tu102_ops.csv")
    then some (codes "row_id,value,pipe\nalu.ffma.tput,2,fma\n")
    else some results

-- One loop, of a kernel whose name has those of all the kernels of the binary.
abbrev loop_of : Text → Text
loop_of name =
    codes "Function : " ++ (name ++ codes "\n /*0000*/ FFMA R1, R2 ;\n /*0010*/ BRA 0x0 ;\n")

abbrev bench_sass : Text → Option Text
bench_sass binary =
    if text_eq binary (codes "bench/proj/anchors.bin")
    then some (loop_of (codes "ffma_anchorstream_anchorsmemtile_anchorcapmix_anchorlatbound_demo"))
    else if text_eq binary (codes "bench/proj/fa_mini.bin")
    then some (loop_of (codes "fa_mini_kernelILi0fa_mini_kernelILi1fa_mini_kernelILi2"))
    else some (
        loop_of (
          codes
            "inject_kernelINS_4OpNONEELi0inject_kernelINS_4OpFFMAELi8Einject_kernelINS_4OpFFMAELi16Einject_kernelINS_4OpFFMAELi24Einject_kernelINS_4OpIDP4A_S8ELi8Einject_kernelINS_4OpIDP4A_S8ELi16Einject_kernelINS_4OpIDP4A_S8ELi24Einject_kernelINS_4OpLOP3ELi8Einject_kernelINS_4OpLOP3ELi16Einject_kernelINS_4OpLOP3ELi24Einject_kernelINS_4OpPOPCELi4Einject_kernelINS_4OpPOPCELi8Einject_kernelINS_4OpPOPCELi12E"))

abbrev found : List (VerifyRow × Finding Sample)
found = map (λ row. (row, projected (some 0))) verify_rows

passes : verify_projection Sample read_file bench_sass ≡ inr found
unfolding verify_projection read_measured judge_rows judge_measured project_row projected_error
    measured_rows add_measured median parse_rates insert_rates insert_rate keep_peak parse_value
    parse_table col ◌>>=◌ ok_or lookup get sort_clocks new loop_mix mix_functions mix_function
    add_body add_instrs add is_match match_here atom_ok parse_functions lines split function_name
    trim_start split_whitespace scan_instr from_hex is_hex is_upper is_mnemonic_byte
    behind_predicate decode mnemonic_of base_of trim take_while drop_while update_last is_whitespace
    hot_loop loop_from backward bra_target position_of next_index better loop_start body_between
    project project_ops project_op pipe_op costed_op or_row shape_measured tensor_shape
    base_measured on_pipe memory_op mem_bytes class_pipe is_shape_defaulted row_pipe add_cycles
    budget_of class_budget named no_demand project_mix mix_demands select_bound verify_rows
passes = refl

no_failure : verify_code found ≡ 0
unfolding verify_code failures is_close verify_rows
no_failure = refl

abbrev world : World
world = record {
  read_file = read_file;
  sass_text = bench_sass;
  exists = λ path. true;
  read_dir = λ path. none;
  write_file = λ path text. false;
  join = λ root path. path;
  with_sass = λ path. path;
  file_name = some;
}

abbrev args : Args
args = record { positional = codes "root" ∷ []; flags = [] }

run_passes : verify_command Sample world (codes "root" ∷ []) ≡ inr 0
unfolding verify_command verify_report args_of stopped parse parse_from parse_step parse_last token
    only Tables.bench_sass
run_passes =
    inr-bind _ _ found
      (inr-bind _ _ args refl (inr-bind _ _ (codes "root") refl (ap (stopped verify_stop) passes)))
      (ap inr no_failure)

ends_zero : main Sample world (codes "verify-projection" ∷ codes "root" ∷ []) ≡ 0
unfolding main run run_command lookup
ends_zero =
    (exit_of-zero (verify_command Sample world (codes "root" ∷ []))
        (verify-Small Sample world (codes "root" ∷ []))).1
      run_passes

verify_main-Meets_example :
    (args : Args) × (root : Text) × ((parse (codes "root" ∷ []) [] ≡ inr args)
      × (args.positional ≡ root ∷ [])
      × Meets Sample
          (λ path. world.read_file (world.join root path))
          (Tables.bench_sass world root))
verify_main-Meets_example = verify_main-Meets Sample world (codes "root" ∷ []) ends_zero
