-- ===== src/MkTable/Tests.antt =====
-- A table made of two runs of one operation, and the theorems there.
use mathlib.Core.List.{Memᴰ, Perm}
use calx_mill.Base.{
  ℕ, ◌≡◌, ◌⊎◌, refl, none, some, inr, false, Option, List, [], ◌∷◌, All, true, ap, if◌then◌else◌,
}
use calx_mill.Base.Result.{◌>>=◌, ok_or}
use calx_mill.Base.Text.{Text, codes, split, split_once, starts_with, text_eq}
use calx_mill.Base.Words.{ends_with, drop_while}
use calx_mill.Base.Float.{Sample, sample_float, Sample-IsOrdered}
use calx_mill.Base.Decimal.{sample_text, show_ℕ}
use calx_mill.Base.Numeral.{parse_i32}
use calx_mill.Base.Sort.{sort_by, text_leb, dedup}
use calx_mill.Base.Groups.{members, gathered, push_group}
use calx_mill.Csv.Reader.{parse_records, parse_table, col}
use calx_mill.Csv.RoundTrip.{write_all}
use calx_mill.Pyfmt.General.{trim_zeros, pointed, fixed_point, body, signed, from_sci, g6}
use calx_mill.Telemetry.Clock.{sort_clocks}
use calx_mill.Projection.Tables.{lookup}
use calx_mill.MkTable.Median.{median}
use calx_mill.MkTable.Rows.{
  Made, Meas, fval, put_prior, put_priors, column, read_priors, columns, meas_of, add_meas,
  add_meas_rows, is_passed_over, read_results, measured,
}
use calx_mill.MkTable.Labels.{
  instruction, first_prefix, instruction_for, sweep_base, is_pipe_row, pipe_labels, table_rows,
  pipe_of_row,
}
use calx_mill.MkTable.Grouping.{
  push_by, put_meas, put_all, both_kinds, is_swept, groups_of, sort_key, sorted_groups,
}
use calx_mill.MkTable.Values.{
  Values, count_variant, count_variants, best_count, most_common, per_run, peak_of, push_gpu, peaks,
  sweep_values, values_by, values_of,
}
use calx_mill.MkTable.Judge.{
  Priors, fine, flag_text, last_note, median_of, within_cv_of, percent_of, floor_of, spread_of,
  judge_runs, gpu_diff_of, judge_gpus, is_other_variant, prior_for, judge_deviation, judge_prior,
}
use calx_mill.MkTable.Table.{
  Row, row_of, table_fields, printed, record_of_row, publish_groups, publish_rows, publish,
  absent_record, absent_records, table_records, mk_table,
}
use calx_mill.MkTable.Parted.{Belongs, sorted_groups-Parted}
use calx_mill.MkTable.Longest.{Leads, NoLonger, instruction_for_longest}
use calx_mill.Cli.Args.{token, parse_last, parse_step, parse_from, parse, value_in, value}
use calx_mill.Cli.Run.{run_command, run, main}
use calx_mill.Cli.Command.{World, stopped, unless_panic, args_of, only, read, write, written}
use calx_mill.Cli.Tables.{read_entry, with_entry, read_entries, read_optional, mk_table_command}
use calx_mill.Cli.Ends.{exit_of-zero, mk_table-Small}
use calx_mill.Cli.Written.{Written, mk_table_main-Written}
use calx_mill.MkTable.Verified.{Judgement, row_of-IsVerified}

abbrev priors_csv : Text
priors_csv = codes "row_id,prior_value,prior_src\nalu.ffma.tput,4,doc\n"

-- A sweep of two occupancies in each of two runs, and the contention probe of the operation.
abbrev results : List (Text × Text)
results =
    (codes "runs.csv", codes "x\n")
    ∷ (
      codes "alu.csv",
      codes
          "run_id,gpu_index,row_id,kind,variant,value,unit,cv_pct,bench_src,git_sha,notes\n1,0,alu.ffma.tput,recip_tput,w4,3,c,1,b.cu,aa,\n1,0,alu.ffma.tput,recip_tput,w8,4,c,1,b.cu,aa,n\n2,0,alu.ffma.tput,recip_tput,w8,4,c,1,b.cu,aa,\n1,0,alu.ffma.pipe,lat,,0,c,0,b.cu,aa,pipe=fma (x); y\n",
    )
    ∷ []

abbrev na : Option Text
na = some (codes "row_id,instruction,prior_src,notes\nalu.x,X,doc,none\n")

abbrev records : List (List Text)
records =
    (codes "alu.ffma.tput"
      ∷ codes "alu"
      ∷ codes "FFMA"
      ∷ codes "w8"
      ∷ codes "recip_tput"
      ∷ codes "1"
      ∷ codes "c"
      ∷ codes "1"
      ∷ codes "fma"
      ∷ codes "4"
      ∷ codes "doc"
      ∷ codes "0"
      ∷ codes "ok"
      ∷ codes "b.cu@aa n_runs=2"
      ∷ codes "1455"
      ∷ codes "n"
      ∷ [])
    ∷ (codes "alu.x"
        ∷ codes "alu"
        ∷ codes "X"
        ∷ []
        ∷ codes "na"
        ∷ []
        ∷ []
        ∷ []
        ∷ []
        ∷ []
        ∷ codes "doc"
        ∷ []
        ∷ codes "NA_SM75"
        ∷ codes "table/na_sm75.csv"
        ∷ []
        ∷ codes "none"
        ∷ [])
    ∷ []

-- The sample numbers print their six digits as 1.
records_made : table_records Sample results priors_csv na ≡ inr records
unfolding table_records publish publish_rows publish_groups record_of_row printed g6 from_sci body
    fixed_point pointed trim_zeros signed parse_i32 split_once split ◌>>=◌ ok_or read_priors
    put_priors put_prior column parse_table parse_records col measured read_results is_passed_over
    ends_with columns meas_of add_meas_rows add_meas push_group sort_by text_leb dedup pipe_labels
    table_rows is_pipe_row pipe_of_row sorted_groups groups_of is_swept put_all put_meas push_by
    both_kinds sort_key sweep_base drop_while values_of values_by sweep_values per_run peaks peak_of
    fval push_gpu count_variants count_variant most_common best_count row_of median_of median
    sort_clocks within_cv_of gpu_diff_of judge_runs judge_gpus floor_of spread_of percent_of
    prior_for lookup judge_prior judge_deviation last_note instruction_for first_prefix flag_text
    show_ℕ absent_records absent_record is_other_variant
records_made = refl

abbrev out : Text
out = write_all (table_fields ∷ records)

table_made : mk_table Sample results priors_csv na ≡ inr (out, 2)
unfolding mk_table ◌>>=◌
table_made = rw records_made refl

abbrev meas : Text → Text → Text → Meas
meas run variant value = record {
  run_id = run;
  gpu_index = codes "0";
  row_id = codes "alu.ffma.tput";
  kind = codes "recip_tput";
  variant = variant;
  value = value;
  unit = codes "c";
  cv_pct = codes "1";
  bench_src = codes "b.cu";
  git_sha = codes "aa";
  notes = [];
  family = codes "alu";
}

abbrev grp : List Meas
grp =
    meas (codes "1") (codes "w8_s8") (codes "4")
    ∷ meas (codes "1") (codes "stride18") (codes "3")
    ∷ meas (codes "2") (codes "w4_s8") (codes "4")
    ∷ []

sorted_groups-Parted_example :
    Perm (gathered (sorted_groups (codes "recip_tput") grp)) grp
    × All
        (λ g. All (Belongs (is_swept (codes "recip_tput")) g.key) (members g))
        (sorted_groups (codes "recip_tput") grp)
sorted_groups-Parted_example = sorted_groups-Parted (codes "recip_tput") grp

instruction_for_longest_example :
    ((e : Text × Text) × Memᴰ e instruction
      × Leads (codes "alu.iadd3_lop3.tput") e
      × (instruction_for (codes "alu.iadd3_lop3.tput") ≡ e.1)
      × All (NoLonger (codes "alu.iadd3_lop3.tput") e) instruction)
    ⊎ ((instruction_for (codes "alu.iadd3_lop3.tput") ≡ [])
        × All (λ e. starts_with e.0 (codes "alu.iadd3_lop3.tput") ≡ false) instruction)
instruction_for_longest_example = instruction_for_longest (codes "alu.iadd3_lop3.tput")

abbrev vals : Values Sample
vals = record {
  run_vals = some 4 ∷ some 4 ∷ [];
  gpu_vals = record { key = codes "0"; first = some 4; more = some 4 ∷ [] } ∷ [];
  cvs = some 1 ∷ some 1 ∷ [];
  variant = codes "w8";
}

abbrev priors : Priors
priors = (codes "alu.ffma.tput", record { prior_value = codes "4"; prior_src = codes "doc" }) ∷ []

abbrev row : Row Sample
row = record {
  variant = codes "w8";
  value = some 4;
  within_cv = some 1;
  prior_value = codes "4";
  prior_src = codes "doc";
  deviation = some (some 0);
  flag = fine;
  notes = [];
}

row_judged :
    row_of priors (codes "alu.ffma.tput") (codes "recip_tput") (codes "c") grp vals ≡ inr row
unfolding row_of median_of median sort_clocks within_cv_of gpu_diff_of judge_runs judge_gpus
    floor_of spread_of percent_of prior_for lookup judge_prior judge_deviation last_note
    is_other_variant fval ◌>>=◌ ok_or
row_judged = refl

row_of-IsVerified_example :
    Judgement priors (codes "alu.ffma.tput") (codes "recip_tput") (codes "c") vals row
row_of-IsVerified_example =
    row_of-IsVerified Sample-IsOrdered priors (codes "alu.ffma.tput") (codes "recip_tput")
      (codes "c") grp vals row row_judged

-- The files of the run: two tables, one that is no table, the priors, what is absent, and the output.
abbrev read_file : Text → Option Text
read_file path =
    if text_eq path (codes "p")
    then some priors_csv
    else if text_eq path (codes "n")
    then na
    else lookup results path

abbrev world : World
world = record {
  read_file = read_file;
  sass_text = λ path. none;
  exists = λ path. true;
  read_dir = λ path. some (
      some (codes "runs.csv", codes "runs.csv")
      ∷ some (codes "notes", codes "notes")
      ∷ some (codes "alu.csv", codes "alu.csv")
      ∷ []);
  write_file = λ path text. true;
  join = λ root path. path;
  with_sass = λ path. path;
  file_name = some;
}

abbrev raw : List Text
raw =
    codes "--priors"
    ∷ codes "p"
    ∷ codes "d"
    ∷ codes "--na"
    ∷ codes "n"
    ∷ codes "-o"
    ∷ codes "t.csv"
    ∷ []

run_made : mk_table_command Sample world raw ≡ inr 0
unfolding mk_table_command args_of stopped parse parse_from parse_step parse_last token only value
    value_in read ok_or read_optional ◌>>=◌ read_entries read_entry with_entry ends_with lookup
    unless_panic write written
run_made =
    ap
      (λ (made : Made (Text × ℕ)).
        unless_panic made >>= (λ m. write world (codes "t.csv") m.0 >>= (λ _. inr 0)))
      table_made

ends_zero : main Sample world (codes "mk-table" ∷ raw) ≡ 0
unfolding main run run_command lookup
ends_zero =
    (exit_of-zero (mk_table_command Sample world raw) (mk_table-Small Sample world raw)).1 run_made

mk_table_main-Written_example : Written Sample world raw
mk_table_main-Written_example = mk_table_main-Written Sample world raw ends_zero
