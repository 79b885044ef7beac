-- ===== src/Cli/Written.antt =====
-- What the `mk-table` and `verify-projection` commands of src/main.rs have done where they end with 0.
use calx_mill.Base.{◌≡◌, refl, Bool, true, false, Option, some, inr, List, [], ◌∷◌, All}
use calx_mill.Base.Result.{bind-inr, inr_back, ok_or-inr}
use calx_mill.Base.Text.{Text, codes}
use calx_mill.Base.Float.{Float}
use calx_mill.Base.Decimal.{FloatText}
use calx_mill.Csv.Reader.{parse_table}
use calx_mill.MkTable.Table.{table_fields, table_records}
use calx_mill.MkTable.ReadBack.{IsFull, parse_table-mk_table}
use calx_mill.Verify.Passed.{Meets, verify_code_zero}
use calx_mill.Projection.Tables.{lookup}
use calx_mill.Cli.Args.{Args, parse, value}
use calx_mill.Cli.Command.{World, written, write}
use calx_mill.Cli.Opened.{args_of-inr, only-inr, read-inr, stopped-inr, unless_panic-inr}
use calx_mill.Cli.Tables.{
  read_entries, read_optional, bench_sass, mk_table_command, verify_report, verify_command,
}
use calx_mill.Cli.Run.{run_command, run, main}
use calx_mill.Cli.Ends.{exit_of-zero, mk_table-Small, verify-Small}

written-inr : (path : Text) (b : Bool) {u : Unit {0}} → written path b ≡ inr u → b ≡ true
unfolding written
written-inr path true h = refl
written-inr path false h = cc

write-inr :
    (w : World) (path text : Text) {u : Unit {0}}
    → write w path text ≡ inr u
    → w.write_file path text ≡ true
unfolding write
write-inr w path text h = written-inr path _ h

-- A table that was made: from the tables of a directory, the priors and what is absent, and written to
-- the file that is named. The text, read as a table, has the records.
pub record Written (F : Type 0) ⦃fl : Float F⦄ ⦃ft : FloatText F⦄ (w : World) (raw : List Text)
    : Type 0 where
  pub args : Args
  pub dir : Text
  pub priors_path : Text
  pub priors : Text
  pub na : Option Text
  pub out_path : Text
  pub entries : List (Option (Text × Text))
  pub results : List (Text × Text)
  pub out : Text
  pub records : List (List Text)
  pub has_args : parse raw (codes "priors" ∷ codes "na" ∷ []) ≡ inr args
  pub has_dir : args.positional ≡ dir ∷ []
  pub names_priors : value args (codes "priors") ≡ some priors_path
  pub has_priors : w.read_file priors_path ≡ some priors
  pub has_na : read_optional w (value args (codes "na")) ≡ inr na
  pub names_out : value args (codes "o") ≡ some out_path
  pub has_entries : w.read_dir dir ≡ some entries
  pub has_results : read_entries w entries ≡ inr results
  pub has_records : table_records F results priors na ≡ inr records
  pub all_full : All IsFull records
  pub reads_back : parse_table out ≡ record { header = table_fields; rows = records }
  pub is_written : w.write_file out_path out ≡ true

module _ (F : Type 0) ⦃fl : Float F⦄ ⦃ft : FloatText F⦄ (w : World) where
  command-Written : (raw : List Text) → mk_table_command F w raw ≡ inr 0 → Written F w raw
  unfolding mk_table_command
  command-Written raw h =
      let (args, (parsed, h1)) = bind-inr _ _ h in
      let (dir, (one, h2)) = bind-inr _ _ h1 in
      let (priors_path, (named, h3)) = bind-inr _ _ h2 in
      let (priors, (opened, h4)) = bind-inr _ _ h3 in
      let (na, (absent, h5)) = bind-inr _ _ h4 in
      let (out_path, (out_named, h6)) = bind-inr _ _ h5 in
      let (entries, (listed, h7)) = bind-inr _ _ h6 in
      let (results, (entered, h8)) = bind-inr _ _ h7 in
      let (made, (tabled, h9)) = bind-inr _ _ h8 in
      let (_, (written, _)) = bind-inr _ _ h9 in
      let (rs, gathered, back, full, _) =
        parse_table-mk_table F results priors na made.0 made.1 (unless_panic-inr _ tabled) in
      record {
        args = args;
        dir = dir;
        priors_path = priors_path;
        priors = priors;
        na = na;
        out_path = out_path;
        entries = entries;
        results = results;
        out = made.0;
        records = rs;
        has_args = args_of-inr raw _ parsed;
        has_dir = only-inr _ _ one;
        names_priors = ok_or-inr _ _ named;
        has_priors = read-inr w priors_path opened;
        has_na = absent;
        names_out = ok_or-inr _ _ out_named;
        has_entries = ok_or-inr _ _ listed;
        has_results = entered;
        has_records = gathered;
        all_full = full;
        reads_back = back;
        is_written = write-inr w out_path made.0 written;
      }

  -- When `calx-mill mk-table` ends with 0, it read the tables of one directory, the priors and, where
  -- they are named, the absent rows, and it wrote to the file of `-o` a text that, read as a table, has
  -- the table's header and the records that were gathered, each with a field for every column.
  pub mk_table_main-Written :
      (raw : List Text) → main F w (codes "mk-table" ∷ raw) ≡ 0 → Written F w raw
  unfolding main run run_command lookup
  mk_table_main-Written raw h =
      command-Written raw ((exit_of-zero (mk_table_command F w raw) (mk_table-Small F w raw)).0 h)

  -- When `calx-mill verify-projection` ends with 0, its arguments name one root. Below it the rates and
  -- the measurements were read, and each row of the gate that is gated has measured cycles and kernels
  -- with hot loops, whose mix, projected on the rates, gives cycles that differ from the median of the
  -- measured ones by at most 20 percent of it.
  pub verify_main-Meets :
      (raw : List Text)
      → main F w (codes "verify-projection" ∷ raw) ≡ 0
      → (args : Args) × (root : Text) × ((parse raw [] ≡ inr args)
          × (args.positional ≡ root ∷ [])
          × Meets F (λ path. w.read_file (w.join root path)) (bench_sass w root))
  unfolding main run run_command lookup verify_command verify_report
  verify_main-Meets raw h =
      let ran = (exit_of-zero (verify_command F w raw) (verify-Small F w raw)).0 h in
      let (found, (report, last)) = bind-inr _ _ ran in
      let (args, (parsed, r1)) = bind-inr _ _ report in
      let (root, (one, r2)) = bind-inr _ _ r1 in
      let met = verify_code_zero F _ _ found (stopped-inr _ _ r2) (inr_back last) in
      (args, root, (args_of-inr raw [] parsed, only-inr _ _ one, met))
