-- ===== src/Cli/Tables.antt =====
-- The `mk-table` and `verify-projection` commands of src/main.rs, and `bench_sass` of
-- src/nvidia/verify.rs.
use calx_mill.Base.{ℕ, Option, none, some, inl, inr, List, [], ◌∷◌, if◌then◌else◌}
use calx_mill.Base.Result.{◌>>=◌, ok_or}
use calx_mill.Base.Text.{Text, codes}
use calx_mill.Base.Words.{ends_with}
use calx_mill.Base.Float.{Float}
use calx_mill.Base.Decimal.{FloatText}
use calx_mill.MkTable.Table.{mk_table}
use calx_mill.Projection.Rates.{RatesError, not_a_number}
use calx_mill.Projection.Rates
use calx_mill.Verify.Rows.{VerifyRow}
use calx_mill.Verify.Judge.{
  VerifyStop, unreadable, bad_rates, no_column, bad_value, nan_measured, bad_pattern, sass_panics,
  project_panics, Finding, verify_projection, verify_code,
}
use calx_mill.Cli.Args.{value}
use calx_mill.Cli.Command
use calx_mill.Cli.Command.{
  Ran, RunStop, World, message, unverified, panics, unless_panic, args_of, only, read, write,
}

module _ (w : World) where
  -- A file of a directory, where it is a table. A name that is no text stops the command.
  unfoldable pub read_entry : Option (Text × Text) → Ran (Option (Text × Text))
  read_entry none = inl (message (codes "non-utf8 file name"))
  read_entry (some (name, path)) =
      let some_text = (do text ← read w path; inr (some (name, text))) in
      if ends_with (codes ".csv") name then some_text else inr none

  unfoldable pub with_entry : Option (Text × Text) → List (Text × Text) → List (Text × Text)
  with_entry none results = results
  with_entry (some r) results = r ∷ results

  unfoldable pub read_entries : List (Option (Text × Text)) → Ran (List (Text × Text))
  read_entries [] = inr []
  read_entries (e ∷ entries) = do
    r ← read_entry e
    results ← read_entries entries
    inr (with_entry r results)

  unfoldable pub read_optional : Option Text → Ran (Option Text)
  read_optional none = inr none
  read_optional (some path) = do text ← read w path; inr (some text)

  -- The disassembly of a binary below a root, or the one that is kept beside it.
  unfoldable pub bench_sass : Text → Text → Option Text
  bench_sass root binary =
      let bin = w.join root binary in
      let sass = w.with_sass bin in
      if w.exists bin
      then w.sass_text bin
      else if w.exists sass
      then w.sass_text sass
      else w.sass_text bin

-- An I/O error is an error of `run`; the rest panics.
unfoldable pub verify_stop : VerifyStop → RunStop
verify_stop (unreadable path) = unverified (unreadable path)
verify_stop (bad_rates (not_a_number id v)) = unverified (bad_rates (not_a_number id v))
verify_stop (bad_rates (Rates.no_column c)) = panics
verify_stop (bad_value v) = unverified (bad_value v)
verify_stop (no_column c) = panics
verify_stop nan_measured = panics
verify_stop (bad_pattern p) = panics
verify_stop (sass_panics p) = panics
verify_stop (project_panics p) = panics

module _ (F : Type 0) ⦃fl : Float F⦄ ⦃ft : FloatText F⦄ (w : World) where
  unfoldable pub mk_table_command : List Text → Ran ℕ
  mk_table_command raw = do
    args ← args_of raw (codes "priors" ∷ codes "na" ∷ [])
    dir ← only (codes "mk-table: exactly one results directory expected") args.positional
    priors_path ←
        ok_or (value args (codes "priors")) (message (codes "mk-table: --priors is required"))
    priors ← read w priors_path
    na ← read_optional w (value args (codes "na"))
    out_path ← ok_or (value args (codes "o")) (message (codes "mk-table: -o is required"))
    entries ← ok_or (w.read_dir dir) (Command.unreadable dir)
    results ← read_entries w entries
    made ← unless_panic (mk_table F results priors na)
    _ ← write w out_path made.0
    inr 0

module _ (F : Type 0) ⦃fl : Float F⦄ (w : World) where
  unfoldable pub verify_report : List Text → Ran (List (VerifyRow × Finding F))
  verify_report raw = do
    args ← args_of raw []
    root ← only (codes "verify-projection: exactly one root directory expected") args.positional
    Command.stopped verify_stop
        (verify_projection F (λ path. w.read_file (w.join root path)) (bench_sass w root))

  unfoldable pub verify_command : List Text → Ran ℕ
  verify_command raw = do found ← verify_report raw; inr (verify_code found)
