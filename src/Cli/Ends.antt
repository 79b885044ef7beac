-- ===== src/Cli/Ends.antt =====
-- With which codes the process of src/main.rs can end.
use mathlib.Core.Path.{subst}
use calx_mill.Base.{
  ℕ, ◌≤◌, ◌%◌, ◌≡◌, ◌⊎◌, inl, inr, Bool, Option, none, some, List, [], ◌∷◌, ltb, if-both, any, refl,
  if◌then◌else◌, ◌&&◌, sym, ap, ◌∙◌, ◌↔◌, ◌≢◌, arith,
}
use calx_mill.Base.Result.{Result, ◌>>=◌, ok_or}
use calx_mill.Base.Text.{Text, codes}
use calx_mill.Base.Float.{Float}
use calx_mill.Base.Decimal.{FloatText}
use calx_mill.Projection.Tables.{lookup}
use calx_mill.Validity.Authority.{Verdict, refused, exit_code}
use calx_mill.Check.Purity.{CheckReport, exempt, checked, check_code}
use calx_mill.Check.Shares.{MatchStop, match_code, unreadable, bad_pattern, no_kernel}
use calx_mill.Check.Shares
use calx_mill.Verify.Rows.{VerifyRow}
use calx_mill.Verify.Judge.{Finding, failures, verify_code}
use calx_mill.Telemetry.Ingest.{parse_tele_counted}
use calx_mill.Cli.Args.{Args, ArgError, parse, has}
use calx_mill.Cli.Gate.{
  Report, composed, other_units, judged, gate_flags, report_code, use_code, main_code, gate_report,
  gate_exit,
}
use calx_mill.Cli.Anchor.{Use}
use calx_mill.Cli.Command.{Ran, RunStop, World, panics, unknown_command}
use calx_mill.Cli.Chains.{latency_command, compose_command}
use calx_mill.Cli.Kernels.{KernelReport, fit_code, ptxas_command, ncu_command}
use calx_mill.Cli.Loops.{
  some_code, project_command, census_command, compare_command, purity_command, check_command,
}
use calx_mill.Cli.Tables.{mk_table_command, verify_command}
use calx_mill.Cli.Summary.{strict_code, telemetry_command}
use calx_mill.Cli.Run.{
  Command, project, census, check_sass, mk_table, verify_projection, ptxas, ncu, latency, compose,
  gate, telemetry, help, commands, run_command, run, exit_of, stop_code, main,
}

-- A code of 0, 1 or 2, where there is one.
unfoldable pub Small : Ran ℕ → Type 0
Small (inl e) = Unit
Small (inr n) = n ≤ 2

bind-Small : {A : Type 0} (r : Ran A) (f : A → Ran ℕ) → ((x : A) → Small (f x)) → Small (r >>= f)
unfolding Small ◌>>=◌
bind-Small (inl e) f h = tt
bind-Small (inr x) f h = h x

code-Small : (n : ℕ) → n ≤ 2 → Small (inr n)
unfolding Small
code-Small n h = h

latency-Small : (raw : List Text) → Small (latency_command raw)
unfolding latency_command
latency-Small raw = bind-Small _ _ (λ args. bind-Small _ _ (λ r. code-Small 0 (omega arith)))

compose-Small : (raw : List Text) → Small (compose_command raw)
unfolding compose_command
compose-Small raw = bind-Small _ _ (λ args. bind-Small _ _ (λ r. code-Small 0 (omega arith)))

if_small : (b : Bool) → (if b then 1 else 0) ≤ 2
if_small b = ground arith

some_code_small : {A : Type 0} (o : Option A) → some_code o ≤ 2
unfolding some_code
some_code_small none = omega arith
some_code_small (some x) = omega arith

fit_code_small : (reports : List KernelReport) → fit_code reports ≤ 2
unfolding fit_code
fit_code_small [] = omega arith
fit_code_small (r ∷ reports) = ground arith

check_code_small : (report : CheckReport) → check_code report ≤ 2
unfolding check_code
check_code_small (exempt basename) = omega arith
check_code_small (checked []) = omega arith
check_code_small (checked (line ∷ lines)) = ground arith

exit_code_small : (v : Verdict) → exit_code v ≤ 4
unfolding exit_code
exit_code_small v = ground arith

report_code_small : (r : Report) → report_code r ≤ 4
unfolding report_code
report_code_small (composed v) = exit_code_small v
report_code_small (other_units a b) = exit_code_small refused
report_code_small (judged v) = exit_code_small v

use_code_small : (r : Use Report) → use_code r ≤ 4
unfolding use_code
use_code_small (inl e) = omega arith
use_code_small (inr report) = report_code_small report

main_code_small : (f : Args → Use Report) (args : Result ArgError Args) → main_code f args ≤ 4
unfolding main_code
main_code_small f (inl e) = omega arith
main_code_small f (inr args) = use_code_small (f args)

module _ {F : Type 0} ⦃fl : Float F⦄ where
  verify_code_small : (found : List (VerifyRow × Finding F)) → verify_code found ≤ 2
  unfolding verify_code
  verify_code_small found = if_small (ltb 0 (failures found))

  match-Small : (tol : F) (m : Result MatchStop (List F)) → Small (ok_or (match_code tol m) panics)
  unfolding Small match_code ok_or
  match-Small tol (inl (unreadable spec)) = omega arith
  match-Small tol (inl (bad_pattern spec c)) = omega arith
  match-Small tol (inl (no_kernel spec)) = omega arith
  match-Small tol (inl (Shares.panics p)) = tt
  match-Small tol (inr ds) = if_small (any (λ d. fl.lt tol d) ds)

module _ (w : World) where
  pub ptxas-Small : (raw : List Text) → Small (ptxas_command w raw)
  unfolding ptxas_command
  ptxas-Small raw = bind-Small _ _ (λ args. bind-Small _ _ (λ path.
      bind-Small _ _ (λ text.
        bind-Small _ _ (λ reports. code-Small (fit_code reports) (fit_code_small reports)))))

module _ (F : Type 0) ⦃fl : Float F⦄ ⦃ft : FloatText F⦄ (w : World) where
  ncu-Small : (raw : List Text) → Small (ncu_command F w raw)
  unfolding ncu_command
  ncu-Small raw = bind-Small _ _ (λ r. code-Small 0 (omega arith))

  project-Small : (raw : List Text) → Small (project_command F w raw)
  unfolding project_command
  project-Small raw = bind-Small _ _ (λ shown. code-Small (some_code shown) (some_code_small shown))

  census-Small : (raw : List Text) → Small (census_command F w raw)
  unfolding census_command
  census-Small raw = bind-Small _ _ (λ args. bind-Small _ _ (λ path. bind-Small _ _ (λ kernel.
      bind-Small _ _ (λ sass. bind-Small _ _ (λ drops.
        bind-Small _ _
          (λ counts. bind-Small _ _ (λ put. code-Small (some_code _) (some_code_small _))))))))

  pub check-Small : (raw : List Text) → Small (check_command F w raw)
  unfolding check_command compare_command purity_command
  check-Small raw = bind-Small _ _ (λ args.
      if-both Small (has args (codes "census-match"))
        (λ _. bind-Small _ _ (λ specs. bind-Small _ _ (λ tol. match-Small tol _)))
        (λ _. bind-Small _ _ (λ path. bind-Small _ _ (λ opts. bind-Small _ _ (λ name.
          bind-Small _ _ (λ sass.
            bind-Small _ _ (λ found. code-Small (check_code found) (check_code_small found))))))))

  pub mk_table-Small : (raw : List Text) → Small (mk_table_command F w raw)
  unfolding mk_table_command
  mk_table-Small raw = bind-Small _ _ (λ args. bind-Small _ _ (λ dir. bind-Small _ _ (λ path.
      bind-Small _ _ (λ priors. bind-Small _ _ (λ na. bind-Small _ _ (λ out.
        bind-Small _ _ (λ entries. bind-Small _ _ (λ results.
          bind-Small _ _ (λ made. bind-Small _ _ (λ put. code-Small 0 (omega arith)))))))))))

  pub verify-Small : (raw : List Text) → Small (verify_command F w raw)
  unfolding verify_command
  verify-Small raw =
      bind-Small _ _ (λ found. code-Small (verify_code found) (verify_code_small found))

  pub telemetry-Small : (raw : List Text) → Small (telemetry_command F w raw)
  unfolding telemetry_command strict_code
  telemetry-Small raw = bind-Small _ _ (λ args. bind-Small _ _ (λ path. bind-Small _ _ (λ text.
      bind-Small _ _ (λ s.
        code-Small _ (if_small (has args (codes "strict") && ltb 0 (parse_tele_counted text).1))))))

  -- Every command but `gate`.
  run_command-Small : (c : Command) (raw : List Text) → (c ≡ gate) ⊎ Small (run_command F w c raw)
  unfolding run_command
  run_command-Small project raw = inr (project-Small raw)
  run_command-Small census raw = inr (census-Small raw)
  run_command-Small check_sass raw = inr (check-Small raw)
  run_command-Small mk_table raw = inr (mk_table-Small raw)
  run_command-Small verify_projection raw = inr (verify-Small raw)
  run_command-Small ptxas raw = inr (ptxas-Small w raw)
  run_command-Small ncu raw = inr (ncu-Small raw)
  run_command-Small latency raw = inr (latency-Small raw)
  run_command-Small compose raw = inr (compose-Small raw)
  run_command-Small gate raw = inl refl
  run_command-Small telemetry raw = inr (telemetry-Small raw)
  run_command-Small help raw = inr (code-Small 0 (omega arith))

  gate_exit_small : (raw : List Text) → gate_exit F w.read_file raw ≤ 4
  unfolding gate_exit
  gate_exit_small raw = main_code_small (gate_report F w.read_file) (parse raw gate_flags)

-- The end of a process: 0, 1 or 2, or the code of a panic.
unfoldable pub IsPlainEnd : ℕ → Type 0
IsPlainEnd code = (code ≤ 2) ⊎ (code ≡ 101)

stop_code-IsPlainEnd : (e : RunStop) → IsPlainEnd (stop_code e)
unfolding stop_code IsPlainEnd
stop_code-IsPlainEnd e = ground arith

exit_of-IsPlainEnd : (r : Ran ℕ) → Small r → IsPlainEnd (exit_of r)
unfolding Small exit_of IsPlainEnd
exit_of-IsPlainEnd (inl e) h = stop_code-IsPlainEnd e
exit_of-IsPlainEnd (inr n) h = let le : n % 256 ≤ n = omega arith in inl (omega arith)

stop_code_some : (e : RunStop) → stop_code e ≢ 0
unfolding stop_code
stop_code_some e = ground arith

-- A run ends with 0 exactly when it gives 0.
pub exit_of-zero : (r : Ran ℕ) → Small r → (exit_of r ≡ 0) ↔ (r ≡ inr 0)
unfolding Small exit_of
exit_of-zero (inl e) h = (λ z. absurd (stop_code_some e z), λ z. cc)
exit_of-zero (inr n) h =
    (λ z. let nought : n ≡ 0 = omega (arith, less_mod n h) in ap inr nought, λ z. ap exit_of z)
  where
    less_mod : (m : ℕ) → m ≤ 2 → m % 256 ≡ m
    less_mod m l = omega arith

-- The arguments ask for the `gate` command.
unfoldable pub AsksGate : List Text → Type 0
AsksGate [] = ⊥
AsksGate (name ∷ rest) = lookup commands name ≡ some gate

module _ (F : Type 0) ⦃fl : Float F⦄ ⦃ft : FloatText F⦄ (w : World) where
  unfoldable End : List Text → ℕ → Type 0
  End raw code = IsPlainEnd code ⊎ (AsksGate raw × (code ≤ 4))

  gate_end_small : (raw : List Text) → exit_of (run_command F w gate raw) ≤ 4
  unfolding run_command exit_of
  gate_end_small raw =
      let n = gate_exit F w.read_file raw in
      let small = gate_exit_small F w raw in let le : n % 256 ≤ n = omega arith in omega arith

  named-End :
      (name : Text) (rest : List Text) (found : Option Command)
      → lookup commands name ≡ found
      → End (name ∷ rest) (
          exit_of
            (elim found [ none ↦ inl (unknown_command name) | some c ↦ run_command F w c rest ]))
  unfolding AsksGate End exit_of
  named-End name rest none h = inl (stop_code-IsPlainEnd (unknown_command name))
  named-End name rest (some c) h = elim (run_command-Small F w c rest) [
    | inr small ↦ inl (exit_of-IsPlainEnd _ small)
    | inl e ↦
        subst (λ d. End (name ∷ rest) (exit_of (run_command F w d rest))) (sym e)
          (inr (h ∙ ap some e, gate_end_small rest))
  ]

  -- The process ends with the code 0, 1 or 2, or with that of a panic, 101. Only the `gate` command
  -- has other codes, 3 and 4.
  pub main_end : (raw : List Text) → IsPlainEnd (main F w raw) ⊎ (AsksGate raw × (main F w raw ≤ 4))
  unfolding main run End
  main_end [] = inl (exit_of-IsPlainEnd (inr 2) (code-Small 2 (omega arith)))
  main_end (name ∷ rest) = named-End name rest (lookup commands name) refl
