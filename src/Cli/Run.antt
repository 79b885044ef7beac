-- ===== src/Cli/Run.antt =====
-- `run` and `main` of src/main.rs: the command that a name stands for, and the exit code.
use calx_mill.Base.{ℕ, ◌%◌, none, some, inl, inr, List, [], ◌∷◌}
use calx_mill.Base.Text.{Text, codes}
use calx_mill.Base.Float.{Float}
use calx_mill.Base.Decimal.{FloatText}
use calx_mill.Projection.Tables.{lookup}
use calx_mill.Cli.Gate.{gate_exit}
use calx_mill.Cli.Command.{Ran, RunStop, World, unknown_command, panics}
use calx_mill.Cli.Chains.{latency_command, compose_command}
use calx_mill.Cli.Kernels.{ptxas_command, ncu_command}
use calx_mill.Cli.Loops.{project_command, census_command, check_command}
use calx_mill.Cli.Tables.{mk_table_command, verify_command}
use calx_mill.Cli.Summary.{telemetry_command}

pub data Command : Type 0 where
  project census check_sass mk_table verify_projection ptxas ncu : Command
  latency compose gate telemetry help : Command

abbrev pub commands : List (Text × Command)
commands =
    (codes "project", project)
    ∷ (codes "census", census)
    ∷ (codes "check-sass", check_sass)
    ∷ (codes "mk-table", mk_table)
    ∷ (codes "verify-projection", verify_projection)
    ∷ (codes "ptxas", ptxas)
    ∷ (codes "ncu", ncu)
    ∷ (codes "latency", latency)
    ∷ (codes "compose", compose)
    ∷ (codes "gate", gate)
    ∷ (codes "telemetry", telemetry)
    ∷ (codes "--help", help)
    ∷ (codes "-h", help)
    ∷ (codes "help", help)
    ∷ []

module _ (F : Type 0) ⦃fl : Float F⦄ ⦃ft : FloatText F⦄ (w : World) where
  -- `gate_exit` ends arguments that do not parse with the code that `main` gives an error.
  unfoldable pub run_command : Command → List Text → Ran ℕ
  run_command project raw = project_command F w raw
  run_command census raw = census_command F w raw
  run_command check_sass raw = check_command F w raw
  run_command mk_table raw = mk_table_command F w raw
  run_command verify_projection raw = verify_command F w raw
  run_command ptxas raw = ptxas_command w raw
  run_command ncu raw = ncu_command F w raw
  run_command latency raw = latency_command raw
  run_command compose raw = compose_command raw
  run_command gate raw = inr (gate_exit F w.read_file raw)
  run_command telemetry raw = telemetry_command F w raw
  run_command help raw = inr 0

  unfoldable pub run : List Text → Ran ℕ
  run [] = inr 2
  run (name ∷ rest) = elim (lookup commands name) [
    | none ↦ inl (unknown_command name)
    | some command ↦ run_command command rest
  ]

-- The exit code of an error. A panic has one of its own.
unfoldable pub stop_code : RunStop → ℕ
stop_code panics = 101
stop_code _ = 2

unfoldable pub exit_of : Ran ℕ → ℕ
exit_of (inl e) = stop_code e
exit_of (inr code) = code % 256

module _ (F : Type 0) ⦃fl : Float F⦄ ⦃ft : FloatText F⦄ (w : World) where
  unfoldable pub main : List Text → ℕ
  main raw = exit_of (run F w raw)
