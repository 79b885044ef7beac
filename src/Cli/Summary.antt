-- ===== src/Cli/Summary.antt =====
-- The `telemetry` command of src/main.rs. What is printed is the summary.
use calx_mill.Base.{ℕ, Bool, ◌&&◌, inl, inr, List, [], ◌∷◌, ltb, if◌then◌else◌}
use calx_mill.Base.Result.{◌>>=◌, ok_or}
use calx_mill.Base.Text.{Text, codes}
use calx_mill.Base.Float.{Float}
use calx_mill.Telemetry.Record.{TeleRecord}
use calx_mill.Telemetry.Clock.{derive}
use calx_mill.Telemetry.Ingest.{parse_tele_counted}
use calx_mill.Telemetry.Summary.{Summary, summary_of}
use calx_mill.Cli.Args.{has}
use calx_mill.Cli.Command.{Ran, World, message, no_records, no_clock, args_of, read}

-- The first positional argument: others are passed over.
unfoldable pub front : Text → List Text → Ran Text
front m [] = inl (message m)
front m (p ∷ ps) = inr p

module _ (F : Type 0) ⦃fl : Float F⦄ where
  unfoldable pub summarized : List TeleRecord → Ran (Summary F)
  summarized [] = inl no_records
  summarized (r ∷ recs) = do
    ctx ← ok_or (derive (r ∷ recs) (fl.of_ℕ 609)) no_clock
    inr (summary_of ctx (r ∷ recs))

-- A run that must not lose a line fails where one was skipped.
unfoldable pub strict_code : Bool → ℕ → ℕ
strict_code strict skipped = if strict && ltb 0 skipped then 1 else 0

module _ (F : Type 0) ⦃fl : Float F⦄ (w : World) where
  unfoldable pub telemetry_command : List Text → Ran ℕ
  telemetry_command raw = do
    args ← args_of raw []
    path ← front (codes "telemetry: need a .tele file path") args.positional
    text ← read w path
    let found = parse_tele_counted text
    _ ← summarized F found.0
    inr (strict_code (has args (codes "strict")) found.1)
