-- ===== src/Cli/Strict.antt =====
-- When the `telemetry` command of src/main.rs ends with 0.
use calx_mill.Base.{
  ◌≡◌, ◌≢◌, ◌↔◌, ◌⊎◌, refl, ap, Bool, false, ℕ, Option, none, some, inr, List, [], ◌∷◌, arith,
}
use calx_mill.Base.Result.{bind-inr, inr-bind, inr_back, ok_or, ok_or-inr}
use calx_mill.Base.Text.{Text, codes}
use calx_mill.Base.Float.{Float}
use calx_mill.Base.Decimal.{FloatText}
use calx_mill.Projection.Tables.{lookup}
use calx_mill.Telemetry.Record.{TeleRecord}
use calx_mill.Telemetry.Clock.{TeleCtx, with_peak, derive, run_clock_ghz}
use calx_mill.Telemetry.Ingest.{parse_tele_counted}
use calx_mill.Telemetry.Summary.{Summary, summary_of}
use calx_mill.Cli.Args.{Args, parse, has}
use calx_mill.Cli.Command.{World, no_clock}
use calx_mill.Cli.Opened.{args_of-inr, read-inr, inr-args_of, inr-read}
use calx_mill.Cli.Summary.{front, summarized, strict_code, telemetry_command}
use calx_mill.Cli.Run.{run_command, run, main}
use calx_mill.Cli.Ends.{exit_of-zero, telemetry-Small}

front-inr :
    (m : Text) (ps : List Text) {p : Text}
    → front m ps ≡ inr p
    → (rest : List Text) × (ps ≡ p ∷ rest)
unfolding front
front-inr m [] h = cc
front-inr m (q ∷ rest) h = (rest, ap (λ x. x ∷ rest) (inr_back h))

inr-front :
    (m : Text) (ps : List Text) {p : Text} {rest : List Text} → ps ≡ p ∷ rest → front m ps ≡ inr p
unfolding front
inr-front m ps h = ap (front m) h

strict_code_iff :
    (strict : Bool) (n : ℕ) → (strict_code strict n ≡ 0) ↔ ((strict ≡ false) ⊎ (n ≡ 0))
unfolding strict_code
strict_code_iff strict n = ground arith

module _ (F : Type 0) ⦃fl : Float F⦄ where
  -- Records that can be summarized: some, with a clock.
  abbrev pub Clocked : List TeleRecord → Type 0
  Clocked recs = (recs ≢ []) × ((c : F) × (run_clock_ghz recs ≡ some c))

  with_peak-clock :
      (peak : F) (o : Option F) (ctx : TeleCtx F)
      → with_peak peak o ≡ some ctx
      → o ≡ some ctx.run_clock_ghz
  unfolding with_peak
  with_peak-clock peak none ctx h = cc
  with_peak-clock peak (some c) ctx h = ap (λ o. map_clock o) h
    where
      map_clock : Option (TeleCtx F) → Option F
      map_clock none = none
      map_clock (some t) = some t.run_clock_ghz

  summarized-Clocked :
      (recs : List TeleRecord) (s : Summary F) → summarized F recs ≡ inr s → Clocked recs
  unfolding summarized derive
  summarized-Clocked [] s h = cc
  summarized-Clocked (r ∷ recs) s h =
      let (ctx, (derived, _)) = bind-inr _ _ h in
      (λ e. cc, (ctx.run_clock_ghz, with_peak-clock _ _ ctx (ok_or-inr _ _ derived)))

  Clocked-summarized :
      (recs : List TeleRecord) → Clocked recs → (s : Summary F) × (summarized F recs ≡ inr s)
  unfolding summarized derive with_peak ok_or
  Clocked-summarized [] (some_rec, (c, h)) = absurd (some_rec refl)
  Clocked-summarized (r ∷ recs) (some_rec, (c, h)) =
      let ctx : TeleCtx F = record { run_clock_ghz = c; peak_dram_gbps = fl.of_ℕ 609 } in
      let derived = ap (λ o. ok_or (with_peak (fl.of_ℕ 609) o) no_clock) h in
      (summary_of ctx (r ∷ recs), inr-bind _ _ ctx derived refl)

-- What a run that ends with 0 has: a file that can be read, records with a clock, and no line skipped
-- where none may be.
pub record Complete (F : Type 0) ⦃fl : Float F⦄ (w : World) (raw : List Text) : Type 0 where
  pub args : Args
  pub path : Text
  pub others : List Text
  pub text : Text
  pub has_args : parse raw [] ≡ inr args
  pub has_path : args.positional ≡ path ∷ others
  pub has_text : w.read_file path ≡ some text
  pub has_clock : Clocked F (parse_tele_counted text).0
  pub is_whole : (has args (codes "strict") ≡ false) ⊎ ((parse_tele_counted text).1 ≡ 0)

module _ (F : Type 0) ⦃fl : Float F⦄ ⦃ft : FloatText F⦄ (w : World) where
  command-Complete : (raw : List Text) → telemetry_command F w raw ≡ inr 0 → Complete F w raw
  unfolding telemetry_command
  command-Complete raw h =
      let (args, (parsed, h1)) = bind-inr _ _ h in
      let (path, (front_path, h2)) = bind-inr _ _ h1 in
      let (text, (opened, h3)) = bind-inr _ _ h2 in
      let (s, (summed, last)) = bind-inr _ _ h3 in
      let (others, at_front) = front-inr _ _ front_path in
      record {
        args = args;
        path = path;
        others = others;
        text = text;
        has_args = args_of-inr raw [] parsed;
        has_path = at_front;
        has_text = read-inr w path opened;
        has_clock = summarized-Clocked F (parse_tele_counted text).0 s summed;
        is_whole = (strict_code_iff _ _).0 (inr_back last);
      }

  Complete-command : (raw : List Text) → Complete F w raw → telemetry_command F w raw ≡ inr 0
  unfolding telemetry_command
  Complete-command raw a =
      let (s, summed) = Clocked-summarized F (parse_tele_counted a.text).0 a.has_clock in
      inr-bind _ _ a.args (inr-args_of raw [] a.has_args) (
        inr-bind _ _ a.path (inr-front _ _ a.has_path) (
          inr-bind _ _ a.text (inr-read w a.path a.has_text)
            (inr-bind _ _ s summed (ap inr ((strict_code_iff _ _).1 a.is_whole)))))

  -- `calx-mill telemetry` ends with 0 exactly when the arguments parse and name a file first, the file
  -- can be read and has records, a run clock can be derived from them, and `--strict` is not given or
  -- no line was skipped.
  pub telemetry_main-zero :
      (raw : List Text) → (main F w (codes "telemetry" ∷ raw) ≡ 0) ↔ Complete F w raw
  unfolding main run run_command lookup
  telemetry_main-zero raw =
      let z = exit_of-zero (telemetry_command F w raw) (telemetry-Small F w raw) in
      (λ e. command-Complete raw (z.0 e), λ a. z.1 (Complete-command raw a))
