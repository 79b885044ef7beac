-- ===== src/Cli/Gate.antt =====
-- The `gate` command of src/main.rs, and the exit code that `main` gives it. What is printed is left
-- out, but for the kind of the report.
use calx_mill.Base.{
  ℕ, ◌+◌, Bool, true, false, not, ◌&&◌, Option, none, some, inl, inr, List, [], ◌∷◌, leb, map,
  if◌then◌else◌,
}
use calx_mill.Base.Result.{Result, ◌>>=◌, ok_or}
use calx_mill.Base.Text.{Text, codes, text_eq, trim, split_once}
use calx_mill.Base.Float.{Float}
use calx_mill.Csv.Reader.{is_empty}
use calx_mill.Validity.Authority.{
  Authority, gate, cross_checked, advisory, Verdict, refused, authority, compose, verdict,
  exit_code, usage_exit,
}
use calx_mill.Validity.Fit.{reproduces}
use calx_mill.Cli.Args.{Args, ArgError, parse, value}
use calx_mill.Cli.Anchor.{
  GateAnchor, UsageError, unknown_flag, unexpected_argument, bad_number, no_anchor_source, no_value,
  composite_without_value, not_two_verdicts, bad_verdicts, Use, resolve_gate_anchor,
}

-- What the command reports: the verdict on a composition, a claim in other units than its anchor, by
-- both units, or the verdict on a claim.
pub data Report : Type 0 where
  composed : Verdict → Report
  other_units : Text → Text → Report
  judged : Verdict → Report

abbrev pub gate_flags : List Text
gate_flags =
    codes "value"
    ∷ codes "anchor"
    ∷ codes "tol"
    ∷ codes "tol-rel"
    ∷ codes "at-anchor"
    ∷ codes "units"
    ∷ codes "registry"
    ∷ codes "anchor-id"
    ∷ codes "at"
    ∷ codes "fit-override"
    ∷ codes "compose"
    ∷ []

-- The first flag without a value is an error.
unfoldable pub check_flags : List (Text × Option Text) → Use Unit
check_flags [] = inr tt
check_flags ((k, none) ∷ flags) = inl (unknown_flag k)
check_flags ((k, some v) ∷ flags) = check_flags flags

unfoldable pub check_positional : List Text → Use Unit
check_positional [] = inr tt
check_positional (p ∷ ps) = inl (unexpected_argument p)

to_ascii_lowercase : Text → Text
to_ascii_lowercase = map (λ c. if leb b'A' c && leb c b'Z' then c + 32 else c)

verdict_name : Text → Option Authority
verdict_name s =
    if text_eq s (codes "certified")
    then some gate
    else if text_eq s (codes "provisional")
    then some cross_checked
    else if text_eq s (codes "refused")
    then some advisory
    else none

unfoldable pub parse_verdict : Text → Option Authority
unfolding verdict_name to_ascii_lowercase
parse_verdict s = verdict_name (to_ascii_lowercase s)

both_verdicts : Text → Option Authority → Option Authority → Use (Authority × Authority)
both_verdicts spec (some a) (some b) = inr (a, b)
both_verdicts spec _ _ = inl (bad_verdicts spec)

unfoldable pub parse_verdicts : Text → Use (Authority × Authority)
unfolding both_verdicts
parse_verdicts spec = do
  parts ← ok_or (split_once (codes ",") spec) not_two_verdicts
  both_verdicts spec (parse_verdict (trim parts.0)) (parse_verdict (trim parts.1))

unfoldable pub is_gate : Authority → Bool
is_gate gate = true
is_gate cross_checked = false
is_gate advisory = false

-- Whether the claim names units other than the anchor's.
unfoldable pub units_differ : Text → Option Text → Bool
units_differ units none = false
units_differ units (some u) = not (is_empty units) && not (text_eq u units)

unit_name : Option Text → Text
unit_name none = []
unit_name (some u) = u

module _ {F : Type 0} ⦃fl : Float F⦄ where
  -- The model's value at the anchor, which is the claim's value unless a flag gives it.
  at_anchor_or : F → Option Text → Use F
  at_anchor_or x none = inr x
  at_anchor_or x (some s) = ok_or (fl.parse s) (bad_number (codes "at-anchor") s)

  -- The value at the anchor. The claim's value has to parse, also where the other flag replaces it.
  unfoldable pub claim_at_anchor : Args → UsageError → Use F
  unfolding at_anchor_or
  claim_at_anchor args missing = do
    text ← ok_or (value args (codes "value")) missing
    x ← ok_or (fl.parse text) (bad_number (codes "value") text)
    at_anchor_or x (value args (codes "at-anchor"))

  unfoldable pub gate_authority : GateAnchor F → F → Authority
  gate_authority ga x = authority (reproduces ga.anchor x) ga.fit

  -- Whether the composite claim earns the gate from its own anchor.
  unfoldable pub composite_anchored : Args → Option (GateAnchor F) → Use Bool
  unfolding is_gate
  composite_anchored args none = inr false
  composite_anchored args (some ga) = do
    x ← claim_at_anchor args composite_without_value
    inr (is_gate (gate_authority ga x))

  unfoldable pub judge_composition : Args → Option (GateAnchor F) → Text → Use Report
  judge_composition args ga spec = do
    parts ← parse_verdicts spec
    anchored ← composite_anchored args ga
    inr (composed (verdict (compose parts.0 parts.1 anchored)))

  unfoldable pub judge_claim : Args → GateAnchor F → Use Report
  unfolding units_differ unit_name
  judge_claim args ga = do
    x ← claim_at_anchor args no_value
    if units_differ ga.units (value args (codes "units"))
        then inr (other_units (unit_name (value args (codes "units"))) ga.units)
        else inr (judged (verdict (gate_authority ga x)))

  unfoldable pub adjudicate : Args → Option (GateAnchor F) → Option Text → Use Report
  adjudicate args ga (some spec) = judge_composition args ga spec
  adjudicate args none none = inl no_anchor_source
  adjudicate args (some ga) none = judge_claim args ga

unfoldable pub report_code : Report → ℕ
report_code (composed v) = exit_code v
report_code (other_units claim anchor) = exit_code refused
report_code (judged v) = exit_code v

unfoldable pub use_code : Use Report → ℕ
use_code (inl e) = usage_exit
use_code (inr report) = report_code report

-- `main`: arguments that do not parse are no usage error of the command's, but one of `run`.
unfoldable pub main_code : (Args → Use Report) → Result ArgError Args → ℕ
main_code command (inl e) = 2
main_code command (inr args) = use_code (command args)

module _ (F : Type 0) ⦃fl : Float F⦄ (read_file : Text → Option Text) where
  unfoldable pub gate_report : Args → Use Report
  gate_report args = do
    _ ← check_flags args.flags
    _ ← check_positional args.positional
    ga ← resolve_gate_anchor {F = F} read_file args
    adjudicate args ga (value args (codes "compose"))

  -- `calx-mill gate`, on the arguments behind the command's name.
  unfoldable pub gate_exit : List Text → ℕ
  gate_exit raw = main_code (gate_report) (parse raw gate_flags)
