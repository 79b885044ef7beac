-- ===== src/Cli/Outcome.antt =====
-- What stands behind an exit code of the `gate` command of src/main.rs.
use calx_mill.Base.{
  ℕ, ◌≡◌, refl, sym, ap, ◌∙◌, Bool, true, false, false≢true, not, [], ◌∷◌, Option, none, some, inl,
  inr, List, arith, if◌then◌else◌,
}
use calx_mill.Base.Result.{Result, bind-inr, ok_or-other}
use calx_mill.Base.Text.{Text, codes, text_eq, text_eq_iff}
use calx_mill.Base.Float.{Float}
use mathlib.Core.Path.{subst}
use calx_mill.Validity.Authority.{
  verdict-authority_iff, compose_greatest, ◌⊑◌, Authority, gate, cross_checked, advisory, DomainFit,
  at_anchor, Verdict, certified, provisional, refused, authority, compose, verdict, exit_code,
}
use calx_mill.Validity.Fit.{reproduces}
use calx_mill.Cli.Args.{Args, ArgError, parse, value}
use calx_mill.Cli.Anchor.{
  GateAnchor, UsageError, Use, composite_without_value, no_value, resolve_gate_anchor,
}
use calx_mill.Cli.Gate.{
  Report, other_units, judged, gate_flags, parse_verdicts, claim_at_anchor, gate_authority, is_gate,
  composite_anchored, judge_composition, units_differ, judge_claim, adjudicate, gate_report,
  report_code, use_code, main_code, gate_exit,
}

four≢zero : ¬ (◌≡◌ {A = ℕ} 4 0)
four≢zero = omega arith

two≢zero : ¬ (◌≡◌ {A = ℕ} 2 0)
two≢zero = omega arith

use_code_zero :
    (u : Use Report)
    → use_code u ≡ 0
    → (report : Report) × ((u ≡ inr report) × (report_code report ≡ 0))
unfolding use_code
use_code_zero (inl e) h = elim (four≢zero h) [ ]
use_code_zero (inr report) h = (report, (refl, h))

pub args_back : {a b : Args} → ◌≡◌ {A = Result ArgError Args} (inr a) (inr b) → a ≡ b
args_back h = cc

pub inr_back : {A : Type 0} {x y : A} → ◌≡◌ {A = Use A} (inr x) (inr y) → x ≡ y
inr_back h = cc

pair_eq : {a b c d : Authority} → a ≡ c → b ≡ d → ◌≡◌ {A = Authority × Authority} (a, b) (c, d)
pair_eq p q = cc

main_code_zero :
    (command : Args → Use Report) (r : Result ArgError Args)
    → main_code command r ≡ 0
    → (args : Args) × (report : Report) × ((r ≡ inr args)
        × ((command args ≡ inr report) × (report_code report ≡ 0)))
unfolding main_code
main_code_zero command (inl e) h = elim (two≢zero h) [ ]
main_code_zero command (inr args) h =
    let (report, (e, z)) = use_code_zero (command args) h in (args, report, (refl, (e, z)))

exit_code_zero : (v : Verdict) → exit_code v ≡ 0 → v ≡ certified
unfolding exit_code
exit_code_zero certified h = refl
exit_code_zero provisional h = ground arith
exit_code_zero refused h = ground arith

verdict-gate : (a : Authority) → exit_code (verdict a) ≡ 0 → a ≡ gate
unfolding verdict exit_code
verdict-gate gate h = refl
verdict-gate cross_checked h = ground arith
verdict-gate advisory h = ground arith

gate-top : (a : Authority) → gate ⊑ a → a ≡ gate
gate-top gate h = refl
gate-top cross_checked h = ground arith
gate-top advisory h = ground arith

compose-gate :
    (a b : Authority) (c : Bool) → compose a b c ≡ gate → (a ≡ gate) × ((b ≡ gate) × (c ≡ true))
compose-gate a b c h =
    let (le_a, le_b, own) =
      (compose_greatest a b gate c).0 (subst (λ m. gate ⊑ m) (sym h) (omega arith)) in
    (gate-top a le_a, (gate-top b le_b, elim own [ inl e ↦ e | inr capped ↦ ground arith ]))

-- An anchor that the arguments name, and a value of the model at it that it reproduces, with the fit
-- of its own point, computed or declared. The value's text is read as a number.
pub record Anchored (F : Type 0) ⦃fl : Float F⦄ (read_file : Text → Option Text) (args : Args)
    : Type 0 where
  pub anchor : GateAnchor F
  pub at_the_anchor : F
  pub is_resolved : resolve_gate_anchor read_file args ≡ inr (some anchor)
  pub is_claimed : claim_at_anchor args no_value ≡ inr at_the_anchor
  pub is_reproduced : reproduces anchor.anchor at_the_anchor ≡ true
  pub is_at_anchor : anchor.fit ≡ at_anchor

not-false : (b : Bool) → not b ≡ false → b ≡ true
not-false true h = refl
not-false false h = sym h

-- The claim's units, where both are given, are the anchor's.
pub data SameUnits : Text → Option Text → Type 0 where
  no_claim_units : {units : Text} → SameUnits units none
  no_anchor_units : {u : Text} → SameUnits [] (some u)
  same_units : {u : Text} → SameUnits u (some u)

SameUnits-text_eq : (units u : Text) → text_eq u units ≡ true → SameUnits units (some u)
SameUnits-text_eq units u h =
    subst (λ v. SameUnits v (some u)) ((text_eq_iff u units).0 h) same_units

units_differ-SameUnits :
    (units : Text) (o : Option Text) → units_differ units o ≡ false → SameUnits units o
unfolding units_differ
units_differ-SameUnits units none h = no_claim_units
units_differ-SameUnits [] (some u) h = no_anchor_units
units_differ-SameUnits (c ∷ units) (some u) h =
    SameUnits-text_eq (c ∷ units) u (not-false (text_eq u (c ∷ units)) h)

-- Without `--compose` the claim has the anchor's units. With it both verdicts are `certified`.
unfoldable pub Speaks : {F : Type 0} → Args → GateAnchor F → Option Text → Type 0
Speaks args ga none = SameUnits ga.units (value args (codes "units"))
Speaks args ga (some spec) = parse_verdicts spec ≡ inr (gate, gate)

authority-gate :
    (b : Bool) (fit : DomainFit)
    → exit_code (verdict (authority b fit)) ≡ 0
    → (b ≡ true) × (fit ≡ at_anchor)
authority-gate b fit h = (verdict-authority_iff b fit).0.0 (exit_code_zero _ h)

is_gate-true : (a : Authority) → is_gate a ≡ true → exit_code (verdict a) ≡ 0
unfolding is_gate verdict exit_code
is_gate-true gate h = refl
is_gate-true cross_checked h = cc
is_gate-true advisory h = cc

-- The report on a claim whose units differ is a refusal.
units_case :
    (differ : Bool) (claim anchor : Text) (v : Verdict) (report : Report)
    → ◌≡◌ {A = Use Report}
        (if differ then inr (other_units claim anchor) else inr (judged v))
        (inr report)
    → report_code report ≡ 0
    → (exit_code v ≡ 0) × (differ ≡ false)
unfolding report_code exit_code
units_case true claim anchor v report h z = elim (two≢zero (ap report_code (inr_back h) ∙ z)) [ ]
units_case false claim anchor v report h z = (ap report_code (inr_back h) ∙ z, refl)

module _ {F : Type 0} ⦃fl : Float F⦄ where
  claim_at_anchor-other :
      (args : Args) (e f : UsageError) (x : F)
      → claim_at_anchor args e ≡ inr x
      → claim_at_anchor args f ≡ inr x
  unfolding claim_at_anchor
  claim_at_anchor-other args e f x h = ok_or-other _ e f _ h

  judge_claim_zero :
      (args : Args) (ga : GateAnchor F) (report : Report)
      → judge_claim args ga ≡ inr report
      → report_code report ≡ 0
      → (x : F) × ((claim_at_anchor args no_value ≡ inr x)
          × ((exit_code (verdict (gate_authority ga x)) ≡ 0)
              × (units_differ ga.units (value args (codes "units")) ≡ false)))
  unfolding judge_claim
  judge_claim_zero args ga report h z =
      let (x, (claimed, rest)) = bind-inr _ _ h in
      (
        x,
        (
          claimed,
          units_case (units_differ ga.units (value args (codes "units"))) _ ga.units _ report rest
              z,
        ),
      )

  judge_composition_zero :
      (args : Args) (ga : Option (GateAnchor F)) (spec : Text) (report : Report)
      → judge_composition args ga spec ≡ inr report
      → report_code report ≡ 0
      → (composite_anchored args ga ≡ inr true) × (parse_verdicts spec ≡ inr (gate, gate))
  unfolding judge_composition
  judge_composition_zero args ga spec report h z =
      let (parts, (read, rest)) = bind-inr _ _ h in
      let (anchored, (own, last)) = bind-inr _ _ rest in
      let (a, (b, c)) =
        compose-gate parts.0 parts.1 anchored
          (verdict-gate _ (unfold report_code in (ap report_code (inr_back last) ∙ z))) in
      (own ∙ ap inr c, read ∙ ap inr (pair_eq a b))

  composite_anchored-true :
      (args : Args) (ga : Option (GateAnchor F))
      → composite_anchored args ga ≡ inr true
      → (g : GateAnchor F) × ((ga ≡ some g)
          × ((x : F) × ((claim_at_anchor args no_value ≡ inr x)
                × (exit_code (verdict (gate_authority g x)) ≡ 0))))
  unfolding composite_anchored
  composite_anchored-true args none h = elim (false≢true (inr_back h)) [ ]
  composite_anchored-true args (some g) h =
      let (x, (claimed, last)) = bind-inr _ _ h in
      (
        g,
        (
          refl,
          (
            x,
            (
              claim_at_anchor-other args composite_without_value no_value x claimed,
              is_gate-true _ (inr_back last),
            ),
          ),
        ),
      )

  adjudicate_zero :
      (args : Args) (ga : Option (GateAnchor F)) (compose : Option Text) (report : Report)
      → adjudicate args ga compose ≡ inr report
      → report_code report ≡ 0
      → (g : GateAnchor F) × ((ga ≡ some g)
          × (Speaks args g compose
              × ((x : F) × ((claim_at_anchor args no_value ≡ inr x)
                    × (exit_code (verdict (gate_authority g x)) ≡ 0)))))
  unfolding adjudicate Speaks
  adjudicate_zero args ga (some spec) report h z =
      let (own, both) = judge_composition_zero args ga spec report h z in
      let (g, (e, rest)) = composite_anchored-true args ga own in (g, (e, (both, rest)))
  adjudicate_zero args none none report h z = cc
  adjudicate_zero args (some g) none report h z =
      let (x, (claimed, (code, units))) = judge_claim_zero args g report h z in
      (g, (refl, (units_differ-SameUnits g.units _ units, (x, (claimed, code)))))

module _ (F : Type 0) ⦃fl : Float F⦄ (read_file : Text → Option Text) where
  -- When `gate` exits with 0, its arguments parse, they name an anchor, and the value that they give at
  -- the anchor is reproduced, with the fit `at_anchor`. This holds of a claim, whose units are then not
  -- other than the anchor's, and of a composition, both of whose parts are then certified.
  pub gate_exit-Anchored :
      (raw : List Text)
      → gate_exit F read_file raw ≡ 0
      → (args : Args) × ((parse raw gate_flags ≡ inr args)
          × ((a : Anchored F read_file args) × Speaks args a.anchor (value args (codes "compose"))))
  unfolding gate_exit gate_report gate_authority
  gate_exit-Anchored raw h =
      let (args, report, (parsed, (ran, z))) = main_code_zero _ _ h in
      let (_, (_, ran)) = bind-inr _ _ ran in
      let (_, (_, ran)) = bind-inr _ _ ran in
      let (ga, (resolved, ran)) = bind-inr _ _ ran in
      let (g, (e, (speaks, (x, (claimed, code))))) =
        adjudicate_zero args ga (value args (codes "compose")) report ran z in
      let (reproduced, fit) = authority-gate _ _ code in
      (
        args,
        (
          parsed,
          (
            record {
              anchor = g;
              at_the_anchor = x;
              is_resolved = resolved ∙ ap inr e;
              is_claimed = claimed;
              is_reproduced = reproduced;
              is_at_anchor = fit;
            },
            speaks,
          ),
        ),
      )
