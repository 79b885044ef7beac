-- ===== src/Cli/Anchor.antt =====
-- `GateAnchor` and `resolve_gate_anchor` of src/main.rs: what `gate` judges a claim against. Reading a
-- file is a parameter, `none` for one that cannot be read.
use calx_mill.Base.{
  Bool, true, false, ◌||◌, Option, none, some, inl, inr, List, [], ◌∷◌, if◌then◌else◌,
}
use calx_mill.Base.Result.{Result, ◌>>=◌, ok_or}
use calx_mill.Base.Text.{Text, codes, text_eq}
use calx_mill.Base.Float.{Float}
use calx_mill.Validity.Authority.{DomainFit}
use calx_mill.Validity.Fit.{Anchor, AnchorRow, computed_fit}
use calx_mill.Validity.Registry.{RegistryError, parse_registry}
use calx_mill.Validity.Command.{QueryError, parse_query, parse_fit}
use calx_mill.Cli.Args.{Args, value, has}

pub record GateAnchor (F : Type 0) : Type 0 where
  pub anchor : Anchor F
  pub fit : DomainFit
  -- The fit of the row's domain, in registry mode.
  pub computed : Option DomainFit
  pub overridden : Bool
  pub units : Text
  pub id : Text

-- The usage errors of `gate`. Those with a text name the flag, the file or the argument.
pub data UsageError : Type 0 where
  unknown_flag unexpected_argument conflicts_with_registry : Text → UsageError
  registry_mode_incomplete : UsageError
  unreadable : Text → UsageError
  bad_registry : RegistryError → UsageError
  no_such_row : Text → UsageError
  bad_query : QueryError → UsageError
  bad_fit : Text → UsageError
  no_anchor exclusive_tols no_tol no_fit : UsageError
  bad_number : Text → Text → UsageError
  negative_tol : Text → UsageError
  no_anchor_source no_value composite_without_value : UsageError
  not_two_verdicts : UsageError
  bad_verdicts : Text → UsageError

abbrev pub Use : Type 0 → Type 0
Use A = Result UsageError A

unfoldable pub map_err {ℓ} :
    {E : Type 0} {A : Type ℓ} → (E → UsageError) → Result E A → Result UsageError A
map_err f (inl e) = inl (f e)
map_err f (inr x) = inr x

-- The first of the names that the command has.
unfoldable pub first_conflict : Args → List Text → Use Unit
first_conflict args [] = inr tt
first_conflict args (name ∷ names) =
    let rest = first_conflict args names in
    if has args name then inl (conflicts_with_registry name) else rest

-- The values of the three flags of registry mode.
unfoldable pub all_three : Option Text → Option Text → Option Text → Use (Text × Text × Text)
all_three (some file) (some id) (some at) = inr (file, id, at)
all_three _ _ _ = inl registry_mode_incomplete

unfoldable pub is_registry_mode : Args → Bool
is_registry_mode args =
    has args (codes "registry") || has args (codes "anchor-id") || has args (codes "at")

unfoldable pub is_manual_mode : Args → Bool
is_manual_mode args =
    has args (codes "anchor")
    || has args (codes "tol")
    || has args (codes "tol-rel")
    || has args (codes "fit-override")

-- A fit that the operator declares, by its name.
unfoldable pub declared_fit : Text → Use DomainFit
declared_fit s = ok_or (parse_fit s) (bad_fit s)

text_or_empty : Option Text → Text
text_or_empty none = []
text_or_empty (some s) = s

module _ {F : Type 0} ⦃fl : Float F⦄ where
  unfoldable pub find_row : Text → List (AnchorRow F) → Option (AnchorRow F)
  find_row id [] = none
  find_row id (row ∷ rows) = if text_eq row.id id then some row else find_row id rows

  -- The row's anchor, with the fit that is computed of its domain or the one that is declared.
  unfoldable pub registry_anchor : AnchorRow F → DomainFit → Option Text → Use (GateAnchor F)
  registry_anchor row fit none = inr (record {
    anchor = row.anchor;
    fit = fit;
    computed = some fit;
    overridden = false;
    units = row.units;
    id = row.id;
  })
  registry_anchor row fit (some s) = do
    declared ← declared_fit s
    inr (record {
      anchor = row.anchor;
      fit = declared;
      computed = some fit;
      overridden = true;
      units = row.units;
      id = row.id;
    })

  number_arg : Text → Text → Use F
  number_arg flag s = ok_or (fl.parse s) (bad_number flag s)

  -- A tolerance that is no less than 0.
  tol_arg : Text → Text → Use F
  unfolding number_arg
  tol_arg flag s = do
    t ← number_arg flag s
    if fl.lt t fl.nought then inl (negative_tol flag) else inr t

  -- `--tol`, or `--tol-rel` in percent of the measured value.
  manual_tol : F → Option Text → Option Text → Use F
  unfolding tol_arg
  manual_tol measured (some t) (some p) = inl exclusive_tols
  manual_tol measured none none = inl no_tol
  manual_tol measured (some t) none = tol_arg (codes "tol") t
  manual_tol measured none (some p) = do
    x ← tol_arg (codes "tol-rel") p
    inr (fl.mul (fl.div x fl.hundred) (fl.abs measured))

  unfoldable pub resolve_manual : Args → Use (GateAnchor F)
  unfolding number_arg manual_tol text_or_empty
  resolve_manual args = do
    text ← ok_or (value args (codes "anchor")) no_anchor
    measured ← number_arg (codes "anchor") text
    tol ← manual_tol measured (value args (codes "tol")) (value args (codes "tol-rel"))
    s ← ok_or (value args (codes "fit-override")) no_fit
    fit ← declared_fit s
    inr (record {
      anchor = record { measured = measured; tol = tol };
      fit = fit;
      computed = none;
      overridden = true;
      units = text_or_empty (value args (codes "units"));
      id = [];
    })

  module _ (read_file : Text → Option Text) where
    unfoldable pub resolve_registry : Args → Use (GateAnchor F)
    unfolding first_conflict all_three
    resolve_registry args = do
      _ ← first_conflict args (codes "anchor" ∷ codes "tol" ∷ codes "tol-rel" ∷ [])
      flags ←
          all_three (value args (codes "registry")) (value args (codes "anchor-id"))
            (value args (codes "at"))
      text ← ok_or (read_file flags.0) (unreadable flags.0)
      rows ← map_err bad_registry (parse_registry text)
      row ← ok_or (find_row flags.1 rows) (no_such_row flags.1)
      query ← map_err bad_query (parse_query flags.2)
      registry_anchor row (computed_fit row query) (value args (codes "fit-override"))

    -- What the claim is judged against, `none` where no flag says so.
    unfoldable pub resolve_gate_anchor : Args → Use (Option (GateAnchor F))
    resolve_gate_anchor args =
        if is_registry_mode args
        then (do ga ← resolve_registry args; inr (some ga))
        else if is_manual_mode args
        then (do ga ← resolve_manual args; inr (some ga))
        else inr none
