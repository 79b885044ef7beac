-- ===== src/Cli/Proven.antt =====
-- The `gate` command of src/main.rs against a row of the registry, with no declared fit.
use mathlib.Core.List.{Memᴰ}
use calx_mill.Base.{◌≡◌, true, Option, some, inr, List}
use calx_mill.Base.Result.{Result}
use calx_mill.Base.Text.{Text, codes}
use calx_mill.Base.Float.{Float}
use calx_mill.Validity.Authority.{at_anchor}
use calx_mill.Validity.Fit.{AnchorRow, reproduces, computed_fit}
use calx_mill.Validity.Covered.{Covered, AtPoint}
use calx_mill.Validity.Registry.{parse_registry}
use calx_mill.Validity.Command.{parse_fit, parse_query}
use calx_mill.Cli.Args.{Args, value}
use calx_mill.Cli.Anchor.{GateAnchor, no_value}
use calx_mill.Cli.Gate.{claim_at_anchor}

-- The row of a registry file that the arguments name, the query that they ask, and what is shown of
-- both.
pub record Proven (F : Type 0) ⦃fl : Float F⦄ (read_file : Text → Option Text) (args : Args)
    : Type 0 where
  pub file : Text
  pub text : Text
  pub rows : List (AnchorRow F)
  pub row : AnchorRow F
  pub at : Text
  pub query : List (Text × Text)
  pub projected : F
  pub names_file : value args (codes "registry") ≡ some file
  pub is_read : read_file file ≡ some text
  pub is_loaded : parse_registry text ≡ inr rows
  pub names_row : value args (codes "anchor-id") ≡ some row.id
  pub has_row : Memᴰ row rows
  pub names_point : value args (codes "at") ≡ some at
  pub is_query : parse_query at ≡ inr query
  pub is_claimed : claim_at_anchor args no_value ≡ inr projected
  pub is_reproduced : reproduces row.anchor projected ≡ true
  pub is_covered : Covered row query
  pub is_at_point : AtPoint row query

-- With no declared fit, the anchor is that of a row, with the fit that is computed.
module _ (F : Type 0) ⦃fl : Float F⦄ (read_file : Text → Option Text) where
  record Resolved (args : Args) (ga : GateAnchor F) : Type 0 where
    pub file : Text
    pub text : Text
    pub rows : List (AnchorRow F)
    pub row : AnchorRow F
    pub at : Text
    pub query : List (Text × Text)
    pub names_file : value args (codes "registry") ≡ some file
    pub is_read : read_file file ≡ some text
    pub is_loaded : parse_registry text ≡ inr rows
    pub names_row : value args (codes "anchor-id") ≡ some row.id
    pub has_row : Memᴰ row rows
    pub names_point : value args (codes "at") ≡ some at
    pub is_query : parse_query at ≡ inr query
    pub has_anchor : row.anchor ≡ ga.anchor
    pub has_fit : computed_fit row query ≡ ga.fit

-- The operator declares that the query is the anchor's own point.
abbrev pub Declared : Args → Type 0
Declared args =
    (s : Text) × (value args (codes "fit-override") ≡ some s) × (parse_fit s ≡ some at_anchor)
