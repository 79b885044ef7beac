-- ===== src/Cli/Tests.antt =====
-- Runs of the `gate` command, and the theorems at concrete data.
use calx_mill.Base.{◌≡◌, ◌≢◌, ◌↔◌, refl, Option, some, inr, List, [], ◌∷◌, ◌++◌, All}
use calx_mill.Base.Text.{Text, codes}
use calx_mill.Base.Float.{Sample, sample_float}
use calx_mill.Validity.Authority.{exit_code, refused, usage_exit}
use calx_mill.Cli.Args.{Args, no_args, parse}
use calx_mill.Cli.Items.{Item, option, free, written, IsItem, Reads, parse_iff}
use calx_mill.Cli.Gate.{gate_flags, gate_exit}
use calx_mill.Cli.Proven.{Proven}
use calx_mill.Cli.Missing.{gate_exit-needs_value}

-- A registry of one row, in every file that is read.
abbrev one_row : Text
one_row = codes "id,measured,tol,tol_kind,units,at,domain\na,5,1,abs,us,ctx=4,ctx=1..8\n"

abbrev read_file : Text → Option Text
read_file file = some one_row

abbrev asked : List Text
asked =
    codes "--value"
    ∷ codes "6"
    ∷ codes "--registry"
    ∷ codes "f"
    ∷ codes "--anchor-id"
    ∷ codes "a"
    ∷ codes "--at"
    ∷ codes "ctx=4"
    ∷ []

abbrev asked_args : Args
asked_args = record {
  positional = [];
  flags =
      (codes "value", some (codes "6"))
      ∷ (codes "registry", some (codes "f"))
      ∷ (codes "anchor-id", some (codes "a"))
      ∷ (codes "at", some (codes "ctx=4"))
      ∷ [];
}

abbrev begun : List Item
begun = option (codes "value") (codes "6") ∷ free (codes "x") ∷ []

begun-IsItem : All (IsItem gate_flags) begun
unfolding IsItem
begun-IsItem = (refl, ((refl, refl), tt))

gate_exit-needs_value_example :
    (gate_exit Sample read_file (written begun ++ (codes "--" ++ codes "at") ∷ [])
      ≡ exit_code refused)
    × (exit_code refused ≢ usage_exit)
gate_exit-needs_value_example =
    gate_exit-needs_value Sample read_file begun (codes "at") begun-IsItem refl

parse_iff_example :
    (parse asked gate_flags ≡ inr asked_args) ↔ Reads gate_flags no_args asked asked_args
parse_iff_example = parse_iff gate_flags asked asked_args
