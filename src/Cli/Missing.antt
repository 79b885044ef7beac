-- ===== src/Cli/Missing.antt =====
-- The exit code of the `gate` command of src/main.rs where the value of a flag is missing.
use calx_mill.Base.{◌≡◌, ◌≢◌, ap, true, Option, List, [], ◌∷◌, ◌++◌, any, All, arith}
use calx_mill.Base.Text.{Text, codes, text_eq}
use calx_mill.Base.Float.{Float}
use calx_mill.Validity.Authority.{refused, exit_code, usage_exit}
use calx_mill.Cli.Items.{Item, written, IsItem, parse-needs_value}
use calx_mill.Cli.Gate.{gate_flags, gate_report, main_code, gate_exit}

module _ (F : Type 0) ⦃fl : Float F⦄ (read_file : Text → Option Text) where
  -- `gate` exits with the code of a refusal, not with that of a usage error, when its arguments are
  -- complete flags and positional arguments and then a flag whose value is missing.
  pub gate_exit-needs_value :
      (items : List Item) (name : Text)
      → All (IsItem gate_flags) items
      → any (λ f. text_eq f name) gate_flags ≡ true
      → (gate_exit F read_file (written items ++ (codes "--" ++ name) ∷ []) ≡ exit_code refused)
        × (exit_code refused ≢ usage_exit)
  unfolding gate_exit main_code exit_code
  gate_exit-needs_value items name goods listed = (
    ap (main_code (gate_report F read_file)) (parse-needs_value gate_flags items name goods listed),
    omega arith,
  )
