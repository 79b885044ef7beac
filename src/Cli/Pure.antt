-- ===== src/Cli/Pure.antt =====
-- What the `check-sass` command of src/main.rs has checked where it ends with 0.
use mathlib.Core.List.{Memᴰ}
use calx_mill.Base.{◌≡◌, ◌⊎◌, true, some, inr, List, [], ◌∷◌, All}
use calx_mill.Base.Text.{Text}
use calx_mill.Base.Float.{Float}
use calx_mill.Sass.Functions.{Function, parse_functions}
use calx_mill.Check.Tables.{exempt_binaries}
use calx_mill.Check.Cases.{GateOpts, GateCase, case_of}
use calx_mill.Check.Purity.{among}
use calx_mill.Check.Passed.{Passes}
use calx_mill.Cli.Args.{Args}
use calx_mill.Cli.Command.{World}
use calx_mill.Cli.Loops.{opts_of, binary_name}

-- Every function that is checked passes, and some function is.
abbrev pub AllPass : GateOpts → List Function → Type 0
AllPass opts fs =
    All (Passes opts) fs
    × ((f : Function) × Memᴰ f fs × ((case : GateCase) × (case_of opts f.name ≡ some case)))

-- What was checked: the disassembly of one path, under the options that the flags give, of a binary
-- that is exempt or whose functions pass.
pub record Pure (w : World) (args : Args) : Type 0 where
  pub path : Text
  pub opts : GateOpts
  pub basename : Text
  pub sass : Text
  pub has_path : args.positional ≡ path ∷ []
  pub has_opts : opts_of args ≡ inr opts
  pub has_name : w.file_name path ≡ some basename
  pub has_sass : w.sass_text path ≡ some sass
  pub is_pure :
      (among exempt_binaries (binary_name basename) ≡ true)
      ⊎ ((fs : List Function) × (parse_functions sass ≡ inr fs) × AllPass opts fs)
