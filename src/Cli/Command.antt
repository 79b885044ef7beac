-- ===== src/Cli/Command.antt =====
-- What the commands of src/main.rs share: the files and the disassembler, which are parameters, the
-- ends without an exit code, and reading numbers from flags.
use calx_mill.Base.{ℕ, Bool, true, false, Option, none, some, inl, inr, List, [], ◌∷◌}
use calx_mill.Base.Result.{Result, ◌>>=◌, ok_or}
use calx_mill.Base.Text.{Text}
use calx_mill.Base.Numeral.{parse_u32, parse_u64}
use calx_mill.Base.Float.{Float}
use calx_mill.Pattern.Syntax.{Pattern}
use calx_mill.Pattern.Compile.{try_new}
use calx_mill.Projection.Rates.{RatesError, not_a_number, no_column}
use calx_mill.Ncu.Export.{NcuError}
use calx_mill.Verify.Judge.{VerifyStop}
use calx_mill.Cli.Args.{Args, ArgError, parse, number}

-- The files, by their paths: what can be read as text, what can be disassembled, what is there, the
-- entries of a directory with their names and paths, where the names are text, whether a text can be
-- written, and the functions of `Path` that are called.
pub record World : Type 0 where
  pub read_file : Text → Option Text
  pub sass_text : Text → Option Text
  pub exists : Text → Bool
  pub read_dir : Text → Option (List (Option (Text × Text)))
  pub write_file : Text → Text → Bool
  pub join : Text → Text → Text
  pub with_sass : Text → Text
  pub file_name : Text → Option Text

-- The errors of `run`, and the panics.
pub data RunStop : Type 0 where
  bad_args : ArgError → RunStop
  message : Text → RunStop
  bad_value : Text → Text → RunStop
  unreadable : Text → RunStop
  unwritable : Text → RunStop
  unsupported : ℕ → RunStop
  bad_rates : RatesError → RunStop
  bad_export : NcuError → RunStop
  unverified : VerifyStop → RunStop
  no_records : RunStop
  no_clock : RunStop
  unknown_command : Text → RunStop
  panics : RunStop

abbrev pub Ran {ℓ} : Type ℓ → Type ℓ
Ran A = Result RunStop A

unfoldable pub stopped {ℓ} : {E : Type 0} {A : Type ℓ} → (E → RunStop) → Result E A → Ran A
stopped f (inl e) = inl (f e)
stopped f (inr x) = inr x

-- A panic of a component ends the program.
unfoldable pub unless_panic {ℓ} : {E : Type 0} {A : Type ℓ} → Result E A → Ran A
unless_panic (inl e) = inl panics
unless_panic (inr x) = inr x

-- A table without a column panics.
unfoldable pub rates_stop : RatesError → RunStop
rates_stop (not_a_number id text) = bad_rates (not_a_number id text)
rates_stop (no_column column) = panics

unfoldable pub args_of : List Text → List Text → Ran Args
args_of raw flags = stopped bad_args (parse raw flags)

-- The only positional argument.
unfoldable pub only : Text → List Text → Ran Text
only m (p ∷ []) = inr p
only m _ = inl (message m)

unfoldable pub or_text : Option Text → Text → Text
or_text none default = default
or_text (some s) default = s

unfoldable pub u32_arg : Args → Text → ℕ → Ran ℕ
u32_arg args name default = stopped (bad_value name) (number parse_u32 args name default)

unfoldable pub u64_arg : Args → Text → ℕ → Ran ℕ
u64_arg args name default = stopped (bad_value name) (number parse_u64 args name default)

-- A number that a flag may give, without a default.
unfoldable pub u32_flag : Text → Option Text → Ran (Option ℕ)
u32_flag name none = inr none
u32_flag name (some v) = elim (parse_u32 v) [
  | some n ↦ inr (some n)
  | none ↦ inl (bad_value name v)
]

module _ {F : Type 0} ⦃fl : Float F⦄ where
  unfoldable pub float_arg : Args → Text → F → Ran F
  float_arg args name default = stopped (bad_value name) (number fl.parse args name default)

-- `Pattern::try_new`. Reading a pattern that is supported always gives one.
unfoldable pub pattern_of : Text → Ran Pattern
pattern_of text = do read ← stopped unsupported (try_new text); ok_or read panics

unfoldable pub written : Text → Bool → Ran (Unit {0})
written path true = inr tt
written path false = inl (unwritable path)

module _ (w : World) where
  unfoldable pub read : Text → Ran Text
  read path = ok_or (w.read_file path) (unreadable path)

  unfoldable pub disassemble : Text → Ran Text
  disassemble path = ok_or (w.sass_text path) (unreadable path)

  unfoldable pub write : Text → Text → Ran (Unit {0})
  write path text = written path (w.write_file path text)
