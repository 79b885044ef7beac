-- ===== src/Cli/Args.antt =====
-- `Args` of src/main.rs: the positional arguments and the flags of a command.
use calx_mill.Base.{Bool, Option, none, some, inl, inr, List, [], ◌∷◌, ◌++◌, if◌then◌else◌, any}
use calx_mill.Base.Result.{Result}
use calx_mill.Base.Text.{Text, codes, text_eq, strip_prefix}

pub record Args : Type 0 where
  pub positional : List Text
  pub flags : List (Text × Option Text)

-- A flag at the end that needs a value, by its name, and `-o` there.
pub data ArgError : Type 0 where
  needs_value : Text → ArgError
  output_needs_value : ArgError

-- What an argument is, before the one behind it is looked at.
pub data Token : Type 0 where
  valued : Text → Token
  valueless : Text → Token
  output : Token
  plain : Text → Token

unfoldable pub flag_token : List Text → Text → Token
flag_token value_flags name =
    if any (λ f. text_eq f name) value_flags then valued name else valueless name

unfoldable pub plain_token : Text → Token
plain_token a = if text_eq a (codes "-o") then output else plain a

unfoldable pub token_of : List Text → Text → Option Text → Token
unfolding flag_token plain_token
token_of value_flags a (some name) = flag_token value_flags name
token_of value_flags a none = plain_token a

unfoldable pub token : List Text → Text → Token
unfolding token_of
token value_flags a = token_of value_flags a (strip_prefix (codes "--") a)

abbrev pub push_flag : Text → Option Text → Args → Args
push_flag name v args = record {
  positional = args.positional;
  flags = args.flags ++ (name, v) ∷ [];
}

abbrev pub push_positional : Text → Args → Args
push_positional a args = record { positional = args.positional ++ a ∷ []; flags = args.flags }

-- The last argument of a command.
unfoldable pub parse_last : Token → Args → Result ArgError Args
parse_last (valued name) args = inl (needs_value name)
parse_last (valueless name) args = inr (push_flag name none args)
parse_last output args = inl output_needs_value
parse_last (plain a) args = inr (push_positional a args)

-- A round of the loop. What is read behind the argument is given for each place where it may start:
-- behind the next argument, and at it.
unfoldable pub parse_step :
    Token
    → Text
    → Args
    → (Args → Result ArgError Args)
    → (Args → Result ArgError Args)
    → Result ArgError Args
parse_step (valued name) v args behind at = behind (push_flag name (some v) args)
parse_step (valueless name) v args behind at = at (push_flag name none args)
parse_step output v args behind at = behind (push_flag (codes "o") (some v) args)
parse_step (plain a) v args behind at = at (push_positional a args)

-- The loop, with what it has read.
unfoldable pub parse_from : List Text → List Text → Args → Result ArgError Args
parse_from value_flags [] args = inr args
parse_from value_flags (a ∷ []) args = parse_last (token value_flags a) args
parse_from value_flags (a ∷ v ∷ raw) args =
    parse_step (token value_flags a) v args (parse_from value_flags raw)
      (parse_from value_flags (v ∷ raw))

abbrev pub no_args : Args
no_args = record { positional = []; flags = [] }

unfoldable pub parse : List Text → List Text → Result ArgError Args
parse raw value_flags = parse_from value_flags raw no_args

-- The value of the first flag with the name.
unfoldable pub value_in : List (Text × Option Text) → Text → Option Text
value_in [] name = none
value_in ((k, v) ∷ flags) name = if text_eq k name then v else value_in flags name

unfoldable pub value : Args → Text → Option Text
value args name = value_in args.flags name

unfoldable pub has : Args → Text → Bool
has args name = any (λ f. text_eq f.0 name) args.flags

-- A number that a flag gives, or the default. The error is the flag's value.
number_of {ℓ} : {A : Type ℓ} → (Text → Option A) → A → Option Text → Result Text A
number_of from_str default none = inr default
number_of from_str default (some v) = elim (from_str v) [ some x ↦ inr x | none ↦ inl v ]

unfoldable pub number {ℓ} : {A : Type ℓ} → (Text → Option A) → Args → Text → A → Result Text A
unfolding number_of
number from_str args name default = number_of from_str default (value args name)
