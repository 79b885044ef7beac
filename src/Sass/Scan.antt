-- ===== src/Sass/Scan.antt =====
-- The instruction scanner of src/nvidia/sass.rs. A line is its bytes.
use calx_mill.Base.{
  ℕ, ◌+◌, ◌-◌, ◌*◌, ◌^◌, Bool, true, false, ◌&&◌, ◌||◌, Option, none, some, inl, inr, List, [], ◌∷◌,
  leb, ltb, ◌==◌, if◌then◌else◌,
}
use calx_mill.Base.Result.{Result, ◌>>=◌}
use calx_mill.Base.Text.{
  Text, codes, is_whitespace, trim_start, starts_with, strip_prefix, split_once,
}
use calx_mill.Base.Words.{take_while, drop_while, split_whitespace, lines}
use calx_mill.Csv.Reader.{is_empty}

-- What makes the reader panic: hexadecimal digits whose number is no `u64`, and a range of indices
-- whose end is before its start.
pub data SassPanic : Type 0 where
  wide_hex : Text → SassPanic
  bad_slice : ℕ → ℕ → SassPanic

abbrev pub Scanned : Type 0 → Type 0
Scanned A = Result SassPanic A

-- What the scanner finds: the address, the line from the predicate or the mnemonic on, and the line
-- behind the mnemonic.
pub record Found : Type 0 where
  pub addr : ℕ
  pub body : Text
  pub behind : Text

unfoldable pub is_digit : ℕ → Bool
is_digit c = leb b'0' c && leb c b'9'

unfoldable pub is_hex : ℕ → Bool
unfolding is_digit
is_hex c = is_digit c || (leb b'a' c && leb c b'f')

unfoldable pub is_upper : ℕ → Bool
is_upper c = leb b'A' c && leb c b'Z'

unfoldable pub is_mnemonic_byte : ℕ → Bool
unfolding is_digit is_upper
is_mnemonic_byte c = is_upper c || is_digit c || c == b'.'

hex_value : ℕ → Text → ℕ
hex_value value [] = value
hex_value value (c ∷ cs) = hex_value (value * 16 + (if leb c b'9' then c - b'0' else c - 87)) cs

-- `u64::from_str_radix(.., 16).expect(..)`, of digits.
unfoldable pub from_hex : Text → Scanned ℕ
unfolding hex_value
from_hex digits =
    if ltb (hex_value 0 digits) (2 ^ 64) then inr (hex_value 0 digits) else inl (wide_hex digits)

-- The text behind a run that is not empty.
unfoldable pub behind_run : (ℕ → Bool) → Text → Option Text
behind_run p s = if is_empty (take_while p s) then none else some (drop_while p s)

unfoldable pub behind_blanks : Option Text → Option Text
behind_blanks none = none
behind_blanks (some s) = behind_run is_whitespace s

-- The text behind a number and blanks.
unfoldable pub behind_plain : Option Text → Option Text
unfolding is_digit behind_run behind_blanks
behind_plain none = none
behind_plain (some s) = behind_blanks (behind_run is_digit s)

unfoldable pub drop_bang : Text → Text
drop_bang [] = []
drop_bang (c ∷ cs) = if c == b'!' then cs else c ∷ cs

-- The text behind an optional predicate, `none` where the predicate is not `@P` or `@!P` with a
-- number and a blank behind it.
unfoldable pub behind_predicate : Text → Option Text
unfolding behind_plain drop_bang
behind_predicate [] = some []
behind_predicate (c ∷ cs) =
    if c == b'@' then behind_plain (strip_prefix (codes "P") (drop_bang cs)) else some (c ∷ cs)

unfoldable pub behind_mnemonic : Text → Option Text
unfolding is_upper is_mnemonic_byte
behind_mnemonic [] = none
behind_mnemonic (c ∷ cs) = if is_upper c then some (drop_while is_mnemonic_byte cs) else none

unfoldable pub found_at : ℕ → Text → Option Text → Option Found
found_at addr body none = none
found_at addr body (some behind) = some (record { addr = addr; body = body; behind = behind })

unfoldable pub at_mnemonic : ℕ → Text → Option Text → Option Found
unfolding behind_mnemonic found_at
at_mnemonic addr body none = none
at_mnemonic addr body (some s) = found_at addr body (behind_mnemonic s)

unfoldable pub at_body : ℕ → Option Text → Option Found
unfolding at_mnemonic
at_body addr none = none
at_body addr (some body) = at_mnemonic addr body (behind_predicate body)

-- The address is read before the rest of the line is looked at.
unfoldable pub at_address : Text → Option Text → Scanned (Option Found)
unfolding at_body behind_run
at_address digits none = inr none
at_address digits (some after) = do
  addr ← from_hex digits
  inr (at_body addr (behind_run is_whitespace after))

-- An instruction whose address begins behind a `/*`.
unfoldable pub at_open : Text → Scanned (Option Found)
unfolding is_hex at_address
at_open s =
    if is_empty (take_while is_hex s)
    then inr none
    else at_address (take_while is_hex s) (strip_prefix (codes "*/") (drop_while is_hex s))

-- The first `/*` behind which an instruction is found.
unfoldable pub or_else : Scanned (Option Found) → Scanned (Option Found) → Scanned (Option Found)
or_else (inl e) rest = inl e
or_else (inr (some found)) rest = inr (some found)
or_else (inr none) rest = rest

unfoldable pub scan_instr : Text → Scanned (Option Found)
unfolding at_open or_else
scan_instr [] = inr none
scan_instr (c ∷ []) = inr none
scan_instr (c ∷ d ∷ rest) = elim (c == b'/' && d == b'*') [
  | true ↦ or_else (at_open rest) (scan_instr rest)
  | false ↦ scan_instr (d ∷ rest)
]

first_word : List Text → Option Text
first_word [] = none
first_word (w ∷ ws) = some w

-- The name on a line that opens a function.
unfoldable pub function_name : Text → Option Text
unfolding first_word
function_name line = elim (strip_prefix (codes "Function : ") (trim_start line)) [
  | none ↦ none
  | some rest ↦ first_word (split_whitespace rest)
]

-- A comment's end with a uniform predicate behind it.
has_uniform_predicate : Text → Bool
has_uniform_predicate line = elim (split_once (codes "*/") line) [
  | none ↦ false
  | some parts ↦
      starts_with (codes "@UP") (trim_start parts.1)
      || starts_with (codes "@!UP") (trim_start parts.1)
]

is_dropped : Text → Option Found → Bool
unfolding has_uniform_predicate
is_dropped line (some found) = false
is_dropped line none = has_uniform_predicate line

-- The lines that the scanner drops for their uniform predicate.
unfoldable pub uniform_drops_in : List Text → Scanned ℕ
unfolding is_dropped
uniform_drops_in [] = inr 0
uniform_drops_in (line ∷ more) = do
  found ← scan_instr line
  n ← uniform_drops_in more
  inr (if is_dropped line found then 1 + n else n)

unfoldable pub uniform_predicated_drops : Text → Scanned ℕ
uniform_predicated_drops sass = uniform_drops_in (lines sass)
