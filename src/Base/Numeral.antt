-- ===== src/Base/Numeral.antt =====
-- Reading integers, `str::parse`.
use Prim.Native.Nat.{ℕ, zero, suc, ◌+◌, ◌-◌, ◌*◌, ◌^◌}
use mathlib.Core.Bool.{◌&&◌}
use mathlib.Core.Option.{Option, none, some}
use mathlib.Core.List.{[], ◌∷◌}
use calx_mill.Base.Tests.{ltb, leb, ◌==◌, if◌then◌else◌}
use calx_mill.Base.Text.{Text}

-- `str::parse` of an unsigned integer: a `+` may lead, then at least one digit, and no overflow.
digits : ℕ → Text → Option ℕ
digits value [] = some value
digits value (c ∷ cs) =
    let rest = digits (value * 10 + (c - b'0')) cs in
    if leb b'0' c && leb c b'9' then rest else none

in_bound : ℕ → Option ℕ → Option ℕ
in_bound limit none = none
in_bound limit (some n) = if ltb n limit then some n else none

unsigned : ℕ → Text → Option ℕ
unfolding digits in_bound
unsigned limit [] = none
unsigned limit (c ∷ []) = in_bound limit (digits 0 (c ∷ []))
unsigned limit (c ∷ d ∷ cs) = in_bound limit (digits 0 (if c == b'+' then d ∷ cs else c ∷ d ∷ cs))

unfoldable pub parse_u32 : Text → Option ℕ
unfolding unsigned
parse_u32 = unsigned (2 ^ 32)

unfoldable pub parse_u64 : Text → Option ℕ
unfolding unsigned
parse_u64 = unsigned (2 ^ 64)

-- `negsuc n` is -(n + 1).
pub data ℤ : Type 0 where
  pos : ℕ → ℤ
  negsuc : ℕ → ℤ

abbrev pub pos_part : ℤ → ℕ
pos_part (pos n) = n
pos_part (negsuc n) = 0

abbrev pub neg_part : ℤ → ℕ
neg_part (pos n) = 0
neg_part (negsuc n) = suc n

negated : Option ℕ → Option ℤ
negated none = none
negated (some zero) = some (pos 0)
negated (some (suc n)) = some (negsuc n)

not_negated : Option ℕ → Option ℤ
not_negated none = none
not_negated (some n) = some (pos n)

-- Digits alone: behind a `-` no `+` is read.
digits_only : ℕ → Text → Option ℕ
unfolding digits in_bound
digits_only limit [] = none
digits_only limit (c ∷ cs) = in_bound limit (digits 0 (c ∷ cs))

unfoldable pub parse_i32 : Text → Option ℤ
unfolding unsigned negated not_negated digits_only
parse_i32 [] = none
parse_i32 (c ∷ cs) =
    if c == b'-'
    then negated (digits_only (2 ^ 31 + 1) cs)
    else not_negated (unsigned (2 ^ 31) (c ∷ cs))
