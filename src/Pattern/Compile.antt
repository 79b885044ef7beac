-- ===== src/Pattern/Compile.antt =====
-- `Pattern::new` and `Pattern::try_new` of src/nvidia/pattern.rs: reading a pattern.
use calx_mill.Base.{
  ℕ, zero, suc, ◌≡◌, refl, ap, ◌≤◌, ◌⊎◌, inl, inr, Bool, [], ◌∷◌, length, any, Option, none, some,
  arith, if◌then◌else◌, ◌==◌,
}
use calx_mill.Base.Text.{Text, codes}
use calx_mill.Pattern.Syntax.{Atom, lit, any_byte, digit, Quant, one, star, plus, Pattern}

-- The atom that starts at the byte `b`, and the text behind it.
unfoldable pub next_atom : ℕ → Text → Atom × Text
next_atom b [] = (if b == b'.' then any_byte else lit b, [])
next_atom b (c ∷ text) =
    if b == b'\\'
    then (if c == b'd' then digit else lit c, text)
    else (if b == b'.' then any_byte else lit b, c ∷ text)

unfoldable pub next_quant : Text → Quant × Text
next_quant [] = (one, [])
next_quant (c ∷ text) =
    if c == b'*' then (star, text) else if c == b'+' then (plus, text) else (one, c ∷ text)

unfoldable pub put_first : (Atom × Quant) → Option Pattern → Option Pattern
put_first item none = none
put_first item (some p) = some (item ∷ p)

-- The loop of `new`, one atom with its quantifier per round. Out of fuel it is `none`.
unfoldable pub new_from : ℕ → Text → Option Pattern
unfolding next_atom next_quant put_first
new_from n [] = some []
new_from zero (b ∷ text) = none
new_from (suc n) (b ∷ text) =
    let first = next_atom b text in
    let second = next_quant first.1 in put_first (first.0, second.0) (new_from n second.1)

unfoldable pub new : Text → Option Pattern
unfolding new_from
new pat = new_from (length pat) pat

abbrev is_unsupported : ℕ → Bool
is_unsupported c = any (λ d. c == d) (codes "[](){}|?^$")

-- The first byte, not escaped, of a construct that the matcher does not have.
unfoldable pub unsupported : Text → Option ℕ
unsupported [] = none
unsupported (b ∷ []) = if b == b'\\' then none else if is_unsupported b then some b else none
unsupported (b ∷ c ∷ text) =
    let escaped = unsupported text in
    let plain = unsupported (c ∷ text) in
    if b == b'\\' then escaped else if is_unsupported b then some b else plain

unfoldable pub try_new : Text → ℕ ⊎ Option Pattern
unfolding unsupported new
try_new pat = elim (unsupported pat) [ some c ↦ inl c | none ↦ inr (new pat) ]

next_atom-length : (b : ℕ) (text : Text) → length (next_atom b text).1 ≤ length text
unfolding next_atom
next_atom-length b [] = ground arith
next_atom-length b (c ∷ text) = ground arith

next_quant-length : (text : Text) → length (next_quant text).1 ≤ length text
unfolding next_quant
next_quant-length [] = ground arith
next_quant-length (c ∷ text) = ground arith

-- The fuel of one round per byte is enough: the loop returns a pattern.
pub new_from-total :
    (n : ℕ) (text : Text) → length text ≤ n → (p : Pattern) × (new_from n text ≡ some p)
unfolding new_from
new_from-total n [] h = ([], refl)
new_from-total zero (b ∷ text) h = ground arith
new_from-total (suc n) (b ∷ text) h =
    let first = next_atom b text in
    let second = next_quant first.1 in
    let rest =
      new_from-total n second.1
        (ground (arith, next_atom-length b text, next_quant-length (next_atom b text).1)) in
    ((first.0, second.0) ∷ rest.0, ap (put_first (first.0, second.0)) rest.1)
