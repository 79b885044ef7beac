-- ===== src/Pattern/Show.antt =====
-- The text of a pattern, and reading it again with `Pattern::new` of src/nvidia/pattern.rs.
use calx_mill.Base.{
  ℕ, zero, suc, ◌≡◌, refl, ap, ◌∙◌, ◌≤◌, ◌⊎◌, [], ◌∷◌, length, Option, none, some, arith,
  if◌then◌else◌, ◌==◌, ==_iff, Bool-cases, inl, inr,
}
use calx_mill.Base.Text.{Text}
use calx_mill.Pattern.Syntax.{Atom, lit, any_byte, digit, Quant, one, star, plus, Pattern}
use calx_mill.Pattern.Compile.{
  new_from, new, next_atom, next_quant, put_first, unsupported, try_new,
}

-- A literal byte is escaped, but for the `d` that an escape would turn into a digit.
write_atom : Atom → Text → Text
write_atom (lit b) rest = if b == b'd' then b ∷ rest else b'\\' ∷ b ∷ rest
write_atom any_byte rest = b'.' ∷ rest
write_atom digit rest = b'\\' ∷ b'd' ∷ rest

write_quant : Quant → Text → Text
write_quant one rest = rest
write_quant star rest = b'*' ∷ rest
write_quant plus rest = b'+' ∷ rest

unfoldable pub write : Pattern → Text
unfolding write_atom write_quant
write [] = []
write ((atom, quant) ∷ p) = write_atom atom (write_quant quant (write p))

write-length : (p : Pattern) → length p ≤ length (write p)
unfolding write
write-length [] = ground arith
write-length ((lit b, one) ∷ p) = ground (arith, write-length p)
write-length ((lit b, star) ∷ p) = ground (arith, write-length p)
write-length ((lit b, plus) ∷ p) = ground (arith, write-length p)
write-length ((any_byte, one) ∷ p) = ground (arith, write-length p)
write-length ((any_byte, star) ∷ p) = ground (arith, write-length p)
write-length ((any_byte, plus) ∷ p) = ground (arith, write-length p)
write-length ((digit, one) ∷ p) = ground (arith, write-length p)
write-length ((digit, star) ∷ p) = ground (arith, write-length p)
write-length ((digit, plus) ∷ p) = ground (arith, write-length p)

next_quant-write : (q : Quant) (p : Pattern) → next_quant (write_quant q (write p)) ≡ (q, write p)
unfolding write next_quant
next_quant-write one [] = refl
next_quant-write one ((lit b, q) ∷ p) = elim (Bool-cases (b == b'd')) [
  | inl e ↦ rw ((==_iff b b'd').0 e) refl
  | inr e ↦ rw e refl
]
next_quant-write one ((any_byte, q) ∷ p) = refl
next_quant-write one ((digit, q) ∷ p) = refl
next_quant-write star p = refl
next_quant-write plus p = refl

-- Reading the text of a pattern gives the pattern.

new_from-d :
    (n : ℕ) (rest : Text)
    → new_from (suc n) (b'd' ∷ rest)
      ≡ put_first (lit b'd', (next_quant rest).0) (new_from n (next_quant rest).1)
unfolding new_from next_atom
new_from-d n [] = refl
new_from-d n (c ∷ rest) = refl

new_from-write_atom :
    (n : ℕ) (a : Atom) (rest : Text)
    → new_from (suc n) (write_atom a rest)
      ≡ put_first (a, (next_quant rest).0) (new_from n (next_quant rest).1)
unfolding write_atom new_from next_atom
new_from-write_atom n (lit b) rest = elim (Bool-cases (b == b'd')) [
  | inl e ↦ rw ((==_iff b b'd').0 e) (new_from-d n rest)
  | inr e ↦ rw e (rw e refl)
]
new_from-write_atom n any_byte [] = refl
new_from-write_atom n any_byte (c ∷ rest) = refl
new_from-write_atom n digit rest = refl

new_from-write : (n : ℕ) (p : Pattern) → length p ≤ n → new_from n (write p) ≡ some p
unfolding write new_from put_first
new_from-write zero [] h = refl
new_from-write (suc n) [] h = refl
new_from-write zero (item ∷ p) h = ground arith
new_from-write (suc n) ((a, q) ∷ p) h =
    new_from-write_atom n a (write_quant q (write p))
    ∙ ap (λ s. put_first (a, s.0) (new_from n s.1)) (next_quant-write q p)
    ∙ ap (put_first (a, q)) (new_from-write n p (ground arith))

-- Reading the text of a pattern gives the pattern.
pub new-write : (p : Pattern) → new (write p) ≡ some p
unfolding new
new-write p = new_from-write (length (write p)) p (write-length p)

unsupported-d : (rest : Text) → unsupported (b'd' ∷ rest) ≡ unsupported rest
unfolding unsupported
unsupported-d [] = refl
unsupported-d (c ∷ rest) = refl

unsupported-write_atom :
    (a : Atom) (rest : Text) → unsupported (write_atom a rest) ≡ unsupported rest
unfolding write_atom unsupported
unsupported-write_atom (lit b) rest = elim (Bool-cases (b == b'd')) [
  | inl e ↦ rw ((==_iff b b'd').0 e) (unsupported-d rest)
  | inr e ↦ rw e refl
]
unsupported-write_atom any_byte [] = refl
unsupported-write_atom any_byte (c ∷ rest) = refl
unsupported-write_atom digit rest = refl

unsupported-write_quant :
    (q : Quant) (rest : Text) → unsupported (write_quant q rest) ≡ unsupported rest
unfolding write_quant unsupported
unsupported-write_quant one rest = refl
unsupported-write_quant star [] = refl
unsupported-write_quant star (c ∷ rest) = refl
unsupported-write_quant plus [] = refl
unsupported-write_quant plus (c ∷ rest) = refl

unsupported-write : (p : Pattern) → unsupported (write p) ≡ none
unfolding write
unsupported-write [] = unfold unsupported in refl
unsupported-write ((a, q) ∷ p) =
    unsupported-write_atom a (write_quant q (write p))
    ∙ unsupported-write_quant q (write p)
    ∙ unsupported-write p

-- Each pattern has a text that the checked reading accepts, and that it reads back as the pattern.
pub try_new-write : (p : Pattern) → try_new (write p) ≡ inr (some p)
unfolding try_new
try_new-write p =
    ap (λ o. elim o as (λ x. ℕ ⊎ Option Pattern) [ some c ↦ inl c | none ↦ inr (new (write p)) ])
      (unsupported-write p)
    ∙ ap inr (new-write p)
