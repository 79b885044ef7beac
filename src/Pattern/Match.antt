-- ===== src/Pattern/Match.antt =====
-- `match_here` and `match_star` of src/nvidia/pattern.rs, and what they decide.
use calx_mill.Base.{
  ℕ, zero, suc, ◌≡◌, ◌↔◌, refl, ap, ◌∙◌, sym, Bool, true, false, ◌&&◌, ◌||◌, [], ◌∷◌, drop, arith,
  if◌then◌else◌, Bool-cases, inl, inr, false≢true,
}
use calx_mill.Base.Text.{Text}
use calx_mill.Pattern.Syntax.{Atom, Quant, one, star, plus, Pattern, atom_ok}

-- The bytes at the front that the atom takes.
run_length : Atom → Text → ℕ
run_length atom [] = 0
run_length atom (b ∷ text) = if atom_ok atom b then suc (run_length atom text) else 0

-- Greedy, backing off one byte at a time. `next` matches the rest of the pattern.
back_off : (Text → Bool) → Text → ℕ → Bool
back_off next text zero = next (drop 0 text)
back_off next text (suc n) = next (drop (suc n) text) || back_off next text n

unfoldable pub match_star : Atom → (Text → Bool) → Text → Bool
unfolding run_length back_off
match_star atom next text = back_off next text (run_length atom text)

match_quant : Quant → Atom → (Text → Bool) → Text → Bool
unfolding match_star
match_quant one atom next [] = false
match_quant one atom next (b ∷ text) = atom_ok atom b && next text
match_quant plus atom next [] = false
match_quant plus atom next (b ∷ text) = atom_ok atom b && match_star atom next text
match_quant star atom next text = match_star atom next text

unfoldable pub match_here : Pattern → Text → Bool
unfolding match_quant
match_here [] text = true
match_here ((atom, quant) ∷ rest) text = match_quant quant atom (match_here rest) text

-- The pattern matches a front part of the text.
pub data Matches : Pattern → Text → Type 0 where
  done : {s : Text} → Matches [] s
  byte :
      {a : Atom} {c : ℕ} {p : Pattern} {s : Text}
      → atom_ok a c ≡ true
      → Matches p s
      → Matches ((a, one) ∷ p) (c ∷ s)
  stop : {a : Atom} {p : Pattern} {s : Text} → Matches p s → Matches ((a, star) ∷ p) s
  more :
      {a : Atom} {c : ℕ} {p : Pattern} {s : Text}
      → atom_ok a c ≡ true
      → Matches ((a, star) ∷ p) s
      → Matches ((a, star) ∷ p) (c ∷ s)
  first :
      {a : Atom} {c : ℕ} {p : Pattern} {s : Text}
      → atom_ok a c ≡ true
      → Matches ((a, star) ∷ p) s
      → Matches ((a, plus) ∷ p) (c ∷ s)

-- Backing off from one byte further tries one text more, the whole.
back_off-cons :
    (next : Text → Bool) (c : ℕ) (s : Text) (n : ℕ)
    → back_off next (c ∷ s) (suc n) ≡ (back_off next s n || next (c ∷ s))
unfolding back_off
back_off-cons next c s zero = refl
back_off-cons next c s (suc n) = ground (arith, back_off-cons next c s n)

match_star-take :
    (a : Atom) (next : Text → Bool) (c : ℕ) (s : Text)
    → atom_ok a c ≡ true
    → match_star a next (c ∷ s) ≡ (match_star a next s || next (c ∷ s))
unfolding match_star
match_star-take a next c s h = rw h (back_off-cons next c s (run_length a s))

match_star-leave :
    (a : Atom) (next : Text → Bool) (c : ℕ) (s : Text)
    → atom_ok a c ≡ false
    → match_star a next (c ∷ s) ≡ next (c ∷ s)
unfolding match_star
match_star-leave a next c s h = rw h refl

and_parts : {a b : Bool} → (a && b) ≡ true → (a ≡ true) × (b ≡ true)
and_parts {a = true} {b} h = (refl, h)
and_parts {a = false} {b} h = elim (false≢true h) [ ]

and_true : {a b : Bool} → a ≡ true → b ≡ true → (a && b) ≡ true
and_true p q = cc

-- What a Boolean test of texts has to decide: the matches of a pattern.
abbrev DecidesMatches : (Text → Bool) → Pattern → Type 0
DecidesMatches next p = (s : Text) → (next s ≡ true) ↔ Matches p s

match_star_sound :
    (a : Atom) (p : Pattern) (next : Text → Bool)
    → DecidesMatches next p
    → (s : Text) → match_star a next s ≡ true
    → Matches ((a, star) ∷ p) s
match_star_sound a p next rest [] h = stop ((rest []).0 (unfold match_star in h))
match_star_sound a p next rest (c ∷ s) h = elim (Bool-cases (atom_ok a c)) [
  | inl ok ↦ elim (Bool-cases (match_star a next s)) [
    | inl later ↦ more ok (match_star_sound a p next rest s later)
    | inr here ↦ stop (
        (rest (c ∷ s)).0
          (sym (ap (λ b. b || next (c ∷ s)) here) ∙ sym (match_star-take a next c s ok) ∙ h))
  ]
  | inr bad ↦ stop ((rest (c ∷ s)).0 (sym (match_star-leave a next c s bad) ∙ h))
]

match_star-now :
    (a : Atom) (next : Text → Bool) (s : Text) → next s ≡ true → match_star a next s ≡ true
match_star-now a next [] h = unfold match_star in h
match_star-now a next (c ∷ s) h = elim (Bool-cases (atom_ok a c)) [
  | inl ok ↦ match_star-take a next c s ok ∙ ground arith
  | inr bad ↦ match_star-leave a next c s bad ∙ h
]

match_star_complete :
    {a : Atom} {p : Pattern} {s : Text} (next : Text → Bool)
    → DecidesMatches next p
    → Matches ((a, star) ∷ p) s
    → match_star a next s ≡ true
match_star_complete next rest (stop d) = match_star-now _ next _ ((rest _).1 d)
match_star_complete next rest (more {a} {c} {s} ok d) =
    match_star-take a next c s ok ∙ ap (λ b. b || next (c ∷ s)) (match_star_complete next rest d)

match_star_iff :
    (a : Atom) (p : Pattern) (next : Text → Bool)
    → DecidesMatches next p
    → DecidesMatches (match_star a next) ((a, star) ∷ p)
match_star_iff a p next rest s = (match_star_sound a p next rest s, match_star_complete next rest)

one-unwrap :
    {a : Atom} {c : ℕ} {p : Pattern} {s : Text}
    → Matches ((a, one) ∷ p) (c ∷ s)
    → (atom_ok a c ≡ true) × Matches p s
one-unwrap (byte ok d) = (ok, d)

plus-unwrap :
    {a : Atom} {c : ℕ} {p : Pattern} {s : Text}
    → Matches ((a, plus) ∷ p) (c ∷ s)
    → (atom_ok a c ≡ true) × Matches ((a, star) ∷ p) s
plus-unwrap (first ok d) = (ok, d)

one_empty : {a : Atom} {p : Pattern} → ¬ (Matches ((a, one) ∷ p) [])
one_empty d = elim d [ ]

plus_empty : {a : Atom} {p : Pattern} → ¬ (Matches ((a, plus) ∷ p) [])
plus_empty d = elim d [ ]

-- The matcher answers true exactly on the texts of which a front part matches.
pub match_here_iff : (p : Pattern) (s : Text) → (match_here p s ≡ true) ↔ Matches p s
unfolding match_here
match_here_iff [] s = (λ h. done, λ d. refl)
match_here_iff ((a, one) ∷ p) [] = (λ h. elim (false≢true h) [ ], λ d. elim (one_empty d) [ ])
match_here_iff ((a, one) ∷ p) (c ∷ s) = (
  λ h. let (ok, later) = and_parts h in byte ok ((match_here_iff p s).0 later),
  λ d. let (ok, later) = one-unwrap d in and_true ok ((match_here_iff p s).1 later),
)
match_here_iff ((a, plus) ∷ p) [] = (λ h. elim (false≢true h) [ ], λ d. elim (plus_empty d) [ ])
match_here_iff ((a, plus) ∷ p) (c ∷ s) =
    let rest = match_star_iff a p (match_here p) (match_here_iff p) s in
    (
      λ h. let (ok, later) = and_parts h in first ok (rest.0 later),
      λ d. let (ok, later) = plus-unwrap d in and_true ok (rest.1 later),
    )
match_here_iff ((a, star) ∷ p) s = match_star_iff a p (match_here p) (match_here_iff p) s
