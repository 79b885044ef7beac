-- ===== src/Pattern/Search.antt =====
-- `Pattern::is_match` of src/nvidia/pattern.rs: a search at every position.
use calx_mill.Base.{
  ℕ, ◌≡◌, ◌↔◌, refl, sym, ap, ◌∙◌, Bool, true, ◌||◌, [], ◌∷◌, ◌++◌, arith, Bool-cases, inl, inr,
}
use calx_mill.Base.Text.{Text}
use calx_mill.Pattern.Syntax.{Pattern}
use calx_mill.Pattern.Match.{match_here, Matches, match_here_iff}

-- The positions are tried from the front: every rest of the text, the empty one at the end too.
unfoldable pub is_match : Pattern → Text → Bool
is_match p [] = match_here p []
is_match p (c ∷ s) = match_here p (c ∷ s) || is_match p s

-- A place in the text at which the pattern matches.
pub Occurs : Pattern → Text → Type 0
Occurs p s = (before : Text) × (after : Text) × (before ++ after ≡ s) × Matches p after

Occurs-skip : (p : Pattern) (c : ℕ) (s : Text) → Occurs p s → Occurs p (c ∷ s)
unfolding Occurs
Occurs-skip p c s (before, after, e, d) = (c ∷ before, after, cc, d)

is_match_sound : (p : Pattern) (s : Text) → is_match p s ≡ true → Occurs p s
unfolding is_match Occurs
is_match_sound p [] h = ([], [], refl, (match_here_iff p []).0 h)
is_match_sound p (c ∷ s) h = elim (Bool-cases (match_here p (c ∷ s))) [
  | inl here ↦ ([], c ∷ s, refl, (match_here_iff p (c ∷ s)).0 here)
  | inr later ↦ Occurs-skip p c s (is_match_sound p s (sym (ap (λ b. b || is_match p s) later) ∙ h))
]

is_match_complete :
    (p : Pattern) (before after : Text) → Matches p after → is_match p (before ++ after) ≡ true
unfolding is_match
is_match_complete p [] [] d = (match_here_iff p []).1 d
is_match_complete p [] (c ∷ s) d = ap (λ b. b || is_match p s) ((match_here_iff p (c ∷ s)).1 d)
is_match_complete p (c ∷ before) after d =
    ap (λ b. match_here p (c ∷ before ++ after) || b) (is_match_complete p before after d)
    ∙ ground arith

-- The search answers true exactly when the pattern matches at some position of the text.
pub is_match_iff : (p : Pattern) (s : Text) → (is_match p s ≡ true) ↔ Occurs p s
unfolding Occurs
is_match_iff p s = (
  is_match_sound p s,
  λ (before, after, e, d). ap (is_match p) (sym e) ∙ is_match_complete p before after d,
)
