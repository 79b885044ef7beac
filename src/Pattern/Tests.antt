-- ===== src/Pattern/Tests.antt =====
-- Runs of the matcher, and the theorems at concrete patterns.
use calx_mill.Base.{◌≡◌, ◌↔◌, refl, true, false, some, inl, inr, [], ◌∷◌, arith}
use calx_mill.Base.Text.{codes}
use calx_mill.Pattern.Syntax.{Pattern, lit, any_byte, digit, atom_ok, one, star, plus}
use calx_mill.Pattern.Match.{match_here, Matches, match_here_iff}
use calx_mill.Pattern.Search.{is_match}
use calx_mill.Pattern.Compile.{new, new_from, try_new, new_from-total}
use calx_mill.Pattern.Show.{write, new-write, try_new-write}

-- `a.*\d+`
abbrev sample : Pattern
sample = (lit b'a', one) ∷ (any_byte, star) ∷ (digit, plus) ∷ []

read_sample : new (codes "a.*\\d+") ≡ some sample
unfolding new
read_sample = refl

reject_class : try_new (codes "a[0-9]") ≡ inl b'['
unfolding try_new
reject_class = refl

found : is_match sample (codes "xxab12") ≡ true
unfolding is_match match_here atom_ok
found = refl

not_found : is_match sample (codes "xxab") ≡ false
unfolding is_match match_here atom_ok
not_found = refl

match_here_iff_example : (match_here sample (codes "ab12") ≡ true) ↔ Matches sample (codes "ab12")
match_here_iff_example = match_here_iff sample (codes "ab12")

new_from-total_example : (p : Pattern) × (new_from 6 (codes "a.*\\d+") ≡ some p)
new_from-total_example = new_from-total 6 (codes "a.*\\d+") (omega arith)

new-write_example : new (write sample) ≡ some sample
new-write_example = new-write sample

try_new-write_example : try_new (write sample) ≡ inr (some sample)
try_new-write_example = try_new-write sample
