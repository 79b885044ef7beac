-- ===== src/Base/Text.antt =====
-- Text as the list of its characters, and the functions of Rust's `str` that the code calls.
use Prim.Native.Char.{code}
use Prim.Native.String.{String}
use Prim.Native.Nat.{ℕ}
use mathlib.Core.Path.{◌≡◌, refl, sym, ap, ◌∙◌}
use mathlib.Core.Logic.{◌↔◌}
use mathlib.Core.Bool.{Bool, true, false, ◌&&◌, ◌||◌}
use mathlib.Core.Option.{Option, none, some}
use mathlib.Core.List.{List, [], ◌∷◌, ◌++◌, reverse, append-nil, append_assoc}
use native.Mathlib.Omega.{arith}
use calx_mill.Base.Tests.{◌==◌, ==_iff, leb, if◌then◌else◌}
use calx_mill.Base.Lists.{All}

abbrev pub Text : Type 0
Text = List ℕ

-- The characters of a literal.
abbrev pub codes : String → Text
codes String.[] = []
codes (String.◌∷◌ c s) = code c ∷ codes s

abbrev pub text_eq : Text → Text → Bool
text_eq [] [] = true
text_eq (c ∷ cs) (d ∷ ds) = c == d && text_eq cs ds
text_eq _ _ = false

pub text_eq_iff : (s t : Text) → (text_eq s t ≡ true) ↔ (s ≡ t)
text_eq_iff [] [] = ground arith
text_eq_iff [] (d ∷ ds) = ground arith
text_eq_iff (c ∷ cs) [] = ground arith
text_eq_iff (c ∷ cs) (d ∷ ds) = ground (arith, text_eq_iff cs ds)

-- `char::is_whitespace`.
unfoldable pub is_whitespace : ℕ → Bool
is_whitespace c =
    (leb 9 c && leb c 13)
    || c == 32
    || c == 0x85
    || c == 0xa0
    || c == 0x1680
    || (leb 0x2000 c && leb c 0x200a)
    || c == 0x2028
    || c == 0x2029
    || c == 0x202f
    || c == 0x205f
    || c == 0x3000

unfoldable pub trim_start : Text → Text
unfolding is_whitespace
trim_start [] = []
trim_start (c ∷ cs) = if is_whitespace c then trim_start cs else c ∷ cs

unfoldable pub trim : Text → Text
unfolding trim_start
trim s = reverse (trim_start (reverse (trim_start s)))

split_from : ℕ → Text → Text → List Text
split_from sep part [] = part ∷ []
split_from sep part (c ∷ cs) = elim (c == sep) [
  | true ↦ part ∷ split_from sep [] cs
  | false ↦ split_from sep (part ++ c ∷ []) cs
]

-- `split`, at one character.
unfoldable pub split : ℕ → Text → List Text
unfolding split_from
split sep s = split_from sep [] s

abbrev pub starts_with : Text → Text → Bool
starts_with [] s = true
starts_with (p ∷ ps) [] = false
starts_with (p ∷ ps) (c ∷ cs) = p == c && starts_with ps cs

-- The rest behind a prefix.
abbrev pub strip_prefix : Text → Text → Option Text
strip_prefix [] s = some s
strip_prefix (p ∷ ps) [] = none
strip_prefix (p ∷ ps) (c ∷ cs) = if p == c then strip_prefix ps cs else none

-- The text before the first occurrence of a separator, and the text behind it.
split_once_from : Text → Text → Text → Option (Text × Text)
split_once_from sep part [] = elim sep [ [] ↦ some (part, []) | _ ↦ none ]
split_once_from sep part (c ∷ cs) =
    let rest = split_once_from sep (part ++ c ∷ []) cs in
    elim (strip_prefix sep (c ∷ cs)) [ some behind ↦ some (part, behind) | none ↦ rest ]

unfoldable pub split_once : Text → Text → Option (Text × Text)
unfolding split_once_from
split_once sep s = split_once_from sep [] s

abbrev pub contains_text : Text → Text → Bool
contains_text pat [] = starts_with pat []
contains_text pat (c ∷ cs) = starts_with pat (c ∷ cs) || contains_text pat cs

-- Of a text with a separator of one character, where that first occurs.
split_once_from-at :
    (c : ℕ) (part s rest : Text)
    → All (λ d. (c == d) ≡ false) s
    → split_once_from (c ∷ []) part (s ++ c ∷ rest) ≡ some (part ++ s, rest)
unfolding split_once_from
split_once_from-at c part [] rest h =
    rw ((==_iff c c).1 refl, split_once_from, strip_prefix)
      (ap (λ t. some (t, rest)) (sym (append-nil part)))
split_once_from-at c part (d ∷ s) rest (h, hs) =
    rw (h, split_once_from, strip_prefix)
      (split_once_from-at c (part ++ d ∷ []) s rest hs
        ∙ ap (λ t. some (t, rest)) (append_assoc part (d ∷ []) s))

pub split_once-at :
    (c : ℕ) (s rest : Text)
    → All (λ d. (c == d) ≡ false) s
    → split_once (c ∷ []) (s ++ c ∷ rest) ≡ some (s, rest)
unfolding split_once
split_once-at c s rest h = split_once_from-at c [] s rest h
