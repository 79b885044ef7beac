-- ===== src/Base/Words.antt =====
-- The runs, the words and the lines of a text.
use Prim.Native.Nat.{ℕ}
use mathlib.Core.Bool.{Bool, true, false}
use mathlib.Core.Option.{Option, none, some}
use mathlib.Core.List.{List, [], ◌∷◌, ◌++◌, reverse}
use calx_mill.Base.Tests.{◌==◌, if◌then◌else◌}
use calx_mill.Base.Lists.{length, take}
use calx_mill.Base.Text.{Text, is_whitespace, split, starts_with, strip_prefix}
use Prim.Native.Nat.{◌-◌}

-- The characters at the front that pass a test, and what is behind them.
unfoldable pub take_while : (ℕ → Bool) → Text → Text
take_while p [] = []
take_while p (c ∷ cs) = let rest = take_while p cs in if p c then c ∷ rest else []

unfoldable pub drop_while : (ℕ → Bool) → Text → Text
drop_while p [] = []
drop_while p (c ∷ cs) = let rest = drop_while p cs in if p c then rest else c ∷ cs

-- `&s[..i]`, where `behind` is `&s[i..]`.
unfoldable pub up_to : Text → Text → Text
up_to behind s = take (length s - length behind) s

close_word : Text → List Text → List Text
close_word [] ws = ws
close_word (c ∷ cs) ws = (c ∷ cs) ∷ ws

words_from : Text → Text → List Text
unfolding close_word
words_from part [] = close_word part []
words_from part (c ∷ cs) = elim (is_whitespace c) [
  | true ↦ close_word part (words_from [] cs)
  | false ↦ words_from (part ++ c ∷ []) cs
]

unfoldable pub split_whitespace : Text → List Text
unfolding words_from
split_whitespace s = words_from [] s

-- A text without the carriage return at its end.
strip_return : Text → Text
strip_return [] = []
strip_return (c ∷ []) = if c == 13 then [] else c ∷ []
strip_return (c ∷ d ∷ cs) = c ∷ strip_return (d ∷ cs)

-- The end of a text that ends in a newline is no line.
ended : List Text → List Text
unfolding strip_return
ended [] = []
ended ([] ∷ []) = []
ended ((c ∷ cs) ∷ []) = (c ∷ cs) ∷ []
ended (part ∷ next ∷ parts) = strip_return part ∷ ended (next ∷ parts)

unfoldable pub lines : Text → List Text
unfolding ended
lines s = ended (split b'\n' s)

-- The first of some texts, or the empty one.
abbrev pub first_or_empty : List Text → Text
first_or_empty [] = []
first_or_empty (w ∷ ws) = w

abbrev pub second_or_empty : List Text → Text
second_or_empty [] = []
second_or_empty (v ∷ ws) = first_or_empty ws

unfoldable pub ends_with : Text → Text → Bool
ends_with suffix s = starts_with (reverse suffix) (reverse s)

unfoldable pub strip_suffix : Text → Text → Option Text
strip_suffix suffix s = elim (strip_prefix (reverse suffix) (reverse s)) [
  | none ↦ none
  | some r ↦ some (reverse r)
]
