-- ===== src/Sass/HotLoop.antt =====
-- `hot_loop` of src/nvidia/sass.rs: the largest body of a backward branch.
use calx_mill.Base.{
  ℕ, suc, Option, none, some, inr, List, [], ◌∷◌, ltb, ◌==◌, if◌then◌else◌, wrapping_sub64,
}
use calx_mill.Base.Result.{◌>>=◌}
use calx_mill.Base.Text.{Text, codes, text_eq, is_whitespace, strip_prefix}
use calx_mill.Base.Words.{take_while, drop_while}
use calx_mill.Csv.Reader.{is_empty}
use calx_mill.Sass.Scan.{Scanned, from_hex, is_hex}
use calx_mill.Sass.Functions.{Instr}

-- The digits of a target, from behind its `BRA`.
hex_digits : Option Text → Option Text
hex_digits none = none
hex_digits (some s) = if is_empty (take_while is_hex s) then none else some (take_while is_hex s)

target_digits : Text → Option Text
unfolding hex_digits
target_digits s =
    if is_empty (take_while is_whitespace s)
    then none
    else hex_digits (strip_prefix (codes "0x") (drop_while is_whitespace s))

-- The digits behind the first `BRA` that has a target.
find_target : Text → Option Text
unfolding target_digits
find_target [] = none
find_target (c ∷ cs) =
    let rest = find_target cs in
    elim (strip_prefix (codes "BRA") (c ∷ cs)) [
      | none ↦ rest
      | some behind ↦ elim (target_digits behind) [ some digits ↦ some digits | none ↦ rest ]
    ]

read_target : Option Text → Scanned (Option ℕ)
read_target none = inr none
read_target (some digits) = do target ← from_hex digits; inr (some target)

unfoldable pub bra_target : Text → Scanned (Option ℕ)
unfolding find_target read_target
bra_target text = read_target (find_target text)

unfoldable pub next_index : Option ℕ → Option ℕ
next_index none = none
next_index (some i) = some (suc i)

-- The index of the first instruction at an address.
unfoldable pub position_of : ℕ → List Instr → Option ℕ
position_of addr [] = none
position_of addr (x ∷ xs) =
    let rest = position_of addr xs in if x.addr == addr then some 0 else next_index rest

unfoldable pub loop_start : List Instr → ℕ → Option ℕ → Option ℕ
loop_start instrs addr none = none
loop_start instrs addr (some target) = if ltb target addr then position_of target instrs else none

-- The index that an instruction branches back to, if it does.
unfoldable pub backward : List Instr → Instr → Scanned (Option ℕ)
unfolding loop_start
backward instrs x =
    if text_eq x.base (codes "BRA")
    then (do target ← bra_target x.text; inr (loop_start instrs x.addr target))
    else inr none

-- The better of the best body so far, from its first index to its last, and a new one.
unfoldable pub better : Option (ℕ × ℕ) → ℕ → Option ℕ → Option (ℕ × ℕ)
better best i none = best
better none i (some j) = some (j, i)
better (some (bj, bi)) i (some j) =
    if ltb (wrapping_sub64 bi bj) (wrapping_sub64 i j) then some (j, i) else some (bj, bi)

unfoldable pub loop_from : List Instr → ℕ → List Instr → Option (ℕ × ℕ) → Scanned (Option (ℕ × ℕ))
loop_from instrs i [] best = inr best
loop_from instrs i (x ∷ rest) best = do
  j ← backward instrs x
  loop_from instrs (suc i) rest (better best i j)

unfoldable pub hot_loop : List Instr → Scanned (Option (ℕ × ℕ))
hot_loop instrs = loop_from instrs 0 instrs none
