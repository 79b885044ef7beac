-- ===== src/Sass/Mix.antt =====
-- `loop_mix` and `census_per_kernel` of src/nvidia/sass.rs: the operations of hot loops, and those of
-- whole functions.
use mathlib.Core.List.{reverse}
use calx_mill.Base.{
  ℕ, zero, suc, ◌+◌, ◌-◌, Bool, Option, none, some, inl, inr, List, [], ◌∷◌, ◌++◌, ltb,
  if◌then◌else◌, take, drop, length,
}
use calx_mill.Base.Result.{◌>>=◌}
use calx_mill.Base.Text.{Text, codes, text_eq, starts_with}
use calx_mill.Base.Words.{up_to, split_whitespace, lines, first_or_empty}
use calx_mill.Pattern.Syntax.{Pattern}
use calx_mill.Pattern.Search.{is_match}
use calx_mill.Projection.Census.{Census, add}
use calx_mill.Sass.Scan.{Scanned, bad_slice, Found, scan_instr, function_name}
use calx_mill.Sass.Functions.{Instr, Function, base_of, parse_functions}
use calx_mill.Sass.HotLoop.{hot_loop}

-- `instrs[lo..=hi]`, of a `hi` within the list.
unfoldable pub body_between : List Instr → ℕ → ℕ → Scanned (List Instr)
body_between instrs lo hi =
    if ltb (suc hi) lo then inl (bad_slice lo hi) else inr (take (suc hi - lo) (drop lo instrs))

unfoldable pub add_instrs : Census → List Instr → Census
add_instrs mix [] = mix
add_instrs mix (x ∷ xs) = add_instrs (add mix x.base 1) xs

unfoldable pub add_body : List Instr → Option (ℕ × ℕ) → Census × ℕ → Scanned (Census × ℕ)
add_body instrs none (mix, matched) = inr (mix, matched)
add_body instrs (some (lo, hi)) (mix, matched) = do
  body ← body_between instrs lo hi
  inr (add_instrs mix body, matched + 1)

unfoldable pub mix_function : Pattern → Function → Census × ℕ → Scanned (Census × ℕ)
mix_function kernel f found =
    if is_match kernel f.name
    then (do best ← hot_loop f.instrs; add_body f.instrs best found)
    else inr found

unfoldable pub mix_functions : Pattern → List Function → Census × ℕ → Scanned (Census × ℕ)
mix_functions kernel [] found = inr found
mix_functions kernel (f ∷ fs) found = do
  found ← mix_function kernel f found
  mix_functions kernel fs found

unfoldable pub loop_mix : Text → Pattern → Scanned (Census × ℕ)
loop_mix sass kernel = do functions ← parse_functions sass; mix_functions kernel functions ([], 0)

-- The censuses of the kernels so far, and the index of the one that the lines belong to.
pub record Counting : Type 0 where
  pub counts : List (Text × Census)
  pub current : Option ℕ

unfoldable pub kernel_index : Text → List (Text × Census) → ℕ → Option ℕ
kernel_index name [] i = none
kernel_index name ((k, census) ∷ counts) i =
    let rest = kernel_index name counts (suc i) in if text_eq k name then some i else rest

unfoldable pub enter : Text → List (Text × Census) → Option ℕ → Counting
enter name counts (some i) = record { counts = counts; current = some i }
enter name counts none = record {
  counts = counts ++ (name, []) ∷ [];
  current = some (length counts);
}

last_word : List Text → Text
last_word ws = first_or_empty (reverse ws)

found_op : Bool → Found → Text
unfolding last_word
found_op full found =
    let span = up_to found.behind found.body in
    let mnemonic =
      if starts_with (codes "@") span then last_word (split_whitespace span) else span in
    if full then mnemonic else base_of mnemonic

unfoldable pub add_at : List (Text × Census) → ℕ → Text → List (Text × Census)
add_at [] i op = []
add_at ((k, census) ∷ counts) zero op = (k, add census op 1) ∷ counts
add_at (item ∷ counts) (suc i) op = item ∷ add_at counts i op

unfoldable pub count_found : Bool → ℕ → Option Found → Counting → Counting
unfolding found_op
count_found full idx none s = s
count_found full idx (some found) s = record {
  counts = add_at s.counts idx (found_op full found);
  current = s.current;
}

-- Where no kernel is current, nothing is scanned.
unfoldable pub count_line : Bool → Text → Option ℕ → Counting → Scanned Counting
unfolding count_found
count_line full line none s = inr s
count_line full line (some idx) s = do found ← scan_instr line; inr (count_found full idx found s)

unfoldable pub census_line : Pattern → Bool → Text → Option Text → Counting → Scanned Counting
unfolding count_line
census_line kernel full line (some name) s = inr (
    if is_match kernel name
    then enter name s.counts (kernel_index name s.counts 0)
    else record { counts = s.counts; current = none })
census_line kernel full line none s = count_line full line s.current s

unfoldable pub census_lines : Pattern → Bool → List Text → Counting → Scanned Counting
census_lines kernel full [] s = inr s
census_lines kernel full (line ∷ more) s = do
  s ← census_line kernel full line (function_name line) s
  census_lines kernel full more s

unfoldable pub census_per_kernel : Text → Pattern → Bool → Scanned (List (Text × Census))
census_per_kernel sass kernel full = do
  s ← census_lines kernel full (lines sass) (record { counts = []; current = none })
  inr s.counts
