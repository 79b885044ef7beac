-- ===== src/Check/Purity.antt =====
-- `check` of src/nvidia/check.rs: the purity of the timed loops. A line of the report is what it
-- says, without its wording.
use calx_mill.Base.{
  ℕ, ◌%◌, ◌^◌, Bool, true, false, not, ◌&&◌, Option, none, some, inr, List, [], ◌∷◌, ◌++◌, map, ltb,
  length, any, keep, if◌then◌else◌, wrapping_add64, wrapping_sub64,
}
use calx_mill.Base.Result.{◌>>=◌}
use calx_mill.Base.Text.{Text, text_eq}
use calx_mill.Sass.Scan.{Scanned}
use calx_mill.Sass.Functions.{Instr, Function, parse_functions}
use calx_mill.Sass.HotLoop.{hot_loop}
use calx_mill.Sass.Mix.{body_between}
use calx_mill.Check.Tables.{Expect, loop_control, exempt_binaries}
use calx_mill.Check.Cases.{GateOpts, GateCase, case_of}

-- What is found of one function, with the label of its case.
pub data Line : Type 0 where
  no_loop : Text → Line
  too_large : Text → ℕ → Line
  sequence : Text → ℕ → ℕ → Line
  few_primary : Text → ℕ → Line
  many_aliens : Text → List Text → Line
  pure_loop : Text → ℕ → ℕ → ℕ → List Text → Line

unfoldable pub is_failure : Line → Bool
is_failure (no_loop label) = true
is_failure (too_large label size) = true
is_failure (sequence label n size) = false
is_failure (few_primary label n) = true
is_failure (many_aliens label aliens) = true
is_failure (pure_loop label n instrs size aliens) = false

abbrev pub among : List Text → Text → Bool
among ops op = any (λ o. text_eq o op) ops

last_addr : Instr → List Instr → ℕ
last_addr x [] = x.addr
last_addr x (y ∷ ys) = last_addr y ys

-- The bytes of a body, which is not empty.
unfoldable pub body_size : List Instr → ℕ
unfolding last_addr
body_size [] = 0
body_size (x ∷ xs) = wrapping_add64 (wrapping_sub64 (last_addr x xs) x.addr) 16

unfoldable pub primaries : List Text → List Instr → List Instr
primaries primary body = keep (λ (x : Instr). among primary x.base) body

unfoldable pub aliens_of : List Text → List Text → List Instr → List Text
aliens_of primary companions body =
    keep (λ b. not (among primary b) && (not (among companions b) && not (among loop_control b)))
      (map (λ (x : Instr). x.base) body)

-- What the body has to hold: the primary operations, those that may stand by them, and the least
-- count, none for a sequence that only has to be small.
pub record Demanded : Type 0 where
  pub primary : List Text
  pub companions : List Text
  pub least : ℕ

least_of : Option ℕ → ℕ → ℕ
least_of none d = d
least_of (some n) d = n

demanded_by : GateOpts → GateCase → Option (List Text × List Text) → Option Expect → Option Demanded
unfolding least_of
demanded_by opts case (some u) e =
    some (record { primary = u.0; companions = u.1; least = opts.min_primary })
demanded_by opts case none (some e) = some (record {
  primary = e.primary;
  companions = e.companions;
  least = least_of case.fn_min opts.min_primary;
})
demanded_by opts case none none = none

unfoldable pub demanded : GateOpts → GateCase → Option Demanded
unfolding demanded_by
demanded opts case = demanded_by opts case case.union case.expectation

unfoldable pub judge_ops : GateOpts → Text → List Instr → Option Demanded → Line
judge_ops opts label body none = sequence label (length body) (body_size body)
judge_ops opts label body (some d) =
    let n = length (primaries d.primary body) in
    let aliens = aliens_of d.primary d.companions body in
    if ltb (n % 2 ^ 32) d.least
    then few_primary label n
    else if ltb opts.staging_budget (length aliens)
    then many_aliens label aliens
    else pure_loop label n (length body) (body_size body) aliens

unfoldable pub judge_body : GateOpts → GateCase → List Instr → Line
judge_body opts case body =
    if ltb opts.l0_bytes (body_size body)
    then too_large case.label (body_size body)
    else judge_ops opts case.label body (demanded opts case)

unfoldable pub judge_loop : GateOpts → GateCase → List Instr → Option (ℕ × ℕ) → Scanned Line
judge_loop opts case instrs none = inr (no_loop case.label)
judge_loop opts case instrs (some (lo, hi)) = do
  body ← body_between instrs lo hi
  inr (judge_body opts case body)

unfoldable pub judge_function : GateOpts → GateCase → Function → Scanned Line
judge_function opts case f = do best ← hot_loop f.instrs; judge_loop opts case f.instrs best

-- A function's line in front of those of the others, none where it is not checked.
unfoldable pub judge_if : GateOpts → Option GateCase → Function → Scanned (List Line)
judge_if opts none f = inr []
judge_if opts (some case) f = do line ← judge_function opts case f; inr (line ∷ [])

unfoldable pub judge_all : GateOpts → List Function → Scanned (List Line)
judge_all opts [] = inr []
judge_all opts (f ∷ fs) = do
  line ← judge_if opts (case_of opts f.name) f
  lines ← judge_all opts fs
  inr (line ++ lines)

-- A report: of an exempt binary, or of the functions that were checked.
pub data CheckReport : Type 0 where
  exempt : Text → CheckReport
  checked : List Line → CheckReport

-- The check of a binary that is not exempt.
unfoldable pub check_bound : Text → GateOpts → Scanned CheckReport
check_bound sass opts = do
  functions ← parse_functions sass
  lines ← judge_all opts functions
  inr (checked lines)

unfoldable pub check : Text → Text → GateOpts → Scanned CheckReport
check basename sass opts =
    if among exempt_binaries basename then inr (exempt basename) else check_bound sass opts

-- The exit code: 1 where nothing was checked, or something failed.
unfoldable pub check_code : CheckReport → ℕ
check_code (exempt basename) = 0
check_code (checked []) = 1
check_code (checked (line ∷ lines)) = if any is_failure (line ∷ lines) then 1 else 0
