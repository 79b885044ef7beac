-- ===== src/Ptxas/Report.antt =====
-- `parse_ptxas_v` of src/nvidia/ptxas.rs: reading the reports.
use calx_mill.Base.{
  ℕ, zero, suc, Bool, true, false, ◌&&◌, ◌||◌, Option, none, some, List, [], ◌∷◌, ◌++◌, leb, ◌==◌,
  if◌then◌else◌, length, get_or, update_last,
}
use calx_mill.Base.Text.{
  Text, codes, trim, trim_start, split, split_once, starts_with, strip_prefix,
}
use calx_mill.Base.Words.{ends_with, strip_suffix}
use calx_mill.Base.Numeral.{parse_u32}
use calx_mill.Ptxas.Usage.{KernelUsage}

-- The digits at the front of a text.
leading_digits : Text → Text
leading_digits [] = []
leading_digits (c ∷ cs) =
    let rest = leading_digits cs in if leb b'0' c && leb c b'9' then c ∷ rest else []

unfoldable pub leading_u32 : Text → Option ℕ
unfolding leading_digits
leading_u32 s = parse_u32 (leading_digits (trim_start s))

-- `split(", ")`.
unfoldable pub split_clauses : Text → Text → List Text
split_clauses part [] = part ∷ []
split_clauses part (c ∷ []) = (part ++ c ∷ []) ∷ []
split_clauses part (c ∷ d ∷ cs) =
    let cut = split_clauses [] cs in
    let on = split_clauses (part ++ c ∷ []) (d ∷ cs) in
    if c == b',' && d == b' ' then part ∷ cut else on

-- `trim_start_matches("used ")`, on fuel for the repetitions.
drop_used : ℕ → Text → Text
drop_used zero s = s
drop_used (suc n) s = elim (strip_prefix (codes "used ") s) [ none ↦ s | some r ↦ drop_used n r ]

unfoldable pub drop_marks : Text → Text
drop_marks [] = []
drop_marks (c ∷ cs) = let rest = drop_marks cs in if c == b' ' || c == b':' then rest else c ∷ cs

-- The reports so far, and whether the next line holds a function's properties.
pub record Reading : Type 0 where
  pub out : List KernelUsage
  pub in_properties : Bool

bank_of : Text → Option ℕ
bank_of clause = elim (split_once (codes "bytes cmem[") clause) [
  | none ↦ none
  | some parts ↦ elim (strip_suffix (codes "]") parts.1) [ none ↦ none | some b ↦ parse_u32 b ]
]

add_bank : ℕ → Option ℕ → KernelUsage → KernelUsage
add_bank n none k = k
add_bank n (some bank) k = record k { cmem_bytes = k.cmem_bytes ++ (bank, n) ∷ [] }

use_clause : Text → Option ℕ → KernelUsage → KernelUsage
unfolding bank_of add_bank
use_clause clause none k = k
use_clause clause (some n) k =
    if ends_with (codes "registers") clause
    then record k { registers = n }
    else if ends_with (codes "barriers") clause
    then record k { barriers = n }
    else if ends_with (codes "bytes smem") clause
    then record k { smem_bytes = n }
    else if ends_with (codes "bytes lmem") clause
    then record k { lmem_bytes = n }
    else add_bank n (bank_of clause) k

unfoldable pub use_clauses : List Text → KernelUsage → KernelUsage
unfolding use_clause drop_used
use_clauses [] k = k
use_clauses (part ∷ parts) k =
    let clause = drop_used (length part) (trim part) in
    use_clauses parts (use_clause clause (leading_u32 clause) k)

property_clause : Text → Option ℕ → KernelUsage → KernelUsage
property_clause clause none k = k
property_clause clause (some n) k =
    if ends_with (codes "stack frame") clause
    then record k { stack_frame = n }
    else if ends_with (codes "spill stores") clause
    then record k { spill_stores = n }
    else if ends_with (codes "spill loads") clause
    then record k { spill_loads = n }
    else k

property_clauses : List Text → KernelUsage → KernelUsage
unfolding property_clause
property_clauses [] k = k
property_clauses (clause ∷ clauses) k =
    property_clauses clauses (property_clause clause (leading_u32 clause) k)

abbrev pub empty_usage : KernelUsage
empty_usage = record {
  name = [];
  arch = [];
  registers = 0;
  barriers = 0;
  smem_bytes = 0;
  cmem_bytes = [];
  lmem_bytes = 0;
  stack_frame = 0;
  spill_stores = 0;
  spill_loads = 0;
}

-- A kernel's name ends at the next quote; its architecture is the quoted text behind that.
open_kernel : Option (Text × Text) → Reading → Reading
open_kernel none r = r
open_kernel (some (name, tail)) r =
    let kernel = record empty_usage { name = name; arch = get_or (split b'\'' tail) 1 [] } in
    record r { out = r.out ++ kernel ∷ [] }

other_info : Text → Option Text → Reading → Reading
other_info rest (some used) r = record r {
  out = update_last (use_clauses (split_clauses [] used)) r.out;
}
other_info rest none r = r

info_line : Text → Option Text → Reading → Reading
unfolding open_kernel other_info
info_line rest (some entry) r = open_kernel (split_once (codes "'") entry) r
info_line rest none r =
    if starts_with (codes "Function properties for ") rest
    then record r { in_properties = true }
    else other_info rest (strip_prefix (codes "Used ") rest) r

read_line : Text → Option Text → Reading → Reading
unfolding info_line property_clauses
read_line line (some marked) r =
    let rest = trim (drop_marks marked) in
    info_line rest (strip_prefix (codes "Compiling entry function '") rest)
      (record r { in_properties = false })
read_line line none r =
    if r.in_properties
    then record {
      out = update_last (property_clauses (split_clauses [] (trim line))) r.out;
      in_properties = false;
    }
    else r

read_lines : List Text → Reading → Reading
unfolding read_line
read_lines [] r = r
read_lines (line ∷ lines) r =
    read_lines lines (read_line line (strip_prefix (codes "ptxas info") (trim_start line)) r)

unfoldable pub parse_ptxas_v : Text → List KernelUsage
unfolding read_lines
parse_ptxas_v text =
    (read_lines (split b'\n' text) (record { out = []; in_properties = false })).out
