-- ===== src/Telemetry/Ingest.antt =====
-- `parse_tele_counted` of src/telemetry.rs: reading records, with the loss counted.
use calx_mill.Base.{
  ℕ, ◌+◌, ◌≡◌, inl, inr, Bool, true, false, not, ◌||◌, Option, none, some, List, [], ◌∷◌, ◌++◌, ltb,
  if◌then◌else◌, length, length-append, get_or, keep, arith, Bool-cases,
}
use calx_mill.Base.Numeral.{parse_u32, parse_u64}
use calx_mill.Base.Text.{Text, codes, text_eq, trim, split, starts_with}
use calx_mill.Core.Composition.{Lane, memory, compute}
use calx_mill.Csv.Reader.{is_empty}
use calx_mill.Telemetry.Record.{TeleRecord}

or_zero : Option ℕ → ℕ
or_zero none = 0
or_zero (some n) = n

lane_of : Text → Lane
lane_of s = if text_eq s (codes "mem") then memory else compute

-- The record of a line's fields, if there are eight and the numbers among them parse.
all_parsed :
    List Text → Option ℕ → Option ℕ → Option ℕ → Option ℕ → Option ℕ → Option ℕ → Option TeleRecord
unfolding or_zero lane_of parse_u64
all_parsed f (some op_index) (some gs) (some ge) (some cyc) (some bytes) (some ops) = some (record {
  op_index = op_index;
  kind = get_or f 1 [];
  lane = lane_of (get_or f 2 []);
  gt_start_ns = gs;
  gt_end_ns = ge;
  cycles = cyc;
  bytes = bytes;
  ops = ops;
  op_wall_ns = or_zero (parse_u64 (get_or f 8 []));
})
all_parsed f _ _ _ _ _ _ = none

unfoldable pub record_of : List Text → Option TeleRecord
unfolding all_parsed parse_u32 parse_u64
record_of f =
    let num = λ (i : ℕ). parse_u64 (get_or f i []) in
    if ltb (length f) 8
    then none
    else all_parsed f (parse_u32 (get_or f 0 [])) (num 3) (num 4) (num 5) (num 6) (num 7)

-- Header, comment and blank lines, trimmed, are no data.
unfoldable pub is_data : Text → Bool
is_data line =
    not (is_empty line || starts_with (codes "op_index") line || starts_with (codes "#") line)

-- A line without a record is counted as skipped.
store : Option TeleRecord → List TeleRecord × ℕ → List TeleRecord × ℕ
store none (out, skipped) = (out, skipped + 1)
store (some r) (out, skipped) = (out ++ r ∷ [], skipped)

-- One round of the loop, on a trimmed line: the records so far and the count of the skipped lines.
unfoldable pub take_line : Text → List TeleRecord × ℕ → List TeleRecord × ℕ
unfolding store
take_line line found =
    if not (is_data line) then found else store (record_of (split b'\t' line)) found

take_lines : List Text → List TeleRecord × ℕ → List TeleRecord × ℕ
take_lines [] found = found
take_lines (line ∷ lines) found = take_lines lines (take_line (trim line) found)

unfoldable pub parse_tele_counted : Text → List TeleRecord × ℕ
unfolding take_lines
parse_tele_counted text = take_lines (split b'\n' text) ([], 0)

unfoldable pub parse_tele : Text → List TeleRecord
parse_tele text = (parse_tele_counted text).0

-- The lines that hold data.
pub data_lines : List Text → List Text
data_lines lines = keep (λ line. is_data (trim line)) lines

total_of : List TeleRecord × ℕ → ℕ
total_of (out, skipped) = length out + skipped

store-total :
    (o : Option TeleRecord) (found : List TeleRecord × ℕ)
    → total_of (store o found) ≡ total_of found + 1
unfolding store total_of
store-total none (out, skipped) = omega arith
store-total (some r) (out, skipped) = omega (arith, length-append out (r ∷ []))

-- What the line counts.
one_if : Bool → ℕ
one_if b = if b then 1 else 0

length-keep_first :
    (b : Bool) (line : Text) (rest : List Text)
    → length (elim b as (λ c. List Text) [ true ↦ line ∷ rest | false ↦ rest ])
      ≡ one_if b + length rest
unfolding one_if
length-keep_first true line rest = omega arith
length-keep_first false line rest = omega arith

take_line-total :
    (line : Text) (found : List TeleRecord × ℕ)
    → total_of (take_line line found) ≡ total_of found + one_if (is_data line)
take_line-total line found = elim (Bool-cases (is_data line)) [
  | inl e ↦ unfold take_line one_if in rw e (store-total (record_of (split b'\t' line)) found)
  | inr e ↦ unfold take_line one_if in rw e (omega arith)
]

take_lines-total :
    (lines : List Text) (found : List TeleRecord × ℕ)
    → total_of (take_lines lines found) ≡ total_of found + length (data_lines lines)
unfolding take_lines data_lines
take_lines-total [] found = omega arith
take_lines-total (line ∷ lines) found =
    let rest = take_lines-total lines (take_line (trim line) found) in
    let now = take_line-total (trim line) found in
    let first = length-keep_first (is_data (trim line)) line (data_lines lines) in
    omega (arith, rest, now, first)

-- Each data line of the text is either a record or counted as skipped.
pub parse_tele_counted-length :
    (text : Text)
    → length (parse_tele_counted text).0 + (parse_tele_counted text).1
      ≡ length (data_lines (split b'\n' text))
unfolding parse_tele_counted total_of
parse_tele_counted-length text = omega (arith, take_lines-total (split b'\n' text) ([], 0))
