-- ===== src/Csv/Reader.antt =====
-- `parse_records` and `Table` of src/nvidia/csvio.rs.
use calx_mill.Base.{
  ℕ, zero, suc, Bool, true, false, not, ◌&&◌, ◌||◌, Option, none, some, List, [], ◌∷◌, ◌++◌, map,
  ◌==◌, if◌then◌else◌, length,
}
use calx_mill.Base.Text.{Text, text_eq}

abbrev pub comma : ℕ
comma = 44

abbrev pub quote : ℕ
quote = 34

abbrev pub carriage_return : ℕ
carriage_return = 13

abbrev pub newline : ℕ
newline = 10

-- The variables of the loop.
pub record Reader : Type 0 where
  pub records : List (List Text)
  pub current : List Text
  pub field : Text
  pub in_quotes : Bool
  pub field_started : Bool

abbrev pub is_empty {ℓ} : {A : Type ℓ} → List A → Bool
is_empty [] = true
is_empty (x ∷ xs) = false

abbrev pub push_char : ℕ → Reader → Reader
push_char c r = record r { field = r.field ++ c ∷ [] }

unfoldable pub end_field : Reader → Reader
end_field r = record r { current = r.current ++ r.field ∷ []; field = [] }

-- There is something to store: a field has started or a record is under way.
unfoldable pub has_record : Reader → Bool
has_record r = r.field_started || not (is_empty r.field) || not (is_empty r.current)

unfoldable pub end_record : Reader → Reader
unfolding end_field
end_record r = record r {
  records = r.records ++ (r.current ++ r.field ∷ []) ∷ [];
  current = [];
  field = [];
}

-- One round of the loop, for a character that is not the first of a doubled quote.
unfoldable pub step : ℕ → Reader → Reader
unfolding end_field end_record has_record
step c r =
    if r.in_quotes
    then (if c == quote then record r { in_quotes = false } else push_char c r)
    else if c == quote
    then record r { in_quotes = true; field_started = true }
    else if c == comma
    then record (end_field r) { field_started = true }
    else if c == carriage_return
    then r
    else if c == newline
    then record (if has_record r then end_record r else r) { field_started = false }
    else push_char c r

-- Inside quotes two quotes stand for one.
unfoldable pub is_doubled : ℕ → ℕ → Reader → Bool
is_doubled c d r = r.in_quotes && c == quote && d == quote

unfoldable pub loop : Text → Reader → Reader
unfolding step is_doubled
loop [] r = r
loop (c ∷ []) r = step c r
loop (c ∷ d ∷ cs) r =
    let skip = loop cs (push_char quote r) in
    let next = loop (d ∷ cs) (step c r) in if is_doubled c d r then skip else next

-- What is left at the end of the text is a record without its terminator.
unfoldable pub finish : Reader → List (List Text)
unfolding has_record
finish r = if has_record r then r.records ++ (r.current ++ r.field ∷ []) ∷ [] else r.records

abbrev pub start : Reader
start = record { records = []; current = []; field = []; in_quotes = false; field_started = false }

unfoldable pub parse_records : Text → List (List Text)
unfolding loop finish
parse_records text = finish (loop text start)

pub record Table : Type 0 where
  pub header : List Text
  pub rows : List (List Text)

-- Empty fields at the end, up to the width.
unfoldable pub pad : ℕ → List Text → List Text
pad zero row = row
pad (suc n) [] = [] ∷ pad n []
pad (suc n) (f ∷ row) = f ∷ pad n row

unfoldable pub with_header : List (List Text) → Table
unfolding pad
with_header [] = record { header = []; rows = [] }
with_header (header ∷ records) = record {
  header = header;
  rows = map (pad (length header)) records;
}

unfoldable pub parse_table : Text → Table
unfolding with_header parse_records
parse_table text = with_header (parse_records text)

position : Text → List Text → ℕ → Option ℕ
position name [] i = none
position name (h ∷ hs) i = if text_eq h name then some i else position name hs (suc i)

-- `none` is the panic on a missing column.
unfoldable pub col : Text → Table → Option ℕ
unfolding position
col name t = position name t.header 0
