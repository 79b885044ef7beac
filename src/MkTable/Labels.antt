-- ===== src/MkTable/Labels.antt =====
-- The instructions, the pipe labels and the sweeps of `mk_table` of src/nvidia/mktable.rs.
use calx_mill.Base.{
  ℕ, Bool, ◌&&◌, ◌||◌, Option, none, some, List, [], ◌∷◌, ◌++◌, leb, ◌==◌, length, take, ◌-◌,
  if◌then◌else◌,
}
use calx_mill.Base.Text.{Text, codes, starts_with, strip_prefix, split, split_once}
use calx_mill.Base.Words.{ends_with, drop_while, first_or_empty}
use calx_mill.Base.Sort.{sort_by}
use calx_mill.MkTable.Rows.{Measurements}

-- The instruction of a prefix of row ids.
abbrev pub instruction : List (Text × Text)
instruction =
    (codes "alu.ffma", codes "FFMA")
    ∷ (codes "alu.fadd", codes "FADD")
    ∷ (codes "alu.fmul", codes "FMUL")
    ∷ (codes "alu.iadd3_lop3", codes "IADD3+LOP3")
    ∷ (codes "alu.iadd3", codes "IADD3")
    ∷ (codes "alu.imad", codes "IMAD")
    ∷ (codes "alu.lop3", codes "LOP3")
    ∷ (codes "alu.shf", codes "SHF")
    ∷ (codes "alu.sel", codes "SEL")
    ∷ (codes "alu.fsel", codes "SEL")
    ∷ (codes "alu.isetp_sel", codes "ISETP+SEL")
    ∷ (codes "alu.isetp", codes "ISETP")
    ∷ (codes "alu.fsetp_sel", codes "FSETP+SEL")
    ∷ (codes "alu.fsetp", codes "FSETP")
    ∷ (codes "alu.popc", codes "POPC")
    ∷ (codes "alu.flo", codes "FLO")
    ∷ (codes "alu.prmt", codes "PRMT")
    ∷ (codes "alu.idp4a", codes "IDP.4A")
    ∷ (codes "alu.hfma2", codes "HFMA2")
    ∷ (codes "alu.dadd", codes "DADD")
    ∷ (codes "alu.dfma", codes "DFMA")
    ∷ (codes "alu.idiv", codes "(IDIV sequence)")
    ∷ []

-- The longer prefix first.
abbrev pub longer_first : Text × Text → Text × Text → Bool
longer_first a b = leb (length b.0) (length a.0)

unfoldable pub first_prefix : Text → List (Text × Text) → Text
first_prefix row_id [] = []
first_prefix row_id ((prefix, inst) ∷ keys) =
    if starts_with prefix row_id then inst else first_prefix row_id keys

unfoldable pub instruction_for : Text → Text
unfolding first_prefix
instruction_for row_id = first_prefix row_id (sort_by longer_first instruction)

abbrev pub is_ascii_digit : ℕ → Bool
is_ascii_digit c = leb b'0' c && leb c b'9'

-- The suffix of an occupancy sweep's variant, behind its `w`s and digits.
unfoldable pub sweep_base : Text → Option Text
sweep_base [] = none
sweep_base (c ∷ []) = none
sweep_base (c ∷ d ∷ cs) =
    if c == b'w' && is_ascii_digit d
    then some (drop_while (λ e. e == b'w' || is_ascii_digit e) (c ∷ d ∷ cs))
    else none

-- A measurement's row that only gives a label to a pipe.
unfoldable pub is_pipe_row : Text → Bool
is_pipe_row row_id = ends_with (codes ".pipe") row_id

before : Text → Text → Text
before sep s = elim (split_once sep s) [ some (front, _) ↦ front | none ↦ s ]

-- `split(" (").next()` of `split(';').next()`.
pipe_name : Text → Text
unfolding before
pipe_name rest = before (codes " (") (first_or_empty (split b';' rest))

label_of : Text → Option Text → List (Text × Text)
unfolding pipe_name
label_of row_id none = []
label_of row_id (some rest) = (take (length row_id - 5) row_id, pipe_name rest) ∷ []

unfoldable pub pipe_labels : Measurements → List (Text × Text)
unfolding label_of
pipe_labels [] = []
pipe_labels (g ∷ measurements) =
    if is_pipe_row g.key
    then label_of g.key (strip_prefix (codes "pipe=") g.first.notes) ++ pipe_labels measurements
    else pipe_labels measurements

unfoldable pub table_rows : Measurements → Measurements
table_rows [] = []
table_rows (g ∷ measurements) =
    let rest = table_rows measurements in if is_pipe_row g.key then rest else g ∷ rest

-- The label of the first operation that the row id belongs to.
unfoldable pub pipe_of_row : List (Text × Text) → Text → Text
pipe_of_row [] row_id = []
pipe_of_row ((k, p) ∷ labels) row_id =
    if starts_with (k ++ codes ".") row_id then p else pipe_of_row labels row_id
