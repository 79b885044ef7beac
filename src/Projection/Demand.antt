-- ===== src/Projection/Demand.antt =====
-- The loop of `project` in src/nvidia/projection.rs: what the operations of a census demand.
use mathlib.Core.List.{reverse}
use calx_mill.Base.{
  ℕ, ◌+◌, Bool, true, false, not, ◌&&◌, ◌||◌, Option, none, some, List, [], ◌∷◌, ◌++◌, leb, ◌==◌,
  map, if◌then◌else◌, all,
}
use calx_mill.Base.Text.{Text, codes, text_eq, split}
use calx_mill.Base.Words.{first_or_empty}
use calx_mill.Base.Numeral.{parse_u64}
use calx_mill.Csv.Reader.{is_empty}
use calx_mill.Projection.Rates.{RateRow, Rates, get}
use calx_mill.Projection.Tables.{op_table_row, pipe_of, width_bytes, lookup}

-- The panic on a rate whose value is no number.
pub data ProjectPanic : Type 0 where
  bad_rate : Text → ProjectPanic

-- The width of the last part that is a width, 4 bytes without one.
width_in : List Text → ℕ
width_in [] = 4
width_in (p ∷ parts) =
    let rest = width_in parts in elim (lookup width_bytes p) [ some b ↦ b | none ↦ rest ]

unfoldable pub mem_bytes : Text → ℕ
unfolding width_in
mem_bytes mnemonic = width_in (reverse (split b'.' mnemonic))

-- The matrices that an `LDSM` moves: 1, 2 or 4, by its last part, else 1.
matrices_of : Option ℕ → ℕ
matrices_of none = 1
matrices_of (some c) = if c == 1 || c == 2 || c == 4 then c else 1

unfoldable pub matrices : Text → ℕ
unfolding matrices_of
matrices mnemonic = matrices_of (parse_u64 (first_or_empty (reverse (split b'.' mnemonic))))

second_part : List Text → Option Text
second_part (a ∷ b ∷ parts) = some b
second_part _ = none

is_shape : Text → Bool
is_shape s = not (is_empty s) && all (λ b. leb b'0' b && leb b b'9') s

shape_of : Option Text → Option Text
unfolding is_shape
shape_of none = none
shape_of (some s) = if is_shape s then some s else none

-- The shape of a tensor operation.
unfoldable pub tensor_shape : Text → Text → Option Text
unfolding shape_of second_part
tensor_shape base mnemonic =
    if text_eq base (codes "HMMA") || text_eq base (codes "IMMA")
    then shape_of (second_part (split b'.' mnemonic))
    else none

lowercase : Text → Text
lowercase = map (λ c. if leb b'A' c && leb c b'Z' then c + 32 else c)

unfoldable pub shape_measured : Rates → Text → Option Text → Option RateRow
unfolding lowercase
shape_measured rates base none = none
shape_measured rates base (some shape) =
    get rates (codes "tensor." ++ (lowercase base ++ (codes "." ++ (shape ++ codes ".tput"))))

measured_as : Rates → Option Text → Option RateRow
measured_as rates none = none
measured_as rates (some id) = get rates id

unfoldable pub base_measured : Rates → Text → Option RateRow
unfolding measured_as
base_measured rates base = measured_as rates (lookup op_table_row base)

unfoldable pub or_row : Option RateRow → Option RateRow → Option RateRow
or_row (some r) other = some r
or_row none other = other

or_alu : Option Text → Text
or_alu none = codes "alu"
or_alu (some p) = p

unfoldable pub class_pipe : Text → Text
unfolding or_alu
class_pipe base = or_alu (lookup pipe_of base)

unfoldable pub row_pipe : RateRow → Text → Text
row_pipe r base = if is_empty r.pipe then class_pipe base else r.pipe

is_some : {A : Type 0} → Option A → Bool
is_some none = false
is_some (some x) = true

-- A tensor shape that is costed by the row of its base.
unfoldable pub is_shape_defaulted : Option RateRow → Option Text → Option RateRow → Bool
unfolding is_some
is_shape_defaulted own shape base = not (is_some own) && is_some shape && is_some base

-- What the operations so far demand: the cycles of each pipe, in the order of first use, those of the
-- local store, the bytes of memory, the instructions, and the operations with a default rate.
pub record Demand (F : Type 0) : Type 0 where
  pub pipes : List (Text × F)
  pub smem : F
  pub bytes : F
  pub insts : ℕ
  pub defaulted : List Text

abbrev pub flag_if : {F : Type 0} → Bool → Text → Demand F → Demand F
flag_if b mnemonic d = record d {
  defaulted = if b then d.defaulted ++ mnemonic ∷ [] else d.defaulted;
}
