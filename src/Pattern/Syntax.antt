-- ===== src/Pattern/Syntax.antt =====
-- `Atom`, `Quant`, `atom_ok` and the atoms of a `Pattern` of src/nvidia/pattern.rs.
use calx_mill.Base.{ℕ, Bool, not, ◌&&◌, List, ◌==◌, leb}

pub data Atom : Type 0 where
  lit : ℕ → Atom
  any_byte : Atom
  digit : Atom

pub data Quant : Type 0 where
  one star plus : Quant

abbrev pub Pattern : Type 0
Pattern = List (Atom × Quant)

unfoldable pub atom_ok : Atom → ℕ → Bool
atom_ok (lit l) b = b == l
atom_ok any_byte b = not (b == 10)
atom_ok digit b = leb b'0' b && leb b b'9'
