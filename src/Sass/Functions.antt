-- ===== src/Sass/Functions.antt =====
-- `parse_functions` of src/nvidia/sass.rs: the functions of a disassembly with their instructions.
use calx_mill.Base.{ℕ, Option, none, some, inr, List, [], ◌∷◌, ◌++◌, if◌then◌else◌, update_last}
use calx_mill.Base.Result.{◌>>=◌}
use calx_mill.Base.Text.{Text, codes, trim, split, starts_with}
use calx_mill.Base.Words.{split_whitespace, lines, take_while, first_or_empty, second_or_empty}
use calx_mill.Base.{◌==◌, not}
use calx_mill.Sass.Scan.{Scanned, Found, scan_instr, function_name}

-- An instruction: its address, its mnemonic without suffixes, and its text.
pub record Instr : Type 0 where
  pub addr : ℕ
  pub base : Text
  pub text : Text

pub record Function : Type 0 where
  pub name : Text
  pub instrs : List Instr

-- The part of a mnemonic before its first `.`.
unfoldable pub base_of : Text → Text
base_of mnemonic = first_or_empty (split b'.' mnemonic)

unfoldable pub mnemonic_of : Text → Text
mnemonic_of text =
    if starts_with (codes "@") text
    then second_or_empty (split_whitespace text)
    else first_or_empty (split_whitespace text)

unfoldable pub decode : Found → Instr
decode found =
    let text = trim (take_while (λ c. not (c == b';')) found.body) in
    record { addr = found.addr; base = base_of (mnemonic_of text); text = text }

abbrev add_instr : Instr → Function → Function
add_instr instr f = record { name = f.name; instrs = f.instrs ++ instr ∷ [] }

push_found : Option Found → List Function → List Function
push_found none out = out
push_found (some found) out = update_last (add_instr (decode found)) out

-- A line that opens no function. Before the first function nothing is scanned.
body_line : Text → List Function → Scanned (List Function)
unfolding push_found
body_line line [] = inr []
body_line line (f ∷ out) = do found ← scan_instr line; inr (push_found found (f ∷ out))

take_line : Text → Option Text → List Function → Scanned (List Function)
unfolding body_line
take_line line (some name) out = inr (out ++ record { name = name; instrs = [] } ∷ [])
take_line line none out = body_line line out

take_lines : List Text → List Function → Scanned (List Function)
unfolding take_line
take_lines [] out = inr out
take_lines (line ∷ more) out = do out ← take_line line (function_name line) out; take_lines more out

unfoldable pub parse_functions : Text → Scanned (List Function)
unfolding take_lines
parse_functions sass = take_lines (lines sass) []
