-- ===== src/Verify/Rows.antt =====
-- The kernels that src/nvidia/verify.rs projects.
use calx_mill.Base.{ℕ, Bool, true, false, List, [], ◌∷◌, ◌++◌, map, if◌then◌else◌}
use calx_mill.Base.Text.{Text, codes, text_eq}
use calx_mill.Projection.Project.{MemClass, no_memory, dram, l1}

-- A kernel: the row with its measurement, its binary, the pattern of its name, its memory, the warps,
-- and whether it is gated.
pub record VerifyRow : Type 0 where
  pub row_id : Text
  pub binary : Text
  pub regex : Text
  pub mem_class : MemClass
  pub warps : ℕ
  pub gated : Bool

abbrev anchor_row : Text → Text → MemClass → ℕ → Bool → VerifyRow
anchor_row row_id regex mem_class warps gated = record {
  row_id = codes "proj.anchor." ++ row_id;
  binary = codes "bench/proj/anchors.bin";
  regex = regex;
  mem_class = mem_class;
  warps = warps;
  gated = gated;
}

abbrev fa_mini_row : Text → Text → VerifyRow
fa_mini_row row_id digit = record {
  row_id = codes "proj.fa_mini." ++ row_id;
  binary = codes "bench/proj/fa_mini.bin";
  regex = codes "fa_mini_kernelILi" ++ digit;
  mem_class = l1;
  warps = 8;
  gated = true;
}

abbrev pub kernels : List VerifyRow
kernels =
    anchor_row (codes "ffma") (codes "ffma_anchor") no_memory 8 true
    ∷ anchor_row (codes "stream") (codes "stream_anchor") dram 8 true
    ∷ anchor_row (codes "smemtile") (codes "smemtile_anchor") no_memory 8 true
    ∷ anchor_row (codes "capmix") (codes "capmix_anchor") no_memory 8 true
    ∷ anchor_row (codes "latbound") (codes "latbound_demo") no_memory 1 false
    ∷ fa_mini_row (codes "base") (codes "0")
    ∷ fa_mini_row (codes "dp4a") (codes "1")
    ∷ fa_mini_row (codes "staged") (codes "2")
    ∷ []

-- An operation that is injected, and how often, in digits.
abbrev pub inject : List (Text × Text)
inject =
    (codes "base", codes "0")
    ∷ (codes "ffma", codes "8")
    ∷ (codes "ffma", codes "16")
    ∷ (codes "ffma", codes "24")
    ∷ (codes "idp4a", codes "8")
    ∷ (codes "idp4a", codes "16")
    ∷ (codes "idp4a", codes "24")
    ∷ (codes "lop3", codes "8")
    ∷ (codes "lop3", codes "16")
    ∷ (codes "lop3", codes "24")
    ∷ (codes "popc", codes "4")
    ∷ (codes "popc", codes "8")
    ∷ (codes "popc", codes "12")
    ∷ []

-- The last case stands for `popc`: no other operation is injected.
opsym : Text → Text
opsym op =
    if text_eq op (codes "base")
    then codes "OpNONEELi0"
    else if text_eq op (codes "ffma")
    then codes "OpFFMAELi"
    else if text_eq op (codes "idp4a")
    then codes "OpIDP4A_S8ELi"
    else if text_eq op (codes "lop3")
    then codes "OpLOP3ELi"
    else codes "OpPOPCELi"

inject_symbol : Text → Text → Text
unfolding opsym
inject_symbol op k = if text_eq op (codes "base") then opsym op else opsym op ++ (k ++ codes "E")

inject_row : Text × Text → VerifyRow
unfolding inject_symbol
inject_row (op, k) = record {
  row_id = codes "proj.inject." ++ (op ++ (codes ".k" ++ k));
  binary = codes "bench/proj/inject.bin";
  regex = codes "inject_kernelINS_\\d*" ++ inject_symbol op k;
  mem_class = l1;
  warps = 8;
  gated = true;
}

unfoldable pub verify_rows : List VerifyRow
unfolding inject_row
verify_rows = kernels ++ map inject_row inject
