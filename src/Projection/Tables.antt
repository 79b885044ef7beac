-- ===== src/Projection/Tables.antt =====
-- The tables of src/nvidia/projection.rs.
use calx_mill.Base.{ℕ, Option, none, some, List, [], ◌∷◌, Bool, if◌then◌else◌, any}
use calx_mill.Base.Text.{Text, codes, text_eq}

abbrev pub op_table_row : List (Text × Text)
op_table_row =
    (codes "FFMA", codes "alu.ffma.tput")
    ∷ (codes "FADD", codes "alu.fadd.tput")
    ∷ (codes "FMUL", codes "alu.fmul.tput")
    ∷ (codes "IMAD", codes "alu.imad.tput")
    ∷ (codes "IDP", codes "alu.idp4a.tput")
    ∷ (codes "HFMA2", codes "alu.hfma2.tput")
    ∷ (codes "LOP3", codes "alu.lop3.tput")
    ∷ (codes "SHF", codes "alu.shf.tput")
    ∷ (codes "SEL", codes "alu.sel.tput")
    ∷ (codes "IADD3", codes "alu.iadd3.tput")
    ∷ (codes "ISETP", codes "alu.isetp.tput")
    ∷ (codes "PRMT", codes "alu.prmt.tput")
    ∷ (codes "POPC", codes "alu.popc.tput")
    ∷ (codes "FLO", codes "alu.flo.tput")
    ∷ (codes "DADD", codes "alu.dadd.tput")
    ∷ (codes "DFMA", codes "alu.dfma.tput")
    ∷ (codes "MUFU", codes "sfu.mufu.ex2.tput")
    ∷ (codes "F2F", codes "cvt.f2f.tput")
    ∷ (codes "HADD2", codes "cvt.f2f.tput")
    ∷ (codes "F2I", codes "cvt.i2f_f2i.tput")
    ∷ (codes "I2F", codes "cvt.i2f_f2i.tput")
    ∷ (codes "HMMA", codes "tensor.hmma.1688.tput")
    ∷ (codes "IMMA", codes "tensor.imma.8816.tput")
    ∷ []

abbrev pub pipe_of : List (Text × Text)
pipe_of =
    (codes "HMMA", codes "tensor")
    ∷ (codes "IMMA", codes "tensor")
    ∷ (codes "BMMA", codes "tensor")
    ∷ (codes "FFMA", codes "fma")
    ∷ (codes "FADD", codes "fma")
    ∷ (codes "FMUL", codes "fma")
    ∷ (codes "IMAD", codes "fma")
    ∷ (codes "IDP", codes "fma")
    ∷ (codes "FSETP", codes "fma")
    ∷ (codes "FSEL", codes "alu")
    ∷ (codes "FMNMX", codes "fma")
    ∷ (codes "HADD2", codes "own")
    ∷ (codes "HMUL2", codes "own")
    ∷ (codes "HFMA2", codes "own")
    ∷ (codes "LOP3", codes "alu")
    ∷ (codes "SHF", codes "alu")
    ∷ (codes "SEL", codes "alu")
    ∷ (codes "IADD3", codes "alu")
    ∷ (codes "ISETP", codes "alu")
    ∷ (codes "PRMT", codes "alu")
    ∷ (codes "LEA", codes "alu")
    ∷ (codes "MOV", codes "alu")
    ∷ (codes "BFE", codes "alu")
    ∷ (codes "BFI", codes "alu")
    ∷ (codes "POPC", codes "own_xu")
    ∷ (codes "FLO", codes "own_xu")
    ∷ (codes "MUFU", codes "own_xu")
    ∷ (codes "F2F", codes "own_xu")
    ∷ (codes "F2I", codes "own_xu")
    ∷ (codes "I2F", codes "own_xu")
    ∷ (codes "DADD", codes "own_fp64")
    ∷ (codes "DFMA", codes "own_fp64")
    ∷ (codes "DMUL", codes "own_fp64")
    ∷ []

abbrev pub control : List Text
control =
    codes "BRA"
    ∷ codes "NOP"
    ∷ codes "EXIT"
    ∷ codes "CS2R"
    ∷ codes "S2R"
    ∷ codes "BSSY"
    ∷ codes "BSYNC"
    ∷ codes "YIELD"
    ∷ []

abbrev pub lsu : List Text
lsu =
    codes "LDG"
    ∷ codes "STG"
    ∷ codes "LDS"
    ∷ codes "STS"
    ∷ codes "LDC"
    ∷ codes "LDL"
    ∷ codes "STL"
    ∷ codes "LDSM"
    ∷ []

abbrev pub width_bytes : List (Text × ℕ)
width_bytes =
    (codes "8", 1)
    ∷ (codes "U8", 1)
    ∷ (codes "S8", 1)
    ∷ (codes "16", 2)
    ∷ (codes "U16", 2)
    ∷ (codes "S16", 2)
    ∷ (codes "32", 4)
    ∷ (codes "64", 8)
    ∷ (codes "128", 16)
    ∷ []

-- The value of the first entry with the key.
unfoldable pub lookup {ℓ} : {A : Type ℓ} → List (Text × A) → Text → Option A
lookup [] key = none
lookup ((k, v) ∷ entries) key = if text_eq k key then some v else lookup entries key

abbrev pub contains : List Text → Text → Bool
contains names name = any (λ n. text_eq n name) names
