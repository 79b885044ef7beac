-- ===== src/Check/Tables.antt =====
-- The tables of src/nvidia/check.rs but that of the bespoke kernels.
use calx_mill.Base.{ℕ, Option, none, some, List, [], ◌∷◌}
use calx_mill.Base.Text.{Text, codes}

-- What a timed loop is expected to hold: the operations that are timed, those that may stand by them,
-- and how many of the former there are at least, where that is not the default.
pub record Expect : Type 0 where
  pub primary : List Text
  pub companions : List Text
  pub least : Option ℕ

abbrev pub exp : List Text → Option Expect
exp primary = some (record { primary = primary; companions = []; least = none })

abbrev pub exp_c : List Text → List Text → Option Expect
exp_c primary companions =
    some (record { primary = primary; companions = companions; least = none })

abbrev pub exp_m : List Text → List Text → ℕ → Option Expect
exp_m primary companions least =
    some (record { primary = primary; companions = companions; least = some least })

-- The instructions that every timed loop has.
abbrev pub loop_control : List Text
loop_control = codes "IADD3" ∷ codes "ISETP" ∷ codes "BRA" ∷ codes "NOP" ∷ []

-- The binaries that the check cannot bind.
abbrev pub exempt_binaries : List Text
exempt_binaries =
    codes "launch.bin"
    ∷ codes "marshal.bin"
    ∷ codes "l2bw.bin"
    ∷ codes "fa_mini.bin"
    ∷ codes "nccl_pcie.bin"
    ∷ codes "icache.bin"
    ∷ []

-- By the name of an operation's type. Without an expectation only the size is checked.
abbrev pub expect : List (Text × Option Expect)
expect =
    (codes "OpFFMA", exp (codes "FFMA" ∷ []))
    ∷ (codes "OpFADD", exp (codes "FADD" ∷ []))
    ∷ (codes "OpFMUL", exp (codes "FMUL" ∷ []))
    ∷ (codes "OpIADD3", exp (codes "IADD3" ∷ codes "LOP3" ∷ []))
    ∷ (codes "OpIMAD", exp (codes "IMAD" ∷ []))
    ∷ (codes "OpLOP3", exp (codes "LOP3" ∷ []))
    ∷ (codes "OpSHF", exp (codes "SHF" ∷ []))
    ∷ (codes "OpSEL", exp_c (codes "SEL" ∷ []) (codes "ISETP" ∷ []))
    ∷ (codes "OpISETPSEL", exp (codes "ISETP" ∷ codes "SEL" ∷ []))
    ∷ (codes "OpFSETPSEL", exp (codes "FSETP" ∷ codes "SEL" ∷ codes "FSEL" ∷ []))
    ∷ (codes "OpFSEL", exp_c (codes "SEL" ∷ codes "FSEL" ∷ []) (codes "FSETP" ∷ []))
    ∷ (codes "OpPOPC", exp (codes "POPC" ∷ []))
    ∷ (codes "OpFLO", exp (codes "FLO" ∷ []))
    ∷ (codes "OpPRMT", exp (codes "PRMT" ∷ []))
    ∷ (codes "OpIDP4A_S8", exp (codes "IDP" ∷ []))
    ∷ (codes "OpIDP4A_U8", exp (codes "IDP" ∷ []))
    ∷ (codes "OpHFMA2", exp (codes "HFMA2" ∷ []))
    ∷ (codes "OpDADD", exp (codes "DADD" ∷ []))
    ∷ (codes "OpDFMA", exp (codes "DFMA" ∷ []))
    ∷ (codes "OpIDIV_U32", none)
    ∷ []

-- The classes of operations that are compared between two kernels.
abbrev pub match_groups : List (Text × List Text)
match_groups =
    (
      codes "fma",
      (codes "FFMA"
          ∷ codes "FADD"
          ∷ codes "FMUL"
          ∷ codes "IMAD"
          ∷ codes "IDP"
          ∷ codes "FSETP"
          ∷ codes "FMNMX"
          ∷ []),
    )
    ∷ (codes "half", (codes "HADD2" ∷ codes "HMUL2" ∷ codes "HFMA2" ∷ codes "HMNMX2" ∷ []))
    ∷ (
      codes "alu",
      (codes "IADD3"
          ∷ codes "LOP3"
          ∷ codes "SHF"
          ∷ codes "SEL"
          ∷ codes "ISETP"
          ∷ codes "PRMT"
          ∷ codes "LEA"
          ∷ codes "MOV"
          ∷ codes "FLO"
          ∷ codes "POPC"
          ∷ codes "BFE"
          ∷ codes "BFI"
          ∷ codes "IABS"
          ∷ codes "IMNMX"
          ∷ []),
    )
    ∷ (codes "xu", (codes "MUFU" ∷ codes "F2F" ∷ codes "F2I" ∷ codes "I2F" ∷ codes "I2I" ∷ []))
    ∷ (
      codes "lsu",
      (codes "LDG"
          ∷ codes "STG"
          ∷ codes "LDS"
          ∷ codes "STS"
          ∷ codes "LDC"
          ∷ codes "LDSM"
          ∷ codes "LDL"
          ∷ codes "STL"
          ∷ []),
    )
    ∷ (
      codes "control",
      (codes "BRA"
          ∷ codes "NOP"
          ∷ codes "EXIT"
          ∷ codes "BSSY"
          ∷ codes "BSYNC"
          ∷ codes "CS2R"
          ∷ codes "S2R"
          ∷ codes "BAR"
          ∷ codes "DEPBAR"
          ∷ codes "YIELD"
          ∷ codes "WARPSYNC"
          ∷ codes "RET"
          ∷ []),
    )
    ∷ []
