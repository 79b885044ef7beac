-- ===== src/Dtype.antt =====
-- `dtype_bytes` of src/nvidia/mod.rs: how wide an element is streamed.
use calx_mill.Base.{ℕ, List, [], ◌∷◌, if◌then◌else◌}
use calx_mill.Base.Text.{Text, codes}
use calx_mill.Projection.Tables.{contains}

abbrev two_bytes : List Text
two_bytes = codes "F16" ∷ codes "f16" ∷ codes "BF16" ∷ codes "bf16" ∷ []

abbrev one_byte : List Text
one_byte =
    codes "Q8_0"
    ∷ codes "q8_0"
    ∷ codes "Q8_1"
    ∷ codes "q8_1"
    ∷ codes "I8"
    ∷ codes "i8"
    ∷ codes "Q4_0"
    ∷ codes "q4_0"
    ∷ codes "Q4_0_AR16"
    ∷ codes "q4_0_ar16"
    ∷ codes "Q4_K"
    ∷ codes "q4_k"
    ∷ []

-- Four bytes, also of an element that is not known.
dtype_bytes : Text → ℕ
dtype_bytes dtype = if contains two_bytes dtype then 2 else if contains one_byte dtype then 1 else 4
