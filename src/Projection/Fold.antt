-- ===== src/Projection/Fold.antt =====
-- One round of the loop of `project` in src/nvidia/projection.rs, and the loop.
use calx_mill.Base.{
  ℕ, ◌*◌, ◌%◌, ◌^◌, true, ◌||◌, Option, none, some, inr, List, [], ◌∷◌, if◌then◌else◌,
  wrapping_add64,
}
use calx_mill.Base.Result.{Result, ◌>>=◌, ok_or}
use calx_mill.Base.Text.{Text, codes, text_eq}
use calx_mill.Base.Float.{Float}
use calx_mill.Projection.Census.{Census}
use calx_mill.Projection.Rates.{RateRow, Rates}
use calx_mill.Projection.Tables.{control, lsu, contains}
use calx_mill.Projection.Demand.{
  ProjectPanic, bad_rate, mem_bytes, matrices, tensor_shape, shape_measured, base_measured, or_row,
  class_pipe, row_pipe, is_shape_defaulted, Demand, flag_if,
}
use calx_mill.Sass.Functions.{base_of}

abbrev pub Projected : Type 0 → Type 0
Projected A = Result ProjectPanic A

module _ {F : Type 0} ⦃fl : Float F⦄ where
  open fl use {nought, add, mul, div, of_ℕ}

  -- `pipe_cycles[idx] += x`, where a pipe that is not there is new.
  unfoldable pub add_cycles : Text → F → List (Text × F) → List (Text × F)
  add_cycles name x [] = (name, add nought x) ∷ []
  add_cycles name x ((p, cycles) ∷ pipes) =
      let rest = add_cycles name x pipes in
      if text_eq p name then (p, add cycles x) ∷ pipes else (p, cycles) ∷ rest

  -- Instructions per cycle: 64 bytes of shared memory, over a warp's.
  lds_inst_rate : ℕ → F
  lds_inst_rate bytes_per_thread = div (of_ℕ 64) (mul (of_ℕ 32) (of_ℕ bytes_per_thread))

  smem_cycles : ℕ → ℕ → F
  unfolding lds_inst_rate
  smem_cycles n bytes_per_thread = mul (of_ℕ n) (div (of_ℕ 1) (lds_inst_rate bytes_per_thread))

  unfoldable pub memory_op : Text → Text → ℕ → Demand F → Demand F
  unfolding smem_cycles
  memory_op base mnemonic n d =
      if text_eq base (codes "LDS") || text_eq base (codes "STS")
      then record d { smem = add d.smem (smem_cycles n (mem_bytes mnemonic)) }
      else if text_eq base (codes "LDSM")
      then record d { smem = add d.smem (smem_cycles n (4 * matrices mnemonic)) }
      else if text_eq base (codes "LDL") || text_eq base (codes "STL")
      then flag_if true mnemonic d
      else record d { bytes = add d.bytes (of_ℕ ((n * (mem_bytes mnemonic * 32)) % 2 ^ 64)) }

  tensor_hmma_per_sm_clk : F
  tensor_hmma_per_sm_clk = div (of_ℕ 1) (of_ℕ 2)

  -- The rate of a pipe's class.
  class_rate : Text → F
  unfolding tensor_hmma_per_sm_clk
  class_rate pipe =
      if text_eq pipe (codes "fma") || text_eq pipe (codes "alu")
      then of_ℕ 2
      else if text_eq pipe (codes "tensor")
      then tensor_hmma_per_sm_clk
      else div (of_ℕ 1) (of_ℕ 2)

  unfoldable pub on_pipe : Text → F → ℕ → Demand F → Demand F
  on_pipe pipe rate n d = record d { pipes = add_cycles pipe (div (of_ℕ n) rate) d.pipes }

  unfoldable pub costed_op : Option RateRow → Text → Text → ℕ → Demand F → Projected (Demand F)
  unfolding class_rate
  costed_op (some r) base mnemonic n d = do
    rate ← ok_or (fl.parse r.value) (bad_rate r.value)
    inr (on_pipe (row_pipe r base) rate n d)
  costed_op none base mnemonic n d =
      inr (on_pipe (class_pipe base) (class_rate (class_pipe base)) n (flag_if true mnemonic d))

  unfoldable pub pipe_op : Rates → Text → Text → ℕ → Demand F → Projected (Demand F)
  pipe_op rates base mnemonic n d =
      let shape = tensor_shape base mnemonic in
      let own = shape_measured rates base shape in
      let shared = base_measured rates base in
      costed_op (or_row own shared) base mnemonic n
        (flag_if (is_shape_defaulted own shape shared) mnemonic d)

  unfoldable pub project_op : Rates → Text → ℕ → Demand F → Projected (Demand F)
  project_op rates mnemonic n d =
      let base = base_of mnemonic in
      let counted = record d { insts = wrapping_add64 d.insts n } in
      if contains control base
      then inr counted
      else if contains lsu base
      then inr (memory_op base mnemonic n counted)
      else pipe_op rates base mnemonic n counted

  unfoldable pub project_ops : Rates → Census → Demand F → Projected (Demand F)
  project_ops rates [] d = inr d
  project_ops rates ((mnemonic, n) ∷ census) d = do
    more ← project_op rates mnemonic n d
    project_ops rates census more
