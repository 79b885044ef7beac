-- ===== src/Telemetry/Column.antt =====
-- The measured columns of src/telemetry.rs and the gate of an op.
use calx_mill.Base.{
  ℕ, ◌-◌, ◌≡◌, ◌↔◌, refl, max, min, Bool, true, false, ◌&&◌, ◌||◌, Option, none, some, [], ◌∷◌,
  ◌++◌, map, ltb, leb, ◌==◌, if◌then◌else◌, arith,
}
use calx_mill.Base.Text.{Text, codes, contains_text}
use calx_mill.Base.Float.{Float}
use calx_mill.Core.Throughput.{Bottleneck, pipe, issue_cap, memory, latency}
use calx_mill.Core.Mix.{memory_bw, SteadyState, select_bound}
use calx_mill.Core.Mix.{ResourceKind as Kind}
use calx_mill.Validity.Authority.{Verdict, certified, provisional, refused}
use calx_mill.Telemetry.Record.{TeleRecord, span_ns, derived_clock_ghz}
use calx_mill.Telemetry.Clock.{TeleCtx}

-- The derived `==` of the enum.
abbrev pub same_bottleneck : Bottleneck → Bottleneck → Bool
same_bottleneck (pipe i) (pipe j) = i == j
same_bottleneck issue_cap issue_cap = true
same_bottleneck memory memory = true
same_bottleneck latency latency = true
same_bottleneck _ _ = false

same_bottleneck_iff : (a b : Bottleneck) → (same_bottleneck a b ≡ true) ↔ (a ≡ b)
same_bottleneck_iff a b = ground arith

swap_max : (m n : ℕ) → max m n ≡ max n m
swap_max m n = omega arith

swap_min : (m n : ℕ) → min m n ≡ min n m
swap_min m n = omega arith

-- `to_ascii_uppercase`, of a character.
upper : ℕ → ℕ
upper c = if leb b'a' c && leb c b'z' then c - 32 else c

module _ {F : Type 0} ⦃fl : Float F⦄ where
  -- `f64::max` and `f64::min`, which pass over NaN.
  f64_max : F → F → F
  f64_max x y = if fl.lt x y then y else if fl.le x x then x else y

  f64_min : F → F → F
  f64_min x y = if fl.lt y x then y else if fl.le x x then x else y

  pub clock_plausible : F → F → Option F → Bool
  clock_plausible tol_frac run_ghz none = true
  clock_plausible tol_frac run_ghz (some c) =
      fl.le (fl.abs (fl.sub c run_ghz)) (fl.mul tol_frac run_ghz)

  chosen_clock : F → Option F → Bool → F
  chosen_clock run_ghz (some c) true = c
  chosen_clock run_ghz _ _ = run_ghz

  pub effective_clock_ghz : TeleRecord → TeleCtx F → F
  unfolding chosen_clock clock_plausible
  effective_clock_ghz r ctx =
      let derived = derived_clock_ghz r in
      chosen_clock ctx.run_clock_ghz derived
        (clock_plausible (fl.div (fl.of_ℕ 5) (fl.of_ℕ 100)) ctx.run_clock_ghz derived)

  dram_bytes_per_cycle : TeleRecord → TeleCtx F → F
  unfolding effective_clock_ghz
  dram_bytes_per_cycle r ctx = fl.div ctx.peak_dram_gbps (effective_clock_ghz r ctx)

  pub measured_steady_state : TeleRecord → F → TeleCtx F → SteadyState F
  unfolding dram_bytes_per_cycle
  measured_steady_state r peak_pipe_rate ctx =
      let v =
        (if ltb 0 r.bytes
          then (memory_bw, fl.div (fl.of_ℕ r.bytes) (dram_bytes_per_cycle r ctx)) ∷ []
          else [])
        ++ (if ltb 0 r.ops && fl.lt fl.nought peak_pipe_rate
            then (Kind.pipe 0, fl.div (fl.of_ℕ r.ops) peak_pipe_rate) ∷ []
            else []) in
      record (select_bound v) { ppm_cycles = fl.of_ℕ r.cycles }

  memory_column : TeleRecord → TeleCtx F → F
  unfolding dram_bytes_per_cycle
  memory_column r ctx =
      if ltb 0 r.bytes then fl.div (fl.of_ℕ r.bytes) (dram_bytes_per_cycle r ctx) else fl.nought

  pipe_column : TeleRecord → F → F
  pipe_column r peak_pipe_rate =
      if ltb 0 r.ops && fl.lt fl.nought peak_pipe_rate
      then fl.div (fl.of_ℕ r.ops) peak_pipe_rate
      else fl.nought

  pub measured_bottleneck : TeleRecord → F → F → TeleCtx F → Bottleneck
  unfolding memory_column pipe_column f64_max
  measured_bottleneck r peak_pipe_rate tol ctx =
      let mem = memory_column r ctx in
      let pip = pipe_column r peak_pipe_rate in
      if fl.lt (fl.add (f64_max mem pip) tol) (fl.of_ℕ r.cycles)
      then latency
      else if fl.le pip mem
      then memory
      else pipe 0

  pub bound_ok : F → F → TeleRecord → Bool
  bound_ok ppm_cycles tol_cyc r = fl.le (fl.abs (fl.sub ppm_cycles (fl.of_ℕ r.cycles))) tol_cyc

  pub gate_op : SteadyState F → Bottleneck → TeleRecord → F → F → F → TeleCtx F → Verdict
  gate_op projected proj_bottleneck r peak_pipe_rate tol_cyc tol_cls ctx =
      let ok = bound_ok projected.ppm_cycles tol_cyc r in
      let class_ok =
        same_bottleneck proj_bottleneck (measured_bottleneck r peak_pipe_rate tol_cls ctx) in
      if ok && class_ok then certified else if ok then provisional else refused

  pub op_pipe_rate : Text → F
  unfolding upper
  op_pipe_rate kind =
      let k = map upper kind in
      let has = λ (s : Text). contains_text s k in
      if has (codes "FATTN") || has (codes "HMMA") || has (codes "GEMM") || has (codes "ATTN")
      then fl.mul (fl.div (fl.of_ℕ 1) (fl.of_ℕ 2)) (fl.of_ℕ 72)
      else if has (codes "MMVQ") || has (codes "GEMV") || has (codes "DP4A") || has (codes "IDP")
      then fl.mul (fl.of_ℕ 2) (fl.of_ℕ 72)
      else fl.nought

  pub overlap_fraction : TeleRecord → TeleRecord → F
  unfolding f64_min
  overlap_fraction a b =
      let lo = max a.gt_start_ns b.gt_start_ns in
      let hi = min a.gt_end_ns b.gt_end_ns in
      let m = fl.of_ℕ (min (span_ns a) (span_ns b)) in
      if leb hi lo
      then fl.nought
      else if fl.le m fl.nought
      then fl.nought
      else f64_min (fl.div (fl.of_ℕ (hi - lo)) m) (fl.of_ℕ 1)

  -- The verdict on an op is `certified` exactly when the projected cycles are within the tolerance of
  -- the measured ones and the projected bottleneck is the measured one, `provisional` exactly when only
  -- the cycles are, and `refused` exactly when they are not.
  pub gate_op_iff :
      (projected : SteadyState F) (b : Bottleneck) (r : TeleRecord) (rate tol_cyc tol_cls : F)
      (ctx : TeleCtx F)
      → let v = gate_op projected b r rate tol_cyc tol_cls ctx in
        let ok = bound_ok projected.ppm_cycles tol_cyc r in
        ((v ≡ certified) ↔ ((ok ≡ true) × (b ≡ measured_bottleneck r rate tol_cls ctx)))
        × ((v ≡ provisional) ↔ ((ok ≡ true) × (¬ (b ≡ measured_bottleneck r rate tol_cls ctx))))
        × ((v ≡ refused) ↔ (ok ≡ false))
  unfolding gate_op
  gate_op_iff projected b r rate tol_cyc tol_cls ctx =
      let same = same_bottleneck_iff b (measured_bottleneck r rate tol_cls ctx) in
      (ground arith, ground arith, ground arith)

  -- The overlap of two records does not depend on their order.
  pub overlap_fraction_comm : (a b : TeleRecord) → overlap_fraction a b ≡ overlap_fraction b a
  unfolding overlap_fraction
  overlap_fraction_comm a b =
      rw
        (
          swap_max a.gt_start_ns b.gt_start_ns,
          swap_min a.gt_end_ns b.gt_end_ns,
          swap_min (span_ns a) (span_ns b),
        )
        refl
