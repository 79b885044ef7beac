-- ===== src/Cli/Chains.antt =====
-- The `latency` and `compose` commands of src/main.rs. What is printed is a record of the numbers.
use calx_mill.Base.{
  ℕ, Bool, Option, none, some, inr, List, [], ◌∷◌, ltb, saturating_add, saturating_mul,
  if◌then◌else◌,
}
use calx_mill.Base.Result.{◌>>=◌}
use calx_mill.Base.Text.{Text, codes}
use calx_mill.Core.Throughput.{Projection}
use calx_mill.Core.Template.{
  OpTemplate, cycles, achievable_chains, utilization_pct, chains_to_hide,
  utilization_under_registers, overlap_keeps_hidden,
}
use calx_mill.Core.Composition.{
  Phase, memory, compute, serial_cycles, overlapped_cycles, overlapped_if,
}
use calx_mill.Cli.Args.{Args}
use calx_mill.Cli.Command.{Ran, args_of, u32_arg}

abbrev pub chain_flags : List Text
chain_flags =
    codes "chains"
    ∷ codes "depth"
    ∷ codes "cyc-per-op"
    ∷ codes "op-latency"
    ∷ codes "reg-budget"
    ∷ codes "base-regs"
    ∷ codes "regs-per-chain"
    ∷ codes "spend"
    ∷ []

unfoldable pub template_of : Args → Ran OpTemplate
template_of args = do
  chains ← u32_arg args (codes "chains") 1
  depth ← u32_arg args (codes "depth") 1
  cyc_per_op ← u32_arg args (codes "cyc-per-op") 1
  op_latency ← u32_arg args (codes "op-latency") 1
  inr (record { chains = chains; depth = depth; cyc_per_op = cyc_per_op; op_latency = op_latency })

-- The registers that the flags give: the base, those of a chain, and what an overlap spends.
pub record Registers : Type 0 where
  pub base : ℕ
  pub per_chain : ℕ
  pub spend : ℕ

unfoldable pub registers_of : Args → Ran Registers
registers_of args = do
  base ← u32_arg args (codes "base-regs") 0
  per_chain ← u32_arg args (codes "regs-per-chain") 1
  spend ← u32_arg args (codes "spend") 0
  inr (record { base = base; per_chain = per_chain; spend = spend })

-- The chains that the registers sustain, the utilization under them, and where an overlap spends some:
-- the chains behind it, and whether the latency stays hidden.
pub record RegisterReport : Type 0 where
  pub sustained : ℕ
  pub utilization : ℕ
  pub overlap : Option (ℕ × Bool)

overlap_report : OpTemplate → ℕ → Registers → Option (ℕ × Bool)
overlap_report t budget r =
    if ltb 0 r.spend
    then some (
      achievable_chains budget (saturating_add r.base r.spend) r.per_chain,
      overlap_keeps_hidden t budget r.base r.per_chain r.spend,
    )
    else none

register_report : OpTemplate → ℕ → Registers → RegisterReport
unfolding overlap_report
register_report t budget r = record {
  sustained = achievable_chains budget r.base r.per_chain;
  utilization = utilization_under_registers t budget r.base r.per_chain;
  overlap = overlap_report t budget r;
}

-- The registers are read where there is a budget.
unfoldable pub with_budget {ℓ} : {A : Type ℓ} → Args → ℕ → (Registers → A) → Ran (Option A)
with_budget args budget f =
    let some_budget = (do r ← registers_of args; inr (some (f r))) in
    if ltb 0 budget then some_budget else inr none

pub record LatencyReport : Type 0 where
  pub template : OpTemplate
  pub res_mii : ℕ
  pub rec_mii : ℕ
  pub projection : Projection
  pub utilization : ℕ
  pub to_hide : ℕ
  pub registers : Option RegisterReport

unfoldable pub latency_report : Args → Ran LatencyReport
unfolding register_report
latency_report args = do
  t ← template_of args
  budget ← u32_arg args (codes "reg-budget") 0
  registers ← with_budget args budget (register_report t budget)
  inr (record {
    template = t;
    res_mii = saturating_mul (saturating_mul t.chains t.depth) t.cyc_per_op;
    rec_mii = saturating_mul t.depth t.op_latency;
    projection = cycles t;
    utilization = utilization_pct t;
    to_hide = chains_to_hide t;
    registers = registers;
  })

unfoldable pub latency_command : List Text → Ran ℕ
latency_command raw = do args ← args_of raw chain_flags; _ ← latency_report args; inr 0

abbrev pub compose_flags : List Text
compose_flags = codes "mem-cycles" ∷ codes "compute-cycles" ∷ chain_flags

-- The cycles of the two phases in series and overlapped, and behind the register gate: whether the
-- overlap is creditable, and the projected cycles.
pub record ComposeReport : Type 0 where
  pub serial : ℕ
  pub overlapped : ℕ
  pub gated : Option (Bool × ℕ)

abbrev pub two_phases : ℕ → ℕ → List Phase
two_phases mem cmp =
    record { cycles = mem; lane = memory } ∷ record { cycles = cmp; lane = compute } ∷ []

gate_overlap : OpTemplate → ℕ → List Phase → Registers → Bool × ℕ
gate_overlap t budget phases r =
    let creditable = overlap_keeps_hidden t budget r.base r.per_chain r.spend in
    (creditable, overlapped_if phases creditable)

unfoldable pub gated_by : Args → ℕ → List Phase → Ran (Option (Bool × ℕ))
unfolding gate_overlap
gated_by args budget phases =
    let some_budget = (do
      t ← template_of args
      r ← registers_of args
      inr (some (gate_overlap t budget phases r))) in
    if ltb 0 budget then some_budget else inr none

unfoldable pub compose_report : Args → Ran ComposeReport
compose_report args = do
  mem ← u32_arg args (codes "mem-cycles") 0
  cmp ← u32_arg args (codes "compute-cycles") 0
  budget ← u32_arg args (codes "reg-budget") 0
  gated ← gated_by args budget (two_phases mem cmp)
  inr (record {
    serial = serial_cycles (two_phases mem cmp);
    overlapped = overlapped_cycles (two_phases mem cmp);
    gated = gated;
  })

unfoldable pub compose_command : List Text → Ran ℕ
compose_command raw = do args ← args_of raw compose_flags; _ ← compose_report args; inr 0
