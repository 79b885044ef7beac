-- ===== src/Ptxas/Tests.antt =====
-- A run over a report.
use calx_mill.Base.{update_last}
use calx_mill.Base.{◌≡◌, refl, [], ◌∷◌}
use calx_mill.Base.Words.{ends_with, strip_suffix}
use calx_mill.Base.Text.{codes, trim, trim_start, split, split_once}
use calx_mill.Base.Numeral.{parse_u32}
use calx_mill.Ptxas.Usage.{KernelUsage}
use calx_mill.Ptxas.Report.{
  empty_usage, leading_u32, split_clauses, drop_marks, use_clauses, parse_ptxas_v,
}

abbrev saxpy : KernelUsage
saxpy = record empty_usage {
  name = codes "saxpy";
  arch = codes "sm_75";
  registers = 24;
  cmem_bytes = (0, 380) ∷ [];
  spill_loads = 4;
}

report :
    parse_ptxas_v (
      codes
        "ptxas info    : Compiling entry function 'saxpy' for 'sm_75'\nptxas info    : Function properties for saxpy\n    0 bytes stack frame, 0 bytes spill stores, 4 bytes spill loads\nptxas info    : Used 24 registers, 380 bytes cmem[0]\n")
    ≡ saxpy ∷ []
unfolding parse_ptxas_v leading_u32 parse_u32 trim trim_start split split_once ends_with
    strip_suffix split_clauses drop_marks update_last use_clauses
report = refl
