-- ===== src/Telemetry/Tests.antt =====
-- Runs over records, and the theorems at concrete data.
use native.Mathlib.Nat.{le-div_iff_mul-le, mul-le-mul_left, div-mul-le_self}
use calx_mill.Base.{ℕ, ◌/◌, ◌≤◌, ◌<◌, ◌≡◌, refl, true, some, [], ◌∷◌, arith, le→leb}
use calx_mill.Base.Text.{Text, codes, split, trim}
use calx_mill.Base.Float.{Sample, sample_float, Sample-IsOrdered}
use calx_mill.Core.Composition.{Lane}
use calx_mill.Core.Composition as Composition
use calx_mill.Core.Mix.{SteadyState}
use calx_mill.Telemetry.Record.{
  TeleRecord, span_ns, roofline_ok, unattached, derived_clock_ghz, DividesDown,
  roofline_ok-unattached,
}
use calx_mill.Telemetry.Clock.{
  TeleCtx, run_clock_ghz, sort_clocks, derived_clocks, clock_sanity_low, clock_sanity_high,
}
use calx_mill.Telemetry.Ingest.{parse_tele_counted, take_line, is_data, record_of}

div_anti : (b m n : ℕ) → 0 < m → m ≤ n → b / n ≤ b / m
div_anti b m n p h =
    (le-div_iff_mul-le {k = m} {x = b / n} {y = b} p).1
      (omega (arith, mul-le-mul_left (b / n) h, div-mul-le_self b n))

quotients : DividesDown Sample
quotients = record {
  nought_num = refl;
  div_anti = λ b m n p h. le→leb (b / n) (b / m) (div_anti b m n p h);
  le_trans = Sample-IsOrdered.le_trans;
}

abbrev load_op : TeleRecord
load_op = record {
  op_index = 0;
  kind = codes "MMVQ";
  lane = Composition.memory;
  gt_start_ns = 100;
  gt_end_ns = 200;
  cycles = 200;
  bytes = 4000;
  ops = 0;
  op_wall_ns = 150;
}

abbrev two_ghz : Sample
two_ghz = some 2

abbrev peak : Sample
peak = some 40

abbrev ctx : TeleCtx Sample
ctx = record { run_clock_ghz = some 2; peak_dram_gbps = some 609 }

abbrev projection : SteadyState Sample
projection = record {
  per_resource = [];
  ppm_cycles = some 201;
  ppm_bound = 0;
  add_cycles = some 201;
}

load_op-accepted : roofline_ok peak (unattached load_op) ≡ true
unfolding roofline_ok
load_op-accepted = refl

roofline_ok-unattached_example : roofline_ok peak load_op ≡ true
unfolding span_ns
roofline_ok-unattached_example =
    roofline_ok-unattached quotients peak load_op (omega arith) load_op-accepted

load_op-clock : run_clock_ghz (load_op ∷ []) ≡ some two_ghz
unfolding run_clock_ghz sort_clocks derived_clocks derived_clock_ghz clock_sanity_low
    clock_sanity_high
load_op-clock = refl

abbrev tele_text : Text
tele_text =
    codes "op_index\tkind\n0\tMMVQ\tmem\t100\t200\t200\t4000\t0\t150\r\n\n1\tX\tcompute\tbad\n"

tele_lines : (parse_tele_counted tele_text).1 ≡ 1
unfolding parse_tele_counted take_line is_data record_of split trim
tele_lines = refl

tele_record : (parse_tele_counted tele_text).0 ≡ load_op ∷ []
unfolding parse_tele_counted take_line is_data record_of split trim
tele_record = refl
