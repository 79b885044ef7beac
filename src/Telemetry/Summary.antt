-- ===== src/Telemetry/Summary.antt =====
-- What the `telemetry` command of src/main.rs works out of the records.
use calx_mill.Base.{
  ℕ, ◌+◌, Bool, true, false, not, ◌&&◌, ◌||◌, Option, none, some, List, [], ◌∷◌, map, keep, ltb,
  leb, ◌==◌, length, take, if◌then◌else◌, wrapping_add64,
}
use calx_mill.Base.Float.{Float}
use calx_mill.Base.Sort.{sort_by}
use calx_mill.Core.Throughput.{Bottleneck}
use calx_mill.Core.Composition.{Lane, memory, compute}
use calx_mill.Telemetry.Record.{TeleRecord, span_ns, wall_ns, roofline_ok, derived_clock_ghz}
use calx_mill.Telemetry.Clock.{TeleCtx}
use calx_mill.Telemetry.Column.{
  clock_plausible, effective_clock_ghz, measured_bottleneck, op_pipe_rate, overlap_fraction,
}

unfoldable pub count_if : (TeleRecord → Bool) → List TeleRecord → ℕ
count_if p recs = length (keep p recs)

-- `Iterator::sum` of u64s, which wraps.
unfoldable pub sum_by : (TeleRecord → ℕ) → List TeleRecord → ℕ
sum_by f [] = 0
sum_by f (r ∷ recs) = wrapping_add64 (f r) (sum_by f recs)

unfoldable pub crosses : Lane → Lane → Bool
crosses memory compute = true
crosses compute memory = true
crosses _ _ = false

-- A heavy op: its measured wall, and its bottleneck where a column is present.
pub record TopOp : Type 0 where
  pub op : TeleRecord
  pub wall : ℕ
  pub bind : Option Bottleneck

-- The adjacent pairs that cross lanes: how many, how many with an overlap above 5 %, and the sum.
pub record Pairs (F : Type 0) : Type 0 where
  pub pairs : ℕ
  pub overlapped : ℕ
  pub sum_ov : F

pub record Summary (F : Type 0) : Type 0 where
  pub ops : ℕ
  pub clock_ghz : F
  pub sum_cycles : ℕ
  pub sum_ms : F
  pub sum_span : ℕ
  pub with_bytes : ℕ
  pub violating : ℕ
  pub implausible : ℕ
  pub top : List TopOp
  pub adjacent : Pairs F

-- The heaviest ops, from the first where two are equal.
unfoldable pub heaviest : List TeleRecord → List TeleRecord
heaviest recs = take 8 (sort_by (λ a b. leb b.cycles a.cycles) recs)

module _ {F : Type 0} ⦃fl : Float F⦄ where
  unfoldable pub sum_ms_of : TeleCtx F → List TeleRecord → F → F
  sum_ms_of ctx [] ms = ms
  sum_ms_of ctx (r ∷ recs) ms = sum_ms_of ctx recs (
      fl.add ms (
        fl.mul (fl.div (fl.of_ℕ r.cycles) (fl.mul (effective_clock_ghz r ctx) (fl.of_ℕ 1000000000)))
          (fl.of_ℕ 1000)))

  unfoldable pub top_op : TeleCtx F → TeleRecord → TopOp
  top_op ctx r =
      let rate = op_pipe_rate r.kind in
      record {
        op = r;
        wall = wall_ns r;
        bind =
            if r.bytes == 0 && (r.ops == 0 || fl.eq rate fl.nought)
            then none
            else some (measured_bottleneck r rate fl.nought ctx);
      }

  unfoldable pub add_pair : TeleRecord → TeleRecord → Pairs F → Pairs F
  add_pair a b p =
      let o : F = overlap_fraction a b in
      record {
        pairs = p.pairs + 1;
        overlapped =
            if fl.lt (fl.div (fl.of_ℕ 5) (fl.of_ℕ 100)) o then p.overlapped + 1 else p.overlapped;
        sum_ov = fl.add p.sum_ov o;
      }

  unfoldable pub pairs_of : List TeleRecord → Pairs F → Pairs F
  pairs_of [] p = p
  pairs_of (a ∷ []) p = p
  pairs_of (a ∷ b ∷ recs) p =
      pairs_of (b ∷ recs) (if crosses a.lane b.lane then add_pair a b p else p)

  unfoldable pub summary_of : TeleCtx F → List TeleRecord → Summary F
  summary_of ctx recs = record {
    ops = length recs;
    clock_ghz = ctx.run_clock_ghz;
    sum_cycles = sum_by (λ r. r.cycles) recs;
    sum_ms = sum_ms_of ctx recs fl.nought;
    sum_span = sum_by span_ns recs;
    with_bytes = count_if (λ r. ltb 0 r.bytes) recs;
    violating = count_if (λ r. not (roofline_ok (fl.of_ℕ 609) r)) recs;
    implausible =
        count_if
          (λ r. not (
            clock_plausible (fl.div (fl.of_ℕ 5) (fl.of_ℕ 100)) ctx.run_clock_ghz
              (derived_clock_ghz r)))
          recs;
    top = map (top_op ctx) (heaviest recs);
    adjacent = pairs_of recs (record { pairs = 0; overlapped = 0; sum_ov = fl.nought });
  }
