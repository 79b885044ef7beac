-- ===== src/Ncu/Tests.antt =====
-- A run on a small export.
use calx_mill.Base.{◌≡◌, refl, inr, some, [], ◌∷◌}
use calx_mill.Base.Result.{◌>>=◌, ok_or}
use calx_mill.Base.Text.{codes, split}
use calx_mill.Base.Words.{lines}
use calx_mill.Base.Float.{Sample, sample_float}
use calx_mill.Csv.Reader.{parse_records}
use calx_mill.Ncu.Export.{
  MetricRow, achieved_metric, metric_value, with_value, parse_ncu_csv, achieved_occupancy,
}

abbrev row : MetricRow
row = record {
  launch = codes "0";
  kernel = codes "k";
  metric = achieved_metric;
  unit = codes "%";
  value = codes "7,";
}

-- Lines before the header are passed over, and so is a record that is too short.
export_read :
    parse_ncu_csv (
      codes
        "==PROF== done\nID,Kernel Name,Metric Name,Metric Unit,Metric Value\n0,k,sm__warps_active.avg.pct_of_peak_sustained_active,%,\"7,\"\n1,k\n")
    ≡ inr (row ∷ [])
unfolding parse_ncu_csv parse_records lines split ◌>>=◌ ok_or
export_read = refl

occupancy_read : achieved_occupancy {F = Sample} (row ∷ []) ≡ (codes "0", codes "k", some 7) ∷ []
unfolding achieved_occupancy metric_value with_value
occupancy_read = refl
