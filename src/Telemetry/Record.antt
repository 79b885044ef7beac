-- ===== src/Telemetry/Record.antt =====
-- `TeleRecord` of src/telemetry.rs and what it says of its op alone.
use calx_mill.Base.{
  ℕ, ◌≤◌, ◌<◌, ◌≡◌, max, Bool, true, ◌||◌, Option, none, some, ltb, ◌==◌, if◌then◌else◌,
  saturating_sub, arith,
}
use calx_mill.Base.Text.{Text}
use calx_mill.Base.Float.{Float, ◌≼◌, IsNum}
use calx_mill.Core.Composition.{Lane}

pub record TeleRecord : Type 0 where
  pub op_index : ℕ
  pub kind : Text
  pub lane : Lane
  pub gt_start_ns : ℕ
  pub gt_end_ns : ℕ
  pub cycles : ℕ
  pub bytes : ℕ
  pub ops : ℕ
  pub op_wall_ns : ℕ

unfoldable pub span_ns : TeleRecord → ℕ
span_ns r = saturating_sub r.gt_end_ns r.gt_start_ns

unfoldable pub wall_ns : TeleRecord → ℕ
unfolding span_ns
wall_ns r = if ltb 0 r.op_wall_ns then max r.op_wall_ns (span_ns r) else span_ns r

module _ {F : Type 0} ⦃fl : Float F⦄ where
  rate : ℕ → ℕ → F
  rate bytes ns = if ns == 0 || bytes == 0 then fl.nought else fl.div (fl.of_ℕ bytes) (fl.of_ℕ ns)

  pub achieved_gbps : TeleRecord → F
  unfolding rate wall_ns
  achieved_gbps r = rate r.bytes (wall_ns r)

  unfoldable pub roofline_ok : F → TeleRecord → Bool
  unfolding achieved_gbps
  roofline_ok peak_dram_gbps r = fl.le (achieved_gbps r) peak_dram_gbps

  unfoldable pub derived_clock_ghz : TeleRecord → Option F
  unfolding span_ns
  derived_clock_ghz r =
      if span_ns r == 0 || r.cycles == 0
      then none
      else some (fl.div (fl.of_ℕ r.cycles) (fl.of_ℕ (span_ns r)))

-- The record without its attached wall.
abbrev pub unattached : TeleRecord → TeleRecord
unattached r = record r { op_wall_ns = 0 }

-- What IEEE 754 says of quotients of naturals: by a larger number they are not larger.
pub record DividesDown (F : Type 0) ⦃fl : Float F⦄ : Type 0 where
  pub nought_num : IsNum fl.nought
  pub div_anti :
      (b m n : ℕ) → 0 < m → m ≤ n → fl.div (fl.of_ℕ b) (fl.of_ℕ n) ≼ fl.div (fl.of_ℕ b) (fl.of_ℕ m)
  pub le_trans : (x y z : F) → x ≼ y → y ≼ z → x ≼ z

wall-span : (r : TeleRecord) → span_ns r ≤ wall_ns r
unfolding wall_ns
wall-span r = ground arith

module _ {F : Type 0} ⦃fl : Float F⦄ where
  rate_anti :
      (laws : DividesDown F) (b m n : ℕ) → 0 < m → m ≤ n → rate {F = F} b n ≼ rate {F = F} b m
  unfolding rate
  rate_anti laws b m n p h = ground (arith, laws.nought_num, laws.div_anti b m n)

  -- By the laws of quotients, for a record whose own span is positive, attaching the wall of the whole op keeps it under any peak
  -- that it was under: it never turns an accepted record into a rejected one.
  pub roofline_ok-unattached :
      (laws : DividesDown F) (peak : F) (r : TeleRecord)
      → 0 < span_ns r
      → roofline_ok peak (unattached r) ≡ true
      → roofline_ok peak r ≡ true
  unfolding roofline_ok achieved_gbps wall_ns
  roofline_ok-unattached laws peak r p h =
      laws.le_trans _ _ _ (rate_anti laws r.bytes (span_ns r) (wall_ns r) p (wall-span r)) h
