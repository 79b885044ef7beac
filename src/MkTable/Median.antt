-- ===== src/MkTable/Median.antt =====
-- `median` of src/nvidia/mktable.rs.
use calx_mill.Base.{
  ◌-◌, ◌/◌, ◌%◌, not, ◌&&◌, Option, none, some, List, ◌==◌, ltb, length, any, get_elem?,
  if◌then◌else◌,
}
use calx_mill.Base.Float.{Float}
use calx_mill.Telemetry.Clock.{sort_clocks}

module _ {F : Type 0} ⦃fl : Float F⦄ where
  open fl use {add, div, le, of_ℕ}

  unfoldable pub mean_of : Option F → Option F → Option F
  mean_of (some a) (some b) = some (div (add a b) (of_ℕ 2))
  mean_of _ _ = none

  -- The middle of the sorted values, or the mean of the two in the middle. `none` is a panic: a value
  -- that cannot be compared, or no value.
  unfoldable pub median : List F → Option F
  unfolding mean_of
  median vals =
      let v = sort_clocks vals in
      let n = length vals in
      if ltb 1 n && any (λ x. not (le x x)) vals
      then none
      else if n % 2 == 1
      then get_elem? v (n / 2)
      else mean_of (get_elem? v (n / 2 - 1)) (get_elem? v (n / 2))
