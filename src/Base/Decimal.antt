-- ===== src/Base/Decimal.antt =====
-- What the reports use of Rust's `f64` besides arithmetic: the extremes, and printing, which the
-- standard library does.
use Prim.Native.Nat.{ℕ, zero, suc, ◌+◌, ◌/◌, ◌%◌, min, max}
use mathlib.Core.Bool.{Bool, false}
use mathlib.Core.Option.{none, some}
use mathlib.Core.List.{[], ◌∷◌}
use calx_mill.Base.Tests.{ltb, if◌then◌else◌}
use calx_mill.Base.Text.{Text, codes}
use calx_mill.Base.Float.{Sample}

pub record FloatText (F : Type 0) : Type 0 where
  pub greater : F → F → F
  pub lesser : F → F → F
  pub infinity : F
  pub neg_infinity : F
  pub sign_negative : F → Bool
  pub is_infinite : F → Bool
  -- `{:.n}`, `{:.5e}` and `{}`.
  pub fixed : ℕ → F → Text
  pub lower_exp5 : F → Text
  pub display : F → Text

-- `{}` of an unsigned integer, on fuel for its digits.
unfoldable pub digits_of : ℕ → ℕ → Text → Text
digits_of zero n behind = behind
digits_of (suc f) n behind =
    let rest = digits_of f (n / 10) ((b'0' + n % 10) ∷ behind) in
    if ltb n 10 then (b'0' + n) ∷ behind else rest

unfoldable pub show_ℕ : ℕ → Text
unfolding digits_of
show_ℕ n = digits_of (suc n) n []

abbrev show_sample : Sample → Text
show_sample (some n) = show_ℕ n
show_sample none = codes "NaN"

abbrev larger : Sample → Sample → Sample
larger (some a) (some b) = some (max a b)
larger (some a) none = some a
larger none y = y

abbrev smaller : Sample → Sample → Sample
smaller (some a) (some b) = some (min a b)
smaller (some a) none = some a
smaller none y = y

-- Naturals have no infinity: a large one stands for it.
instance abbrev pub sample_text : FloatText Sample
sample_text = record {
  greater = larger;
  lesser = smaller;
  infinity = some 1000000000;
  neg_infinity = some 0;
  sign_negative = λ x. false;
  is_infinite = λ x. false;
  fixed = λ n x. show_sample x;
  lower_exp5 = λ x. codes "1.00000e0";
  display = show_sample;
}
