-- ===== src/Base/Float.antt =====
-- Rust's `f64`, which the code uses and does not implement: its operations as an instance, and what
-- IEEE 754 says of them as laws. NaN is the value that is not `<=` itself. `Sample` shows that the
-- laws can be met.
use Prim.Native.Nat.{ℕ, ◌+◌, ◌-◌, ◌*◌, ◌/◌}
use mathlib.Core.Path.{◌≡◌}
use mathlib.Core.Logic.{◌⊎◌}
use mathlib.Core.Bool.{Bool, true, false, not, ◌&&◌}
use mathlib.Core.Option.{Option, none, some}
use mathlib.Core.List.{List, [], ◌∷◌}
use native.Mathlib.Omega.{arith}
use calx_mill.Base.Tests.{ltb, leb, ◌==◌, if◌then◌else◌}

pub record Float (F : Type 0) : Type 0 where
  pub nought : F
  pub hundred : F
  pub add : F → F → F
  pub sub : F → F → F
  pub mul : F → F → F
  pub div : F → F → F
  pub abs : F → F
  pub lt : F → F → Bool
  pub le : F → F → Bool
  pub eq : F → F → Bool
  -- `as f64`, of an unsigned integer.
  pub of_ℕ : ℕ → F
  -- `str::parse::<f64>`, of the bytes of a text.
  pub parse : List ℕ → Option F

infix 4 ◌≼◌
abbrev pub ◌≼◌ : {F : Type 0} ⦃fl : Float F⦄ → F → F → Type 0
◌≼◌ ⦃fl⦄ x y = fl.le x y ≡ true

abbrev pub IsNum : {F : Type 0} ⦃fl : Float F⦄ → F → Type 0
IsNum x = x ≼ x

abbrev pub NonNeg : {F : Type 0} ⦃fl : Float F⦄ → F → Type 0
NonNeg ⦃fl⦄ x = fl.nought ≼ x

-- The order is total away from NaN, comparisons with NaN fail, and sums of values that are not
-- negative are monotone.
pub record IsOrdered (F : Type 0) ⦃fl : Float F⦄ : Type 0 where
  pub nought_num : fl.nought ≼ fl.nought
  pub num_of_le : (x y : F) → x ≼ y → IsNum x × IsNum y
  pub num_of_lt : (x y : F) → fl.lt x y ≡ true → IsNum x × IsNum y
  pub le_trans : (x y z : F) → x ≼ y → y ≼ z → x ≼ z
  pub le_total : (x y : F) → IsNum x → IsNum y → (x ≼ y) ⊎ (y ≼ x)
  pub lt-eq-not-le : (x y : F) → IsNum x → IsNum y → fl.lt x y ≡ not (fl.le y x)
  pub add_left : (x y : F) → NonNeg x → NonNeg y → x ≼ fl.add x y
  pub add_right : (x y : F) → NonNeg x → NonNeg y → y ≼ fl.add x y
  pub add_mono : (x y u v : F) → NonNeg x → NonNeg y → x ≼ u → y ≼ v → fl.add x y ≼ fl.add u v

-- Naturals, with `none` for NaN. It parses a text of one digit, and `nan`.
abbrev pub Sample : Type 0
Sample = Option ℕ

abbrev on_both : (ℕ → ℕ → ℕ) → Sample → Sample → Sample
on_both f (some a) (some b) = some (f a b)
on_both f _ _ = none

abbrev compared : (ℕ → ℕ → Bool) → Sample → Sample → Bool
compared f (some a) (some b) = f a b
compared f _ _ = false

abbrev parse_sample : List ℕ → Option Sample
parse_sample (c ∷ []) = elim (leb 48 c) [
  | true ↦ elim (leb c 57) [ true ↦ some (some (c - 48)) | false ↦ none ]
  | false ↦ none
]
parse_sample (c ∷ d ∷ e ∷ []) = if c == 110 && d == 97 && e == 110 then some none else none
parse_sample _ = none

instance abbrev pub sample_float : Float Sample
sample_float = record {
  nought = some 0;
  hundred = some 100;
  add = on_both ◌+◌;
  sub = on_both ◌-◌;
  mul = on_both ◌*◌;
  div = on_both ◌/◌;
  abs = λ x. x;
  lt = compared ltb;
  le = compared leb;
  eq = compared ◌==◌;
  of_ℕ = some;
  parse = parse_sample;
}

pub Sample-IsOrdered : IsOrdered Sample
Sample-IsOrdered = ground arith
