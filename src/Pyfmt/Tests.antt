-- ===== src/Pyfmt/Tests.antt =====
-- The examples of src/nvidia/pyfmt.rs, from the digits that the standard library prints, and the
-- theorem at one of them.
use calx_mill.Base.{◌≡◌, refl, inr, false, some, [], ◌∷◌, arith}
use calx_mill.Base.Result.{◌>>=◌, ok_or}
use calx_mill.Base.Text.{Text, codes, split_once}
use calx_mill.Base.Numeral.{pos, parse_i32}
use calx_mill.Base.Decimal.{show_ℕ}
use calx_mill.Base.Float.{Sample, sample_float}
use calx_mill.Base.Decimal.{sample_text}
use calx_mill.Pyfmt.General.{
  trim_zeros, two_digits, pointed, mantissa, scientific, fixed_point, body, signed, from_sci, g6,
  repr_f64,
}
use calx_mill.Pyfmt.Digits.{number_of}
use calx_mill.Pyfmt.Notation.{StandsFor}
use calx_mill.Pyfmt.Printed.{g6-StandsFor}

plain : from_sci false (codes "4.07032e0") ≡ inr (codes "4.07032")
unfolding from_sci body fixed_point pointed trim_zeros split_once parse_i32 ◌>>=◌ ok_or signed
plain = refl

small : from_sci false (codes "5.26396e-2") ≡ inr (codes "0.0526396")
unfolding from_sci body fixed_point pointed trim_zeros split_once parse_i32 ◌>>=◌ ok_or signed
small = refl

integral : from_sci false (codes "1.45500e3") ≡ inr (codes "1455")
unfolding from_sci body fixed_point pointed trim_zeros split_once parse_i32 ◌>>=◌ ok_or signed
integral = refl

large : from_sci false (codes "1.23457e6") ≡ inr (codes "1.23457e+06")
unfolding from_sci body scientific mantissa two_digits show_ℕ pointed trim_zeros split_once
    parse_i32 ◌>>=◌ ok_or signed
large = refl

tiny : from_sci false (codes "1.23450e-5") ≡ inr (codes "1.2345e-05")
unfolding from_sci body scientific mantissa two_digits show_ℕ pointed trim_zeros split_once
    parse_i32 ◌>>=◌ ok_or signed
tiny = refl

repeated : repr_f64 {F = Sample} (some 10) ≡ codes "10.0"
unfolding repr_f64 show_ℕ
repeated = refl

g6-StandsFor_example :
    (t : Text) × (g6 {F = Sample} (some 1) ≡ inr (signed false t))
    × StandsFor t (number_of (b'1' ∷ b'0' ∷ b'0' ∷ b'0' ∷ b'0' ∷ b'0' ∷ [])) (pos 0)
g6-StandsFor_example =
    g6-StandsFor (some 1) b'1' (b'0' ∷ b'0' ∷ b'0' ∷ b'0' ∷ b'0' ∷ []) (pos 0) refl refl refl
      (record {
        exponent = codes "0";
        printed = refl;
        is_exponent = unfold parse_i32 in refl;
        five = refl;
        digits = omega arith;
        leading = omega arith;
      })
