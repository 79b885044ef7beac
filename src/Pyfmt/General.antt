-- ===== src/Pyfmt/General.antt =====
-- `g6` and `repr_f64` of src/nvidia/pyfmt.rs. Printing with six significant digits, and with the
-- fewest, is the standard library's.
use calx_mill.Base.{
  ℕ, zero, suc, ◌+◌, Bool, not, ◌&&◌, ◌||◌, inl, inr, [], ◌∷◌, ◌++◌, leb, ltb, ◌==◌, length, take,
  drop, all, keep, if◌then◌else◌,
}
use calx_mill.Base.Result.{Result, ◌>>=◌, ok_or}
use calx_mill.Base.Text.{Text, codes, split_once}
use calx_mill.Base.Numeral.{ℤ, pos, negsuc, parse_i32}
use calx_mill.Base.Float.{Float}
use calx_mill.Base.Decimal.{FloatText, show_ℕ}

-- The panics: a number that was printed without an exponent, an exponent that is no integer, and no
-- digits.
pub data FmtPanic : Type 0 where
  no_exponent : FmtPanic
  bad_exponent : FmtPanic
  no_digits : FmtPanic

-- A digit in front of digits without zeros at their end.
unfoldable pub keep_digit : ℕ → Text → Text
keep_digit c [] = if c == b'0' then [] else c ∷ []
keep_digit c (d ∷ ds) = c ∷ d ∷ ds

-- `trim_end_matches('0')`.
unfoldable pub trim_zeros : Text → Text
unfolding keep_digit
trim_zeros [] = []
trim_zeros (c ∷ cs) = keep_digit c (trim_zeros cs)

unfoldable pub zeros : ℕ → Text
zeros zero = []
zeros (suc n) = b'0' ∷ zeros n

-- `{:02}`.
unfoldable pub two_digits : ℕ → Text
two_digits n = if ltb n 10 then b'0' ∷ show_ℕ n else show_ℕ n

-- Digits with a point behind the first `n` of them, without a fraction of nothing.
unfoldable pub pointed : Text → Text → Text
pointed front [] = front
pointed front (d ∷ frac) = front ++ (b'.' ∷ d ∷ frac)

unfoldable pub mantissa : Text → Result FmtPanic Text
unfolding pointed
mantissa [] = inl no_digits
mantissa (d ∷ tail) = inr (pointed (d ∷ []) tail)

unfoldable pub scientific : Text → ℕ → ℕ → Result FmtPanic Text
unfolding two_digits
scientific digits sign exp = do
  m ← mantissa (trim_zeros digits)
  inr (m ++ (b'e' ∷ sign ∷ two_digits exp))

unfoldable pub fixed_point : Text → ℕ → Text
fixed_point digits point =
    if leb (length digits) point
    then digits
    else pointed (take point digits) (trim_zeros (drop point digits))

-- The text of a number, by its digits and its exponent.
unfoldable pub body : Text → ℤ → Result FmtPanic Text
unfolding zeros
body digits (pos n) = if ltb n 6 then inr (fixed_point digits (n + 1)) else scientific digits b'+' n
body digits (negsuc n) =
    if ltb n 4
    then inr (b'0' ∷ b'.' ∷ (zeros n ++ trim_zeros digits))
    else scientific digits b'-' (n + 1)

unfoldable pub signed : Bool → Text → Text
signed neg t = if neg then b'-' ∷ t else t

unfoldable pub from_sci : Bool → Text → Result FmtPanic Text
from_sci neg sci = do
  parts ← ok_or (split_once (codes "e") sci) no_exponent
  exp ← ok_or (parse_i32 parts.1) bad_exponent
  t ← body (keep (λ b. not (b == b'.')) parts.0) exp
  inr (signed neg t)

module _ {F : Type 0} ⦃fl : Float F⦄ ⦃ft : FloatText F⦄ where
  unfoldable pub g6 : F → Result FmtPanic Text
  g6 v =
      if fl.eq v fl.nought
      then inr (if ft.sign_negative v then codes "-0" else codes "0")
      else if not (fl.le v v)
      then inr (codes "nan")
      else if ft.is_infinite v
      then inr (if fl.lt v fl.nought then codes "-inf" else codes "inf")
      else from_sci (fl.lt v fl.nought) (ft.lower_exp5 (fl.abs v))

  -- `.0` behind what has only digits and signs.
  unfoldable pub repr_f64 : F → Text
  repr_f64 v =
      let s = ft.display v in
      if all (λ b. (leb b'0' b && leb b b'9') || b == b'-') s then s ++ codes ".0" else s
