-- ===== src/Pyfmt/Printed.antt =====
-- `g6` of src/nvidia/pyfmt.rs, from the number to its text.
use calx_mill.Base.{
  ℕ, ◌≡◌, ◌≢◌, refl, ap, Bool, true, false, not, some, inl, inr, [], ◌∷◌, ◌++◌, ◌==◌, ==_iff,
  length, keep, All, arith, Bool-cases,
}
use calx_mill.Base.Result.{◌>>=◌, ok_or}
use calx_mill.Base.Text.{Text, codes, split_once, split_once-at}
use calx_mill.Base.Numeral.{ℤ, parse_i32}
use calx_mill.Base.Float.{Float}
use calx_mill.Base.Decimal.{FloatText}
use calx_mill.Pyfmt.General.{keep_digit, trim_zeros, body, signed, from_sci, g6}
use calx_mill.Pyfmt.Digits.{IsDigit, number_of, cons-ne}
use calx_mill.Pyfmt.Notation.{StandsFor, Prints, body-Prints}

digit_not_e : (c : ℕ) → IsDigit c → (b'e' == c) ≡ false
digit_not_e c h = ground arith

digit_not_point : (c : ℕ) → IsDigit c → (c == b'.') ≡ false
digit_not_point c h = ground arith

digits_not_e : (s : Text) → All IsDigit s → All (λ c. (b'e' == c) ≡ false) s
digits_not_e [] h = tt
digits_not_e (c ∷ s) (h, hs) = (digit_not_e c h, digits_not_e s hs)

keep_all : (s : Text) → All IsDigit s → keep (λ b. not (b == b'.')) s ≡ s
keep_all [] h = refl
keep_all (c ∷ s) (h, hs) = rw (digit_not_point c h, keep) (ap (◌∷◌ c) (keep_all s hs))

keep_front :
    (d : ℕ) (ds : Text)
    → All IsDigit (d ∷ ds)
    → keep (λ b. not (b == b'.')) (d ∷ b'.' ∷ ds) ≡ d ∷ ds
keep_front d ds (h, hs) = rw (digit_not_point d h, keep) (ap (◌∷◌ d) (keep_all ds hs))

keep_digit-ne : (d : ℕ) (t : Text) → d ≢ b'0' → keep_digit d t ≢ []
unfolding keep_digit
keep_digit-ne d [] h = elim (Bool-cases (d == b'0')) [
  | inl z ↦ elim (h ((==_iff d b'0').0 z)) [ ]
  | inr other ↦ rw other (cons-ne d [])
]
keep_digit-ne d (e ∷ t) h = cons-ne d (e ∷ t)

trim_zeros-ne : (d : ℕ) (ds : Text) → d ≢ b'0' → trim_zeros (d ∷ ds) ≢ []
unfolding trim_zeros
trim_zeros-ne d ds h = keep_digit-ne d (trim_zeros ds) h

from_sci-inr :
    (neg : Bool) (sci front et t : Text) (x : ℤ)
    → split_once (codes "e") sci ≡ some (front, et)
    → parse_i32 et ≡ some x
    → body (keep (λ b. not (b == b'.')) front) x ≡ inr t
    → from_sci neg sci ≡ inr (signed neg t)
unfolding from_sci ◌>>=◌ ok_or
from_sci-inr neg sci front et t x cut is_exponent printed = rw (cut, is_exponent, printed) refl

module _ {F : Type 0} ⦃fl : Float F⦄ ⦃ft : FloatText F⦄ where
  -- `{:.5e}` prints a digit that is not 0, a point, five digits, and an exponent.
  pub record PrintsSix (v : F) (d : ℕ) (ds : Text) (x : ℤ) : Type 0 where
    pub exponent : Text
    pub printed : ft.lower_exp5 v ≡ (d ∷ b'.' ∷ ds) ++ (b'e' ∷ exponent)
    pub is_exponent : parse_i32 exponent ≡ some x
    pub five : length ds ≡ 5
    pub digits : All IsDigit (d ∷ ds)
    pub leading : d ≢ b'0'

  -- A finite number other than 0, which the standard library prints with six digits and an exponent, is
  -- printed: behind a minus sign exactly when it is negative stands the decimal notation, with or
  -- without an exponent, of the number that the six digits and the exponent give.
  pub g6-StandsFor :
      (v : F) (d : ℕ) (ds : Text) (x : ℤ)
      → fl.eq v fl.nought ≡ false
      → fl.le v v ≡ true
      → ft.is_infinite v ≡ false
      → PrintsSix (fl.abs v) d ds x
      → (t : Text) × (g6 v ≡ inr (signed (fl.lt v fl.nought) t))
        × StandsFor t (number_of (d ∷ ds)) x
  unfolding g6 Prints
  g6-StandsFor v d ds x h k i p =
      let (t, e, s) =
        body-Prints (d ∷ ds) x (omega (arith, p.five)) (trim_zeros-ne d ds p.leading) p.digits in
      let cut : split_once (codes "e") (ft.lower_exp5 (fl.abs v))
          ≡ some (d ∷ b'.' ∷ ds, p.exponent) =
        rw p.printed (
          split_once-at b'e' (d ∷ b'.' ∷ ds) p.exponent
            (digit_not_e d p.digits.0, (refl, digits_not_e ds p.digits.1))) in
      (
        t,
        rw (h, k, i)
            (from_sci-inr _ _ (d ∷ b'.' ∷ ds) p.exponent t x cut p.is_exponent
              (rw (keep_front d ds p.digits) e)),
        s,
      )
