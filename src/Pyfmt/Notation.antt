-- ===== src/Pyfmt/Notation.antt =====
-- What `g6` of src/nvidia/pyfmt.rs prints stands for the number that was printed with six digits.
use mathlib.Core.List.{append_assoc, append-nil}
use calx_mill.Base.{
  ℕ, zero, suc, ◌+◌, ◌*◌, ◌^◌, ◌≡◌, ◌≢◌, ◌≤◌, ◌<◌, refl, sym, ap, ◌∙◌, [], ◌∷◌, ◌++◌, leb, ltb,
  length, take, drop, All, All-append, length-append, arith, if-both, ltb→lt, inr,
}
use calx_mill.Base.Result.{Result, ◌>>=◌}
use calx_mill.Base.Text.{Text}
use calx_mill.Base.Numeral.{ℤ, pos, negsuc, pos_part, neg_part}
use calx_mill.Base.Decimal.{show_ℕ}
use calx_mill.Pyfmt.General.{
  FmtPanic, trim_zeros, zeros, two_digits, pointed, mantissa, scientific, fixed_point, body,
}
use calx_mill.Pyfmt.Digits.{
  IsDigit, number_of, pow_add, number_of-append, number_of-zeros, length-zeros, trim_zeros-append,
  All-front, All-back, zeros-IsDigit, show_ℕ_value, show_ℕ-IsDigit, show_ℕ-ne, cons-ne,
}

-- The text stands for m / 10 ^ k.
pub data Plain : Text → ℕ → ℕ → Type 0 where
  whole : {s : Text} → s ≢ [] → All IsDigit s → Plain s (number_of s) 0
  fraction :
      {s t : Text}
      → s ≢ []
      → t ≢ []
      → All IsDigit s
      → All IsDigit t
      → Plain (s ++ (b'.' ∷ t)) (number_of (s ++ t)) (length t)

-- The text stands for m * 10 ^ up / 10 ^ (k + down).
pub data Notation : Text → ℕ → ℕ → ℕ → ℕ → Type 0 where
  plain : {t : Text} {m k : ℕ} → Plain t m k → Notation t m k 0 0
  raised :
      {t e : Text} {m k : ℕ}
      → Plain t m k
      → e ≢ []
      → All IsDigit e
      → Notation (t ++ (b'e' ∷ b'+' ∷ e)) m k (number_of e) 0
  lowered :
      {t e : Text} {m k : ℕ}
      → Plain t m k
      → e ≢ []
      → All IsDigit e
      → Notation (t ++ (b'e' ∷ b'-' ∷ e)) m k 0 (number_of e)

-- The text stands for d * 10 ^ x / 10 ^ 5.
pub record StandsFor (t : Text) (d : ℕ) (x : ℤ) : Type 0 where
  pub m : ℕ
  pub k : ℕ
  pub up : ℕ
  pub down : ℕ
  pub notation : Notation t m k up down
  pub same : m * 10 ^ (5 + up + neg_part x) ≡ d * 10 ^ (k + down + pos_part x)

pointed-Plain :
    (s t : Text)
    → s ≢ []
    → All IsDigit (s ++ t)
    → Plain (pointed s t) (number_of (s ++ t)) (length t)
unfolding pointed
pointed-Plain s [] ne a = rw append-nil (whole ne (rw append-nil at a))
pointed-Plain s (d ∷ t) ne a = fraction ne (λ e. cc) (All-front s (d ∷ t) a) (All-back s (d ∷ t) a)

-- Zeros behind digits multiply their number.
number_of-trimmed : (s : Text) (n : ℕ) → number_of (s ++ zeros n) ≡ number_of s * 10 ^ n
number_of-trimmed s n =
    number_of-append s (zeros n) ∙ rw (length-zeros n, number_of-zeros n) (omega arith)

-- The one equation behind all three layouts.
scaled : (m z a b : ℕ) → a ≡ z + b → m * 10 ^ a ≡ m * 10 ^ z * 10 ^ b
scaled m z a b e = rw (e, pow_add z b) (omega arith)

take-drop : (n : ℕ) (s : Text) → take n s ++ drop n s ≡ s
take-drop zero s = refl
take-drop (suc n) [] = refl
take-drop (suc n) (c ∷ s) = ap (◌∷◌ c) (take-drop n s)

length-take : (n : ℕ) (s : Text) → n ≤ length s → length (take n s) ≡ n
length-take zero s h = refl
length-take (suc n) [] h = absurd (omega arith)
length-take (suc n) (c ∷ s) h = omega (arith, length-take n s (omega arith))

length-ne : (s : Text) (n : ℕ) → length s ≡ suc n → s ≢ []
length-ne [] n h e = absurd (omega arith)
length-ne (c ∷ s) n h e = cc

-- The layout with a point between the digits.
front_StandsFor :
    (front behind : Text) (n : ℕ)
    → length front ≡ n + 1
    → length front + length behind ≡ 6
    → All IsDigit (front ++ behind)
    → StandsFor (pointed front (trim_zeros behind)) (number_of (front ++ behind)) (pos n)
front_StandsFor front behind n p q a =
    let (z, e) = trim_zeros-append behind in
    let t = trim_zeros behind in
    let whole_text : front ++ behind ≡ (front ++ t) ++ zeros z =
      ap (λ (s : Text). front ++ s) e ∙ sym (append_assoc front t (zeros z)) in
    let lengths : length behind ≡ length t + z =
      ap length e ∙ length-append t (zeros z) ∙ ap (λ (i : ℕ). length t + i) (length-zeros z) in
    record {
      m = number_of (front ++ t);
      k = length t;
      up = 0;
      down = 0;
      notation = plain (
          pointed-Plain front t (length-ne front n (omega (arith, p)))
            (All-front (front ++ t) (zeros z) (rw whole_text at a)));
      same =
          rw (whole_text, number_of-trimmed (front ++ t) z)
            (scaled (number_of (front ++ t)) z (5 + 0 + 0) (length t + 0 + n) (omega arith));
    }

-- All digits stand before the point.
whole_StandsFor :
    (digits : Text)
    → length digits ≡ 6
    → All IsDigit digits
    → StandsFor digits (number_of digits) (pos 5)
whole_StandsFor digits l a = record {
  m = number_of digits;
  k = 0;
  up = 0;
  down = 0;
  notation = plain (whole (length-ne digits 5 l) a);
  same = refl;
}

fixed_point-StandsFor :
    (digits : Text) (n : ℕ)
    → n < 6
    → length digits ≡ 6
    → All IsDigit digits
    → StandsFor (fixed_point digits (n + 1)) (number_of digits) (pos n)
unfolding fixed_point
fixed_point-StandsFor digits n h l a =
    if-both (λ t. StandsFor t (number_of digits) (pos n)) (leb (length digits) (n + 1))
      (λ all_before.
        let five : 5 ≡ n = ground (arith, all_before) in rw (← five) (whole_StandsFor digits l a))
      (λ some_behind.
        let back = take-drop (n + 1) digits in
        let front_length = length-take (n + 1) digits (omega arith) in
        rw back at (
          front_StandsFor (take (n + 1) digits) (drop (n + 1) digits) n front_length
            (sym (length-append (take (n + 1) digits) (drop (n + 1) digits)) ∙ ap length back ∙ l)
            (rw back a)))

ne-append : (s t : Text) → t ≢ [] → s ++ t ≢ []
ne-append [] t h = h
ne-append (c ∷ s) t h = cons-ne c (s ++ t)

leading_zeros : (n : ℕ) (t : Text) → number_of ((b'0' ∷ []) ++ (zeros n ++ t)) ≡ number_of t
leading_zeros n t =
    number_of-append (b'0' ∷ []) (zeros n ++ t)
    ∙ rw (number_of-append (zeros n) t, number_of-zeros n) (unfold number_of in omega arith)

-- The layout with zeros behind the point.
small_StandsFor :
    (digits : Text) (n : ℕ)
    → length digits ≡ 6
    → trim_zeros digits ≢ []
    → All IsDigit digits
    → StandsFor (b'0' ∷ b'.' ∷ (zeros n ++ trim_zeros digits)) (number_of digits) (negsuc n)
small_StandsFor digits n l ne a =
    let (z, e) = trim_zeros-append digits in
    let t = trim_zeros digits in
    let lengths : length digits ≡ length t + z =
      ap length e ∙ length-append t (zeros z) ∙ ap (λ (i : ℕ). length t + i) (length-zeros z) in
    let behind : length (zeros n ++ t) ≡ n + length t =
      length-append (zeros n) t ∙ ap (λ (i : ℕ). i + length t) (length-zeros n) in
    record {
      m = number_of ((b'0' ∷ []) ++ (zeros n ++ t));
      k = length (zeros n ++ t);
      up = 0;
      down = 0;
      notation = plain (
          fraction (cons-ne b'0' []) (ne-append (zeros n) t ne) ((omega arith, omega arith), tt)
            (All-append IsDigit (zeros n) t (zeros-IsDigit n) (All-front t (zeros z) (rw e at a))));
      same =
          rw (leading_zeros n t, ap number_of e, number_of-trimmed t z)
            (scaled (number_of t) z (5 + 0 + suc n) (length (zeros n ++ t) + 0 + 0)
              (omega (arith, lengths, behind, l)));
    }

-- The layout with an exponent.
mantissa_StandsFor :
    (d : ℕ) (tail : Text) (z : ℕ) (digits : Text)
    → digits ≡ (d ∷ tail) ++ zeros z
    → length digits ≡ 6
    → All IsDigit digits
    → Plain (pointed (d ∷ []) tail) (number_of (d ∷ tail)) (length tail)
      × (number_of digits ≡ number_of (d ∷ tail) * 10 ^ z)
      × (5 ≡ z + length tail)
mantissa_StandsFor d tail z digits e l a = (
  pointed-Plain (d ∷ []) tail (λ h. cc) (All-front (d ∷ tail) (zeros z) (rw e at a)),
  ap number_of e ∙ number_of-trimmed (d ∷ tail) z,
  omega (arith, sym l ∙ ap length e ∙ length-append (d ∷ tail) (zeros z), length-zeros z),
)

two_digits_value : (n : ℕ) → number_of (two_digits n) ≡ n
unfolding two_digits
two_digits_value n =
    if-both (λ t. number_of t ≡ n) (ltb n 10)
      (λ _.
        number_of-append (b'0' ∷ []) (show_ℕ n)
        ∙ rw (show_ℕ_value n) (unfold number_of in omega arith))
      (λ _. show_ℕ_value n)

two_digits-IsDigit : (n : ℕ) → All IsDigit (two_digits n)
unfolding two_digits
two_digits-IsDigit n =
    if-both (All IsDigit) (ltb n 10) (λ _. ((omega arith, omega arith), show_ℕ-IsDigit n))
      (λ _. show_ℕ-IsDigit n)

two_digits-ne : (n : ℕ) → two_digits n ≢ []
unfolding two_digits
two_digits-ne n =
    if-both (λ (t : Text). t ≢ []) (ltb n 10) (λ _. cons-ne b'0' (show_ℕ n)) (λ _. show_ℕ-ne n)

-- A text that stands for the digits, where one is printed.
unfoldable pub Prints : Result FmtPanic Text → Text → ℤ → Type 0
Prints r digits x = (t : Text) × (r ≡ inr t) × StandsFor t (number_of digits) x

scientific-raised :
    (digits t : Text) (z n : ℕ)
    → t ≢ []
    → digits ≡ t ++ zeros z
    → trim_zeros digits ≡ t
    → length digits ≡ 6
    → All IsDigit digits
    → Prints (scientific digits b'+' n) digits (pos n)
unfolding Prints scientific mantissa ◌>>=◌
scientific-raised digits [] z n ne e c l a = absurd (ne refl)
scientific-raised digits (d ∷ tail) z n ne e c l a =
    let (p, value, lengths) = mantissa_StandsFor d tail z digits e l a in
    let stands : StandsFor (pointed (d ∷ []) tail ++ (b'e' ∷ b'+' ∷ two_digits n))
        (number_of digits) (pos n) =
      record {
        m = number_of (d ∷ tail);
        k = length tail;
        up = number_of (two_digits n);
        down = 0;
        notation = raised p (two_digits-ne n) (two_digits-IsDigit n);
        same =
            rw (value, two_digits_value n)
              (scaled (number_of (d ∷ tail)) z (5 + n + 0) (length tail + 0 + n)
                (omega (arith, lengths)));
      } in
    (pointed (d ∷ []) tail ++ (b'e' ∷ b'+' ∷ two_digits n), rw c refl, stands)

scientific-lowered :
    (digits t : Text) (z n : ℕ)
    → t ≢ []
    → digits ≡ t ++ zeros z
    → trim_zeros digits ≡ t
    → length digits ≡ 6
    → All IsDigit digits
    → Prints (scientific digits b'-' (n + 1)) digits (negsuc n)
unfolding Prints scientific mantissa ◌>>=◌
scientific-lowered digits [] z n ne e c l a = absurd (ne refl)
scientific-lowered digits (d ∷ tail) z n ne e c l a =
    let (p, value, lengths) = mantissa_StandsFor d tail z digits e l a in
    let stands : StandsFor (pointed (d ∷ []) tail ++ (b'e' ∷ b'-' ∷ two_digits (n + 1)))
        (number_of digits) (negsuc n) =
      record {
        m = number_of (d ∷ tail);
        k = length tail;
        up = 0;
        down = number_of (two_digits (n + 1));
        notation = lowered p (two_digits-ne (n + 1)) (two_digits-IsDigit (n + 1));
        same =
            rw (value, two_digits_value (n + 1))
              (scaled (number_of (d ∷ tail)) z (5 + 0 + suc n) (length tail + (n + 1) + 0)
                (omega (arith, lengths)));
      } in
    (pointed (d ∷ []) tail ++ (b'e' ∷ b'-' ∷ two_digits (n + 1)), rw c refl, stands)

pub body-Prints :
    (digits : Text) (x : ℤ)
    → length digits ≡ 6
    → trim_zeros digits ≢ []
    → All IsDigit digits
    → Prints (body digits x) digits x
unfolding body Prints
body-Prints digits (pos n) l ne a =
    let (z, e) = trim_zeros-append digits in
    if-both (λ r. Prints r digits (pos n)) (ltb n 6)
      (λ small.
        (fixed_point digits (n + 1), refl, fixed_point-StandsFor digits n (ltb→lt n 6 small) l a))
      (λ _. scientific-raised digits (trim_zeros digits) z n ne e refl l a)
body-Prints digits (negsuc n) l ne a =
    let (z, e) = trim_zeros-append digits in
    if-both (λ r. Prints r digits (negsuc n)) (ltb n 4)
      (λ _. (b'0' ∷ b'.' ∷ (zeros n ++ trim_zeros digits), refl, small_StandsFor digits n l ne a))
      (λ _. scientific-lowered digits (trim_zeros digits) z n ne e refl l a)
