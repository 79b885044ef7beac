-- ===== src/Pyfmt/Digits.antt =====
-- Decimal digits and the number that they stand for.
use native.Mathlib.Omega.{pow_step}
use native.Mathlib.Nat.{zero-add}
use calx_mill.Base.{
  ℕ, zero, suc, ◌+◌, ◌-◌, ◌*◌, ◌^◌, ◌/◌, ◌%◌, ltb, ◌≡◌, ◌≢◌, ◌≤◌, ◌<◌, refl, ap, ◌∙◌, [], ◌∷◌, ◌++◌,
  ◌==◌, length, All, length-append, arith, if-both, Bool-cases, inl, inr, ==_iff,
}
use calx_mill.Base.Text.{Text}
use calx_mill.Base.Decimal.{digits_of, show_ℕ}
use calx_mill.Pyfmt.General.{keep_digit, trim_zeros, zeros}

abbrev pub IsDigit : ℕ → Type 0
IsDigit c = (b'0' ≤ c) × (c ≤ b'9')

-- The number that digits stand for.
unfoldable pub number_of : Text → ℕ
number_of [] = 0
number_of (c ∷ cs) = (c - b'0') * 10 ^ length cs + number_of cs

pub pow_add : (a b : ℕ) → 10 ^ (a + b) ≡ 10 ^ a * 10 ^ b
pow_add zero b = rw zero-add (omega arith)
pow_add (suc a) b =
    let e : suc a + b ≡ suc (a + b) = omega arith in
    rw (e, pow_step 10 (a + b), pow_step 10 a, pow_add a b) (omega arith)

regroup : (d p q m n : ℕ) → d * (p * q) + (m * q + n) ≡ (d * p + m) * q + n
regroup d p q m n = omega arith

pub number_of-append : (a b : Text) → number_of (a ++ b) ≡ number_of a * 10 ^ length b + number_of b
unfolding number_of
number_of-append [] b = omega arith
number_of-append (c ∷ cs) b =
    rw (length-append cs b, pow_add (length cs) (length b), number_of-append cs b)
      (regroup (c - b'0') (10 ^ length cs) (10 ^ length b) (number_of cs) (number_of b))

pub number_of-zeros : (n : ℕ) → number_of (zeros n) ≡ 0
unfolding number_of zeros
number_of-zeros zero = refl
number_of-zeros (suc n) = omega (arith, number_of-zeros n)

pub length-zeros : (n : ℕ) → length (zeros n) ≡ n
unfolding zeros
length-zeros zero = refl
length-zeros (suc n) = omega (arith, length-zeros n)

keep_digit-append :
    (c : ℕ) (t cs : Text) (n : ℕ)
    → cs ≡ t ++ zeros n
    → (m : ℕ) × (c ∷ cs ≡ keep_digit c t ++ zeros m)
unfolding keep_digit zeros
keep_digit-append c [] cs n e = elim (Bool-cases (c == b'0')) [
  | inl z ↦ (suc n, rw z (ap (◌∷◌ c) e ∙ ap (λ d. d ∷ zeros n) ((==_iff c b'0').0 z)))
  | inr other ↦ (n, rw other (ap (◌∷◌ c) e))
]
keep_digit-append c (d ∷ ds) cs n e = (n, ap (◌∷◌ c) e)

-- What is trimmed off is zeros.
pub trim_zeros-append : (s : Text) → (n : ℕ) × (s ≡ trim_zeros s ++ zeros n)
unfolding trim_zeros zeros
trim_zeros-append [] = (0, refl)
trim_zeros-append (c ∷ cs) =
    let (n, e) = trim_zeros-append cs in keep_digit-append c (trim_zeros cs) cs n e

pub All-front : (s t : Text) → All IsDigit (s ++ t) → All IsDigit s
All-front [] t h = tt
All-front (c ∷ s) t (h, hs) = (h, All-front s t hs)

pub All-back : (s t : Text) → All IsDigit (s ++ t) → All IsDigit t
All-back [] t h = h
All-back (c ∷ s) t (h, hs) = All-back s t hs

pub zeros-IsDigit : (n : ℕ) → All IsDigit (zeros n)
unfolding zeros
zeros-IsDigit zero = tt
zeros-IsDigit (suc n) = ((omega arith, omega arith), zeros-IsDigit n)

split10 : (n : ℕ) → n ≡ 10 * (n / 10) + n % 10
split10 n = omega arith

digit_value : (n : ℕ) → b'0' + n - b'0' ≡ n
digit_value n = omega arith

-- What `show_ℕ` prints.
digits_of_value :
    (f n : ℕ) (behind : Text)
    → n < f
    → number_of (digits_of f n behind) ≡ n * 10 ^ length behind + number_of behind
unfolding digits_of number_of
digits_of_value zero n behind h = elim h [ ]
digits_of_value (suc f) n behind h =
    if-both (λ t. number_of t ≡ n * 10 ^ length behind + number_of behind) (ltb n 10)
      (λ _. omega (arith, ap (λ (m : ℕ). m * 10 ^ length behind) (digit_value n)))
      (λ big.
        let longer : 10 ^ length ((b'0' + n % 10) ∷ behind) ≡ 10 * 10 ^ length behind =
          pow_step 10 (length behind) in
        digits_of_value f (n / 10) ((b'0' + n % 10) ∷ behind) (ground (arith, big))
        ∙ omega (
          arith,
          ap (λ (m : ℕ). n / 10 * m) longer,
          ap (λ (m : ℕ). m * 10 ^ length behind) (digit_value (n % 10)),
          ap (λ (m : ℕ). m * 10 ^ length behind) (split10 n),
        ))

digits_of-IsDigit :
    (f n : ℕ) (behind : Text) → n < f → All IsDigit behind → All IsDigit (digits_of f n behind)
unfolding digits_of
digits_of-IsDigit zero n behind h a = elim h [ ]
digits_of-IsDigit (suc f) n behind h a =
    if-both (All IsDigit) (ltb n 10) (λ small. (ground (arith, small), a))
      (λ big.
        digits_of-IsDigit f (n / 10) ((b'0' + n % 10) ∷ behind) (ground (arith, big))
          ((omega arith, omega arith), a))

pub show_ℕ_value : (n : ℕ) → number_of (show_ℕ n) ≡ n
unfolding show_ℕ number_of
show_ℕ_value n = digits_of_value (suc n) n [] (omega arith) ∙ omega arith

pub show_ℕ-IsDigit : (n : ℕ) → All IsDigit (show_ℕ n)
unfolding show_ℕ
show_ℕ-IsDigit n = digits_of-IsDigit (suc n) n [] (omega arith) tt

pub cons-ne : (c : ℕ) (s : Text) → c ∷ s ≢ []
cons-ne c s e = cc

digits_of-ne : (f n : ℕ) (behind : Text) → n < f → digits_of f n behind ≢ []
unfolding digits_of
digits_of-ne zero n behind h = elim h [ ]
digits_of-ne (suc f) n behind h =
    if-both (λ (t : Text). t ≢ []) (ltb n 10) (λ _. cons-ne _ behind)
      (λ big. digits_of-ne f (n / 10) ((b'0' + n % 10) ∷ behind) (ground (arith, big)))

pub show_ℕ-ne : (n : ℕ) → show_ℕ n ≢ []
unfolding show_ℕ
show_ℕ-ne n = digits_of-ne (suc n) n [] (omega arith)
