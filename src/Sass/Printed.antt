-- ===== src/Sass/Printed.antt =====
-- What the scanner of src/nvidia/sass.rs reads of a printed instruction.
use calx_mill.Base.{
  ℕ, ◌≡◌, refl, ap, ◌∙◌, Bool, true, false, none, some, [], ◌∷◌, ◌++◌, ◌==◌, if◌then◌else◌, All,
  arith,
}
use calx_mill.Base.Text.{Text, codes, is_whitespace, strip_prefix}
use calx_mill.Base.Words.{take_while, drop_while}
use calx_mill.Sass.Scan.{
  is_digit, is_hex, is_upper, is_mnemonic_byte, behind_run, behind_blanks, behind_plain, drop_bang,
  behind_predicate, behind_mnemonic,
}
use calx_mill.Csv.Reader.{is_empty}

-- A text that begins with no character that passes the test.
unfoldable pub Stops : (ℕ → Bool) → Text → Type 0
Stops p [] = Unit
Stops p (c ∷ cs) = p c ≡ false

-- A text, not empty, all of whose characters pass the test.
unfoldable pub IsRun : (ℕ → Bool) → Text → Type 0
IsRun p [] = ⊥
IsRun p (c ∷ cs) = All (λ d. p d ≡ true) (c ∷ cs)

pub take_while-append :
    (p : ℕ → Bool) (xs rest : Text)
    → All (λ c. p c ≡ true) xs
    → Stops p rest
    → (take_while p (xs ++ rest) ≡ xs) × (drop_while p (xs ++ rest) ≡ rest)
unfolding take_while drop_while Stops
take_while-append p [] [] all stops = (refl, refl)
take_while-append p [] (c ∷ rest) all stops = (rw stops refl, rw stops refl)
take_while-append p (x ∷ xs) rest (now, later) stops =
    let (taken, dropped) = take_while-append p xs rest later stops in
    (rw (now, taken) refl, rw (now, dropped) refl)

pub behind_run-append :
    (p : ℕ → Bool) (xs rest : Text)
    → IsRun p xs
    → Stops p rest
    → behind_run p (xs ++ rest) ≡ some rest
unfolding behind_run IsRun
behind_run-append p [] rest run stops = elim run [ ]
behind_run-append p (x ∷ xs) rest run stops =
    let (taken, dropped) = take_while-append p (x ∷ xs) rest run stops in
    ap (λ t. if is_empty t then none else some (drop_while p (x ∷ xs ++ rest))) taken
    ∙ ap some dropped

-- A predicate: none, or its sign, its number, and the blanks behind it.
pub data Predicate : Type 0 where
  unpredicated : Predicate
  predicated : Bool → Text → Text → Predicate

unfoldable pub printed : Predicate → Text → Text
printed unpredicated s = s
printed (predicated true digits blanks) s = codes "@!P" ++ (digits ++ (blanks ++ s))
printed (predicated false digits blanks) s = codes "@P" ++ (digits ++ (blanks ++ s))

unfoldable pub IsPredicate : Predicate → Type 0
IsPredicate unpredicated = Unit
IsPredicate (predicated negated digits blanks) = IsRun is_digit digits × IsRun is_whitespace blanks

behind_plain-append :
    (digits blanks s : Text)
    → IsRun is_digit digits
    → IsRun is_whitespace blanks
    → Stops is_whitespace s
    → Stops is_digit (blanks ++ s)
    → behind_plain (some (digits ++ (blanks ++ s))) ≡ some s
unfolding behind_plain behind_blanks
behind_plain-append digits blanks s d b stops after =
    ap behind_blanks (behind_run-append is_digit digits (blanks ++ s) d after)
    ∙ behind_run-append is_whitespace blanks s b stops

blank-digit : (c : ℕ) → is_whitespace c ≡ true → is_digit c ≡ false
unfolding is_whitespace is_digit
blank-digit c h = ground arith

Stops-blanks : (blanks s : Text) → IsRun is_whitespace blanks → Stops is_digit (blanks ++ s)
unfolding Stops IsRun
Stops-blanks [] s run = elim run [ ]
Stops-blanks (c ∷ blanks) s run = blank-digit c run.0

upper-blank : (c : ℕ) (s : Text) → is_upper c ≡ true → Stops is_whitespace (c ∷ s)
unfolding Stops is_whitespace is_upper
upper-blank c s h = ground arith

upper-at : (c : ℕ) → is_upper c ≡ true → (c == b'@') ≡ false
unfolding is_upper
upper-at c h = ground arith

pub behind_predicate-printed :
    (p : Predicate) (c : ℕ) (s : Text)
    → IsPredicate p
    → is_upper c ≡ true
    → behind_predicate (printed p (c ∷ s)) ≡ some (c ∷ s)
unfolding behind_predicate printed IsPredicate drop_bang
behind_predicate-printed unpredicated c s ok upper =
    ap (λ b. if b then behind_plain (strip_prefix (codes "P") (drop_bang s)) else some (c ∷ s))
      (upper-at c upper)
behind_predicate-printed (predicated true digits blanks) c s (d, b) upper =
    behind_plain-append digits blanks (c ∷ s) d b (upper-blank c s upper)
      (Stops-blanks blanks (c ∷ s) b)
behind_predicate-printed (predicated false digits blanks) c s (d, b) upper =
    behind_plain-append digits blanks (c ∷ s) d b (upper-blank c s upper)
      (Stops-blanks blanks (c ∷ s) b)

is_hex_star : Stops is_hex (codes "*/")
unfolding Stops is_hex is_digit
is_hex_star = refl

pub behind_mnemonic-append :
    (c : ℕ) (cs rest : Text)
    → is_upper c ≡ true
    → All (λ d. is_mnemonic_byte d ≡ true) cs
    → Stops is_mnemonic_byte rest
    → behind_mnemonic (c ∷ (cs ++ rest)) ≡ some rest
unfolding behind_mnemonic
behind_mnemonic-append c cs rest upper all stops =
    ap (λ b. if b then some (drop_while is_mnemonic_byte (cs ++ rest)) else none) upper
    ∙ ap some (take_while-append is_mnemonic_byte cs rest all stops).1

pub printed-blank :
    (p : Predicate) (c : ℕ) (s : Text) → is_upper c ≡ true → Stops is_whitespace (printed p (c ∷ s))
unfolding printed Stops
printed-blank unpredicated c s upper = upper-blank c s upper
printed-blank (predicated true digits blanks) c s upper = unfold is_whitespace in refl
printed-blank (predicated false digits blanks) c s upper = unfold is_whitespace in refl
