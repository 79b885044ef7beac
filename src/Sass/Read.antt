-- ===== src/Sass/Read.antt =====
-- The scanner of src/nvidia/sass.rs on a line with an instruction.
use calx_mill.Base.{
  ℕ, ◌≡◌, inr, refl, ap, ◌∙◌, Bool, true, false, ◌&&◌, Option, none, some, [], ◌∷◌, ◌++◌, ◌==◌,
  if◌then◌else◌, All,
}
use calx_mill.Base.Result.{◌>>=◌}
use calx_mill.Base.Text.{Text, codes, is_whitespace, strip_prefix}
use calx_mill.Base.Words.{drop_while}
use calx_mill.Csv.Reader.{is_empty}
use calx_mill.Sass.Scan.{
  Scanned, Found, is_hex, is_digit, is_upper, is_mnemonic_byte, from_hex, found_at, at_mnemonic,
  at_body, at_address, at_open, or_else, scan_instr,
}
use calx_mill.Sass.Printed.{
  Predicate, printed, IsPredicate, IsRun, Stops, take_while-append, behind_run-append,
  behind_predicate-printed, behind_mnemonic-append, printed-blank,
}

IsRun-nonempty : (p : ℕ → Bool) (xs : Text) → IsRun p xs → is_empty xs ≡ false
unfolding IsRun
IsRun-nonempty p [] run = elim run [ ]
IsRun-nonempty p (x ∷ xs) run = refl

IsRun-All : (p : ℕ → Bool) (xs : Text) → IsRun p xs → All (λ c. p c ≡ true) xs
unfolding IsRun
IsRun-All p [] run = elim run [ ]
IsRun-All p (x ∷ xs) run = run

hex-stop : (s : Text) → Stops is_hex (codes "*/" ++ s)
unfolding Stops is_hex is_digit
hex-stop s = refl

at_open-hex :
    (digits after : Text)
    → IsRun is_hex digits
    → at_open (digits ++ (codes "*/" ++ after)) ≡ at_address digits (some after)
unfolding at_open
at_open-hex digits after run =
    let (taken, dropped) =
      take_while-append is_hex digits (codes "*/" ++ after) (IsRun-All is_hex digits run)
        (hex-stop after) in
    ap
      (λ t.
        if is_empty t
        then inr none
        else at_address t
            (strip_prefix (codes "*/") (drop_while is_hex (digits ++ (codes "*/" ++ after)))))
      taken
    ∙ ap
        (λ b.
          if b
          then inr none
          else at_address digits
              (strip_prefix (codes "*/") (drop_while is_hex (digits ++ (codes "*/" ++ after)))))
        (IsRun-nonempty is_hex digits run)
    ∙ ap (λ t. at_address digits (strip_prefix (codes "*/") t)) dropped

at_body-printed :
    (addr : ℕ) (p : Predicate) (c : ℕ) (cs rest : Text)
    → IsPredicate p
    → is_upper c ≡ true
    → All (λ d. is_mnemonic_byte d ≡ true) cs
    → Stops is_mnemonic_byte rest
    → at_body addr (some (printed p (c ∷ (cs ++ rest))))
      ≡ some (record { addr = addr; body = printed p (c ∷ (cs ++ rest)); behind = rest })
unfolding at_body at_mnemonic found_at
at_body-printed addr p c cs rest ok upper all stops =
    ap (at_mnemonic addr (printed p (c ∷ (cs ++ rest))))
      (behind_predicate-printed p c (cs ++ rest) ok upper)
    ∙ ap (found_at addr (printed p (c ∷ (cs ++ rest))))
        (behind_mnemonic-append c cs rest upper all stops)

-- A character that opens no comment is passed over.
scan_instr-pass : (c : ℕ) (s : Text) → (c == b'/') ≡ false → scan_instr (c ∷ s) ≡ scan_instr s
unfolding scan_instr
scan_instr-pass c [] e = refl
scan_instr-pass c (d ∷ s) e =
    ap
      (λ b. elim (b && d == b'*') as (λ _. Scanned (Option Found)) [
        | true ↦ or_else (at_open s) (scan_instr s)
        | false ↦ scan_instr (d ∷ s)
      ])
      e

scan_instr-lead :
    (lead s : Text) → All (λ c. (c == b'/') ≡ false) lead → scan_instr (lead ++ s) ≡ scan_instr s
scan_instr-lead [] s all = refl
scan_instr-lead (c ∷ lead) s (now, later) =
    scan_instr-pass c (lead ++ s) now ∙ scan_instr-lead lead s later

scan_instr-open : (s : Text) → scan_instr (codes "/*" ++ s) ≡ or_else (at_open s) (scan_instr s)
unfolding scan_instr
scan_instr-open s = refl

-- A line with an address in a comment, then blanks, then an instruction with or without a predicate, is
-- read as that address, the line from the predicate on, and the line behind the mnemonic. Before the
-- comment there is no `/`, and the address is a 64-bit number.
pub scan_instr-printed :
    (lead digits blanks : Text) (p : Predicate) (c : ℕ) (cs rest : Text) (addr : ℕ)
    → All (λ d. (d == b'/') ≡ false) lead
    → IsRun is_hex digits
    → from_hex digits ≡ inr addr
    → IsRun is_whitespace blanks
    → IsPredicate p
    → is_upper c ≡ true
    → All (λ d. is_mnemonic_byte d ≡ true) cs
    → Stops is_mnemonic_byte rest
    → scan_instr (
        lead
        ++ (codes "/*" ++ (digits ++ (codes "*/" ++ (blanks ++ printed p (c ∷ (cs ++ rest)))))))
      ≡ inr (some (record { addr = addr; body = printed p (c ∷ (cs ++ rest)); behind = rest }))
unfolding at_address or_else ◌>>=◌
scan_instr-printed lead digits blanks p c cs rest addr before run hex blank ok upper all stops =
    scan_instr-lead lead _ before
    ∙ scan_instr-open _
    ∙ ap
        (λ r.
          or_else r
            (scan_instr (digits ++ (codes "*/" ++ (blanks ++ printed p (c ∷ (cs ++ rest)))))))
        (at_open-hex digits (blanks ++ printed p (c ∷ (cs ++ rest))) run)
    ∙ at_line
  where
    body : Text
    body = printed p (c ∷ (cs ++ rest))

    at_line :
        or_else
          (at_address digits (some (blanks ++ body)))
          (scan_instr (digits ++ (codes "*/" ++ (blanks ++ body))))
        ≡ inr (some (record { addr = addr; body = body; behind = rest }))
    at_line =
        rw
          (
            hex,
            behind_run-append is_whitespace blanks body blank
                (printed-blank p c (cs ++ rest) upper),
            at_body-printed addr p c cs rest ok upper all stops,
          )
          refl
