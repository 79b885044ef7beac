-- ===== src/Csv/RoundTrip.antt =====
-- Reading what was written: `parse_records` after `write_record`.
use mathlib.Core.List.{append_assoc, append-nil}
use calx_mill.Base.{
  ℕ, ◌≡◌, refl, sym, ap, ◌∙◌, Bool, true, false, not, ◌||◌, List, [], ◌∷◌, ◌++◌, ◌==◌, ==_iff,
  arith, any, All, Bool-cases, inl, inr,
}
use calx_mill.Base.Text.{Text}
use calx_mill.Csv.Reader.{
  comma, quote, carriage_return, newline, Reader, is_empty, step, loop, finish, parse_records,
  has_record,
}
use calx_mill.Csv.Writer.{
  is_special, double_quotes, write_field, write_more, write_fields, write_record,
}

-- The loop outside and inside quotes.
abbrev unquoted : List (List Text) → List Text → Text → Bool → Reader
unquoted rs cur f s = record {
  records = rs;
  current = cur;
  field = f;
  in_quotes = false;
  field_started = s;
}

abbrev quoted : List (List Text) → List Text → Text → Bool → Reader
quoted rs cur f s = record {
  records = rs;
  current = cur;
  field = f;
  in_quotes = true;
  field_started = s;
}

module _ (rs : List (List Text)) (cur : List Text) (s : Bool) where
  loop-unquoted :
      (c : ℕ) (cs f : Text)
      → loop (c ∷ cs) (unquoted rs cur f s) ≡ loop cs (step c (unquoted rs cur f s))
  unfolding loop
  loop-unquoted c [] f = refl
  loop-unquoted c (d ∷ cs) f = refl

  loop-quoted_char :
      (c : ℕ) (cs f : Text)
      → (c == quote) ≡ false
      → loop (c ∷ cs) (quoted rs cur f s) ≡ loop cs (quoted rs cur (f ++ c ∷ []) s)
  unfolding loop
  loop-quoted_char c [] f h = rw h refl
  loop-quoted_char c (d ∷ cs) f h = ground arith

  loop-quoted_end :
      (d : ℕ) (cs f : Text)
      → (d == quote) ≡ false
      → loop (quote ∷ d ∷ cs) (quoted rs cur f s) ≡ loop (d ∷ cs) (unquoted rs cur f s)
  unfolding loop
  loop-quoted_end d cs f h = ground arith

  loop-quoted_pair :
      (cs f : Text)
      → loop (quote ∷ quote ∷ cs) (quoted rs cur f s) ≡ loop cs (quoted rs cur (f ++ quote ∷ []) s)
  unfolding loop
  loop-quoted_pair cs f = refl

  loop-double_quotes :
      (f g : Text) (d : ℕ) (cs : Text)
      → (d == quote) ≡ false
      → loop (double_quotes f ++ quote ∷ d ∷ cs) (quoted rs cur g s)
        ≡ loop (d ∷ cs) (unquoted rs cur (g ++ f) s)
  unfolding double_quotes
  loop-double_quotes [] g d cs h = rw append-nil (loop-quoted_end d cs g h)
  loop-double_quotes (c ∷ f) g d cs h = elim (Bool-cases (c == quote)) [
    | inl e ↦
        let same = (==_iff c quote).0 e in
        rw (e, same, loop-quoted_pair, ← append_assoc g (quote ∷ []) f)
          (loop-double_quotes f (g ++ quote ∷ []) d cs h)
    | inr e ↦
        rw
          (
            e,
            loop-quoted_char c (double_quotes f ++ quote ∷ d ∷ cs) g e,
            ← append_assoc g (c ∷ []) f,
          )
          (loop-double_quotes f (g ++ c ∷ []) d cs h)
  ]

  loop-plain :
      (f g cs : Text)
      → any is_special f ≡ false
      → loop (f ++ cs) (unquoted rs cur g s) ≡ loop cs (unquoted rs cur (g ++ f) s)
  unfolding step
  loop-plain [] g cs h = rw append-nil refl
  loop-plain (c ∷ f) g cs h =
      let plain : step c (unquoted rs cur g s) ≡ unquoted rs cur (g ++ c ∷ []) s = ground arith in
      let rest : any is_special f ≡ false = ground arith in
      rw (loop-unquoted, plain, ← append_assoc g (c ∷ []) f) (loop-plain f (g ++ c ∷ []) cs rest)

or_true : (b : Bool) → (b || true) ≡ true
or_true true = refl
or_true false = refl

or_false : (b : Bool) → (b || false) ≡ b
or_false true = refl
or_false false = refl

-- A written field, whatever ends it, is read as the field.
loop-write_field :
    (rs : List (List Text)) (cur : List Text) (s : Bool) (f : Text) (d : ℕ) (cs : Text)
    → (d == quote) ≡ false
    → loop (write_field f ++ d ∷ cs) (unquoted rs cur [] s)
      ≡ loop (d ∷ cs) (unquoted rs cur f (s || any is_special f))
unfolding write_field step
loop-write_field rs cur s f d cs h = elim (Bool-cases (any is_special f)) [
  | inl e ↦
      rw (e, or_true, loop-unquoted rs cur s, append_assoc (double_quotes f) (quote ∷ []) (d ∷ cs))
        (loop-double_quotes rs cur true f [] d cs h)
  | inr e ↦ rw (e, or_false) (loop-plain rs cur s f [] (d ∷ cs) e)
]

loop-comma :
    (rs : List (List Text)) (cur : List Text) (f : Text) (s : Bool) (cs : Text)
    → loop (comma ∷ cs) (unquoted rs cur f s) ≡ loop cs (unquoted rs (cur ++ f ∷ []) [] true)
unfolding step
loop-comma rs cur f s cs = rw loop-unquoted

-- At the end of a line with something on it the record is stored.
loop-line_end :
    (rs : List (List Text)) (cur : List Text) (f : Text) (s : Bool) (cs : Text)
    → has_record (unquoted rs cur f s) ≡ true
    → loop (carriage_return ∷ newline ∷ cs) (unquoted rs cur f s)
      ≡ loop cs (unquoted (rs ++ (cur ++ f ∷ []) ∷ []) [] [] false)
unfolding step
loop-line_end rs cur f s cs h =
    loop-unquoted rs cur s carriage_return (newline ∷ cs) f
    ∙ loop-unquoted rs cur s newline cs f
    ∙ ap (loop cs) (rw h refl)

-- What stands behind a written field does not begin with a quote.
after_field :
    (fs : List Text) (cs : Text)
    → (d : ℕ) × (rest : Text) × (write_more fs ++ carriage_return ∷ newline ∷ cs ≡ d ∷ rest)
      × ((d == quote) ≡ false)
unfolding write_more
after_field [] cs = (carriage_return, newline ∷ cs, refl, refl)
after_field (g ∷ fs) cs = (comma, _, refl, refl)

-- The fields behind a field, and the end of the line.
loop-write_more :
    (fs : List Text) (rs : List (List Text)) (cur : List Text) (f : Text) (s : Bool) (cs : Text)
    → (has_record (unquoted rs cur f s) || not (is_empty fs)) ≡ true
    → loop (write_more fs ++ carriage_return ∷ newline ∷ cs) (unquoted rs cur f s)
      ≡ loop cs (unquoted (rs ++ (cur ++ f ∷ fs) ∷ []) [] [] false)
unfolding write_more
loop-write_more [] rs cur f s cs h = loop-line_end rs cur f s cs (sym (or_false _) ∙ h)
loop-write_more (g ∷ fs) rs cur f s cs h =
    let tail = carriage_return ∷ newline ∷ cs in
    let cur' = cur ++ f ∷ [] in
    let (d, rest, e, n) = after_field fs cs in
    let field : loop (write_field g ++ (write_more fs ++ tail)) (unquoted rs cur' [] true)
        ≡ loop (write_more fs ++ tail) (unquoted rs cur' g true) =
      rw e (loop-write_field rs cur' true g d rest n) in
    loop-comma rs cur f s ((write_field g ++ write_more fs) ++ tail)
    ∙ ap (λ w. loop w (unquoted rs cur' [] true))
        (append_assoc (write_field g) (write_more fs) tail)
    ∙ field
    ∙ loop-write_more fs rs cur' g true cs (unfold has_record in refl)
    ∙ ap (λ w. loop cs (unquoted (rs ++ w ∷ []) [] [] false)) (append_assoc cur (f ∷ []) (g ∷ fs))

-- A record that the format can tell from a blank line: not empty, and not a single empty field.
abbrev pub IsWritable : List Text → Type 0
IsWritable [] = ⊥
IsWritable (f ∷ fs) = (not (is_empty f) || not (is_empty fs)) ≡ true

regroup :
    (a b cs : Text)
    → ((a ++ b) ++ carriage_return ∷ newline ∷ []) ++ cs
      ≡ a ++ (b ++ carriage_return ∷ newline ∷ cs)
regroup a b cs = simp append_assoc

has_record-first :
    (q : Bool) (f : Text) (fs : List Text) (rs : List (List Text))
    → IsWritable (f ∷ fs)
    → (has_record (unquoted rs [] f q) || not (is_empty fs)) ≡ true
unfolding has_record
has_record-first true f fs rs h = refl
has_record-first false f fs rs h = ground arith

loop-write_record :
    (r : List Text) (rs : List (List Text)) (cs : Text)
    → IsWritable r
    → loop (write_record r ++ cs) (unquoted rs [] [] false)
      ≡ loop cs (unquoted (rs ++ r ∷ []) [] [] false)
unfolding write_record write_fields
loop-write_record [] rs cs h = absurd h
loop-write_record (f ∷ fs) rs cs h =
    let tail = carriage_return ∷ newline ∷ cs in
    let q = any is_special f in
    let (d, rest, e, n) = after_field fs cs in
    let field : loop (write_field f ++ (write_more fs ++ tail)) (unquoted rs [] [] false)
        ≡ loop (write_more fs ++ tail) (unquoted rs [] f q) =
      rw e (loop-write_field rs [] false f d rest n) in
    ap (λ w. loop w (unquoted rs [] [] false)) (regroup (write_field f) (write_more fs) cs)
    ∙ field
    ∙ loop-write_more fs rs [] f q cs (has_record-first q f fs rs h)

pub write_all : List (List Text) → Text
write_all [] = []
write_all (r ∷ rs) = write_record r ++ write_all rs

loop-write_all :
    (rs done : List (List Text))
    → All IsWritable rs
    → loop (write_all rs) (unquoted done [] [] false) ≡ unquoted (done ++ rs) [] [] false
unfolding write_all
loop-write_all [] done h = unfold loop in rw append-nil refl
loop-write_all (r ∷ rs) done (h, hs) =
    loop-write_record r done (write_all rs) h
    ∙ loop-write_all rs (done ++ r ∷ []) hs
    ∙ ap (λ w. unquoted w [] [] false) (append_assoc done (r ∷ []) rs)

-- Records that are not empty and not a single empty field are read back as they were written, with
-- any characters in their fields.
pub parse_records-write_all :
    (rs : List (List Text)) → All IsWritable rs → parse_records (write_all rs) ≡ rs
parse_records-write_all rs h = unfold parse_records in ap finish (loop-write_all rs [] h)

loop-write_all_then :
    (rs done : List (List Text)) (cs : Text)
    → All IsWritable rs
    → loop (write_all rs ++ cs) (unquoted done [] [] false)
      ≡ loop cs (unquoted (done ++ rs) [] [] false)
unfolding write_all
loop-write_all_then [] done cs h = rw append-nil refl
loop-write_all_then (r ∷ rs) done cs (h, hs) =
    ap (λ w. loop w (unquoted done [] [] false)) (append_assoc (write_record r) (write_all rs) cs)
    ∙ loop-write_record r done (write_all rs ++ cs) h
    ∙ loop-write_all_then rs (done ++ r ∷ []) cs hs
    ∙ ap (λ w. loop cs (unquoted w [] [] false)) (append_assoc done (r ∷ []) rs)

-- A record of one empty field, written behind records that are not empty and not themselves a single
-- empty field, is not read back: only the others are.
pub parse_records-blank_lost :
    (rs : List (List Text))
    → All IsWritable rs
    → parse_records (write_all rs ++ write_record ([] ∷ [])) ≡ rs
unfolding parse_records write_record write_fields write_more write_field
parse_records-blank_lost rs h =
    ap finish (loop-write_all_then rs [] (carriage_return ∷ newline ∷ []) h)
