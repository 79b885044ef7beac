-- ===== src/MkTable/PriorOf.antt =====
-- Which prior src/nvidia/mktable.rs holds against a row, said without its search.
use calx_mill.Base.{
  ◌≡◌, ◌≢◌, ◌⊎◌, ◌↔◌, All, refl, sym, ap, ◌∙◌, inl, inr, Bool, true, false, not, ◌||◌, Option, none,
  some, List, [], ◌∷◌, ◌++◌, any, if-both, Bool-cases, false≢true,
}
use calx_mill.Base.Scan.{both_iff, or_false}
use calx_mill.Base.Text.{Text, codes, text_eq, text_eq_iff}
use calx_mill.Csv.Reader.{is_empty}
use calx_mill.Projection.Tables.{lookup}
use calx_mill.MkTable.Rows.{Prior}
use calx_mill.MkTable.Judge.{Priors, bare_prior, base_variants, is_other_variant, prior_for}

-- The value of the first entry with the key, where there is one.
pub data Finds {A : Type 0} (key : Text) : List (Text × A) → Option A → Type 0 where
  missing : Finds key [] none
  first :
      {k : Text} {v : A} {entries : List (Text × A)}
      → k ≡ key
      → Finds key ((k, v) ∷ entries) (some v)
  later :
      {k : Text} {v : A} {entries : List (Text × A)} {o : Option A}
      → k ≢ key
      → Finds key entries o
      → Finds key ((k, v) ∷ entries) o

lookup-Finds :
    {A : Type 0} (entries : List (Text × A)) (key : Text) → Finds key entries (lookup entries key)
unfolding lookup
lookup-Finds [] key = missing
lookup-Finds ((k, v) ∷ entries) key =
    if-both (Finds key ((k, v) ∷ entries)) (text_eq k key) (λ e. first ((text_eq_iff k key).0 e))
      (λ e.
        later (λ same. false≢true (sym e ∙ (text_eq_iff k key).1 same)) (lookup-Finds entries key))

-- A latency of a variant that is not one of the base: the row's prior does not speak of it.
abbrev pub OtherVariant : Text → Text → Type 0
OtherVariant kind variant =
    (variant ≢ [])
    × (((kind ≡ codes "latency_cycles") ⊎ (kind ≡ codes "latency_ns"))
        × All (λ b. b ≢ variant)
            ([] ∷ codes "l1hit" ∷ codes "broadcast" ∷ codes "conflict1" ∷ codes "derived" ∷ []))

some_text : (variant : Text) → (not (is_empty variant) ≡ true) ↔ (variant ≢ [])
some_text [] = (λ h. elim (false≢true h) [ ], λ n. elim (n refl) [ ])
some_text (c ∷ cs) = (λ h e. cc, λ n. refl)

neither : {a b : Bool} → a ≡ false → b ≡ false → (a || b) ≡ false
neither {a} {b} e f = ap (λ c. c || b) e ∙ f

unlike : (b variant : Text) → (text_eq b variant ≡ false) ↔ (b ≢ variant)
unlike b variant = (
  λ h e. false≢true (sym h ∙ (text_eq_iff b variant).1 e),
  λ n. elim (Bool-cases (text_eq b variant)) [
    | inl e ↦ elim (n ((text_eq_iff b variant).0 e)) [ ]
    | inr e ↦ e
  ],
)

none_among :
    (variant : Text) (bs : List Text)
    → (any (λ b. text_eq b variant) bs ≡ false) ↔ All (λ b. b ≢ variant) bs
none_among variant [] = (λ h. tt, λ u. refl)
none_among variant (b ∷ bs) = (
  λ h. let (now, rest) = or_false h in ((unlike b variant).0 now, (none_among variant bs).0 rest),
  λ (now, rest). neither ((unlike b variant).1 now) ((none_among variant bs).1 rest),
)

not_iff : {b : Bool} {P : Type 0} → (b ≡ false) ↔ P → (not b ≡ true) ↔ P
not_iff {b = true} e = (λ h. elim (false≢true h) [ ], λ p. elim (false≢true (sym (e.1 p))) [ ])
not_iff {b = false} e = (λ h. e.0 refl, λ p. refl)

or_iff : {a b : Bool} {P Q : Type 0} → (a ≡ true) ↔ P → (b ≡ true) ↔ Q → ((a || b) ≡ true) ↔ (P ⊎ Q)
or_iff {a = true} p q = (λ h. inl (p.0 refl), λ s. refl)
or_iff {a = false} p q =
    (λ h. inr (q.0 h), λ s. elim s [ inl x ↦ elim (false≢true (p.1 x)) [ ] | inr y ↦ q.1 y ])

other_iff :
    (kind variant : Text) → (is_other_variant kind variant ≡ true) ↔ OtherVariant kind variant
unfolding is_other_variant base_variants
other_iff kind variant = both_iff (some_text variant) (
    both_iff
      (or_iff (text_eq_iff kind (codes "latency_cycles")) (text_eq_iff kind (codes "latency_ns")))
      (not_iff (none_among variant base_variants)))

-- The prior of the variant, or else that of the row, where it speaks of the variant.
pub data PriorOf (priors : Priors) (row_id kind variant : Text) : Option Prior → Type 0 where
  of_variant :
      {p : Prior}
      → Finds (row_id ++ (codes "." ++ variant)) priors (some p)
      → PriorOf priors row_id kind variant (some p)
  of_row :
      {o : Option Prior}
      → Finds (row_id ++ (codes "." ++ variant)) priors none
      → ¬ OtherVariant kind variant
      → Finds row_id priors o
      → PriorOf priors row_id kind variant o
  of_none :
      Finds (row_id ++ (codes "." ++ variant)) priors none
      → OtherVariant kind variant
      → PriorOf priors row_id kind variant none

bare_prior-PriorOf :
    (priors : Priors) (row_id kind variant : Text)
    → Finds (row_id ++ (codes "." ++ variant)) priors none
    → PriorOf priors row_id kind variant (bare_prior kind variant (lookup priors row_id))
unfolding bare_prior
bare_prior-PriorOf priors row_id kind variant f =
    if-both (PriorOf priors row_id kind variant) (is_other_variant kind variant)
      (λ e. of_none f ((other_iff kind variant).0 e))
      (λ e.
        of_row f (λ other. false≢true (sym e ∙ (other_iff kind variant).1 other))
          (lookup-Finds priors row_id))

by_variant :
    (priors : Priors) (row_id kind variant : Text) (o : Option Prior)
    → Finds (row_id ++ (codes "." ++ variant)) priors o
    → PriorOf priors row_id kind variant
        (elim o [ some p ↦ some p | none ↦ bare_prior kind variant (lookup priors row_id) ])
by_variant priors row_id kind variant none f = bare_prior-PriorOf priors row_id kind variant f
by_variant priors row_id kind variant (some p) f = of_variant f

pub prior_for-PriorOf :
    (priors : Priors) (row_id kind variant : Text)
    → PriorOf priors row_id kind variant (prior_for priors row_id kind variant)
unfolding prior_for
prior_for-PriorOf priors row_id kind variant =
    by_variant priors row_id kind variant _ (lookup-Finds priors _)
