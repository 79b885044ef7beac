-- ===== src/Validity/OwnPoint.antt =====
-- When as many pairs of keys and values as an anchor has, each one of the anchor's, are the anchor's
-- own point. `computed_fit` of src/validity.rs tests no more.
use mathlib.Core.List.{Memᴰ}
use mathlib.Core.List.Memᴰ.{head, tail}
use mathlib.Core.List.Memᴰ
use mathlib.Core.Path.{subst}
use calx_mill.Base.{
  suc, ◌≡◌, ◌⊎◌, refl, sym, ap, ◌∙◌, inl, inr, false, List, [], ◌∷◌, length, any, All, Bool-cases,
  false≢true, arith,
}
use calx_mill.Base.Scan.{any_iff, or_false}
use calx_mill.Base.Text.{Text, text_eq, text_eq_iff}

abbrev Pair : Type 0
Pair = Text × Text

-- Two pairs have one key.
unfoldable pub RepeatsKey : List (Text × Text) → Type 0
RepeatsKey [] = ⊥
RepeatsKey (kv ∷ query) = ((p : Text × Text) × Memᴰ p query × (p.0 ≡ kv.0)) ⊎ RepeatsKey query

-- The second list is the first without one occurrence of the element.
data Without (a : Pair) : List Pair → List Pair → Type 0 where
  here : {xs : List Pair} → Without a (a ∷ xs) xs
  there : {x : Pair} {xs ys : List Pair} → Without a xs ys → Without a (x ∷ xs) (x ∷ ys)

Without-cons :
    {a x : Pair} {xs : List Pair}
    → ((ys : List Pair) × Without a xs ys)
    → (ys : List Pair) × Without a (x ∷ xs) ys
Without-cons {x = x} (ys, w) = (x ∷ ys, there w)

mem-Without : {a : Pair} {xs : List Pair} → Memᴰ a xs → (ys : List Pair) × Without a xs ys
mem-Without {a} (head {x = x} {xs = xs} e) = (xs, subst (λ z. Without a (z ∷ xs) xs) e here)
mem-Without (tail m) = Without-cons (mem-Without m)

length-Without : {a : Pair} {xs ys : List Pair} → Without a xs ys → length xs ≡ suc (length ys)
length-Without here = refl
length-Without (there w) = ap (λ n. suc n) (length-Without w)

All-Without :
    (P : Pair → Type 0) {a : Pair} {xs ys : List Pair} → Without a xs ys → P a → All P ys → All P xs
All-Without P here p ps = (p, ps)
All-Without P (there w) p (q, ps) = (q, All-Without P w p ps)

mem_rest : {a z : Pair} {xs ys : List Pair} → Without a xs ys → Memᴰ z xs → (z ≡ a) ⊎ Memᴰ z ys
mem_rest here m = elim (Memᴰ.cases_cons m) [ inl e ↦ inl e | inr t ↦ inr t ]
mem_rest (there w) m = elim (Memᴰ.cases_cons m) [
  | inl e ↦ inr (head e)
  | inr t ↦ elim (mem_rest w t) [ inl e ↦ inl e | inr u ↦ inr (tail u) ]
]

module _ (R : Pair → Pair → Type 0) (same_key : (a kv : Pair) → R a kv → a.0 ≡ kv.0) where
  -- Every pair of the query stands for one of the point, and every pair of the point for one of the
  -- query.
  abbrev pub Found : List Pair → Pair → Type 0
  Found at kv = (a : Pair) × Memᴰ a at × R a kv

  abbrev pub Asked : List Pair → Pair → Type 0
  Asked query a = (kv : Pair) × Memᴰ kv query × R a kv

  found_in_rest :
      (a kv : Pair) {at rest : List Pair}
      → Without a at rest
      → a.0 ≡ kv.0
      → (query : List Pair) → any (λ p. text_eq p.0 kv.0) query ≡ false
      → All (Found at) query
      → All (Found rest) query
  found_in_rest a kv w e [] other found = tt
  found_in_rest a kv w e (p ∷ query) other ((b, m, r), found) =
      let (unlike, later) = or_false other in
      (
        elim (mem_rest w m) [
          | inl same ↦
              elim (false≢true (
                sym unlike
                ∙ (text_eq_iff p.0 kv.0).1
                    (sym (ap (λ (q : Pair). q.0) (sym same) ∙ same_key b p r) ∙ e))) [ ]
          | inr rest ↦ (b, rest, r)
        ],
        found_in_rest a kv w e query later found,
      )

  in_longer :
      (kv : Pair) (query at : List Pair) → All (Asked query) at → All (Asked (kv ∷ query)) at
  in_longer kv query [] asked = tt
  in_longer kv query (a ∷ at) ((p, m, r), asked) = ((p, tail m, r), in_longer kv query at asked)

  -- Without a repeated key the query is the whole point.
  pub repeats_or_whole :
      (query at : List Pair)
      → length query ≡ length at
      → All (Found at) query
      → RepeatsKey query ⊎ All (Asked query) at
  unfolding RepeatsKey
  repeats_or_whole [] [] h found = inr tt
  repeats_or_whole [] (a ∷ at) h found = absurd (omega arith)
  repeats_or_whole (kv ∷ query) at h ((a, m, r), found) =
      elim (Bool-cases (any (λ p. text_eq p.0 kv.0) query)) [
        | inl again ↦ inl (inl ((any_iff _ (λ p. text_eq_iff p.0 kv.0) query).0 again))
        | inr once ↦
            let (rest, w) = mem-Without m in
            elim (repeats_or_whole query rest (omega (arith, length-Without w))
              (found_in_rest a kv w (same_key a kv r) query once found)) [
                | inl again ↦ inl (inr again)
                | inr asked ↦ inr (
                    All-Without (Asked (kv ∷ query)) w (kv, head refl, r)
                      (in_longer kv query rest asked))
              ]
      ]
