-- ===== src/Projection/Tally.antt =====
-- What a `Census` of src/nvidia/projection.rs counts.
use mathlib.Core.List.{append_assoc, append-nil}
use mathlib.Core.Path.{subst}
use calx_mill.Base.{
  false_of_not, ℕ, ◌+◌, ◌%◌, ◌^◌, ◌<◌, ◌≡◌, ◌≢◌, refl, sym, ap, ◌∙◌, Bool, true, false, List, [],
  ◌∷◌, ◌++◌, if◌then◌else◌, map, All, if-both, Bool-cases, wrapping_add64, inl, inr, arith,
  false≢true,
}
use calx_mill.Base.Distinct.{Distinct, Distinct-push}
use calx_mill.Base.Text.{Text, text_eq, text_eq_iff}
use calx_mill.Projection.Census.{Census, add, add_all}

abbrev pub keys : Census → List Text
keys census = map (λ (item : Text × ℕ). item.0) census

-- The count of a key, 0 where it is not there.
unfoldable pub count_of : Text → Census → ℕ
count_of op [] = 0
count_of op ((k, n) ∷ items) = if text_eq k op then n else count_of op items

-- The sum of what is added under a key.
unfoldable pub sum_for : Text → List (Text × ℕ) → ℕ
sum_for op [] = 0
sum_for op ((k, n) ∷ adds) = if text_eq k op then n + sum_for op adds else sum_for op adds

has_key : Text → Census → Bool
has_key op [] = false
has_key op ((k, n) ∷ items) = if text_eq k op then true else has_key op items

-- What an addition adds to the keys.
new_key : Text → Census → List Text
unfolding has_key
new_key op census = if has_key op census then [] else op ∷ []

keys-add :
    (census : Census) (op : Text) (n : ℕ)
    → keys (add census op n) ≡ keys census ++ new_key op census
unfolding add new_key has_key
keys-add [] op n = refl
keys-add ((k, c) ∷ items) op n = elim (Bool-cases (text_eq k op)) [
  | inl h ↦ rw h (ap (λ ks. k ∷ ks) (sym (append-nil (keys items))))
  | inr h ↦ rw h (ap (λ ks. k ∷ ks) (keys-add items op n))
]

has_key-false :
    (op : Text) (census : Census) → has_key op census ≡ false → All (λ k. k ≢ op) (keys census)
unfolding has_key
has_key-false op [] h = tt
has_key-false op ((k, n) ∷ items) h =
    if-both (λ b. b ≡ false → All (λ key. key ≢ op) (k ∷ keys items)) (text_eq k op)
      (λ same e. elim (false≢true (sym e)) [ ])
      (λ other later.
        (λ e. false≢true (sym other ∙ (text_eq_iff k op).1 e), has_key-false op items later))
      h

add-Distinct :
    (census : Census) (op : Text) (n : ℕ)
    → Distinct (keys census)
    → Distinct (keys (add census op n))
unfolding new_key has_key
add-Distinct census op n d = subst Distinct (sym (keys-add census op n)) (
    if-both (λ ks. Distinct (keys census ++ ks)) (has_key op census)
      (λ _. subst Distinct (sym (append-nil (keys census))) d)
      (λ h. Distinct-push (keys census) op d (has_key-false op census h)))

text_eq_trans : (h op k : Text) → text_eq h op ≡ false → text_eq h k ≡ true → text_eq op k ≡ false
text_eq_trans h op k other same = false_of_not (λ e.
    false≢true
      (sym other ∙ (text_eq_iff h op).1 ((text_eq_iff h k).0 same ∙ sym ((text_eq_iff op k).0 e))))

-- The count of every key after an addition.
count_of-add :
    (census : Census) (op : Text) (n : ℕ) (k : Text)
    → n < 2 ^ 64
    → count_of k (add census op n)
      ≡ (if text_eq op k then wrapping_add64 (count_of k census) n else count_of k census)
unfolding add count_of
count_of-add [] op n k small = ground arith
count_of-add ((h, c) ∷ items) op n k small = elim (Bool-cases (text_eq h op)) [
  | inl same ↦ ground (arith, same, ap (λ t. text_eq t k) ((text_eq_iff h op).0 same))
  | inr other ↦ elim (Bool-cases (text_eq h k)) [
    | inl here ↦ ground (arith, other, here, text_eq_trans h op k other here)
    | inr there ↦ ground (arith, other, there, count_of-add items op n k small)
  ]
]

pub count_of-add_all :
    (adds : List (Text × ℕ)) (census : Census) (k : Text) (s : ℕ)
    → All (λ a. a.1 < 2 ^ 64) adds
    → count_of k census ≡ s % 2 ^ 64
    → count_of k (add_all census adds) ≡ (s + sum_for k adds) % 2 ^ 64
unfolding add_all sum_for
count_of-add_all [] census k s small e = ground (arith, e)
count_of-add_all ((op, n) ∷ adds) census k s (small, later) e =
    count_of-add_all adds (add census op n) k (if text_eq op k then s + n else s) later (
      count_of-add census op n k small
      ∙ if-both (λ (x : ℕ). x ≡ (if text_eq op k then s + n else s) % 2 ^ 64) (text_eq op k)
          (λ h. ground (arith, h, e)) (λ h. ground (arith, h, e)))
    ∙ ground arith

add_all-Distinct :
    (adds : List (Text × ℕ)) (census : Census)
    → Distinct (keys census)
    → Distinct (keys (add_all census adds))
unfolding add_all
add_all-Distinct [] census d = d
add_all-Distinct ((op, n) ∷ adds) census d =
    add_all-Distinct adds (add census op n) (add-Distinct census op n d)

-- The keys that are there stay, in their order.
keys-add_all :
    (adds : List (Text × ℕ)) (census : Census)
    → (later : List Text) × (keys (add_all census adds) ≡ keys census ++ later)
unfolding add_all
keys-add_all [] census = ([], sym (append-nil (keys census)))
keys-add_all ((op, n) ∷ adds) census =
    let (later, e) = keys-add_all adds (add census op n) in
    (
      new_key op census ++ later,
      e
          ∙ ap (λ ks. ks ++ later) (keys-add census op n)
          ∙ append_assoc (keys census) (new_key op census) later,
    )

pub add_all-append :
    (adds more : List (Text × ℕ)) (census : Census)
    → add_all census (adds ++ more) ≡ add_all (add_all census adds) more
unfolding add_all
add_all-append [] more census = refl
add_all-append ((op, n) ∷ adds) more census = add_all-append adds more (add census op n)

-- A census of additions of 64-bit counts has no key twice, and the count of each key is the sum of
-- what was added under it, modulo 2 ^ 64. Further additions leave the keys that are there in their
-- order, in front.
pub add_all_counts :
    (adds more : List (Text × ℕ))
    → All (λ a. a.1 < 2 ^ 64) adds
    → Distinct (keys (add_all [] adds))
      × ((op : Text) → count_of op (add_all [] adds) ≡ sum_for op adds % 2 ^ 64)
      × ((later : List Text) × (keys (add_all [] (adds ++ more)) ≡ keys (add_all [] adds) ++ later))
unfolding Distinct count_of
add_all_counts adds more small =
    let (later, e) = keys-add_all more (add_all [] adds) in
    (
      add_all-Distinct adds [] tt,
      (λ op. count_of-add_all adds [] op 0 small refl ∙ ap (λ (s : ℕ). s % 2 ^ 64) (omega arith)),
      (later, ap keys (add_all-append adds more []) ∙ e),
    )
