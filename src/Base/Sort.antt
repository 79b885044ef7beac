-- ===== src/Base/Sort.antt =====
-- Stable sorting, as `sort_by` and `sort`, the order of texts, and `dedup`.
use mathlib.Core.Path.{◌≡◌, refl}
use mathlib.Core.Logic.{◌⊎◌, inl, inr}
use mathlib.Core.Bool.{Bool, true, false, ◌&&◌, ◌||◌}
use mathlib.Core.List.{List, [], ◌∷◌, Perm, Memᴰ}
use mathlib.Core.List.Memᴰ.{head, tail}
use mathlib.Core.List.Memᴰ
use mathlib.Core.List.Perm
use native.Mathlib.Omega.{arith}
use calx_mill.Base.Tests.{ltb, ◌==◌, if◌then◌else◌, if-both}
use calx_mill.Base.Lists.{All}
use calx_mill.Base.Text.{Text, text_eq}

module _ {ℓ} {A : Type ℓ} (le : A → A → Bool) where
  -- In front of the first that is not smaller.
  unfoldable pub insert_by : A → List A → List A
  insert_by x [] = x ∷ []
  insert_by x (y ∷ ys) = let rest = insert_by x ys in if le x y then x ∷ y ∷ ys else y ∷ rest

  unfoldable pub sort_by : List A → List A
  unfolding insert_by
  sort_by [] = []
  sort_by (x ∷ xs) = insert_by x (sort_by xs)

  pub insert_by-perm : (x : A) (ys : List A) → Perm (insert_by x ys) (x ∷ ys)
  unfolding insert_by
  insert_by-perm x [] = Perm.rfl
  insert_by-perm x (y ∷ ys) =
      if-both (λ l. Perm l (x ∷ y ∷ ys)) (le x y) (λ _. Perm.rfl)
        (λ _. Perm.trans (Perm.cons y (insert_by-perm x ys)) (Perm.swap x y ys))

  pub sort_by-perm : (xs : List A) → Perm (sort_by xs) xs
  unfolding sort_by
  sort_by-perm [] = Perm.rfl
  sort_by-perm (x ∷ xs) = Perm.trans (insert_by-perm x (sort_by xs)) (Perm.cons x (sort_by-perm xs))

  -- Each element is below all that follow it.
  abbrev pub Ordered : List A → Type 0
  Ordered [] = Unit
  Ordered (x ∷ xs) = All (λ y. le x y ≡ true) xs × Ordered xs

module _ {ℓ} {A : Type ℓ} (le : A → A → Bool)
    (total : (x y : A) → (le x y ≡ true) ⊎ (le y x ≡ true))
    (trans : (x y z : A) → le x y ≡ true → le y z ≡ true → le x z ≡ true) where
  All-trans :
      (x y : A) (zs : List A)
      → le x y ≡ true
      → All (λ z. le y z ≡ true) zs
      → All (λ z. le x z ≡ true) zs
  All-trans x y [] h a = tt
  All-trans x y (z ∷ zs) h (a, as') = (trans x y z h a, All-trans x y zs h as')

  All-insert_by :
      (w x : A) (ys : List A)
      → le w x ≡ true
      → All (λ z. le w z ≡ true) ys
      → All (λ z. le w z ≡ true) (insert_by le x ys)
  unfolding insert_by
  All-insert_by w x [] h a = (h, tt)
  All-insert_by w x (y ∷ ys) h (a, more) =
      if-both (All (λ z. le w z ≡ true)) (le x y) (λ _. (h, (a, more)))
        (λ _. (a, All-insert_by w x ys h more))

  other_way : (x y : A) → le x y ≡ false → le y x ≡ true
  other_way x y h = elim (total x y) [ inl g ↦ cc | inr g ↦ g ]

  insert_by-Ordered : (x : A) (ys : List A) → Ordered le ys → Ordered le (insert_by le x ys)
  unfolding insert_by
  insert_by-Ordered x [] o = (tt, tt)
  insert_by-Ordered x (y ∷ ys) (a, o) =
      if-both (Ordered le) (le x y) (λ h. ((h, All-trans x y ys h a), (a, o)))
        (λ h. (All-insert_by y x ys (other_way x y h) a, insert_by-Ordered x ys o))

  pub sort_by-Ordered : (xs : List A) → Ordered le (sort_by le xs)
  unfolding sort_by
  sort_by-Ordered [] = tt
  sort_by-Ordered (x ∷ xs) = insert_by-Ordered x (sort_by le xs) (sort_by-Ordered xs)

-- The order of texts, by their characters.
unfoldable pub text_leb : Text → Text → Bool
text_leb [] t = true
text_leb (c ∷ cs) [] = false
text_leb (c ∷ cs) (d ∷ ds) = ltb c d || (c == d && text_leb cs ds)

pub text_leb_total : (s t : Text) → (text_leb s t ≡ true) ⊎ (text_leb t s ≡ true)
unfolding text_leb
text_leb_total [] t = inl refl
text_leb_total (c ∷ cs) [] = inr refl
text_leb_total (c ∷ cs) (d ∷ ds) = ground (arith, text_leb_total cs ds)

pub text_leb_trans :
    (s t u : Text) → text_leb s t ≡ true → text_leb t u ≡ true → text_leb s u ≡ true
unfolding text_leb
text_leb_trans [] t u h k = refl
text_leb_trans (c ∷ cs) [] u h k = cc
text_leb_trans (c ∷ cs) (d ∷ ds) [] h k = cc
text_leb_trans (c ∷ cs) (d ∷ ds) (e ∷ es) h k = ground (arith, text_leb_trans cs ds es)

-- `dedup`: of equal neighbours the first.
unfoldable pub dedup : List Text → List Text
dedup [] = []
dedup (t ∷ []) = t ∷ []
dedup (t ∷ u ∷ us) = let rest = dedup (u ∷ us) in if text_eq t u then rest else t ∷ rest

-- What all elements have, all have when sorted.
module _ {ℓ κ} {A : Type ℓ} (le : A → A → Bool) (P : A → Type κ) where
  insert_by-All : (x : A) (ys : List A) → P x → All P ys → All P (insert_by le x ys)
  unfolding insert_by
  insert_by-All x [] p h = (p, tt)
  insert_by-All x (y ∷ ys) p (q, qs) =
      if-both (All P) (le x y) (λ _. (p, (q, qs))) (λ _. (q, insert_by-All x ys p qs))

  pub sort_by-All : (xs : List A) → All P xs → All P (sort_by le xs)
  unfolding sort_by
  sort_by-All [] h = tt
  sort_by-All (x ∷ xs) (p, ps) = insert_by-All x (sort_by le xs) p (sort_by-All xs ps)

  insert_by-All_back : (x : A) (ys : List A) → All P (insert_by le x ys) → P x × All P ys
  unfolding insert_by
  insert_by-All_back x [] (p, h) = (p, tt)
  insert_by-All_back x (y ∷ ys) h =
      if-both (λ l. All P l → P x × All P (y ∷ ys)) (le x y) (λ _ (p, h). (p, h))
        (λ _ (q, h). let (p, qs) = insert_by-All_back x ys h in (p, (q, qs))) h

  pub All-sort_by : (xs : List A) → All P (sort_by le xs) → All P xs
  unfolding sort_by
  All-sort_by [] h = tt
  All-sort_by (x ∷ xs) h =
      let (p, ps) = insert_by-All_back x (sort_by le xs) h in (p, All-sort_by xs ps)

-- An element of the sorted list is one of the list.
module _ {ℓ} {A : Type ℓ} (le : A → A → Bool) where
  behind_head : (x y z : A) (zs : List A) → Memᴰ x (y ∷ zs) → Memᴰ x (y ∷ z ∷ zs)
  behind_head x y z zs (head e) = head e
  behind_head x y z zs (tail d) = tail (tail d)

  insert_by-mem : (x y : A) (ys : List A) → Memᴰ x (insert_by le y ys) → Memᴰ x (y ∷ ys)
  unfolding insert_by
  insert_by-mem x y [] d = d
  insert_by-mem x y (z ∷ zs) d =
      if-both (λ l. Memᴰ x l → Memᴰ x (y ∷ z ∷ zs)) (le y z) (λ _ d. d)
        (λ _ d. elim (Memᴰ.cases_cons d) [
          | inl e ↦ tail (head e)
          | inr later ↦ behind_head x y z zs (insert_by-mem x y zs later)
        ])
        d

  pub sort_by-mem : (x : A) (xs : List A) → Memᴰ x (sort_by le xs) → Memᴰ x xs
  unfolding sort_by
  sort_by-mem x [] d = d
  sort_by-mem x (y ∷ ys) d = elim (Memᴰ.cases_cons (insert_by-mem x y (sort_by le ys) d)) [
    | inl e ↦ head e
    | inr later ↦ tail (sort_by-mem x ys later)
  ]
