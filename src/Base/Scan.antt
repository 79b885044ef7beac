-- ===== src/Base/Scan.antt =====
-- What the tests of a whole list decide, and conjunctions of tests.
use mathlib.Core.Path.{◌≡◌, refl, sym, ap, ◌∙◌}
use mathlib.Core.Logic.{◌↔◌, ◌⊎◌, inl, inr}
use mathlib.Core.Bool.{Bool, true, false, not, ◌&&◌, ◌||◌, false≢true}
use mathlib.Core.List.{List, [], ◌∷◌, Memᴰ}
use mathlib.Core.List.Memᴰ.{head, tail}
use mathlib.Core.List.Memᴰ
use calx_mill.Base.Lists.{any, all, All}
use calx_mill.Base.Tests.{Bool-cases}

pub and_iff : {a b : Bool} → ((a && b) ≡ true) ↔ ((a ≡ true) × (b ≡ true))
and_iff {a = true} {b} = (λ h. (refl, h), λ (p, q). q)
and_iff {a = false} {b} = (λ h. elim (false≢true h) [ ], λ (p, q). p)

pub nor_iff : {a b : Bool} → (not (a || b) ≡ true) ↔ ((a ≡ false) × (b ≡ false))
nor_iff {a = true} {b} = (λ h. elim (false≢true h) [ ], λ (p, q). elim (false≢true (sym p)) [ ])
nor_iff {a = false} {b = true} =
    (λ h. elim (false≢true h) [ ], λ (p, q). elim (false≢true (sym q)) [ ])
nor_iff {a = false} {b = false} = (λ h. (refl, refl), λ h. refl)

pub or_false : {a b : Bool} → (a || b) ≡ false → (a ≡ false) × (b ≡ false)
or_false {a = true} {b} h = elim (false≢true (sym h)) [ ]
or_false {a = false} {b} h = (refl, h)

-- A conjunction of tests decides both of what they decide.
pub both_iff {ℓ κ} :
    {P : Type ℓ} {Q : Type κ} {a b : Bool}
    → (a ≡ true) ↔ P
    → (b ≡ true) ↔ Q
    → ((a && b) ≡ true) ↔ (P × Q)
both_iff p q = (λ h. let (x, y) = and_iff.0 h in (p.0 x, q.0 y), λ (x, y). and_iff.1 (p.1 x, q.1 y))

or_last : {a : Bool} → (a || false) ≡ true → a ≡ true
or_last {a = true} h = refl
or_last {a = false} h = h

any-tail : (a : Bool) {b : Bool} → b ≡ true → (a || b) ≡ true
any-tail true h = refl
any-tail false h = h

module _ {ℓ} {A : Type ℓ} where
  -- A test of some element, and a test of all of them, decide what the test of one decides.
  pub any-mem : (p : A → Bool) {x : A} {xs : List A} → Memᴰ x xs → p x ≡ true → any p xs ≡ true
  any-mem p (head {xs = l} e) h = ap (λ y. p y || any p l) (sym e) ∙ ap (λ b. b || any p l) h
  any-mem p (tail {x = b} d) h = any-tail (p b) (any-mem p d h)

  any-split :
      (p : A → Bool) (x : A) (xs : List A)
      → any p (x ∷ xs) ≡ true
      → (y : A) × Memᴰ y (x ∷ xs) × (p y ≡ true)
  any-split p x [] h = (x, head refl, or_last h)
  any-split p x (y ∷ ys) h = elim (Bool-cases (p x)) [
    | inl now ↦ (x, head refl, now)
    | inr other ↦
        let (z, d, e) = any-split p y ys (sym (ap (λ b. b || any p (y ∷ ys)) other) ∙ h) in
        (z, tail d, e)
  ]

  pub any_iff {κ} :
      {Q : A → Type κ} (p : A → Bool)
      → ((x : A) → (p x ≡ true) ↔ Q x)
      → (xs : List A) → (any p xs ≡ true) ↔ ((x : A) × Memᴰ x xs × Q x)
  any_iff p each [] = (λ h. elim (false≢true h) [ ], λ (x, d, h). elim (Memᴰ.not-nil d) [ ])
  any_iff p each (x ∷ xs) = (
    λ h. let (y, d, e) = any-split p x xs h in (y, d, (each y).0 e),
    λ (y, d, h). any-mem p d ((each y).1 h),
  )

  pub all_iff {κ} :
      {P : A → Type κ} (p : A → Bool)
      → ((x : A) → (p x ≡ true) ↔ P x)
      → (xs : List A) → (all p xs ≡ true) ↔ All P xs
  all_iff p each [] = (λ h. tt, λ u. refl)
  all_iff p each (x ∷ xs) = (
    λ h. let (now, later) = and_iff.0 h in ((each x).0 now, (all_iff p each xs).0 later),
    λ (now, later). and_iff.1 ((each x).1 now, (all_iff p each xs).1 later),
  )

pub or_true : {a b : Bool} → (a || b) ≡ true → (a ≡ true) ⊎ (b ≡ true)
or_true {a = true} {b} h = inl refl
or_true {a = false} {b} h = inr h
