-- ===== src/Base/Result.antt =====
-- `Result`, its `?` operator, and what a result has when it is no error.
use mathlib.Core.Path.{◌≡◌, refl, subst, ap, ◌∙◌}
use mathlib.Core.Logic.{◌⊎◌, inl, inr}
use mathlib.Core.Bool.{Bool, true, false}
use mathlib.Core.Option.{Option, none, some}
use calx_mill.Base.Tests.{if◌then◌else◌}

-- An error on the left, a value on the right.
abbrev pub Result {ℓ κ} : Type ℓ → Type κ → Type (ℓ ⊔ κ)
Result E A = E ⊎ A

module _ {ℓ κ ι} {E : Type ℓ} {A : Type κ} where
  infixl 5 ◌>>=◌
  unfoldable pub ◌>>=◌ : {B : Type ι} → Result E A → (A → Result E B) → Result E B
  inl e >>= k = inl e
  inr x >>= k = k x

module _ {ℓ κ} {E : Type ℓ} {A : Type κ} where
  unfoldable pub ok_or : Option A → E → Result E A
  ok_or none e = inl e
  ok_or (some x) e = inr x

  unfoldable pub Ensures : (A → Type 0) → Result E A → Type 0
  Ensures P (inl e) = Unit
  Ensures P (inr x) = P x

  pub Ensures-else :
      (P : A → Type 0) (b : Bool) (e : E) (r : Result E A)
      → (b ≡ false → Ensures P r)
      → Ensures P (if b then inl e else r)
  Ensures-else P true e r h = unfold Ensures in tt
  Ensures-else P false e r h = h refl

  pub ensured : (P : A → Type 0) (r : Result E A) {x : A} → Ensures P r → r ≡ inr x → P x
  unfolding Ensures
  ensured P r h e = subst (Ensures P) e h

  pub Ensures-map :
      (P Q : A → Type 0) (r : Result E A) → ((x : A) → P x → Q x) → Ensures P r → Ensures Q r
  unfolding Ensures
  Ensures-map P Q (inl e) f h = tt
  Ensures-map P Q (inr x) f h = f x h

pub Ensures-inr {ℓ κ} :
    (E : Type ℓ) {A : Type κ} (P : A → Type 0) (x : A) → P x → Ensures {E = E} P (inr x)
unfolding Ensures
Ensures-inr E P x h = h

module _ {ℓ κ} {E : Type ℓ} {A : Type κ} where
  pub inr_back : {x y : A} → ◌≡◌ {A = Result E A} (inr x) (inr y) → x ≡ y
  inr_back h = cc

module _ {ℓ κ ι} {E : Type ℓ} {A : Type κ} {B : Type ι} where
  pub ensures :
      (P : B → Type 0) (r : Result E A) (k : A → Result E B)
      → ((x : A) → Ensures P (k x))
      → Ensures P (r >>= k)
  unfolding ◌>>=◌ Ensures
  ensures P (inl e) k h = tt
  ensures P (inr x) k h = h x

  -- The same, with what the first result has.
  pub Ensures-from :
      (Q : A → Type 0) (P : B → Type 0) (r : Result E A) (k : A → Result E B)
      → Ensures Q r
      → ((x : A) → Q x → Ensures P (k x))
      → Ensures P (r >>= k)
  unfolding ◌>>=◌ Ensures
  Ensures-from Q P (inl e) k q h = tt
  Ensures-from Q P (inr x) k q h = h x q

  -- A chain that has a value: what its first step had, and what the rest made of it.
  pub bind-inr :
      (r : Result E A) (k : A → Result E B) {y : B}
      → (r >>= k) ≡ inr y
      → (x : A) × ((r ≡ inr x) × (k x ≡ inr y))
  unfolding ◌>>=◌
  bind-inr (inl e) k h = cc
  bind-inr (inr x) k h = (x, (refl, h))

  pub inr-bind :
      (r : Result E A) (k : A → Result E B) (x : A) {y : B}
      → r ≡ inr x
      → k x ≡ inr y
      → (r >>= k) ≡ inr y
  unfolding ◌>>=◌
  inr-bind (inl e) k x h f = cc
  inr-bind (inr z) k x h f = ap k (inr_back h) ∙ f

module _ {ℓ κ} {E : Type ℓ} {A : Type κ} where
  pub ok_or-inr : (o : Option A) (e : E) {x : A} → ok_or o e ≡ inr x → o ≡ some x
  unfolding ok_or
  ok_or-inr none e h = cc
  ok_or-inr (some y) e h = cc

module _ {ℓ κ ι} {E : Type ℓ} {A : Type κ} {B : Type ι} where
  -- The value does not depend on the error.
  pub ok_or-other :
      (o : Option A) (e f : E) (k : A → Result E B) {y : B}
      → (ok_or o e >>= k) ≡ inr y
      → (ok_or o f >>= k) ≡ inr y
  unfolding ok_or ◌>>=◌
  ok_or-other none e f k h = cc
  ok_or-other (some x) e f k h = h
