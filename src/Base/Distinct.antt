-- ===== src/Base/Distinct.antt =====
-- Lists without repetitions.
use mathlib.Core.Logic.{◌≢◌}
use mathlib.Core.List.{List, [], ◌∷◌, ◌++◌}
use calx_mill.Base.Lists.{All, All-append}

-- No two elements are the same.
module _ {A : Type 0} where
  unfoldable pub Distinct : List A → Type 0
  Distinct [] = Unit
  Distinct (x ∷ xs) = All (λ y. x ≢ y) xs × Distinct xs

  pub Distinct-push :
      (xs : List A) (x : A) → Distinct xs → All (λ y. y ≢ x) xs → Distinct (xs ++ x ∷ [])
  unfolding Distinct
  Distinct-push [] x d a = (tt, tt)
  Distinct-push (y ∷ ys) x (d, ds) (a, later) =
      (All-append (λ z. y ≢ z) ys (x ∷ []) d (a, tt), Distinct-push ys x ds later)
