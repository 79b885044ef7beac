-- ===== src/Sass/Picked.antt =====
-- `hot_loop` of src/nvidia/sass.rs returns the largest loop.
use mathlib.Core.Path.{subst}
use calx_mill.Base.{
  ℕ, suc, ◌+◌, ◌^◌, ◌≤◌, ◌≡◌, inr, refl, ap, ◌∙◌, Option, none, List, [], ◌∷◌, length, get_elem?,
  All, arith, if-both,
}
use calx_mill.Base.Result.{◌>>=◌}
use calx_mill.Base.Text.{codes, text_eq}
use calx_mill.Sass.Functions.{Instr}
use calx_mill.Sass.HotLoop.{bra_target, backward, loop_start, better, loop_from, hot_loop}
use calx_mill.Sass.Largest.{Ascending, IsBest, better-IsBest}

-- The targets of the branches are 64-bit numbers.
unfoldable pub Readable : List Instr → Type 0
Readable instrs = All (λ x. (o : Option ℕ) × (bra_target x.text ≡ inr o)) instrs

backward-total :
    (instrs : List Instr) (x : Instr) (o : Option ℕ)
    → bra_target x.text ≡ inr o
    → (found : Option ℕ) × (backward instrs x ≡ inr found)
unfolding backward ◌>>=◌
backward-total instrs x o e =
    if-both (λ r. (found : Option ℕ) × (r ≡ inr found)) (text_eq x.base (codes "BRA"))
      (λ _. (loop_start instrs x.addr o, rw e refl)) (λ _. (none, refl))

module _ (instrs : List Instr) (ascend : Ascending instrs) (short : length instrs ≤ 2 ^ 64) where
  loop_from-IsBest :
      (rest : List Instr) (n : ℕ) (best : Option (ℕ × ℕ))
      → ((k : ℕ) → get_elem? instrs (n + k) ≡ get_elem? rest k)
      → n + length rest ≡ length instrs
      → Readable rest
      → IsBest instrs n best
      → (out : Option (ℕ × ℕ)) × ((loop_from instrs n rest best ≡ inr out)
          × IsBest instrs (length instrs) out)
  unfolding loop_from Readable ◌>>=◌
  loop_from-IsBest [] n best at whole r b =
      (best, (refl, subst (λ m. IsBest instrs m best) (omega (arith, whole)) b))
  loop_from-IsBest (x ∷ rest) n best at whole ((o, e), r) b =
      let (found, f) = backward-total instrs x o e in
      let (out, (ran, good)) =
        loop_from-IsBest rest (suc n) (better best n found)
          (λ k. ap (get_elem? instrs) (omega arith) ∙ at (suc k)) (omega (arith, whole)) r
          (better-IsBest instrs ascend short n x (ap (get_elem? instrs) (omega arith) ∙ at 0) best
            found f b) in
      (out, (ap (λ r. r >>= (λ j. loop_from instrs (suc n) rest (better best n j))) f ∙ ran, good))

-- On instructions whose addresses ascend, and whose targets are 64-bit numbers, the search gives a
-- result. It is none exactly when no branch goes back to the address of an instruction. Else it is
-- the body of such a branch, none is larger, and of those of its size it is the first.
pub hot_loop-IsBest :
    (instrs : List Instr)
    → Ascending instrs
    → length instrs ≤ 2 ^ 64
    → Readable instrs
    → (best : Option (ℕ × ℕ)) × ((hot_loop instrs ≡ inr best) × IsBest instrs (length instrs) best)
unfolding hot_loop IsBest
hot_loop-IsBest instrs ascend short readable =
    loop_from-IsBest instrs ascend short instrs 0 none (λ k. ap (get_elem? instrs) (omega arith))
      (omega arith) readable (λ j i before l. omega (arith, before))
