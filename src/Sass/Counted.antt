-- ===== src/Sass/Counted.antt =====
-- What `loop_mix` of src/nvidia/sass.rs counts.
use calx_mill.Base.{
  ℕ, suc, ◌+◌, ◌-◌, ◌%◌, ◌^◌, ◌<◌, ◌≤◌, ◌≡◌, inl, inr, refl, sym, ap, ◌∙◌, true, false, Option,
  none, some, List, [], ◌∷◌, ◌++◌, ltb, if◌then◌else◌, take, drop, length, All, arith, Bool-cases,
}
use calx_mill.Base.Result.{◌>>=◌}
use calx_mill.Base.Text.{Text, text_eq}
use calx_mill.Pattern.Syntax.{Pattern}
use calx_mill.Pattern.Search.{is_match}
use calx_mill.Projection.Census.{Census, add, add_all}
use calx_mill.Projection.Tally.{count_of, sum_for, add_all-append, count_of-add_all}
use calx_mill.Sass.Functions.{Instr, Function}
use calx_mill.Sass.HotLoop.{hot_loop}
use calx_mill.Sass.Largest.{Ascending, IsBest, IsLoop, IsLoop-before}
use calx_mill.Sass.Picked.{Readable, hot_loop-IsBest}
use calx_mill.Sass.Mix.{body_between, add_instrs, add_body, mix_function, mix_functions}

-- The hot loops of the functions whose names match, each from the branch's target to the branch.
pub data Bodies (kernel : Pattern) : List Function → List (List Instr) → Type 0 where
  done : Bodies kernel [] []
  skipped :
      {f : Function} {fs : List Function} {bodies : List (List Instr)}
      → is_match kernel f.name ≡ false
      → Bodies kernel fs bodies
      → Bodies kernel (f ∷ fs) bodies
  straight :
      {f : Function} {fs : List Function} {bodies : List (List Instr)}
      → is_match kernel f.name ≡ true
      → hot_loop f.instrs ≡ inr none
      → Bodies kernel fs bodies
      → Bodies kernel (f ∷ fs) bodies
  looped :
      {f : Function} {fs : List Function} {bodies : List (List Instr)}
      → (lo hi : ℕ) → is_match kernel f.name ≡ true
      → hot_loop f.instrs ≡ inr (some (lo, hi))
      → Bodies kernel fs bodies
      → Bodies kernel (f ∷ fs) (take (suc hi - lo) (drop lo f.instrs) ∷ bodies)

-- The instructions with a mnemonic base.
unfoldable pub with_base : Text → List Instr → ℕ
with_base op [] = 0
with_base op (x ∷ xs) = if text_eq x.base op then 1 + with_base op xs else with_base op xs

unfoldable pub with_base_in : Text → List (List Instr) → ℕ
with_base_in op [] = 0
with_base_in op (body ∷ bodies) = with_base op body + with_base_in op bodies

-- Addresses that ascend, at most 2 ^ 64 of them, and targets that are 64-bit numbers.
abbrev pub IsPlain : Function → Type 0
IsPlain f = Ascending f.instrs × ((length f.instrs ≤ 2 ^ 64) × Readable f.instrs)

ones : List Instr → List (Text × ℕ)
ones [] = []
ones (x ∷ xs) = (x.base, 1) ∷ ones xs

all_ones : List (List Instr) → List (Text × ℕ)
all_ones [] = []
all_ones (body ∷ bodies) = ones body ++ all_ones bodies

add_instrs-add_all : (xs : List Instr) (mix : Census) → add_instrs mix xs ≡ add_all mix (ones xs)
unfolding add_instrs add_all ones
add_instrs-add_all [] mix = refl
add_instrs-add_all (x ∷ xs) mix = add_instrs-add_all xs (add mix x.base 1)

ones-small :
    (xs : List Instr) (more : List (Text × ℕ))
    → All (λ a. a.1 < 2 ^ 64) more
    → All (λ a. a.1 < 2 ^ 64) (ones xs ++ more)
unfolding ones
ones-small [] more h = h
ones-small (x ∷ xs) more h = (omega arith, ones-small xs more h)

all_ones-small : (bodies : List (List Instr)) → All (λ a. a.1 < 2 ^ 64) (all_ones bodies)
unfolding all_ones
all_ones-small [] = tt
all_ones-small (body ∷ bodies) = ones-small body (all_ones bodies) (all_ones-small bodies)

sum_for-ones :
    (op : Text) (xs : List Instr) (more : List (Text × ℕ))
    → sum_for op (ones xs ++ more) ≡ with_base op xs + sum_for op more
unfolding ones sum_for with_base
sum_for-ones op [] more = omega arith
sum_for-ones op (x ∷ xs) more = ground (arith, sum_for-ones op xs more)

sum_for-all_ones :
    (op : Text) (bodies : List (List Instr)) → sum_for op (all_ones bodies) ≡ with_base_in op bodies
unfolding all_ones sum_for with_base_in
sum_for-all_ones op [] = refl
sum_for-all_ones op (body ∷ bodies) =
    sum_for-ones op body (all_ones bodies)
    ∙ ap (λ (s : ℕ). with_base op body + s) (sum_for-all_ones op bodies)

-- The body that the search gives is a range of indices.
body_between-hot :
    (instrs : List Instr) (lo hi : ℕ)
    → Ascending instrs
    → IsLoop instrs lo hi
    → body_between instrs lo hi ≡ inr (take (suc hi - lo) (drop lo instrs))
unfolding body_between
body_between-hot instrs lo hi ascend l = rw (not_below (IsLoop-before instrs lo hi ascend l)) refl
  where
    not_below : lo < hi → ltb (suc hi) lo ≡ false
    not_below h = ground arith

-- The functions, the bodies of their hot loops, and what the loop over them gives from a census on.
Mixes : Pattern → List Function → Census → ℕ → Type 0
Mixes kernel fs mix m =
    (bodies : List (List Instr)) × (Bodies kernel fs bodies
      × (mix_functions kernel fs (mix, m) ≡ inr (add_all mix (all_ones bodies), m + length bodies)))

-- A function that the loop leaves the census unchanged for, before the others.
Mixes-pass :
    (kernel : Pattern) (f : Function) (fs : List Function) (mix : Census) (m : ℕ)
    → mix_function kernel f (mix, m) ≡ inr (mix, m)
    → ((bodies : List (List Instr)) → Bodies kernel fs bodies → Bodies kernel (f ∷ fs) bodies)
    → Mixes kernel fs mix m
    → Mixes kernel (f ∷ fs) mix m
unfolding Mixes mix_functions ◌>>=◌
Mixes-pass kernel f fs mix m e front (bodies, (b, ran)) = (bodies, (front bodies b, rw e ran))

Mixes-body :
    (kernel : Pattern) (f : Function) (fs : List Function) (mix : Census) (m : ℕ)
    (body : List Instr)
    → mix_function kernel f (mix, m) ≡ inr (add_instrs mix body, m + 1)
    → ((bodies : List (List Instr))
        → Bodies kernel fs bodies
        → Bodies kernel (f ∷ fs) (body ∷ bodies))
    → Mixes kernel fs (add_instrs mix body) (m + 1)
    → Mixes kernel (f ∷ fs) mix m
unfolding Mixes mix_functions ◌>>=◌ all_ones
Mixes-body kernel f fs mix m body e front (bodies, (b, ran)) = (
  body ∷ bodies,
  (
    front bodies b,
    rw e (
        ran
        ∙ ap inr (
            pair_path
              (ap (λ c. add_all c (all_ones bodies)) (add_instrs-add_all body mix)
                ∙ sym (add_all-append (ones body) (all_ones bodies) mix))
              (omega arith))),
  ),
)
  where
    pair_path : {c d : Census} {a b : ℕ} → c ≡ d → a ≡ b → ◌≡◌ {A = Census × ℕ} (c, a) (d, b)
    pair_path p q = cc

mix_function-other :
    (kernel : Pattern) (f : Function) (mix : Census) (m : ℕ)
    → is_match kernel f.name ≡ false
    → mix_function kernel f (mix, m) ≡ inr (mix, m)
unfolding mix_function
mix_function-other kernel f mix m e = rw e refl

mix_function-hot :
    (kernel : Pattern) (f : Function) (mix : Census) (m : ℕ) (best : Option (ℕ × ℕ))
    → is_match kernel f.name ≡ true
    → hot_loop f.instrs ≡ inr best
    → mix_function kernel f (mix, m) ≡ add_body f.instrs best (mix, m)
unfolding mix_function ◌>>=◌
mix_function-hot kernel f mix m best e h = rw (e, h) refl

Mixes-matched :
    (kernel : Pattern) (f : Function) (fs : List Function) (mix : Census) (m : ℕ)
    (best : Option (ℕ × ℕ))
    → Ascending f.instrs
    → is_match kernel f.name ≡ true
    → hot_loop f.instrs ≡ inr best
    → IsBest f.instrs (length f.instrs) best
    → ((c : Census) (k : ℕ) → Mixes kernel fs c k)
    → Mixes kernel (f ∷ fs) mix m
unfolding add_body IsBest ◌>>=◌
Mixes-matched kernel f fs mix m none ascend e h good later =
    Mixes-pass kernel f fs mix m (mix_function-hot kernel f mix m none e h) (λ bodies. straight e h)
      (later mix m)
Mixes-matched kernel f fs mix m (some (lo, hi)) ascend e h (l, _) later =
    Mixes-body kernel f fs mix m (take (suc hi - lo) (drop lo f.instrs))
      (mix_function-hot kernel f mix m (some (lo, hi)) e h
        ∙ rw (body_between-hot f.instrs lo hi ascend l) refl)
      (λ bodies. looped lo hi e h) (later _ _)

mix_functions-Mixes :
    (kernel : Pattern) (fs : List Function) (mix : Census) (m : ℕ)
    → All IsPlain fs
    → Mixes kernel fs mix m
unfolding Mixes mix_functions all_ones add_all
mix_functions-Mixes kernel [] mix m plain =
    ([], (done, ap inr (ap (λ (k : ℕ). (mix, k)) (omega arith))))
mix_functions-Mixes kernel (f ∷ fs) mix m ((ascend, (short, readable)), plain) =
    elim (Bool-cases (is_match kernel f.name)) [
      | inl e ↦
          let (best, (h, good)) = hot_loop-IsBest f.instrs ascend short readable in
          Mixes-matched kernel f fs mix m best ascend e h good
            (λ c k. mix_functions-Mixes kernel fs c k plain)
      | inr e ↦
          Mixes-pass kernel f fs mix m (mix_function-other kernel f mix m e) (λ bodies. skipped e)
            (mix_functions-Mixes kernel fs mix m plain)
    ]

-- On functions whose addresses ascend and whose targets are 64-bit numbers, the loop over the
-- functions gives a result: the number of the hot loops of those whose names match, and a census
-- in which each mnemonic base has the number of its instructions in these loops, modulo 2 ^ 64.
pub mix_functions_counts :
    (kernel : Pattern) (fs : List Function)
    → All IsPlain fs
    → (bodies : List (List Instr)) × (mix : Census) × Bodies kernel fs bodies
      × (mix_functions kernel fs ([], 0) ≡ inr (mix, length bodies))
      × ((op : Text) → count_of op mix ≡ with_base_in op bodies % 2 ^ 64)
unfolding Mixes count_of
mix_functions_counts kernel fs plain =
    let (bodies, (b, ran)) = mix_functions-Mixes kernel fs [] 0 plain in
    (
      bodies,
      add_all [] (all_ones bodies),
      b,
      ran ∙ ap inr (ap (λ (k : ℕ). (add_all [] (all_ones bodies), k)) (omega arith)),
      λ op.
          count_of-add_all (all_ones bodies) [] op 0 (all_ones-small bodies) refl
          ∙ ap (λ (s : ℕ). s % 2 ^ 64) (omega (arith, sum_for-all_ones op bodies)),
    )
