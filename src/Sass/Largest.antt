-- ===== src/Sass/Largest.antt =====
-- Which loop `hot_loop` of src/nvidia/sass.rs picks.
use mathlib.Core.Path.{subst}
use mathlib.Core.Option.{some-injective}
use calx_mill.Base.{
  ℕ, zero, suc, ◌-◌, ◌^◌, ◌<◌, ◌≤◌, ◌≡◌, ◌⊎◌, inl, inr, refl, sym, ap, ◌∙◌, true, false, Option,
  none, some, List, [], ◌∷◌, ltb, ◌==◌, wrapping_sub64, length, get_elem?, All, arith, ltb→lt,
  lt→ltb, none≢some, if-both, ==_iff,
}
use calx_mill.Base.Result.{inr_back, ◌>>=◌, bind-inr}
use calx_mill.Base.Text.{codes, text_eq, text_eq_iff}
use calx_mill.Sass.Functions.{Instr}
use calx_mill.Sass.HotLoop.{bra_target, next_index, position_of, loop_start, backward, better}

-- The addresses ascend.
unfoldable pub Ascending : List Instr → Type 0
Ascending [] = Unit
Ascending (x ∷ xs) = All (λ y. x.addr < y.addr) xs × Ascending xs

-- The instruction at `i` is a branch to a lower address, and `j` is the first index at that address.
pub record IsLoop (instrs : List Instr) (j i : ℕ) : Type 0 where
  pub branch : Instr
  pub target : ℕ
  pub at : get_elem? instrs i ≡ some branch
  pub is_branch : branch.base ≡ codes "BRA"
  pub has_target : bra_target branch.text ≡ inr (some target)
  pub is_backward : target < branch.addr
  pub starts : position_of target instrs ≡ some j

loop_start-some :
    (instrs : List Instr) (addr : ℕ) (o : Option ℕ) {j : ℕ}
    → loop_start instrs addr o ≡ some j
    → (target : ℕ) × ((o ≡ some target) × ((target < addr) × (position_of target instrs ≡ some j)))
unfolding loop_start
loop_start-some instrs addr none h = elim (none≢some h) [ ]
loop_start-some instrs addr (some target) {j} h =
    if-both
      (λ o.
        o ≡ some j
        → (t : ℕ) × ((some target ≡ some t) × ((t < addr) × (position_of t instrs ≡ some j))))
      (ltb target addr) (λ below e. (target, (refl, (ltb→lt target addr below, e))))
      (λ _ e. elim (none≢some e) [ ]) h

backward-IsLoop :
    (instrs : List Instr) (x : Instr) (i j : ℕ)
    → get_elem? instrs i ≡ some x
    → backward instrs x ≡ inr (some j)
    → IsLoop instrs j i
unfolding backward
backward-IsLoop instrs x i j at =
    if-both (λ r. r ≡ inr (some j) → IsLoop instrs j i) (text_eq x.base (codes "BRA"))
      (λ bra h.
        let (o, (read, rest)) = bind-inr _ _ h in
        let (target, (e, (below, starts))) = loop_start-some instrs x.addr o (inr_back rest) in
        record {
          branch = x;
          target = target;
          at = at;
          is_branch = (text_eq_iff x.base (codes "BRA")).0 bra;
          has_target = read ∙ ap inr e;
          is_backward = below;
          starts = starts;
        })
      (λ _ h. elim (none≢some (inr_back h)) [ ])

IsLoop-backward :
    (instrs : List Instr) (x : Instr) (i j : ℕ)
    → get_elem? instrs i ≡ some x
    → IsLoop instrs j i
    → backward instrs x ≡ inr (some j)
unfolding backward loop_start ◌>>=◌
IsLoop-backward instrs x i j at l =
    let same : l.branch ≡ x = some-injective _ _ (sym l.at ∙ at) in
    subst (λ y. backward instrs y ≡ inr (some j)) same
      (rw
        (
          (text_eq_iff l.branch.base (codes "BRA")).1 l.is_branch,
          l.has_target,
          lt→ltb l.target l.branch.addr l.is_backward,
        )
        (ap inr l.starts))

next_index-some :
    (o : Option ℕ) {j : ℕ} → next_index o ≡ some j → (i : ℕ) × ((o ≡ some i) × (suc i ≡ j))
unfolding next_index
next_index-some none h = elim (none≢some h) [ ]
next_index-some (some i) h = (i, (refl, some-injective _ _ h))

position_of-at :
    (t : ℕ) (instrs : List Instr) (j : ℕ)
    → position_of t instrs ≡ some j
    → (y : Instr) × ((get_elem? instrs j ≡ some y) × (y.addr ≡ t))
unfolding position_of
position_of-at t [] j h = elim (none≢some h) [ ]
position_of-at t (x ∷ xs) j h =
    if-both (λ o. o ≡ some j → (y : Instr) × ((get_elem? (x ∷ xs) j ≡ some y) × (y.addr ≡ t)))
      (x.addr == t)
      (λ same e.
        (x, (ap (get_elem? (x ∷ xs)) (sym (some-injective _ _ e)), (==_iff x.addr t).0 same)))
      (λ _ e.
        let (i, (there, next)) = next_index-some (position_of t xs) e in
        let (y, (at, same)) = position_of-at t xs i there in
        (y, (ap (get_elem? (x ∷ xs)) (sym next) ∙ at, same)))
      h

All-at :
    (x : Instr) (xs : List Instr) (i : ℕ) {y : Instr}
    → All (λ z. x.addr < z.addr) xs
    → get_elem? xs i ≡ some y
    → x.addr < y.addr
All-at x [] i a h = elim (none≢some h) [ ]
All-at x (z ∷ zs) zero a h = subst (λ (w : Instr). x.addr < w.addr) (some-injective _ _ h) a.0
All-at x (z ∷ zs) (suc i) a h = All-at x zs i a.1 h

Ascending-before :
    (instrs : List Instr) (i j : ℕ) {x y : Instr}
    → Ascending instrs
    → get_elem? instrs i ≡ some x
    → get_elem? instrs j ≡ some y
    → y.addr < x.addr
    → j < i
unfolding Ascending
Ascending-before [] i j a p q h = elim (none≢some p) [ ]
Ascending-before (z ∷ zs) zero zero {x} {y} a p q h =
    let same : x ≡ y = some-injective _ _ (sym p ∙ q) in
    omega (arith, h, ap (λ (w : Instr). w.addr) same)
Ascending-before (z ∷ zs) zero (suc j) {x} {y} a p q h =
    omega (arith, h, All-at z zs j a.0 q, ap (λ (w : Instr). w.addr) (some-injective _ _ p))
Ascending-before (z ∷ zs) (suc i) zero a p q h = omega arith
Ascending-before (z ∷ zs) (suc i) (suc j) a p q h = omega (arith, Ascending-before zs i j a.1 p q h)

at-length :
    (instrs : List Instr) (i : ℕ) {x : Instr} → get_elem? instrs i ≡ some x → i < length instrs
at-length [] i h = elim (none≢some h) [ ]
at-length (z ∷ zs) zero h = omega arith
at-length (z ∷ zs) (suc i) h = omega (arith, at-length zs i h)

-- A body begins before its branch.
pub IsLoop-before : (instrs : List Instr) (j i : ℕ) → Ascending instrs → IsLoop instrs j i → j < i
IsLoop-before instrs j i a l =
    let (y, (at, same)) = position_of-at l.target instrs j l.starts in
    Ascending-before instrs i j a l.at at (omega (arith, l.is_backward, same))

-- The best of the loops whose branch is before an index: none, or the largest, and of those of its
-- size the first.
unfoldable pub IsBest : List Instr → ℕ → Option (ℕ × ℕ) → Type 0
IsBest instrs n none = (j i : ℕ) → i < n → ¬ (IsLoop instrs j i)
IsBest instrs n (some (bj, bi)) =
    IsLoop instrs bj bi
    × ((bi < n)
        × ((j i : ℕ)
            → i < n
            → IsLoop instrs j i
            → (i - j < bi - bj) ⊎ ((i - j ≡ bi - bj) × (bi ≤ i))))

before_cases : (i n : ℕ) → i < suc n → (i < n) ⊎ (i ≡ n)
before_cases i n h = omega arith

module _ (instrs : List Instr) (ascend : Ascending instrs) (short : length instrs ≤ 2 ^ 64) where
  span : (j i : ℕ) → IsLoop instrs j i → wrapping_sub64 i j ≡ i - j
  span j i l = omega (arith, IsLoop-before instrs j i ascend l, at-length instrs i l.at, short)

  -- A loop whose branch is at the index is the one that is found there.
  module _ (n : ℕ) (x : Instr) (at : get_elem? instrs n ≡ some x) where
    found_here :
        (found : Option ℕ) (j i : ℕ)
        → backward instrs x ≡ inr found
        → i ≡ n
        → IsLoop instrs j i
        → found ≡ some j
    found_here found j i e now l =
        inr_back (sym e ∙ IsLoop-backward instrs x n j at (subst (IsLoop instrs j) now l))

    -- A new body takes the place of the best exactly when it is larger.
    larger_or_not :
        (bj bi j : ℕ)
        → IsLoop instrs bj bi
        → IsLoop instrs j n
        → bi < n
        → ((k i : ℕ)
            → i < n
            → IsLoop instrs k i
            → (i - k < bi - bj) ⊎ ((i - k ≡ bi - bj) × (bi ≤ i)))
        → ((k i : ℕ) → i ≡ n → IsLoop instrs k i → k ≡ j)
        → IsBest instrs (suc n) (better (some (bj, bi)) n (some j))
    unfolding better IsBest
    larger_or_not bj bi j l m small most here =
        if-both (IsBest instrs (suc n)) (ltb (wrapping_sub64 bi bj) (wrapping_sub64 n j))
          (λ h. (
            m,
            (
              omega arith,
              λ k i before o. elim (before_cases i n before) [
                | inl earlier ↦ inl (still_less (most k i earlier o) (bigger h))
                | inr now ↦ inr (same_span k i now o, omega arith)
              ],
            ),
          ))
          (λ h. (
            l,
            (
              omega arith,
              λ k i before o. elim (before_cases i n before) [
                | inl earlier ↦ most k i earlier o
                | inr now ↦ as_good (same_span k i now o) (not_bigger h) small now
              ],
            ),
          ))
      where
        bigger : ltb (wrapping_sub64 bi bj) (wrapping_sub64 n j) ≡ true → bi - bj < n - j
        bigger h =
            omega (
              arith,
              ltb→lt (wrapping_sub64 bi bj) (wrapping_sub64 n j) h,
              span bj bi l,
              span j n m,
            )

        not_bigger : ltb (wrapping_sub64 bi bj) (wrapping_sub64 n j) ≡ false → n - j ≤ bi - bj
        not_bigger h = ground (arith, h, span bj bi l, span j n m)

        same_span : (k i : ℕ) → i ≡ n → IsLoop instrs k i → i - k ≡ n - j
        same_span k i now o = omega (arith, now, here k i now o)

        still_less :
            {a : ℕ} {P : Type 0} → (a < bi - bj) ⊎ ((a ≡ bi - bj) × P) → bi - bj < n - j → a < n - j
        still_less (inl less) g = omega (arith, less, g)
        still_less (inr (same, _)) g = omega (arith, same, g)

        as_good :
            {a i : ℕ}
            → a ≡ n - j
            → n - j ≤ bi - bj
            → bi < n
            → i ≡ n
            → (a < bi - bj) ⊎ ((a ≡ bi - bj) × (bi ≤ i))
        as_good e g s now = ground arith

    pub better-IsBest :
        (best : Option (ℕ × ℕ)) (found : Option ℕ)
        → backward instrs x ≡ inr found
        → IsBest instrs n best
        → IsBest instrs (suc n) (better best n found)
    unfolding better IsBest
    better-IsBest none none e b = λ j i before l. elim (before_cases i n before) [
      | inl earlier ↦ b j i earlier l
      | inr now ↦ none≢some (found_here none j i e now l)
    ]
    better-IsBest (some (bj, bi)) none e (l, (small, most)) = (
      l,
      (
        omega arith,
        λ j i before m. elim (before_cases i n before) [
          | inl earlier ↦ most j i earlier m
          | inr now ↦ elim (none≢some (found_here none j i e now m)) [ ]
        ],
      ),
    )
    better-IsBest none (some f) e b = (
      backward-IsLoop instrs x n f at e,
      (
        omega arith,
        λ j i before m. elim (before_cases i n before) [
          | inl earlier ↦ elim (b j i earlier m) [ ]
          | inr now ↦ inr (
            ap (λ k. i - k) (sym (some-injective _ _ (found_here (some f) j i e now m)))
                ∙ ap (λ k. k - f) now,
            omega arith,
          )
        ],
      ),
    )
    better-IsBest (some (bj, bi)) (some f) e (l, (small, most)) =
        larger_or_not bj bi f l (backward-IsLoop instrs x n f at e) small most
          (λ k i now o. sym (some-injective _ _ (found_here (some f) k i e now o)))
