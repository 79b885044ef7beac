-- ===== src/Check/Passed.antt =====
-- What an exit code of 0 of `check` of src/nvidia/check.rs says of the disassembly.
use mathlib.Core.List.{Memᴰ, nil≢cons}
use mathlib.Core.List.Memᴰ.{head, tail}
use mathlib.Core.Path.{subst}
use calx_mill.Base.{
  ℕ, suc, ◌↔◌, not, ◌&&◌, ◌≡◌, ◌⊎◌, ◌≤◌, ◌%◌, ◌^◌, refl, sym, ap, ◌∙◌, inl, inr, Bool, true, false,
  ◌||◌, Option, none, some, List, [], ◌∷◌, ◌++◌, ltb, length, any, All, arith, if-both,
  Option-cases, none≢some, false≢true, if◌then◌else◌,
}
use calx_mill.Base.Result.{inr_back, bind-inr}
use calx_mill.Base.Scan.{or_false, any_iff, both_iff}
use calx_mill.Base.Text.{Text, text_eq, text_eq_iff}
use calx_mill.Sass.Functions.{Instr, Function, parse_functions}
use calx_mill.Sass.HotLoop.{hot_loop}
use calx_mill.Sass.Mix.{body_between}
use calx_mill.Check.Tables.{exempt_binaries, loop_control}
use calx_mill.Check.Cases.{GateOpts, GateCase, case_of}
use calx_mill.Check.Purity.{
  Line, is_failure, among, body_size, primaries, aliens_of, Demanded, demanded, judge_ops,
  judge_body, judge_loop, judge_function, judge_if, judge_all, CheckReport, exempt, checked,
  check_bound, check, check_code,
}

-- So many of the operations are as the predicate says.
pub data CountOf (P : Text → Type 0) : List Instr → ℕ → Type 0 where
  done : CountOf P [] 0
  hit :
      {x : Instr} {xs : List Instr} {n : ℕ} → P x.base → CountOf P xs n → CountOf P (x ∷ xs) (suc n)
  miss : {x : Instr} {xs : List Instr} {n : ℕ} → ¬ P x.base → CountOf P xs n → CountOf P (x ∷ xs) n

-- An operation that is neither timed nor may stand by the timed ones, nor controls a loop.
abbrev pub Alien : List Text → List Text → Text → Type 0
Alien primary companions base =
    (¬ Memᴰ base primary) × ((¬ Memᴰ base companions) × (¬ Memᴰ base loop_control))

-- A body holds what is demanded: enough primary operations, and no more others than the budget.
unfoldable pub Holds : GateOpts → List Instr → Option Demanded → Type 0
Holds opts body none = Unit
Holds opts body (some d) =
    (n m : ℕ) × CountOf (λ b. Memᴰ b d.primary) body n
    × (d.least ≤ n % 2 ^ 32)
    × CountOf (Alien d.primary d.companions) body m
    × (m ≤ opts.staging_budget)

among_iff : (ops : List Text) (base : Text) → (among ops base ≡ true) ↔ Memᴰ base ops
among_iff ops base =
    let listed = any_iff (λ o. text_eq o base) (λ o. text_eq_iff o base) ops in
    (λ h. let (o, m, e) = listed.0 h in subst (λ x. Memᴰ x ops) e m, λ m. listed.1 (base, m, refl))

not_iff : {b : Bool} {P : Type 0} → (b ≡ true) ↔ P → (not b ≡ true) ↔ (¬ P)
not_iff {b = true} e = (λ h. elim (false≢true h) [ ], λ n. elim (n (e.0 refl)) [ ])
not_iff {b = false} e = (λ h p. false≢true (e.1 p), λ n. refl)

-- An operation that the test keeps is counted, and one that it drops is not.
count_kept :
    {A : Type 0} {P : Text → Type 0} {x : Instr} {body : List Instr} (y : A) (rest : List A)
    (b : Bool)
    → (b ≡ true) ↔ P x.base
    → CountOf P body (length rest)
    → CountOf P (x ∷ body) (length (elim b [ true ↦ y ∷ rest | false ↦ rest ]))
count_kept y rest true e more = hit (e.0 refl) more
count_kept y rest false e more = miss (λ m. false≢true (e.1 m)) more

primaries-CountOf :
    (primary : List Text) (body : List Instr)
    → CountOf (λ b. Memᴰ b primary) body (length (primaries primary body))
unfolding primaries
primaries-CountOf primary [] = done
primaries-CountOf primary (x ∷ body) =
    count_kept x (primaries primary body) (among primary x.base) (among_iff primary x.base)
      (primaries-CountOf primary body)

is_alien : List Text → List Text → Text → Bool
is_alien primary companions b =
    not (among primary b) && (not (among companions b) && not (among loop_control b))

is_alien_iff :
    (primary companions : List Text) (b : Text)
    → (is_alien primary companions b ≡ true) ↔ Alien primary companions b
unfolding is_alien
is_alien_iff primary companions b =
    both_iff (not_iff (among_iff primary b))
      (both_iff (not_iff (among_iff companions b)) (not_iff (among_iff loop_control b)))

aliens_of-CountOf :
    (primary companions : List Text) (body : List Instr)
    → CountOf (Alien primary companions) body (length (aliens_of primary companions body))
unfolding aliens_of is_alien
aliens_of-CountOf primary companions [] = done
aliens_of-CountOf primary companions (x ∷ body) =
    count_kept x.base (aliens_of primary companions body) (is_alien primary companions x.base)
      (is_alien_iff primary companions x.base) (aliens_of-CountOf primary companions body)

-- The hot loop of a function is there, fits the cache, and holds what its case demands.
pub record Pure (opts : GateOpts) (case : GateCase) (f : Function) : Type 0 where
  pub lo : ℕ
  pub hi : ℕ
  pub body : List Instr
  pub is_hot : hot_loop f.instrs ≡ inr (some (lo, hi))
  pub is_body : body_between f.instrs lo hi ≡ inr body
  pub fits : body_size body ≤ opts.l0_bytes
  pub holds : Holds opts body (demanded opts case)

not_failure : (line : Line) → is_failure line ≡ true → ¬ (is_failure line ≡ false)
not_failure line h k = false≢true (sym k ∙ h)

ltb-le : (a b : ℕ) → ltb a b ≡ false → b ≤ a
ltb-le a b h = ground (arith, h)

judge_ops-Holds :
    (opts : GateOpts) (label : Text) (body : List Instr) (d : Option Demanded)
    → is_failure (judge_ops opts label body d) ≡ false
    → Holds opts body d
unfolding judge_ops Holds is_failure
judge_ops-Holds opts label body none h = tt
judge_ops-Holds opts label body (some d) h =
    let n = length (primaries d.primary body) in
    let aliens = aliens_of d.primary d.companions body in
    let P = λ (line : Line). is_failure line ≡ false → Holds opts body (some d) in
    if-both P (ltb (n % 2 ^ 32) d.least) (λ _ k. elim (false≢true (sym k)) [ ])
      (λ enough.
        if-both P (ltb opts.staging_budget (length aliens)) (λ _ k. elim (false≢true (sym k)) [ ])
          (λ few k. (
            n,
            length aliens,
            primaries-CountOf d.primary body,
            ltb-le (n % 2 ^ 32) d.least enough,
            aliens_of-CountOf d.primary d.companions body,
            ltb-le opts.staging_budget (length aliens) few,
          )))
      h

judge_body-Holds :
    (opts : GateOpts) (case : GateCase) (body : List Instr)
    → is_failure (judge_body opts case body) ≡ false
    → (body_size body ≤ opts.l0_bytes) × Holds opts body (demanded opts case)
unfolding judge_body is_failure
judge_body-Holds opts case body =
    if-both
      (λ (line : Line).
        is_failure line ≡ false
        → (body_size body ≤ opts.l0_bytes) × Holds opts body (demanded opts case))
      (ltb opts.l0_bytes (body_size body)) (λ _ k. elim (false≢true (sym k)) [ ])
      (λ small k. (
        ltb-le opts.l0_bytes (body_size body) small,
        judge_ops-Holds opts case.label body (demanded opts case) k,
      ))

judge_loop-Pure :
    (opts : GateOpts) (case : GateCase) (f : Function) (best : Option (ℕ × ℕ)) (line : Line)
    → hot_loop f.instrs ≡ inr best
    → judge_loop opts case f.instrs best ≡ inr line
    → is_failure line ≡ false
    → Pure opts case f
unfolding judge_loop
judge_loop-Pure opts case f none line hot h k =
    elim (false≢true (sym k ∙ ap is_failure (sym (inr_back h)) ∙ unfold is_failure in refl)) [ ]
judge_loop-Pure opts case f (some (lo, hi)) line hot h k =
    let (body, (cut, judged)) = bind-inr _ _ h in
    let (fits, holds) = judge_body-Holds opts case body (ap is_failure (inr_back judged) ∙ k) in
    record {
      lo = lo;
      hi = hi;
      body = body;
      is_hot = hot;
      is_body = cut;
      fits = fits;
      holds = holds;
    }

judge_function-Pure :
    (opts : GateOpts) (case : GateCase) (f : Function) (line : Line)
    → judge_function opts case f ≡ inr line
    → is_failure line ≡ false
    → Pure opts case f
unfolding judge_function
judge_function-Pure opts case f line h k =
    let (best, (hot, judged)) = bind-inr _ _ h in judge_loop-Pure opts case f best line hot judged k

-- A function passes: it is not checked, or it is pure.
abbrev pub Passes : GateOpts → Function → Type 0
Passes opts f =
    (case_of opts f.name ≡ none)
    ⊎ ((case : GateCase) × (case_of opts f.name ≡ some case) × Pure opts case f)

any-front :
    (ls ms : List Line)
    → any is_failure (ls ++ ms) ≡ false
    → (any is_failure ls ≡ false) × (any is_failure ms ≡ false)
any-front [] ms h = (refl, h)
any-front (l ∷ ls) ms h =
    let (now, later) = or_false h in
    let (front, back) = any-front ls ms later in
    (ap (λ b. b || any is_failure ls) now ∙ front, back)

judge_if-Passes :
    (opts : GateOpts) (o : Option GateCase) (f : Function) (lines : List Line)
    → judge_if opts o f ≡ inr lines
    → any is_failure lines ≡ false
    → (o ≡ none) ⊎ ((case : GateCase) × (o ≡ some case) × Pure opts case f)
unfolding judge_if
judge_if-Passes opts none f lines h k = inl refl
judge_if-Passes opts (some c) f lines h k =
    let (line, (judged, last)) = bind-inr _ _ h in
    let fine : any is_failure (line ∷ []) ≡ false = ap (any is_failure) (inr_back last) ∙ k in
    inr (c, refl, judge_function-Pure opts c f line judged (or_false fine).0)

judge_all-Passes :
    (opts : GateOpts) (fs : List Function) (lines : List Line)
    → judge_all opts fs ≡ inr lines
    → any is_failure lines ≡ false
    → All (Passes opts) fs
unfolding judge_all
judge_all-Passes opts [] lines h k = tt
judge_all-Passes opts (f ∷ fs) lines h k =
    let (line, (judged, rest)) = bind-inr _ _ h in
    let (more, (others, last)) = bind-inr _ _ rest in
    let (front, back) = any-front line more (ap (any is_failure) (inr_back last) ∙ k) in
    (
      judge_if-Passes opts (case_of opts f.name) f line judged front,
      judge_all-Passes opts fs more others back,
    )

judge_if-none :
    (opts : GateOpts) (o : Option GateCase) (f : Function) (own : List Line)
    → o ≡ none
    → judge_if opts o f ≡ inr own
    → own ≡ []
unfolding judge_if
judge_if-none opts none f own e h = sym (inr_back h)
judge_if-none opts (some c) f own e h = elim (none≢some (sym e)) [ ]

-- Where there is a line, a function is checked.
judge_all-some :
    (opts : GateOpts) (fs : List Function) (line : Line) (lines : List Line)
    → judge_all opts fs ≡ inr (line ∷ lines)
    → (f : Function) × Memᴰ f fs × ((case : GateCase) × (case_of opts f.name ≡ some case))
unfolding judge_all
judge_all-some opts [] line lines h = elim (nil≢cons (inr_back h)) [ ]
judge_all-some opts (f ∷ fs) line lines h = elim (Option-cases (case_of opts f.name)) [
  | inr (case, e) ↦ (f, head refl, (case, e))
  | inl e ↦
      let (own, (judged, rest)) = bind-inr _ _ h in
      let (more, (others, last)) = bind-inr _ _ rest in
      let all_more : more ≡ line ∷ lines =
        sym (
          ap (λ (o : List Line). o ++ more)
            (judge_if-none opts (case_of opts f.name) f own e judged))
        ∙ inr_back last in
      let (g, there, found) = judge_all-some opts fs line lines (others ∙ ap inr all_more) in
      (g, tail there, found)
]

one≢zero : ¬ (◌≡◌ {A = ℕ} 1 0)
one≢zero = omega arith

check_code-zero :
    (lines : List Line)
    → check_code (checked lines) ≡ 0
    → (line : Line) × (more : List Line) × (lines ≡ line ∷ more) × (any is_failure lines ≡ false)
unfolding check_code
check_code-zero [] h = elim (one≢zero h) [ ]
check_code-zero (line ∷ lines) h = (line, lines, refl, passed (any is_failure (line ∷ lines)) h)
  where
    passed : (b : Bool) → ◌≡◌ {A = ℕ} (if b then 1 else 0) 0 → b ≡ false
    passed true k = elim (one≢zero k) [ ]
    passed false k = refl

check-bound :
    (basename sass : Text) (opts : GateOpts)
    → among exempt_binaries basename ≡ false
    → check basename sass opts ≡ check_bound sass opts
unfolding check
check-bound basename sass opts e =
    ap (λ b. if b then inr (exempt basename) else check_bound sass opts) e

-- When the report on a binary that is not exempt has the exit code 0, some function of its
-- disassembly is checked, and each that is checked has a hot loop that fits the budget of bytes and,
-- where its case demands operations, holds enough of them, and of other operations no more than the
-- budget.
pub check_code_zero :
    (basename sass : Text) (opts : GateOpts) (report : CheckReport)
    → among exempt_binaries basename ≡ false
    → check basename sass opts ≡ inr report
    → check_code report ≡ 0
    → (fs : List Function) × (parse_functions sass ≡ inr fs)
      × All (Passes opts) fs
      × ((f : Function) × Memᴰ f fs × ((case : GateCase) × (case_of opts f.name ≡ some case)))
unfolding check_bound
check_code_zero basename sass opts report bound h z =
    let (fs, (parsed, rest)) = bind-inr _ _ (sym (check-bound basename sass opts bound) ∙ h) in
    let (lines, (judged, last)) = bind-inr _ _ rest in
    let (line, more, e, fine) = check_code-zero lines (ap check_code (inr_back last) ∙ z) in
    (
      fs,
      parsed,
      judge_all-Passes opts fs lines judged fine,
      judge_all-some opts fs line more (judged ∙ ap inr e),
    )
