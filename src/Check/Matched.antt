-- ===== src/Check/Matched.antt =====
-- What the census-match mode of src/nvidia/check.rs compares.
use mathlib.Core.Path.{subst}
use mathlib.Core.Option.{some-injective}
use calx_mill.Base.{
  ℕ, ◌≡◌, ◌≢◌, ==_iff, refl, sym, ap, ◌∙◌, inl, inr, Bool, true, false, Option, none, some, List,
  [], ◌∷◌, map, any, All, if-both, false≢true, if◌then◌else◌, arith, ◌==◌,
}
use calx_mill.Base.Result.{Result, inr_back, bind-inr, ok_or-inr}
use calx_mill.Base.Scan.{or_false}
use calx_mill.Base.Text.{Text, codes, split_once}
use calx_mill.Base.Float.{Float}
use calx_mill.Pattern.Syntax.{Pattern}
use calx_mill.Pattern.Compile.{try_new}
use calx_mill.Projection.Census.{Census}
use calx_mill.Sass.Mix.{loop_mix}
use calx_mill.Check.Shares.{
  MatchStop, unreadable, bad_pattern, no_kernel, panics, group_names, no_shares, add_shares,
  total_of, side, stop_with, distances, shares_of, shares, census_match, match_code,
}
use calx_mill.Check.ShareOf.{ShareOf, share_in, shares-share_in, share_in-ShareOf}

none_exceeds :
    {F : Type 0} (p : F → Bool) (ds : List F) → any p ds ≡ false → All (λ d. p d ≡ false) ds
none_exceeds p [] h = tt
none_exceeds p (d ∷ ds) h = let (now, later) = or_false h in (now, none_exceeds p ds later)

one≢zero : ¬ (◌≡◌ {A = ℕ} 1 0)
one≢zero = omega arith

is_false : (b : Bool) → ◌≡◌ {A = ℕ} (if b then 1 else 0) 0 → b ≡ false
is_false true h = elim (one≢zero h) [ ]
is_false false h = refl

-- The path and the pattern of a side: behind the first colon, and `.*` where there is none.
pub data Side (spec : Text) : Text → Text → Type 0 where
  whole : split_once (codes ":") spec ≡ none → Side spec spec (codes ".*")
  unnamed :
      {path : Text} → split_once (codes ":") spec ≡ some (path, []) → Side spec path (codes ".*")
  named :
      {path : Text} (c : ℕ) (regex : Text)
      → split_once (codes ":") spec ≡ some (path, c ∷ regex)
      → Side spec path (c ∷ regex)

side-Side :
    (spec : Text) (o : Option (Text × Text))
    → split_once (codes ":") spec ≡ o
    → Side spec (side spec o).0 (side spec o).1
unfolding side
side-Side spec none e = whole e
side-Side spec (some (path, [])) e = unnamed e
side-Side spec (some (path, c ∷ regex)) e = named c regex e

stop_with-inr {ℓ} :
    {E : Type 0} {A : Type ℓ} (f : E → MatchStop) (r : Result E A) {x : A}
    → stop_with f r ≡ inr x
    → r ≡ inr x
unfolding stop_with
stop_with-inr f (inl e) h = cc
stop_with-inr f (inr y) h = ap inr (inr_back h)

module _ (sass_text : Text → Option Text) where
  -- The mix of the hot loops of a side, of which there are some.
  pub record HasMix (spec : Text) (mix : Census) : Type 0 where
    pub path : Text
    pub regex : Text
    pub sass : Text
    pub kernels : Pattern
    pub loops : ℕ
    pub is_side : Side spec path regex
    pub has_sass : sass_text path ≡ some sass
    pub has_kernels : try_new regex ≡ inr (some kernels)
    pub has_mix : loop_mix sass kernels ≡ inr (mix, loops)
    pub some_loop : loops ≢ 0

module _ (F : Type 0) ⦃fl : Float F⦄ where
  -- The shares of a class in two mixes, which are no further apart than the tolerance.
  abbrev pub CloseShares : F → Census → Census → Text → Type 0
  CloseShares tol a b k =
      (x : F) × (y : F) × (ShareOf F k a x
        × ShareOf F k b y
        × (fl.lt tol (fl.abs (fl.sub x y)) ≡ false))

module _ (F : Type 0) ⦃fl : Float F⦄ (sass_text : Text → Option Text) where
  -- The slots of a mix.
  abbrev slots_of : Census → List (Text × F)
  slots_of mix = add_shares (total_of mix) mix (no_shares group_names)

  shares_of-slots :
      (spec : Text) (mix : Census) (loops : ℕ) (a : List (Text × F) × ℕ)
      → shares_of F sass_text spec (mix, loops) ≡ inr a
      → (loops ≢ 0) × (a.0 ≡ slots_of mix)
  unfolding shares_of
  shares_of-slots spec mix loops a =
      if-both (λ r. r ≡ inr a → (loops ≢ 0) × (a.0 ≡ slots_of mix)) (loops == 0) (λ _ h. cc)
        (λ some_kernel h. (
          λ e. false≢true (sym some_kernel ∙ (==_iff loops 0).1 e),
          ap (λ (x : List (Text × F) × ℕ). x.0) (sym (inr_back h)),
        ))

  shares-HasMix :
      (spec : Text) (a : List (Text × F) × ℕ)
      → shares F sass_text spec ≡ inr a
      → (mix : Census) × (HasMix sass_text spec mix × (a.0 ≡ slots_of mix))
  unfolding shares
  shares-HasMix spec a h =
      let (sass, (read, h1)) = bind-inr _ _ h in
      let (pattern, (parsed, h2)) = bind-inr _ _ h1 in
      let (kernels, (compiled, h3)) = bind-inr _ _ h2 in
      let (found, (mixed, h4)) = bind-inr _ _ h3 in
      let (some_loop, slots) = shares_of-slots spec found.0 found.1 a h4 in
      (
        found.0,
        (
          record {
            path = (side spec (split_once (codes ":") spec)).0;
            regex = (side spec (split_once (codes ":") spec)).1;
            sass = sass;
            kernels = kernels;
            loops = found.1;
            is_side = side-Side spec (split_once (codes ":") spec) refl;
            has_sass = ok_or-inr _ _ read;
            has_kernels = stop_with-inr _ _ parsed ∙ ap inr (ok_or-inr pattern _ compiled);
            has_mix = stop_with-inr _ _ mixed;
            some_loop = some_loop;
          },
          slots,
        ),
      )

  match_code-zero :
      (tol : F) (r : Result MatchStop (List F))
      → match_code tol r ≡ some 0
      → (ds : List F) × (r ≡ inr ds) × All (λ d. fl.lt tol d ≡ false) ds
  unfolding match_code
  match_code-zero tol (inl (unreadable spec)) h = elim (one≢zero (some-injective _ _ h)) [ ]
  match_code-zero tol (inl (bad_pattern spec c)) h = elim (one≢zero (some-injective _ _ h)) [ ]
  match_code-zero tol (inl (no_kernel spec)) h = elim (one≢zero (some-injective _ _ h)) [ ]
  match_code-zero tol (inl (panics p)) h = cc
  match_code-zero tol (inr ds) h = (
    ds,
    refl,
    none_exceeds (λ d. fl.lt tol d) ds
        (is_false (any (λ d. fl.lt tol d) ds) (some-injective _ _ h)),
  )

  distances-All :
      (P : F → Type 0) (f g : Text → F) (ks : List Text)
      → All P (distances (map (λ k. (k, f k)) ks) (map (λ k. (k, g k)) ks))
      → All (λ k. P (fl.abs (fl.sub (f k) (g k)))) ks
  unfolding distances
  distances-All P f g [] h = tt
  distances-All P f g (k ∷ ks) (p, ps) = (p, distances-All P f g ks ps)

  all_close :
      (tol : F) (a b : Census) (ks : List Text)
      → All
          (λ k.
            fl.lt tol (
              fl.abs (
                fl.sub (share_in k (total_of a) a fl.nought) (share_in k (total_of b) b fl.nought)))
            ≡ false)
          ks
      → All (CloseShares F tol a b) ks
  all_close tol a b [] h = tt
  all_close tol a b (k ∷ ks) (near, rest) = (
    (
      share_in k (total_of a) a fl.nought,
      share_in k (total_of b) b fl.nought,
      (share_in-ShareOf k a, share_in-ShareOf k b, near),
    ),
    all_close tol a b ks rest,
  )

  -- When the comparison exits with 0, the disassembly of each side was read and holds hot loops of
  -- kernels that match the side's pattern, and for each class of operations the shares of the class in
  -- the mixes of the two sides, in percent of all that the mix counts, are no further apart than the
  -- tolerance.
  pub match_code_zero :
      (tol : F) (spec_a spec_b : Text)
      → match_code tol (census_match F sass_text spec_a spec_b) ≡ some 0
      → (a : Census) × (b : Census) × (HasMix sass_text spec_a a
          × HasMix sass_text spec_b b
          × All (CloseShares F tol a b) group_names)
  unfolding census_match
  match_code_zero tol spec_a spec_b h =
      let (ds, ran, fine) = match_code-zero tol _ h in
      let (a, (left, rest)) = bind-inr _ _ ran in
      let (b, (right, last)) = bind-inr _ _ rest in
      let (mix_a, (has_a, slots_a)) = shares-HasMix spec_a a left in
      let (mix_b, (has_b, slots_b)) = shares-HasMix spec_b b right in
      let apart =
        subst (All (λ d. fl.lt tol d ≡ false))
          (sym (inr_back last)
            ∙ ap (λ l. distances l b.0) (slots_a ∙ shares-share_in mix_a)
            ∙ ap (distances _) (slots_b ∙ shares-share_in mix_b))
          fine in
      (
        mix_a,
        mix_b,
        (
          has_a,
          has_b,
          all_close tol mix_a mix_b group_names (
              distances-All (λ d. fl.lt tol d ≡ false)
                (λ k. share_in k (total_of mix_a) mix_a fl.nought)
                (λ k. share_in k (total_of mix_b) mix_b fl.nought) group_names apart),
        ),
      )
