-- ===== src/Sass/Kernels.antt =====
-- The kernels that `census_per_kernel` of src/nvidia/sass.rs counts for.
use mathlib.Core.Path.{subst}
use calx_mill.Base.{
  ℕ, zero, suc, ◌≡◌, ◌≢◌, inr, refl, sym, ap, ◌∙◌, Bool, true, Option, none, some, List, [], ◌∷◌,
  ◌++◌, map, All, if-both, none≢some, false≢true, All-append,
}
use calx_mill.Base.Distinct.{Distinct, Distinct-push}
use calx_mill.Base.Result.{Ensures, Ensures-inr, Ensures-from, ensures, ensured}
use calx_mill.Base.Text.{Text, text_eq, text_eq_iff}
use calx_mill.Base.Words.{lines}
use calx_mill.Pattern.Syntax.{Pattern}
use calx_mill.Pattern.Search.{is_match}
use calx_mill.Projection.Census.{Census}
use calx_mill.Sass.Scan.{SassPanic, Found, scan_instr, function_name}
use calx_mill.Sass.Mix.{
  Counting, kernel_index, enter, add_at, count_found, count_line, census_line, census_lines,
  census_per_kernel,
}

abbrev pub names : List (Text × Census) → List Text
names counts = map (λ (k : Text × Census). k.0) counts

kernel_index-none :
    (name : Text) (counts : List (Text × Census)) (i : ℕ)
    → kernel_index name counts i ≡ none
    → All (λ k. k ≢ name) (names counts)
unfolding kernel_index
kernel_index-none name [] i h = tt
kernel_index-none name ((k, census) ∷ counts) i h =
    if-both (λ o. o ≡ none → All (λ n. n ≢ name) (k ∷ names counts)) (text_eq k name)
      (λ _ e. elim (none≢some (sym e)) [ ])
      (λ other e. (
        λ same. false≢true (sym other ∙ (text_eq_iff k name).1 same),
        kernel_index-none name counts (suc i) e,
      ))
      h

names-add_at :
    (counts : List (Text × Census)) (i : ℕ) (op : Text) → names (add_at counts i op) ≡ names counts
unfolding add_at
names-add_at [] i op = refl
names-add_at (item ∷ counts) zero op = refl
names-add_at (item ∷ counts) (suc i) op = ap (λ ks. item.0 ∷ ks) (names-add_at counts i op)

names-push :
    (counts : List (Text × Census)) (name : Text) (census : Census)
    → names (counts ++ (name, census) ∷ []) ≡ names counts ++ name ∷ []
names-push [] name census = refl
names-push (item ∷ counts) name census = ap (λ ks. item.0 ∷ ks) (names-push counts name census)

-- The names are distinct, and each matches the pattern.
unfoldable pub Selected : Pattern → List Text → Type 0
Selected kernel ks = Distinct ks × All (λ k. is_match kernel k ≡ true) ks

module _ (kernel : Pattern) where
  Kept : Counting → Type 0
  Kept s = Selected kernel (names s.counts)

  enter-Kept :
      (name : Text) (counts : List (Text × Census)) (o : Option ℕ)
      → kernel_index name counts 0 ≡ o
      → is_match kernel name ≡ true
      → Selected kernel (names counts)
      → Kept (enter name counts o)
  unfolding enter Kept Selected
  enter-Kept name counts (some i) e m s = s
  enter-Kept name counts none e m (distinct, matching) =
      subst (Selected kernel) (sym (names-push counts name [])) (
        Distinct-push (names counts) name distinct (kernel_index-none name counts 0 e),
        All-append (λ k. is_match kernel k ≡ true) (names counts) (name ∷ []) matching (m, tt),
      )

  count_found-Kept :
      (full : Bool) (idx : ℕ) (found : Option Found) (s : Counting)
      → Kept s
      → Kept (count_found full idx found s)
  unfolding count_found Kept
  count_found-Kept full idx none s k = k
  count_found-Kept full idx (some found) s k =
      subst (Selected kernel) (sym (names-add_at s.counts idx _)) k

  count_line-Kept :
      (full : Bool) (line : Text) (current : Option ℕ) (s : Counting)
      → Kept s
      → Ensures Kept (count_line full line current s)
  unfolding count_line
  count_line-Kept full line none s k = Ensures-inr SassPanic _ _ k
  count_line-Kept full line (some idx) s k =
      ensures _ (scan_instr line) _
        (λ found. Ensures-inr SassPanic _ _ (count_found-Kept full idx found s k))

  census_line-Kept :
      (full : Bool) (line : Text) (o : Option Text) (s : Counting)
      → Kept s
      → Ensures Kept (census_line kernel full line o s)
  unfolding census_line Kept
  census_line-Kept full line none s k = count_line-Kept full line s.current s k
  census_line-Kept full line (some name) s k =
      Ensures-inr SassPanic Kept _
        (if-both Kept (is_match kernel name) (λ m. enter-Kept name s.counts _ refl m k) (λ _. k))

  census_lines-Kept :
      (full : Bool) (more : List Text) (s : Counting)
      → Kept s
      → Ensures Kept (census_lines kernel full more s)
  unfolding census_lines
  census_lines-Kept full [] s k = Ensures-inr SassPanic _ _ k
  census_lines-Kept full (line ∷ more) s k =
      Ensures-from Kept _ _ _ (census_line-Kept full line (function_name line) s k)
        (λ t. census_lines-Kept full more t)

  -- When the census of a disassembly has a result, its kernels have different names, and each name
  -- matches the pattern.
  pub census_per_kernel-Selected :
      (sass : Text) (full : Bool) (counts : List (Text × Census))
      → census_per_kernel sass kernel full ≡ inr counts
      → Selected kernel (names counts)
  unfolding census_per_kernel Selected Kept Distinct
  census_per_kernel-Selected sass full counts h =
      ensured (λ c. Selected kernel (names c)) _
        (Ensures-from Kept _ _ _ (census_lines-Kept full (lines sass) _ (tt, tt))
          (λ s k. Ensures-inr SassPanic _ _ k))
        h
