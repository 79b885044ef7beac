-- ===== src/Check/Shares.antt =====
-- The census-match mode of src/nvidia/check.rs: the shares of the classes of operations in the hot
-- loops of two disassemblies. Reading or making a disassembly is a parameter.
use calx_mill.Base.{
  ℕ, Option, none, some, inl, inr, List, [], ◌∷◌, ◌++◌, map, ◌==◌, if◌then◌else◌, any,
  wrapping_add64,
}
use calx_mill.Base.Result.{Result, ◌>>=◌, ok_or}
use calx_mill.Base.Text.{Text, codes, text_eq, split_once}
use calx_mill.Base.Float.{Float}
use calx_mill.Csv.Reader.{is_empty}
use calx_mill.Pattern.Compile.{try_new}
use calx_mill.Projection.Census.{Census}
use calx_mill.Sass.Scan.{SassPanic}
use calx_mill.Sass.Mix.{loop_mix}
use calx_mill.Check.Tables.{match_groups}
use calx_mill.Check.Purity.{among}

-- The ends of the command without shares: a side that cannot be read, a pattern that is not
-- supported, a side without a kernel, and a panic.
pub data MatchStop : Type 0 where
  unreadable : Text → MatchStop
  bad_pattern : Text → ℕ → MatchStop
  no_kernel : Text → MatchStop
  panics : SassPanic → MatchStop

every_name : Text
every_name = codes ".*"

unfoldable pub side : Text → Option (Text × Text) → Text × Text
unfolding every_name
side spec none = (spec, every_name)
side spec (some (path, regex)) = (path, if is_empty regex then every_name else regex)

unfoldable pub stop_with {ℓ} :
    {E : Type 0} {A : Type ℓ} → (E → MatchStop) → Result E A → Result MatchStop A
stop_with f (inl e) = inl (f e)
stop_with f (inr x) = inr x

unfoldable pub total_of : Census → ℕ
total_of [] = 0
total_of ((op, n) ∷ items) = wrapping_add64 n (total_of items)

other : Text
other = codes "other"

-- The class of an operation.
unfoldable pub group_in : List (Text × List Text) → Text → Text
unfolding other
group_in [] base = other
group_in ((k, ops) ∷ groups) base = if among ops base then k else group_in groups base

abbrev pub group_names : List Text
group_names = map (λ (g : Text × List Text). g.0) match_groups ++ codes "other" ∷ []

module _ {F : Type 0} ⦃fl : Float F⦄ where
  open fl use {nought, hundred, add, sub, mul, div, abs, lt, of_ℕ}

  unfoldable pub no_shares : List Text → List (Text × F)
  no_shares [] = []
  no_shares (k ∷ ks) = (k, nought) ∷ no_shares ks

  -- `slot.1 += share`, at the first slot of the class.
  unfoldable pub add_share : Text → F → List (Text × F) → List (Text × F)
  add_share grp share [] = []
  add_share grp share ((k, x) ∷ slots) =
      let rest = add_share grp share slots in
      if text_eq k grp then (k, add x share) ∷ slots else (k, x) ∷ rest

  unfoldable pub add_shares : ℕ → Census → List (Text × F) → List (Text × F)
  unfolding group_in
  add_shares total [] slots = slots
  add_shares total ((base, n) ∷ items) slots =
      add_shares total items
        (add_share (group_in match_groups base) (div (mul hundred (of_ℕ n)) (of_ℕ total)) slots)

  -- The distances of the shares, class by class.
  unfoldable pub distances : List (Text × F) → List (Text × F) → List F
  distances ((k, a) ∷ xs) ((l, b) ∷ ys) = abs (sub a b) ∷ distances xs ys
  distances _ _ = []

  -- The exit code: 1 without shares or where a distance exceeds the tolerance. A panic has none of the
  -- command's.
  unfoldable pub match_code : F → Result MatchStop (List F) → Option ℕ
  match_code tol (inl (unreadable spec)) = some 1
  match_code tol (inl (bad_pattern spec c)) = some 1
  match_code tol (inl (no_kernel spec)) = some 1
  match_code tol (inl (panics p)) = none
  match_code tol (inr ds) = some (if any (λ d. fl.lt tol d) ds then 1 else 0)

module _ (F : Type 0) ⦃fl : Float F⦄ (sass_text : Text → Option Text) where
  -- The shares of the loops of a mix, and the number of the loops.
  unfoldable pub shares_of : Text → Census × ℕ → Result MatchStop (List (Text × F) × ℕ)
  unfolding total_of
  shares_of spec (mix, matched) =
      if matched == 0
      then inl (no_kernel spec)
      else inr (add_shares (total_of mix) mix (no_shares group_names), matched)

  -- Reading a pattern that is supported always gives one.
  unfoldable pub shares : Text → Result MatchStop (List (Text × F) × ℕ)
  unfolding side stop_with
  shares spec = do
    let parts = side spec (split_once (codes ":") spec)
    sass ← ok_or (sass_text parts.0) (unreadable spec)
    read ← stop_with (bad_pattern spec) (try_new parts.1)
    pat ← ok_or read (bad_pattern spec 0)
    found ← stop_with panics (loop_mix sass pat)
    shares_of spec found

  -- The distances of the two sides.
  unfoldable pub census_match : Text → Text → Result MatchStop (List F)
  census_match spec_a spec_b = do a ← shares spec_a; b ← shares spec_b; inr (distances a.0 b.0)
