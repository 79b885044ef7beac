-- ===== src/Validity/Certified.antt =====
-- Which claims the registry of src/validity.rs lets gate a decision.
use mathlib.Core.List.Memᴰ.{head}
use calx_mill.Base.{false_of_not, refl, ◌≡◌, ◌≢◌, ◌↔◌, true, some, List, [], ◌∷◌}
use calx_mill.Base.Text.{Text, text_eq_iff}
use calx_mill.Base.Float.{Float, IsNum, IsOrdered}
use calx_mill.Validity.Authority.{
  certified, out_of_domain, authority, verdict, verdict-authority_iff,
}
use calx_mill.Validity.Fit.{range, AnchorRow, reproduces, find_value, computed_fit}
use calx_mill.Validity.Covered.{Meets, Covered, AtPoint, computed_fit_iff}

find_value_first :
    (k v : Text) (query : List (Text × Text)) → find_value k ((k, v) ∷ query) ≡ some v
unfolding find_value
find_value_first k v query = rw ((text_eq_iff k k).1 refl) refl

module _ {F : Type 0} ⦃fl : Float F⦄ where
  -- A claimed value is certified against a registry row exactly when it reproduces the row's anchor,
  -- the row's domain covers the query, and the query is the anchor's own point, or repeats a key and
  -- has as many pairs, all of that point.
  pub certified_iff :
      (row : AnchorRow F) (query : List (Text × Text)) (projected : F)
      → (verdict (authority (reproduces row.anchor projected) (computed_fit row query)) ≡ certified)
        ↔ ((reproduces row.anchor projected ≡ true) × (Covered row query × AtPoint row query))
  certified_iff row query projected =
      let (gate_iff, _) =
        verdict-authority_iff (reproduces row.anchor projected) (computed_fit row query) in
      let (_, fit_iff) = computed_fit_iff row query in
      (
        λ h. let (anchored, fit) = gate_iff.0 h in (anchored, fit_iff.0 fit),
        λ (anchored, fit). gate_iff.1 (anchored, fit_iff.1 fit),
      )

  -- NaN is neither below a range nor above it.
  nan-Meets :
      (ordered : IsOrdered F) (lo hi : F) (v : Text) (x : F)
      → fl.parse v ≡ some x
      → ¬ (IsNum x)
      → Meets (range lo hi) v
  unfolding Meets
  nan-Meets ordered lo hi v x e nan = (
    x,
    e,
    false_of_not (λ h. nan (ordered.num_of_lt x lo h).0),
    false_of_not (λ h. nan (ordered.num_of_lt hi x h).1),
  )

  -- By the laws of the order, over a domain of one range, a query whose value for that axis parses to NaN is not out of the
  -- domain.
  pub computed_fit_admits_nan :
      (ordered : IsOrdered F) (row : AnchorRow F) (k v : Text) (lo hi x : F)
      → fl.parse v ≡ some x
      → ¬ (IsNum x)
      → computed_fit (record row { domain = (k, range lo hi) ∷ [] }) ((k, v) ∷ []) ≢ out_of_domain
  unfolding Covered
  computed_fit_admits_nan ordered row k v lo hi x e nan =
      (computed_fit_iff (record row { domain = (k, range lo hi) ∷ [] }) ((k, v) ∷ [])).0.1 (
        (((k, range lo hi), head refl, refl), tt),
        ((v, find_value_first k v [], nan-Meets ordered lo hi v x e nan), tt),
      )
