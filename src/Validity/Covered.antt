-- ===== src/Validity/Covered.antt =====
-- What `computed_fit` of src/validity.rs decides of a query.
use mathlib.Core.List.{Memᴰ}
use mathlib.Core.Option.{some-injective}
use mathlib.Core.Path.{subst}
use calx_mill.Base.{
  ◌≡◌, ◌⊎◌, inl, inr, ◌≢◌, ◌↔◌, refl, false≢true, none≢some, sym, ap, ◌∙◌, Bool, true, false, ◌&&◌,
  Option, none, some, List, ==_iff, length, any, All,
}
use calx_mill.Base.Scan.{nor_iff, both_iff, any_iff, all_iff}
use calx_mill.Base.Text.{Text, text_eq, text_eq_iff}
use calx_mill.Base.Float.{Float}
use calx_mill.Validity.Authority.{at_anchor, out_of_domain}
use calx_mill.Validity.OwnPoint.{RepeatsKey, repeats_or_whole}
use calx_mill.Validity.Fit.{
  DomainBound, range, exact, AnchorRow, find_value, value_eq, in_range, within, covers_axes,
  meets_bounds, is_anchor_point, fit_of, computed_fit,
}

-- The last tests of `computed_fit`, on tests that decide `P`, `Q` and `R`.
fit_iff :
    {P Q R : Type 0} {a b c : Bool}
    → (a ≡ true) ↔ P
    → (b ≡ true) ↔ Q
    → (c ≡ true) ↔ R
    → ((fit_of a b c ≢ out_of_domain) ↔ (P × Q)) × ((fit_of a b c ≡ at_anchor) ↔ ((P × Q) × R))
fit_iff {a = true} {b = true} {c = true} p q r =
    ((λ h. (p.0 refl, q.0 refl), λ pq. cc), (λ h. ((p.0 refl, q.0 refl), r.0 refl), λ pqr. refl))
fit_iff {a = true} {b = true} {c = false} p q r =
    ((λ h. (p.0 refl, q.0 refl), λ pq. cc), (λ h. cc, λ pqr. elim (false≢true (r.1 pqr.1)) [ ]))
fit_iff {a = true} {b = false} {c} p q r = (
  (λ h. elim (h refl) [ ], λ pq. elim (false≢true (q.1 pq.1)) [ ]),
  (λ h. cc, λ pqr. elim (false≢true (q.1 pqr.0.1)) [ ]),
)
fit_iff {a = false} {b} {c} p q r = (
  (λ h. elim (h refl) [ ], λ pq. elim (false≢true (p.1 pq.0)) [ ]),
  (λ h. cc, λ pqr. elim (false≢true (p.1 pqr.0.0)) [ ]),
)

module _ (F : Type 0) ⦃fl : Float F⦄ where
  -- A pair of the point and one of the query: the same key and equal values.
  abbrev pub Matches : Text × Text → Text × Text → Type 0
  Matches a kv = (a.0 ≡ kv.0) × (value_eq F a.1 kv.1 ≡ true)

module _ {F : Type 0} ⦃fl : Float F⦄ where
  -- The value of a query is within a bound: it parses to a number that is not below the range and not
  -- above it, or it equals the exact value.
  unfoldable pub Meets : DomainBound F → Text → Type 0
  Meets (range lo hi) v =
      (x : F) × (fl.parse v ≡ some x) × (fl.lt x lo ≡ false) × (fl.lt hi x ≡ false)
  Meets (exact s) v = value_eq F v s ≡ true

  -- Each axis of the query is an axis of the domain, and for each axis of the domain the query has a
  -- value, the first with its key, within the bound.
  unfoldable pub Covered : AnchorRow F → List (Text × Text) → Type 0
  Covered row query =
      All (λ kv. (d : Text × DomainBound F) × Memᴰ d row.domain × (d.0 ≡ kv.0)) query
      × All (λ d. (v : Text) × (find_value d.0 query ≡ some v) × Meets d.1 v) row.domain

  -- The query has as many pairs as the anchor's point, and each matches one of the point's.
  abbrev pub Within : AnchorRow F → List (Text × Text) → Type 0
  Within row query =
      (length query ≡ length row.at)
      × All (λ kv. (a : Text × Text) × Memᴰ a row.at × Matches F a kv) query

  -- The query is the anchor's own point: as many pairs, and each pair of either matches one of the
  -- other.
  abbrev pub OwnPoint : AnchorRow F → List (Text × Text) → Type 0
  OwnPoint row query =
      Within row query × All (λ a. (kv : Text × Text) × Memᴰ kv query × Matches F a kv) row.at

  -- The anchor's own point, or a query with a repeated key that is within it.
  unfoldable pub AtPoint : AnchorRow F → List (Text × Text) → Type 0
  AtPoint row query = OwnPoint row query ⊎ (RepeatsKey query × Within row query)

  covers_axes_iff :
      (domain : List (Text × DomainBound F)) (query : List (Text × Text))
      → (covers_axes domain query ≡ true)
        ↔ All (λ kv. (d : Text × DomainBound F) × Memᴰ d domain × (d.0 ≡ kv.0)) query
  unfolding covers_axes
  covers_axes_iff domain query =
      all_iff (λ kv. any (λ d. text_eq d.0 kv.0) domain)
        (λ kv. any_iff (λ d. text_eq d.0 kv.0) (λ d. text_eq_iff d.0 kv.0) domain) query

  in_range_iff :
      (lo hi : F) (o : Option F)
      → (in_range lo hi o ≡ true)
        ↔ ((x : F) × (o ≡ some x) × (fl.lt x lo ≡ false) × (fl.lt hi x ≡ false))
  unfolding in_range
  in_range_iff lo hi none = (λ h. elim (false≢true h) [ ], λ (x, e, h, k). elim (none≢some e) [ ])
  in_range_iff lo hi (some x) = (
    λ h. let (p, q) = nor_iff.0 h in (x, refl, p, q),
    λ (y, e, h, k). nor_iff.1 (
      ap (λ z. fl.lt z lo) (some-injective _ _ e) ∙ h,
      ap (λ z. fl.lt hi z) (some-injective _ _ e) ∙ k,
    ),
  )

  within_iff :
      (bound : DomainBound F) (o : Option Text)
      → (within bound o ≡ true) ↔ ((v : Text) × (o ≡ some v) × Meets bound v)
  unfolding within Meets
  within_iff bound none = (λ h. elim (false≢true h) [ ], λ (x, e, h). elim (none≢some e) [ ])
  within_iff (range lo hi) (some v) = (
    λ h. (v, refl, (in_range_iff lo hi (fl.parse v)).0 h),
    λ (w, e, h).
        (in_range_iff lo hi (fl.parse v)).1
          (subst (Meets (range lo hi)) (sym (some-injective _ _ e)) h),
  )
  within_iff (exact s) (some v) =
      (λ h. (v, refl, h), λ (w, e, h). subst (Meets (exact s)) (sym (some-injective _ _ e)) h)

  meets_bounds_iff :
      (domain : List (Text × DomainBound F)) (query : List (Text × Text))
      → (meets_bounds domain query ≡ true)
        ↔ All (λ d. (v : Text) × (find_value d.0 query ≡ some v) × Meets d.1 v) domain
  unfolding meets_bounds
  meets_bounds_iff domain query =
      all_iff (λ d. within d.1 (find_value d.0 query)) (λ d. within_iff d.1 (find_value d.0 query))
        domain

  is_anchor_point-Within :
      (row : AnchorRow F) (query : List (Text × Text))
      → (is_anchor_point F row.at query ≡ true) ↔ Within row query
  unfolding is_anchor_point
  is_anchor_point-Within row query = both_iff (==_iff (length query) (length row.at)) (
      all_iff (λ kv. any (λ a. text_eq a.0 kv.0 && value_eq F a.1 kv.1) row.at)
        (λ kv.
          any_iff (λ a. text_eq a.0 kv.0 && value_eq F a.1 kv.1)
            (λ a. both_iff (text_eq_iff a.0 kv.0) (λ h. h, λ h. h)) row.at)
        query)

  Within-AtPoint :
      (row : AnchorRow F) (query : List (Text × Text)) → Within row query ↔ AtPoint row query
  unfolding AtPoint
  Within-AtPoint row query = (
    λ w. elim (repeats_or_whole (Matches F) (λ a kv m. m.0) query row.at w.0 w.1) [
      | inl again ↦ inr (again, w)
      | inr asked ↦ inl (w, asked)
    ],
    λ p. elim p [ inl own ↦ own.0 | inr again ↦ again.1 ],
  )

  is_anchor_point_iff :
      (row : AnchorRow F) (query : List (Text × Text))
      → (is_anchor_point F row.at query ≡ true) ↔ AtPoint row query
  is_anchor_point_iff row query =
      let test = is_anchor_point-Within row query in
      let split = Within-AtPoint row query in (λ h. split.0 (test.0 h), λ p. test.1 (split.1 p))

  pub computed_fit_iff :
      (row : AnchorRow F) (query : List (Text × Text))
      → ((computed_fit row query ≢ out_of_domain) ↔ Covered row query)
        × ((computed_fit row query ≡ at_anchor) ↔ (Covered row query × AtPoint row query))
  unfolding computed_fit Covered
  computed_fit_iff row query =
      fit_iff (covers_axes_iff row.domain query) (meets_bounds_iff row.domain query)
        (is_anchor_point_iff row query)
