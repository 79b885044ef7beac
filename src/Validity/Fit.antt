-- ===== src/Validity/Fit.antt =====
-- `Anchor`, `DomainBound`, `AnchorRow` and `computed_fit` of src/validity.rs.
use calx_mill.Base.{
  Bool, false, not, ◌&&◌, ◌||◌, Option, none, some, List, [], ◌∷◌, ◌==◌, if◌then◌else◌, length, any,
  all,
}
use calx_mill.Base.Text.{Text, text_eq}
use calx_mill.Base.Float.{Float}
use calx_mill.Validity.Authority.{DomainFit, at_anchor, in_domain, out_of_domain}

pub record Anchor (F : Type 0) : Type 0 where
  pub measured : F
  pub tol : F

pub data DomainBound (F : Type 0) : Type 0 where
  range : F → F → DomainBound F
  exact : Text → DomainBound F

pub record AnchorRow (F : Type 0) : Type 0 where
  pub id : Text
  pub anchor : Anchor F
  pub units : Text
  pub at : List (Text × Text)
  pub domain : List (Text × DomainBound F)

-- The value of the first pair with the key.
unfoldable pub find_value : Text → List (Text × Text) → Option Text
find_value k [] = none
find_value k ((q, v) ∷ query) = if text_eq q k then some v else find_value k query

-- The returns of `computed_fit`, on what its loops and its last test find.
abbrev pub fit_of : Bool → Bool → Bool → DomainFit
fit_of covered bounded at_point =
    if not covered
    then out_of_domain
    else if not bounded
    then out_of_domain
    else if at_point
    then at_anchor
    else in_domain

module _ (F : Type 0) ⦃fl : Float F⦄ where
  both_parsed : Option F → Option F → Bool → Bool
  both_parsed (some x) (some y) same = fl.eq x y
  both_parsed (some x) none same = same
  both_parsed none y same = same

  unfoldable pub value_eq : Text → Text → Bool
  unfolding both_parsed
  value_eq a b = both_parsed (fl.parse a) (fl.parse b) (text_eq a b)

  unfoldable pub is_anchor_point : List (Text × Text) → List (Text × Text) → Bool
  unfolding value_eq
  is_anchor_point at query =
      length query == length at
      && all (λ kv. any (λ a. text_eq a.0 kv.0 && value_eq a.1 kv.1) at) query

module _ {F : Type 0} ⦃fl : Float F⦄ where
  unfoldable pub reproduces : Anchor F → F → Bool
  reproduces a projected = fl.le (fl.abs (fl.sub projected a.measured)) (fl.abs a.tol)

  unfoldable pub in_range : F → F → Option F → Bool
  in_range lo hi none = false
  in_range lo hi (some x) = not (fl.lt x lo || fl.lt hi x)

  unfoldable pub within : DomainBound F → Option Text → Bool
  unfolding in_range
  within bound none = false
  within (range lo hi) (some qv) = in_range lo hi (fl.parse qv)
  within (exact s) (some qv) = value_eq F qv s

  unfoldable pub covers_axes : List (Text × DomainBound F) → List (Text × Text) → Bool
  covers_axes domain query = all (λ kv. any (λ d. text_eq d.0 kv.0) domain) query

  unfoldable pub meets_bounds : List (Text × DomainBound F) → List (Text × Text) → Bool
  unfolding within find_value
  meets_bounds domain query = all (λ d. within d.1 (find_value d.0 query)) domain

  unfoldable pub computed_fit : AnchorRow F → List (Text × Text) → DomainFit
  unfolding covers_axes meets_bounds is_anchor_point
  computed_fit row query =
      fit_of (covers_axes row.domain query) (meets_bounds row.domain query)
        (is_anchor_point F row.at query)
