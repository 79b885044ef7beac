-- ===== src/Validity/Authority.antt =====
-- The tiers of authority of src/validity.rs, their composition, and the verdict with its exit code.
use calx_mill.Base.{ℕ, ◌≡◌, ◌≢◌, ◌↔◌, ◌⊎◌, ◌≤◌, Bool, true, false, not, leb, if◌then◌else◌, arith}

pub data Authority : Type 0 where
  advisory cross_checked gate : Authority

pub data DomainFit : Type 0 where
  at_anchor in_domain out_of_domain : DomainFit

pub data Verdict : Type 0 where
  certified provisional refused : Verdict

-- The derived order: a later constructor is greater.
abbrev pub rank : Authority → ℕ
rank advisory = 0
rank cross_checked = 1
rank gate = 2

infix 4 ◌⊑◌
abbrev pub ◌⊑◌ : Authority → Authority → Type 0
a ⊑ b = rank a ≤ rank b

abbrev pub meet : Authority → Authority → Authority
meet a b = if leb (rank a) (rank b) then a else b

unfoldable pub authority : Bool → DomainFit → Authority
authority anchored fit =
    if not anchored
    then advisory
    else elim fit [ at_anchor ↦ gate | in_domain ↦ cross_checked | out_of_domain ↦ advisory ]

unfoldable pub compose : Authority → Authority → Bool → Authority
compose a b composite_anchored =
    let m = meet a b in if composite_anchored then m else meet m cross_checked

unfoldable pub verdict : Authority → Verdict
verdict gate = certified
verdict cross_checked = provisional
verdict advisory = refused

unfoldable pub exit_code : Verdict → ℕ
exit_code certified = 0
exit_code refused = 2
exit_code provisional = 3

abbrev pub usage_exit : ℕ
usage_exit = 4

-- The verdict is `certified` exactly when the anchor is reproduced and the query is at the anchor,
-- and `provisional` exactly when it is reproduced and the query is elsewhere in the domain.
pub verdict-authority_iff :
    (anchored : Bool) (fit : DomainFit)
    → ((verdict (authority anchored fit) ≡ certified) ↔ ((anchored ≡ true) × (fit ≡ at_anchor)))
      × ((verdict (authority anchored fit) ≡ provisional) ↔ ((anchored ≡ true) × (fit ≡ in_domain)))
unfolding authority verdict
verdict-authority_iff true at_anchor = ground arith
verdict-authority_iff true in_domain = ground arith
verdict-authority_iff true out_of_domain = ground arith
verdict-authority_iff false fit = ground arith

-- A composition's tier is the greatest that is no greater than either part's and, without an anchor
-- of the composition's own, no greater than `cross_checked`.
pub compose_greatest :
    (a b c : Authority) (composite_anchored : Bool)
    → (c ⊑ compose a b composite_anchored)
      ↔ ((c ⊑ a) × (c ⊑ b) × ((composite_anchored ≡ true) ⊎ (c ⊑ cross_checked)))
unfolding compose
compose_greatest advisory advisory c anchored = ground arith
compose_greatest advisory cross_checked c anchored = ground arith
compose_greatest advisory gate c anchored = ground arith
compose_greatest cross_checked advisory c anchored = ground arith
compose_greatest cross_checked cross_checked c anchored = ground arith
compose_greatest cross_checked gate c anchored = ground arith
compose_greatest gate advisory c anchored = ground arith
compose_greatest gate cross_checked c anchored = ground arith
compose_greatest gate gate c anchored = ground arith

-- Verdicts with the same exit code are the same, and none has the code of a usage error.
pub exit_code_distinct :
    (v w : Verdict) → ((exit_code v ≡ exit_code w) ↔ (v ≡ w)) × (exit_code v ≢ usage_exit)
unfolding exit_code
exit_code_distinct certified certified = ground arith
exit_code_distinct certified provisional = ground arith
exit_code_distinct certified refused = ground arith
exit_code_distinct provisional certified = ground arith
exit_code_distinct provisional provisional = ground arith
exit_code_distinct provisional refused = ground arith
exit_code_distinct refused certified = ground arith
exit_code_distinct refused provisional = ground arith
exit_code_distinct refused refused = ground arith
