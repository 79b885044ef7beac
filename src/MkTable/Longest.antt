-- ===== src/MkTable/Longest.antt =====
-- The instruction that `instruction_for` of src/nvidia/mktable.rs gives to a row id.
use mathlib.Core.List.{Memᴰ}
use mathlib.Core.List.Memᴰ.{head, tail}
use calx_mill.Base.{
  ◌≡◌, ◌≤◌, ◌⊎◌, refl, inl, inr, true, false, List, [], ◌∷◌, leb→le, length, All, arith, Bool-cases,
}
use calx_mill.Base.Text.{Text, starts_with}
use calx_mill.Base.Sort.{sort_by, sort_by-mem, All-sort_by, sort_by-Ordered, Ordered}
use calx_mill.MkTable.Labels.{instruction, longer_first, first_prefix, instruction_for}

total : (x y : Text × Text) → (longer_first x y ≡ true) ⊎ (longer_first y x ≡ true)
total x y = ground arith

trans :
    (x y z : Text × Text)
    → longer_first x y ≡ true
    → longer_first y z ≡ true
    → longer_first x z ≡ true
trans x y z h k = ground (arith, h, k)

-- The entry's prefix leads the row id.
abbrev pub Leads : Text → Text × Text → Type 0
Leads row_id e = starts_with e.0 row_id ≡ true

-- It does not, or its prefix is no longer than that of another.
abbrev pub NoLonger : Text → Text × Text → Text × Text → Type 0
NoLonger row_id e e' = (starts_with e'.0 row_id ≡ false) ⊎ (length e'.0 ≤ length e.0)

-- The first that leads, or none that does.
PicksLongest : Text → List (Text × Text) → Type 0
PicksLongest row_id keys =
    ((e : Text × Text) × Memᴰ e keys
      × Leads row_id e
      × (first_prefix row_id keys ≡ e.1)
      × All (NoLonger row_id e) keys)
    ⊎ ((first_prefix row_id keys ≡ []) × All (λ e. starts_with e.0 row_id ≡ false) keys)

below :
    (row_id : Text) (e : Text × Text) (keys : List (Text × Text))
    → All (λ f. longer_first e f ≡ true) keys
    → All (NoLonger row_id e) keys
below row_id e [] h = tt
below row_id e (f ∷ keys) (h, hs) =
    (inr (leb→le (length f.0) (length e.0) h), below row_id e keys hs)

first_prefix-PicksLongest :
    (row_id : Text) (keys : List (Text × Text))
    → Ordered longer_first keys
    → PicksLongest row_id keys
unfolding first_prefix PicksLongest
first_prefix-PicksLongest row_id [] o = inr (refl, tt)
first_prefix-PicksLongest row_id ((p, inst) ∷ keys) (a, o) =
    elim (Bool-cases (starts_with p row_id)) [
      | inl now ↦ inl (
        (p, inst),
        head refl,
        now,
        rw now refl,
        (inr (omega arith), below row_id (p, inst) keys a),
      )
      | inr other ↦ elim (first_prefix-PicksLongest row_id keys o) [
        | inl (e, d, leads, chosen, rest) ↦
            inl (e, tail d, leads, rw other chosen, (inl other, rest))
        | inr (chosen, rest) ↦ inr (rw other chosen, (other, rest))
      ]
    ]

-- A row id gets the instruction of an entry of the table whose prefix leads it, such that no entry's
-- prefix that leads it is longer; where no prefix leads it, it gets no instruction.
pub instruction_for_longest :
    (row_id : Text)
    → ((e : Text × Text) × Memᴰ e instruction
        × Leads row_id e
        × (instruction_for row_id ≡ e.1)
        × All (NoLonger row_id e) instruction)
      ⊎ ((instruction_for row_id ≡ []) × All (λ e. starts_with e.0 row_id ≡ false) instruction)
unfolding instruction_for PicksLongest
instruction_for_longest row_id =
    elim (first_prefix-PicksLongest row_id (sort_by longer_first instruction)
      (sort_by-Ordered longer_first total trans instruction)) [
        | inl (e, d, leads, chosen, rest) ↦ inl (
          e,
          sort_by-mem longer_first e instruction d,
          leads,
          chosen,
          All-sort_by longer_first (NoLonger row_id e) instruction rest,
        )
        | inr (chosen, rest) ↦ inr (
          chosen,
          All-sort_by longer_first (λ (e : Text × Text). starts_with e.0 row_id ≡ false) instruction
              rest,
        )
      ]
