-- ===== src/MkTable/Parted.antt =====
-- The groups of a row's measurements in `mk_table` of src/nvidia/mktable.rs: nothing is lost, nothing is
-- counted twice, and each group holds what belongs to it.
use mathlib.Core.List.{Perm, perm_middle, append_assoc, append-nil}
use mathlib.Core.List.Perm
use calx_mill.Base.{
  ◌≡◌, refl, sym, ap, ◌∙◌, Bool, true, false, Option, none, some, inl, inr, List, [], ◌∷◌, ◌++◌,
  map, All, All-append, if-both, Bool-cases,
}
use calx_mill.Base.Text.{Text, text_eq, text_eq_iff}
use calx_mill.Base.Sort.{sort_by-All}
use calx_mill.Base.Groups.{
  Group, members, gathered, gathered-push_group, gathered-sort_by, push_group-Holding,
}
use calx_mill.MkTable.Rows.{Meas}
use calx_mill.MkTable.Labels.{sweep_base}
use calx_mill.MkTable.Grouping.{
  GroupKey, sweep, standalone, Gathered, push_by, put_meas, put_all, with_key, put_variants,
  both_kinds, is_swept, groups_of, key_leb, sorted_groups,
}

-- Two lists of groups that hold some measurements together.
Hold : Gathered × Gathered → List Meas → Type 0
Hold both ms = Perm (gathered both.0 ++ gathered both.1) ms

put_meas-Hold :
    (m : Meas) (o : Option Text) (both : Gathered × Gathered) (ms : List Meas)
    → Hold both ms
    → Hold (put_meas m o both) (m ∷ ms)
unfolding Hold put_meas push_by
put_meas-Hold m (some sb) (sweeps, alone) ms h =
    Perm.trans (Perm.append_right (gathered alone) (gathered-push_group _ sb m sweeps))
      (Perm.cons m h)
put_meas-Hold m none (sweeps, alone) ms h =
    Perm.trans (Perm.append_left (gathered sweeps) (gathered-push_group _ m.variant m alone))
      (Perm.trans (perm_middle (gathered sweeps) (gathered alone)) (Perm.cons m h))

put_all-Hold :
    (rows : List Meas) (both : Gathered × Gathered) (ms : List Meas)
    → Hold both ms
    → Hold (put_all rows both) (rows ++ ms)
unfolding put_all Hold
put_all-Hold [] both ms h = h
put_all-Hold (m ∷ rows) both ms h =
    Perm.trans
      (put_all-Hold rows (put_meas m (sweep_base m.variant) both) (m ∷ ms)
        (put_meas-Hold m (sweep_base m.variant) both ms h))
      (perm_middle rows ms)

gathered-with_key :
    (c : Text → GroupKey) (gs : Gathered) → gathered (map (with_key c) gs) ≡ gathered gs
gathered-with_key c [] = refl
gathered-with_key c (g ∷ gs) = ap (λ l. members g ++ l) (gathered-with_key c gs)

gathered-append :
    {K : Type 0} (gs hs : List (Group K Meas)) → gathered (gs ++ hs) ≡ gathered gs ++ gathered hs
gathered-append [] hs = refl
gathered-append (g ∷ gs) hs =
    ap (λ l. members g ++ l) (gathered-append gs hs)
    ∙ sym (append_assoc (members g) (gathered gs) (gathered hs))

both_kinds-gathered :
    (both : Gathered × Gathered) → gathered (both_kinds both) ≡ gathered both.0 ++ gathered both.1
unfolding both_kinds
both_kinds-gathered (sweeps, alone) =
    gathered-append (map (with_key sweep) sweeps) (map (with_key standalone) alone)
    ∙ rw (gathered-with_key sweep sweeps, gathered-with_key standalone alone) refl

put_variants-perm :
    (rows ms : List Meas) (gs : Gathered)
    → Perm (gathered gs) ms
    → Perm (gathered (put_variants rows gs)) (rows ++ ms)
unfolding put_variants push_by
put_variants-perm [] ms gs h = h
put_variants-perm (m ∷ rows) ms gs h =
    Perm.trans
      (put_variants-perm rows (m ∷ ms) (push_by m.variant m gs)
        (Perm.trans (gathered-push_group _ m.variant m gs) (Perm.cons m h)))
      (perm_middle rows ms)

groups_of-perm : (kind : Text) (rows : List Meas) → Perm (gathered (groups_of kind rows)) rows
unfolding groups_of Hold
groups_of-perm kind rows =
    if-both (λ (gs : List (Group GroupKey Meas)). Perm (gathered gs) rows) (is_swept kind)
      (λ _.
        rw (both_kinds-gathered (put_all rows ([], [])))
          (rw append-nil at (put_all-Hold rows ([], []) [] (unfold Hold in Perm.rfl))))
      (λ _.
        rw (gathered-with_key standalone (put_variants rows []))
          (rw append-nil at (put_variants-perm rows [] [] Perm.rfl)))

-- A measurement of a sweep has the suffix of its group, and is of a swept kind. Another has the
-- variant of its group, and is no sweep's where the kind is swept.
unfoldable pub Belongs : Bool → GroupKey → Meas → Type 0
Belongs true (sweep s) m = sweep_base m.variant ≡ some s
Belongs true (standalone v) m = (sweep_base m.variant ≡ none) × (m.variant ≡ v)
Belongs false (sweep s) m = ⊥
Belongs false (standalone v) m = m.variant ≡ v

-- Every group holds measurements that belong to it.
Fitting : Bool → List (Group GroupKey Meas) → Type 0
Fitting b gs = All (λ g. All (Belongs b g.key) (members g)) gs

Sweeps : Gathered → Type 0
Sweeps gs = All (λ g. All (λ m. sweep_base m.variant ≡ some g.key) (members g)) gs

Alone : Gathered → Type 0
Alone gs = All (λ g. All (λ m. (sweep_base m.variant ≡ none) × (m.variant ≡ g.key)) (members g)) gs

Variants : Gathered → Type 0
Variants gs = All (λ g. All (λ m. m.variant ≡ g.key) (members g)) gs

put_meas-fitting :
    (m : Meas) (o : Option Text) (both : Gathered × Gathered)
    → sweep_base m.variant ≡ o
    → Sweeps both.0
    → Alone both.1
    → Sweeps (put_meas m o both).0 × Alone (put_meas m o both).1
unfolding put_meas push_by Sweeps Alone
put_meas-fitting m (some sb) (sweeps, alone) e s a = (
  push_group-Holding (λ (k : Text) (m : Meas). sweep_base m.variant ≡ some k) (λ l. text_eq l sb) sb
      m sweeps e (λ l h. e ∙ ap some (sym ((text_eq_iff l sb).0 h))) s,
  a,
)
put_meas-fitting m none (sweeps, alone) e s a = (
  s,
  push_group-Holding (λ (k : Text) (m : Meas). (sweep_base m.variant ≡ none) × (m.variant ≡ k))
      (λ l. text_eq l m.variant) m.variant m alone (e, refl)
      (λ l h. (e, sym ((text_eq_iff l m.variant).0 h))) a,
)

put_all-fitting :
    (rows : List Meas) (both : Gathered × Gathered)
    → Sweeps both.0
    → Alone both.1
    → Sweeps (put_all rows both).0 × Alone (put_all rows both).1
unfolding put_all
put_all-fitting [] both s a = (s, a)
put_all-fitting (m ∷ rows) both s a =
    let (s', a') = put_meas-fitting m (sweep_base m.variant) both refl s a in
    put_all-fitting rows (put_meas m (sweep_base m.variant) both) s' a'

put_variants-fitting :
    (rows : List Meas) (gs : Gathered) → Variants gs → Variants (put_variants rows gs)
unfolding put_variants push_by Variants
put_variants-fitting [] gs h = h
put_variants-fitting (m ∷ rows) gs h = put_variants-fitting rows (push_by m.variant m gs) (
    push_group-Holding (λ (k : Text) (m : Meas). m.variant ≡ k) (λ l. text_eq l m.variant) m.variant
      m gs refl (λ l e. sym ((text_eq_iff l m.variant).0 e)) h)

keyed-Sweeps : (gs : Gathered) → Sweeps gs → Fitting true (map (with_key sweep) gs)
unfolding Sweeps Fitting Belongs
keyed-Sweeps [] h = tt
keyed-Sweeps (g ∷ gs) (h, hs) = (h, keyed-Sweeps gs hs)

keyed-Alone : (gs : Gathered) → Alone gs → Fitting true (map (with_key standalone) gs)
unfolding Alone Fitting Belongs
keyed-Alone [] h = tt
keyed-Alone (g ∷ gs) (h, hs) = (h, keyed-Alone gs hs)

keyed-Variants : (gs : Gathered) → Variants gs → Fitting false (map (with_key standalone) gs)
unfolding Variants Fitting Belongs
keyed-Variants [] h = tt
keyed-Variants (g ∷ gs) (h, hs) = (h, keyed-Variants gs hs)

both_kinds-Fitting :
    (both : Gathered × Gathered) → Sweeps both.0 → Alone both.1 → Fitting true (both_kinds both)
unfolding both_kinds Fitting
both_kinds-Fitting (sweeps, alone) s a =
    All-append _ (map (with_key sweep) sweeps) (map (with_key standalone) alone)
      (unfold Fitting in keyed-Sweeps sweeps s) (unfold Fitting in keyed-Alone alone a)

groups_of-Fitting : (kind : Text) (rows : List Meas) → Fitting (is_swept kind) (groups_of kind rows)
unfolding groups_of
groups_of-Fitting kind rows = elim (Bool-cases (is_swept kind)) [
  | inl h ↦ rw h (
      let (s, a) = put_all-fitting rows ([], []) (unfold Sweeps in tt) (unfold Alone in tt) in
      both_kinds-Fitting (put_all rows ([], [])) s a)
  | inr h ↦
      rw h (
        keyed-Variants (put_variants rows [])
          (put_variants-fitting rows [] (unfold Variants in tt)))
]

-- The groups of a row hold together all its measurements, each exactly once, and every group holds
-- only measurements that belong to it.
pub sorted_groups-Parted :
    (kind : Text) (rows : List Meas)
    → Perm (gathered (sorted_groups kind rows)) rows
      × All (λ g. All (Belongs (is_swept kind) g.key) (members g)) (sorted_groups kind rows)
unfolding sorted_groups
sorted_groups-Parted kind rows = (
  Perm.trans (gathered-sort_by key_leb (groups_of kind rows)) (groups_of-perm kind rows),
  sort_by-All key_leb (λ (g : Group GroupKey Meas). All (Belongs (is_swept kind) g.key) (members g))
      (groups_of kind rows) (unfold Fitting in groups_of-Fitting kind rows),
)
