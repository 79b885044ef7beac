-- ===== src/MkTable/Middle.antt =====
-- What `median` of src/nvidia/mktable.rs gives: the middle of the values in order.
use mathlib.Core.Path.{subst}
use mathlib.Core.List.{Perm}
use mathlib.Core.List.Perm
use mathlib.Core.Option.{some-injective}
use calx_mill.Base.{
  suc, ◌-◌, ◌/◌, ◌%◌, ◌≡◌, ◌≢◌, ◌⊎◌, Bool-cases, refl, sym, ap, ◌∙◌, inl, inr, Bool, true, false,
  not, ◌&&◌, Option, none, some, List, [], ◌∷◌, ◌==◌, ==_iff, ltb, length, any, All, get_elem?,
  if-both, false≢true, none≢some, arith, if◌then◌else◌,
}
use calx_mill.Base.Scan.{or_false}
use calx_mill.Base.Float.{Float, ◌≼◌, IsNum, IsOrdered}
use calx_mill.Base.Sort.{Ordered}
use calx_mill.Telemetry.Clock.{insert_clock, sort_clocks}
use calx_mill.MkTable.Median.{mean_of, median}

not-false : (b : Bool) → not b ≡ false → b ≡ true
not-false true h = refl
not-false false h = sym h

one_of : {a b : Bool} → a ≡ true → (a && b) ≡ false → b ≡ false
one_of {a} {b} e h = ap (λ c. c && b) (sym e) ∙ h

module _ {F : Type 0} ⦃fl : Float F⦄ where
  -- The element in the middle of a list, or the mean of the two in the middle.
  abbrev pub Middle : List F → F → Type 0
  Middle v x =
      ((length v % 2 ≡ 1) × (get_elem? v (length v / 2) ≡ some x))
      ⊎ ((length v % 2 ≢ 1)
          × ((a b : F) × (get_elem? v (length v / 2 - 1) ≡ some a)
              × (get_elem? v (length v / 2) ≡ some b)
              × (x ≡ fl.div (fl.add a b) (fl.of_ℕ 2))))

  -- The middle of the values in ascending order.
  abbrev pub MedianOf : List F → F → Type 0
  MedianOf vals x = (v : List F) × Perm v vals × Ordered fl.le v × Middle v x

  insert_clock-perm : (c : F) (ds : List F) → Perm (insert_clock c ds) (c ∷ ds)
  unfolding insert_clock
  insert_clock-perm c [] = Perm.rfl
  insert_clock-perm c (d ∷ ds) =
      if-both (λ l. Perm l (c ∷ d ∷ ds)) (fl.lt d c)
        (λ _. Perm.trans (Perm.cons d (insert_clock-perm c ds)) (Perm.swap c d ds)) (λ _. Perm.rfl)

  sort_clocks-perm : (cs : List F) → Perm (sort_clocks cs) cs
  unfolding sort_clocks
  sort_clocks-perm [] = Perm.rfl
  sort_clocks-perm (c ∷ cs) =
      Perm.trans (insert_clock-perm c (sort_clocks cs)) (Perm.cons c (sort_clocks-perm cs))

  All-insert_clock :
      (P : F → Type 0) (c : F) (ds : List F) → P c → All P ds → All P (insert_clock c ds)
  unfolding insert_clock
  All-insert_clock P c [] p ps = (p, tt)
  All-insert_clock P c (d ∷ ds) p (q, qs) =
      if-both (All P) (fl.lt d c) (λ _. (q, All-insert_clock P c ds p qs)) (λ _. (p, (q, qs)))

  All-sort_clocks : (P : F → Type 0) (cs : List F) → All P cs → All P (sort_clocks cs)
  unfolding sort_clocks
  All-sort_clocks P [] ps = tt
  All-sort_clocks P (c ∷ cs) (p, ps) =
      All-insert_clock P c (sort_clocks cs) p (All-sort_clocks P cs ps)

  length-insert_clock : (c : F) (ds : List F) → length (insert_clock c ds) ≡ length (c ∷ ds)
  unfolding insert_clock
  length-insert_clock c [] = refl
  length-insert_clock c (d ∷ ds) =
      if-both (λ (l : List F). length l ≡ length (c ∷ d ∷ ds)) (fl.lt d c)
        (λ _. let rest = length-insert_clock c ds in ap suc rest) (λ _. refl)

  length-sort_clocks : (cs : List F) → length (sort_clocks cs) ≡ length cs
  unfolding sort_clocks
  length-sort_clocks [] = refl
  length-sort_clocks (c ∷ cs) =
      omega (arith, length-insert_clock c (sort_clocks cs), length-sort_clocks cs)

  mean_of-some :
      (a b : Option F) (x : F)
      → mean_of a b ≡ some x
      → (y z : F) × (a ≡ some y) × (b ≡ some z) × (x ≡ fl.div (fl.add y z) (fl.of_ℕ 2))
  unfolding mean_of
  mean_of-some none b x h = cc
  mean_of-some (some a) none x h = cc
  mean_of-some (some a) (some b) x h = (a, b, refl, refl, sym (some-injective _ _ h))

  picked-Middle :
      (v : List F) (x : F)
      → (if length v % 2 == 1
          then get_elem? v (length v / 2)
          else mean_of (get_elem? v (length v / 2 - 1)) (get_elem? v (length v / 2)))
        ≡ some x
      → Middle v x
  picked-Middle v x =
      if-both (λ (o : Option F). o ≡ some x → Middle v x) (length v % 2 == 1)
        (λ odd h. inl ((==_iff (length v % 2) 1).0 odd, h))
        (λ even h.
          inr (λ e. false≢true (sym even ∙ (==_iff (length v % 2) 1).1 e), mean_of-some _ _ x h))

  module _ (o : IsOrdered F) where
    below : (c d : F) → IsNum c → IsNum d → fl.lt d c ≡ true → d ≼ c
    below c d nc nd h = elim (o.le_total d c nd nc) [
      | inl le ↦ le
      | inr ge ↦ elim (false≢true (ap not (sym ge) ∙ sym (o.lt-eq-not-le d c nd nc) ∙ h)) [ ]
    ]

    above : (c d : F) → IsNum c → IsNum d → fl.lt d c ≡ false → c ≼ d
    above c d nc nd h = elim (o.le_total d c nd nc) [
      | inl le ↦ not-false (fl.le c d) (sym (o.lt-eq-not-le d c nd nc) ∙ h)
      | inr ge ↦ ge
    ]

    All-above : (c d : F) (ds : List F) → c ≼ d → All (λ y. d ≼ y) ds → All (λ y. c ≼ y) ds
    All-above c d [] h a = tt
    All-above c d (e ∷ ds) h (p, ps) = (o.le_trans c d e h p, All-above c d ds h ps)

    insert_clock-Ordered :
        (c : F) (ds : List F)
        → IsNum c
        → All IsNum ds
        → Ordered fl.le ds
        → Ordered fl.le (insert_clock c ds)
    unfolding insert_clock
    insert_clock-Ordered c [] n ns s = (tt, tt)
    insert_clock-Ordered c (d ∷ ds) n (nd, ns) (first, s) =
        if-both (Ordered fl.le) (fl.lt d c)
          (λ h. (
            All-insert_clock (λ y. d ≼ y) c ds (below c d n nd h) first,
            insert_clock-Ordered c ds n ns s,
          ))
          (λ h. let le = above c d n nd h in ((le, All-above c d ds le first), (first, s)))

    sort_clocks-Ordered : (cs : List F) → All IsNum cs → Ordered fl.le (sort_clocks cs)
    unfolding sort_clocks
    sort_clocks-Ordered [] ns = tt
    sort_clocks-Ordered (c ∷ cs) (n, ns) =
        insert_clock-Ordered c (sort_clocks cs) n (All-sort_clocks IsNum cs ns)
          (sort_clocks-Ordered cs ns)

    few-Ordered : (cs : List F) → ltb 1 (length cs) ≡ false → Ordered fl.le (sort_clocks cs)
    unfolding sort_clocks insert_clock
    few-Ordered [] h = tt
    few-Ordered (c ∷ []) h = (tt, tt)
    few-Ordered (c ∷ d ∷ cs) h = absurd (ground (arith, h))

    all_nums : (cs : List F) → any (λ x. not (fl.le x x)) cs ≡ false → All IsNum cs
    all_nums [] h = tt
    all_nums (c ∷ cs) h = let (n, ns) = or_false h in (not-false (fl.le c c) n, all_nums cs ns)

    sorted :
        (cs : List F)
        → (ltb 1 (length cs) && any (λ x. not (fl.le x x)) cs) ≡ false
        → Ordered fl.le (sort_clocks cs)
    sorted cs h = elim (Bool-cases (ltb 1 (length cs))) [
      | inl many ↦ sort_clocks-Ordered cs (all_nums cs (one_of many h))
      | inr few ↦ few-Ordered cs few
    ]

    -- A median is the middle of the values in ascending order.
    pub median-MedianOf : (vals : List F) (x : F) → median vals ≡ some x → MedianOf vals x
    unfolding median
    median-MedianOf vals x =
        if-both (λ r. r ≡ some x → MedianOf vals x)
          (ltb 1 (length vals) && any (λ y. not (fl.le y y)) vals) (λ _ h. elim (none≢some h) [ ])
          (λ nums h. (
            sort_clocks vals,
            sort_clocks-perm vals,
            sorted vals nums,
            picked-Middle (sort_clocks vals) x (
                subst
                  (λ n.
                    (if n % 2 == 1
                      then get_elem? (sort_clocks vals) (n / 2)
                      else mean_of (get_elem? (sort_clocks vals) (n / 2 - 1))
                          (get_elem? (sort_clocks vals) (n / 2)))
                    ≡ some x)
                  (sym (length-sort_clocks vals)) h),
          ))
