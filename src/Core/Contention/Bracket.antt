-- ===== src/Core/Contention/Bracket.antt =====
-- The bounds of `overlapped_contended`: no less than either lane alone, no more than both in series.
use calx_mill.Base.{
  ℕ, zero, suc, ◌≡◌, sym, ◌∙◌, ap, Bool, true, false, [], ◌∷◌, arith, All, any, Bool-cases, inl,
  inr, false≢true,
}
use calx_mill.Base.Float.{Float, ◌≼◌, NonNeg, IsOrdered}
use calx_mill.Core.Mix.{ResourceKind, same_kind, Demands, select_bound}
use calx_mill.Core.Mix.Bound.{AllNum, Within, FirstMax, select_bound-FirstMax}
use calx_mill.Core.Contention.{add_demand, merge_demands, overlapped_contended}

module _ {F : Type 0} ⦃fl : Float F⦄ where
  abbrev pub AllNonNeg : Demands F → Type 0
  AllNonNeg = All (λ e. NonNeg e.1)

  abbrev pub ppm : Demands F → F
  ppm es = (select_bound es).ppm_cycles

  -- Is the kind among the kinds of the entries?
  abbrev pub has_kind : ResourceKind → Demands F → Bool
  has_kind k es = any (λ e. same_kind e.0 k) es

  -- No two entries have the same kind.
  abbrev pub DistinctKinds : Demands F → Type 0
  DistinctKinds [] = Unit
  DistinctKinds (e ∷ es) = (has_kind e.0 es ≡ false) × DistinctKinds es

same_kind_comm : (j k : ResourceKind) → same_kind j k ≡ true → same_kind k j ≡ true
same_kind_comm j k h = ground arith

same_kind-eq : (j k : ResourceKind) → same_kind j k ≡ true → j ≡ k
same_kind-eq j k h = ground arith

module _ {F : Type 0} ⦃fl : Float F⦄ (laws : IsOrdered F) where
  open fl use {nought, add}
  open laws use {le_trans, num_of_le, nought_num, add_left, add_right, add_mono}

  AllNum-AllNonNeg : (es : Demands F) → AllNonNeg es → AllNum es
  AllNum-AllNonNeg [] h = tt
  AllNum-AllNonNeg (e ∷ es) (h, hs) = ((num_of_le nought e.1 h).1, AllNum-AllNonNeg es hs)

  Within-le : (es : Demands F) (t u : F) → t ≼ u → Within t es → Within u es
  Within-le [] t u h w = tt
  Within-le (e ∷ es) t u h (w, ws) = (le_trans e.1 t u w h, Within-le es t u h ws)

  FirstMax-le : (es : Demands F) (i : ℕ) (top t : F) → FirstMax es i top → Within t es → top ≼ t
  FirstMax-le [] i top t f w = absurd f
  FirstMax-le (e ∷ es) zero top t f (w, ws) = rw f at w
  FirstMax-le (e ∷ es) (suc i) top t (l, f) (w, ws) = FirstMax-le es i top t f ws

  FirstMax-NonNeg :
      (es : Demands F) (i : ℕ) (top : F) → FirstMax es i top → AllNonNeg es → NonNeg top
  FirstMax-NonNeg [] i top f n = absurd f
  FirstMax-NonNeg (e ∷ es) zero top f (n, ns) = rw f at n
  FirstMax-NonNeg (e ∷ es) (suc i) top (l, f) (n, ns) = FirstMax-NonNeg es i top f ns

  -- The projection is the least bound of the demands that is not negative.
  ppm-Within : (es : Demands F) → AllNonNeg es → Within (ppm es) es
  ppm-Within [] n = tt
  ppm-Within (e ∷ es) n = (select_bound-FirstMax laws e es (AllNum-AllNonNeg (e ∷ es) n)).0

  ppm-le : (es : Demands F) (t : F) → AllNonNeg es → NonNeg t → Within t es → ppm es ≼ t
  ppm-le [] t n h w = unfold select_bound in h
  ppm-le (e ∷ es) t n h w =
      FirstMax-le (e ∷ es) _ _ t (select_bound-FirstMax laws e es (AllNum-AllNonNeg (e ∷ es) n)).1 w

  ppm-NonNeg : (es : Demands F) → AllNonNeg es → NonNeg (ppm es)
  ppm-NonNeg [] n = unfold select_bound in nought_num
  ppm-NonNeg (e ∷ es) n =
      FirstMax-NonNeg (e ∷ es) _ _ (select_bound-FirstMax laws e es (AllNum-AllNonNeg (e ∷ es) n)).1
        n

  NonNeg-add : (x y : F) → NonNeg x → NonNeg y → NonNeg (add x y)
  NonNeg-add x y p q = le_trans nought x (add x y) p (add_left x y p q)

  add_demand-AllNonNeg :
      (out : Demands F) (k : ResourceKind) (c : F)
      → AllNonNeg out
      → NonNeg c
      → AllNonNeg (add_demand out (k, c))
  unfolding add_demand
  add_demand-AllNonNeg [] k c n h = (h, tt)
  add_demand-AllNonNeg ((j, e) ∷ out) k c (p, n) h =
      ground (arith, NonNeg-add e c p h, add_demand-AllNonNeg out k c n h)

  -- A bound of the grown entries bounds the old ones and the added demand.
  add_demand-Within :
      (out : Demands F) (k : ResourceKind) (c t : F)
      → AllNonNeg out
      → NonNeg c
      → Within t (add_demand out (k, c))
      → Within t out × (c ≼ t)
  unfolding add_demand
  add_demand-Within [] k c t n h w = (tt, w.0)
  add_demand-Within ((j, e) ∷ out) k c t (p, n) h w = ground (
    arith,
    add_demand-Within out k c t n h,
    le_trans e (add e c) t (add_left e c p h),
    le_trans c (add e c) t (add_right e c p h),
  )

  merge_demands-AllNonNeg :
      (a b : Demands F) → AllNonNeg a → AllNonNeg b → AllNonNeg (merge_demands a b)
  unfolding merge_demands
  merge_demands-AllNonNeg a [] n m = n
  merge_demands-AllNonNeg a ((k, c) ∷ b) n (h, m) =
      merge_demands-AllNonNeg (add_demand a (k, c)) b (add_demand-AllNonNeg a k c n h) m

  merge_demands-Within :
      (a b : Demands F) (t : F)
      → AllNonNeg a
      → AllNonNeg b
      → Within t (merge_demands a b)
      → Within t a × Within t b
  unfolding merge_demands
  merge_demands-Within a [] t n m w = (w, tt)
  merge_demands-Within a ((k, c) ∷ b) t n (h, m) w =
      let (wa, wb) =
        merge_demands-Within (add_demand a (k, c)) b t (add_demand-AllNonNeg a k c n h) m w in
      let (old, new) = add_demand-Within a k c t n h wa in (old, (new, wb))

  -- Entries whose kind is still to come are no larger than `x`; all are no larger than `x + y`.
  abbrev Open : F → F → Demands F → ResourceKind × F → Type 0
  Open x y rest (k, e) = (has_kind k rest ≡ true → e ≼ x) × (e ≼ add x y)

  has_kind-same :
      (j k : ResourceKind) (es : Demands F) → same_kind j k ≡ true → has_kind j es ≡ has_kind k es
  has_kind-same j k es h = ap (λ (i : ResourceKind). has_kind i es) (same_kind-eq j k h)

  Open-weaken :
      (x y : F) (d : ResourceKind × F) (rest : Demands F) (e : ResourceKind × F)
      → Open x y (d ∷ rest) e
      → Open x y rest e
  Open-weaken x y d rest (k, e) o = (λ h. o.0 (ground arith), o.1)

  All-Open-weaken :
      (x y : F) (d : ResourceKind × F) (rest out : Demands F)
      → All (Open x y (d ∷ rest)) out
      → All (Open x y rest) out
  All-Open-weaken x y d rest [] os = tt
  All-Open-weaken x y d rest (e ∷ out) (o, os) =
      (Open-weaken x y d rest e o, All-Open-weaken x y d rest out os)

  add_demand-Open :
      (x y : F) (out : Demands F) (k : ResourceKind) (c : F) (rest : Demands F)
      → NonNeg x
      → NonNeg y
      → AllNonNeg out
      → NonNeg c
      → c ≼ y
      → has_kind k rest ≡ false
      → All (Open x y ((k, c) ∷ rest)) out
      → All (Open x y rest) (add_demand out (k, c))
  unfolding add_demand
  add_demand-Open x y [] k c rest p q n m h new o =
      ((λ w. absurd (false≢true (sym new ∙ w)), le_trans c y (add x y) h (add_right x y p q)), tt)
  add_demand-Open x y ((j, e) ∷ out) k c rest p q (n, ns) m h new (o, os) =
      elim (Bool-cases (same_kind j k)) [
        | inl s ↦
            let small : e ≼ x = o.0 (rw (same_kind_comm j k s)) in
            rw s (
              (
                λ w. absurd (false≢true (sym new ∙ sym (has_kind-same j k rest s) ∙ w)),
                add_mono e c x y n m small h,
              ),
              All-Open-weaken x y (k, c) rest out os,
            )
        | inr s ↦ rw s (
          Open-weaken x y (k, c) rest (j, e) o,
          add_demand-Open x y out k c rest p q ns m h new os,
        )
      ]

  merge_demands-Open :
      (x y : F) (a b : Demands F)
      → NonNeg x
      → NonNeg y
      → AllNonNeg a
      → AllNonNeg b
      → Within y b
      → DistinctKinds b
      → All (Open x y b) a
      → Within (add x y) (merge_demands a b)
  unfolding merge_demands
  merge_demands-Open x y a [] p q n m w d o = All-Open-Within a o
    where
      All-Open-Within : (out : Demands F) → All (Open x y []) out → Within (add x y) out
      All-Open-Within [] os = tt
      All-Open-Within (e ∷ out) (h, hs) = (h.1, All-Open-Within out hs)
  merge_demands-Open x y a ((k, c) ∷ b) p q n (h, m) (w, ws) (d, ds) o =
      merge_demands-Open x y (add_demand a (k, c)) b p q (add_demand-AllNonNeg a k c n h) m ws ds
        (add_demand-Open x y a k c b p q n h w d o)

  Within-Open :
      (x y : F) (a rest : Demands F) → NonNeg x → NonNeg y → Within x a → All (Open x y rest) a
  Within-Open x y [] rest p q w = tt
  Within-Open x y (e ∷ a) rest p q (w, ws) =
      ((λ _. w, le_trans e.1 x (add x y) w (add_left x y p q)), Within-Open x y a rest p q ws)

  -- By the laws of the order, for demands that are not negative, overlapping costs at least what either lane costs alone.
  pub contention_never_helps :
      (mem_lane compute_lane : Demands F)
      → AllNonNeg mem_lane
      → AllNonNeg compute_lane
      → let both = overlapped_contended mem_lane compute_lane in
        (ppm mem_lane ≼ both) × (ppm compute_lane ≼ both)
  unfolding overlapped_contended
  contention_never_helps a b n m =
      let merged = merge_demands a b in
      let k = merge_demands-AllNonNeg a b n m in
      let (wa, wb) = merge_demands-Within a b (ppm merged) n m (ppm-Within merged k) in
      (
        ppm-le a (ppm merged) n (ppm-NonNeg merged k) wa,
        ppm-le b (ppm merged) m (ppm-NonNeg merged k) wb,
      )

  -- By the laws of the order, for demands that are not negative, where the second lane names no resource twice, overlapping
  -- costs at most what both lanes cost in series.
  pub contention_at_most_serial :
      (mem_lane compute_lane : Demands F)
      → AllNonNeg mem_lane
      → AllNonNeg compute_lane
      → DistinctKinds compute_lane
      → overlapped_contended mem_lane compute_lane ≼ add (ppm mem_lane) (ppm compute_lane)
  unfolding overlapped_contended
  contention_at_most_serial a b n m d =
      let merged = merge_demands a b in
      let pa = ppm-NonNeg a n in
      let pb = ppm-NonNeg b m in
      ppm-le merged (add (ppm a) (ppm b)) (merge_demands-AllNonNeg a b n m) (NonNeg-add _ _ pa pb) (
        merge_demands-Open (ppm a) (ppm b) a b pa pb n m (ppm-Within b m) d
          (Within-Open (ppm a) (ppm b) a b pa pb (ppm-Within a n)))
