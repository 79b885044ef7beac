-- ===== src/Core/Mix/Bound.antt =====
-- The binding resource of `select_bound`: the first of the largest demands.
use calx_mill.Base.{
  ℕ, zero, suc, ◌+◌, ◌≡◌, ◌⊎◌, inl, inr, refl, sym, ap, true, false, [], ◌∷◌, arith, All,
  Bool-cases,
}
use calx_mill.Base.Float.{Float, ◌≼◌, IsNum, IsOrdered}
use calx_mill.Core.Mix.{ResourceKind, Demands, first_max, select_bound}

module _ {F : Type 0} ⦃fl : Float F⦄ where
  open fl use {lt, le}

  -- No demand is NaN.
  abbrev pub AllNum : Demands F → Type 0
  AllNum = All (λ e. IsNum e.1)

  -- No demand exceeds `top`.
  abbrev pub Within : F → Demands F → Type 0
  Within top = All (λ e. e.1 ≼ top)

  -- The demand at the index is `top`, and those before it are strictly smaller.
  abbrev pub FirstMax : Demands F → ℕ → F → Type 0
  FirstMax [] i top = ⊥
  FirstMax (e ∷ es) zero top = e.1 ≡ top
  FirstMax (e ∷ es) (suc i) top = (lt e.1 top ≡ true) × FirstMax es i top

module _ {F : Type 0} ⦃fl : Float F⦄ (laws : IsOrdered F) where
  open fl use {lt, le}
  open laws use {le_trans, le_total, lt-eq-not-le, num_of_le}

  le_of_lt : (x y : F) → IsNum x → IsNum y → lt x y ≡ true → x ≼ y
  le_of_lt x y p q h = ground (arith, lt-eq-not-le x y p q, le_total x y p q)

  le_of_not_lt : (x y : F) → IsNum x → IsNum y → lt x y ≡ false → y ≼ x
  le_of_not_lt x y p q h = ground (arith, lt-eq-not-le x y p q)

  lt-of_lt-le : (x y z : F) → IsNum x → lt x y ≡ true → IsNum y → y ≼ z → lt x z ≡ true
  lt-of_lt-le x y z p h q k =
      ground (arith, lt-eq-not-le x y p q, lt-eq-not-le x z p (num_of_le y z k).1, le_trans y z x k)

  -- What the scan makes of a start value `(bound, top)`.
  record Scanned (es : Demands F) (i : ℕ) (start found : ℕ × F) : Type 0 where
    grows : start.1 ≼ found.1
    within : Within found.1 es
    source :
        (found ≡ start)
        ⊎ ((j : ℕ) × (found.0 ≡ j + i) × FirstMax es j found.1 × (lt start.1 found.1 ≡ true))

  lt-of_le-lt : (x y z : F) → IsNum z → x ≼ y → lt y z ≡ true → lt x z ≡ true
  lt-of_le-lt x y z r k h = ground (
    arith,
    lt-eq-not-le y z (num_of_le x y k).1 r,
    lt-eq-not-le x z (num_of_le x y k).0 r,
    le_trans z x y,
  )

  -- The head displaces the start value.
  Scanned-taken :
      (k : ResourceKind) (c : F) (es : Demands F) (i b : ℕ) (top : F) (found : ℕ × F)
      → IsNum top
      → IsNum c
      → lt top c ≡ true
      → Scanned es (suc i) (i, c) found
      → Scanned ((k, c) ∷ es) i (b, top) found
  Scanned-taken k c es i b top found p q h sc =
      let up = lt-of_lt-le top c found.1 p h q sc.grows in
      record {
        grows = le_of_lt top found.1 p (num_of_le _ _ sc.grows).1 up;
        within = (sc.grows, sc.within);
        source = elim sc.source [
          | inl same ↦ inr (zero, rw same (omega arith), sym (ap (λ (w : ℕ × F). w.1) same), up)
          | inr (j, e, first, l) ↦ inr (suc j, omega arith, (l, first), up)
        ];
      }

  -- The head does not displace the start value.
  Scanned-passed :
      (k : ResourceKind) (c : F) (es : Demands F) (i b : ℕ) (top : F) (found : ℕ × F)
      → IsNum top
      → IsNum c
      → lt top c ≡ false
      → Scanned es (suc i) (b, top) found
      → Scanned ((k, c) ∷ es) i (b, top) found
  Scanned-passed k c es i b top found p q h sc =
      let below = le_of_not_lt top c p q h in
      record {
        grows = sc.grows;
        within = (le_trans c top found.1 below sc.grows, sc.within);
        source = elim sc.source [
          | inl same ↦ inl same
          | inr (j, e, first, l) ↦ inr (
            suc j,
            omega arith,
            (lt-of_le-lt c top found.1 (num_of_le _ _ sc.grows).1 below l, first),
            l,
          )
        ];
      }

  first_max-Scanned :
      (es : Demands F) (i b : ℕ) (top : F)
      → IsNum top
      → AllNum es
      → Scanned es i (b, top) (first_max es i (b, top))
  unfolding first_max
  first_max-Scanned [] i b top p n = record { grows = p; within = tt; source = inl refl }
  first_max-Scanned ((k, c) ∷ es) i b top p (q, n) = elim (Bool-cases (lt top c)) [
    | inl h ↦ rw h (Scanned-taken k c es i b top _ p q h (first_max-Scanned es (suc i) i c q n))
    | inr h ↦ rw h (Scanned-passed k c es i b top _ p q h (first_max-Scanned es (suc i) b top p n))
  ]

  -- By the laws of the order, if no demand is NaN, the projected cycles of a vector that is not empty are its largest demand,
  -- and the bound is the index of the first demand that large.
  pub select_bound-FirstMax :
      (e : ResourceKind × F) (es : Demands F)
      → AllNum (e ∷ es)
      → let ss = select_bound (e ∷ es) in
        Within ss.ppm_cycles (e ∷ es) × FirstMax (e ∷ es) ss.ppm_bound ss.ppm_cycles
  unfolding select_bound
  select_bound-FirstMax (k, c) es (q, n) =
      let sc = first_max-Scanned es 1 0 c q n in
      (
        (sc.grows, sc.within),
        elim sc.source [
          | inl same ↦ rw same refl
          | inr (j, e, first, l) ↦
              let at : (first_max es 1 (0, c)).0 ≡ suc j = omega arith in rw at (l, first)
        ],
      )
