-- ===== src/Telemetry/Clock.antt =====
-- The clock that a run of src/telemetry.rs derives from its records.
use mathlib.Core.List.{Memᴰ}
use mathlib.Core.List.Memᴰ.{head, tail}
use mathlib.Core.List.Memᴰ
use mathlib.Core.Option.{some-injective}
use mathlib.Core.Path.{subst}
use calx_mill.Base.{
  ℕ, zero, suc, ◌/◌, ◌≡◌, refl, sym, ap, ◌∙◌, inl, inr, Bool, false, not, ◌||◌, Option, none, some,
  List, [], ◌∷◌, if◌then◌else◌, length, get_elem?, Bool-cases, none≢some, Option-cases,
}
use calx_mill.Base.Scan.{nor_iff}
use calx_mill.Base.Float.{Float}
use calx_mill.Telemetry.Record.{TeleRecord, derived_clock_ghz}

pub record TeleCtx (F : Type 0) : Type 0 where
  pub run_clock_ghz : F
  pub peak_dram_gbps : F

past : {A : Type 0} {x c : A} {ds : List A} (y : A) → Memᴰ x (c ∷ ds) → Memᴰ x (c ∷ y ∷ ds)
past y (head e) = head e
past y (tail m) = tail (tail m)

module _ {F : Type 0} ⦃fl : Float F⦄ where
  -- `sort_by` on a comparison, as an insertion sort.
  unfoldable pub insert_clock : F → List F → List F
  insert_clock c [] = c ∷ []
  insert_clock c (d ∷ ds) =
      let rest = insert_clock c ds in if fl.lt d c then d ∷ rest else c ∷ d ∷ ds

  unfoldable pub sort_clocks : List F → List F
  unfolding insert_clock
  sort_clocks [] = []
  sort_clocks (c ∷ cs) = insert_clock c (sort_clocks cs)

  add_clock : Option F → List F → List F
  add_clock none cs = cs
  add_clock (some c) cs = c ∷ cs

  unfoldable pub derived_clocks : List TeleRecord → List F
  unfolding add_clock
  derived_clocks [] = []
  derived_clocks (r ∷ recs) = add_clock (derived_clock_ghz r) (derived_clocks recs)

module _ (F : Type 0) ⦃fl : Float F⦄ where
  -- The decimal literals 0.4 and 3.5, as the quotients that round to them.
  unfoldable pub clock_sanity_low : F
  clock_sanity_low = fl.div (fl.of_ℕ 4) (fl.of_ℕ 10)

  unfoldable pub clock_sanity_high : F
  clock_sanity_high = fl.div (fl.of_ℕ 35) (fl.of_ℕ 10)

module _ {F : Type 0} ⦃fl : Float F⦄ where
  is_sane : F → Bool
  is_sane c = not (fl.lt c (clock_sanity_low F) || fl.lt (clock_sanity_high F) c)

  within_band : Option F → Option F
  unfolding is_sane
  within_band none = none
  within_band (some c) = if is_sane c then some c else none

  unfoldable pub run_clock_ghz : List TeleRecord → Option F
  unfolding within_band
  run_clock_ghz recs =
      let cs = sort_clocks (derived_clocks recs) in within_band (get_elem? cs (length cs / 2))

  unfoldable pub with_peak : F → Option F → Option (TeleCtx F)
  with_peak peak none = none
  with_peak peak (some c) = some (record { run_clock_ghz = c; peak_dram_gbps = peak })

  unfoldable pub derive : List TeleRecord → F → Option (TeleCtx F)
  derive recs peak = with_peak peak (run_clock_ghz recs)

  insert_clock-mem : (c x : F) (ds : List F) → Memᴰ x (insert_clock c ds) → Memᴰ x (c ∷ ds)
  unfolding insert_clock
  insert_clock-mem c x [] d = d
  insert_clock-mem c x (y ∷ ds) d = elim (Bool-cases (fl.lt y c)) [
    | inl e ↦
        elim (Memᴰ.cases_cons
          (subst (λ b. Memᴰ x (if b then y ∷ insert_clock c ds else c ∷ y ∷ ds)) e d)) [
            | inl h ↦ tail (head h)
            | inr m ↦ past y (insert_clock-mem c x ds m)
          ]
    | inr e ↦ subst (λ b. Memᴰ x (if b then y ∷ insert_clock c ds else c ∷ y ∷ ds)) e d
  ]

  sort_clocks-mem : (x : F) (cs : List F) → Memᴰ x (sort_clocks cs) → Memᴰ x cs
  unfolding sort_clocks
  sort_clocks-mem x [] d = d
  sort_clocks-mem x (c ∷ cs) d = elim (Memᴰ.cases_cons (insert_clock-mem c x (sort_clocks cs) d)) [
    | inl e ↦ head e
    | inr m ↦ tail (sort_clocks-mem x cs m)
  ]

  get_elem?-mem : (cs : List F) (i : ℕ) (c : F) → get_elem? cs i ≡ some c → Memᴰ c cs
  get_elem?-mem [] i c h = elim (none≢some h) [ ]
  get_elem?-mem (x ∷ cs) zero c h = head (sym (some-injective _ _ h))
  get_elem?-mem (x ∷ cs) (suc i) c h = tail (get_elem?-mem cs i c h)

  later :
      {recs : List TeleRecord} {c : F} (s : TeleRecord)
      → ((r : TeleRecord) × Memᴰ r recs × (derived_clock_ghz r ≡ some c))
      → (r : TeleRecord) × Memᴰ r (s ∷ recs) × (derived_clock_ghz r ≡ some c)
  later s (r, d, e) = (r, tail d, e)

  derived_clocks-mem :
      (recs : List TeleRecord) (c : F)
      → Memᴰ c (derived_clocks recs)
      → (r : TeleRecord) × Memᴰ r recs × (derived_clock_ghz r ≡ some c)
  unfolding derived_clocks
  derived_clocks-mem [] c d = elim (Memᴰ.not-nil d) [ ]
  derived_clocks-mem (r ∷ recs) c d = elim (Option-cases (derived_clock_ghz {F = F} r)) [
    | inl e ↦
        later r
          (derived_clocks-mem recs c (subst (λ o. Memᴰ c (add_clock o (derived_clocks recs))) e d))
    | inr (x, e) ↦
        elim (Memᴰ.cases_cons (subst (λ o. Memᴰ c (add_clock o (derived_clocks recs))) e d)) [
          | inl h ↦ (r, head refl, e ∙ ap some (sym h))
          | inr m ↦ later r (derived_clocks-mem recs c m)
        ]
  ]

  within_band-some :
      (o : Option F) (c : F)
      → within_band o ≡ some c
      → (o ≡ some c)
        × (fl.lt c (clock_sanity_low F) ≡ false)
        × (fl.lt (clock_sanity_high F) c ≡ false)
  unfolding within_band is_sane
  within_band-some none c h = elim (none≢some h) [ ]
  within_band-some (some x) c h = elim (Bool-cases (is_sane x)) [
    | inl e ↦
        let same = some-injective _ _ (sym (ap (λ b. if b then some x else none) e) ∙ h) in
        let (low, high) = nor_iff.0 (sym (ap is_sane same) ∙ e) in (ap some same, low, high)
    | inr e ↦ elim (none≢some (sym (ap (λ b. if b then some x else none) e) ∙ h)) [ ]
  ]

  -- A run's clock, if there is one, is the clock of one of its records, and it is neither below nor
  -- above the sanity band.
  pub run_clock_ghz_derived :
      (recs : List TeleRecord) (c : F)
      → run_clock_ghz recs ≡ some c
      → ((r : TeleRecord) × Memᴰ r recs × (derived_clock_ghz r ≡ some c))
        × (fl.lt c (clock_sanity_low F) ≡ false)
        × (fl.lt (clock_sanity_high F) c ≡ false)
  unfolding run_clock_ghz
  run_clock_ghz_derived recs c h =
      let cs = sort_clocks (derived_clocks recs) in
      let (found, low, high) = within_band-some (get_elem? cs (length cs / 2)) c h in
      (
        derived_clocks-mem recs c
            (sort_clocks-mem c (derived_clocks recs) (get_elem?-mem cs (length cs / 2) c found)),
        low,
        high,
      )
