-- ===== src/Check/ShareOf.antt =====
-- The share that a class of operations has in a mix, said without the slots that src/nvidia/check.rs
-- adds it up in.
use mathlib.Core.Path.{subst}
use mathlib.Core.List.{Memᴰ, map-map, map-id}
use calx_mill.Base.{
  ℕ, ◌+◌, ◌%◌, ◌^◌, ◌≡◌, ◌≢◌, ◌⊎◌, refl, sym, ap, ◌∙◌, inl, inr, Bool, true, false, not, ◌&&◌, List,
  [], ◌∷◌, map, all, All, if-both, false≢true, if◌then◌else◌, arith,
}
use calx_mill.Base.Scan.{any_iff, and_iff}
use calx_mill.Base.Distinct.{Distinct}
use calx_mill.Base.Text.{Text, codes, text_eq, text_eq_iff}
use calx_mill.Base.Float.{Float}
use calx_mill.Projection.Census.{Census}
use calx_mill.Check.Tables.{match_groups}
use calx_mill.Check.Purity.{among}
use calx_mill.Check.Shares.{group_in, group_names, total_of, no_shares, add_share, add_shares}

-- The class of an operation: the first that lists it, or `other`.
unfoldable pub InClass : List (Text × List Text) → Text → Text → Type 0
InClass [] base k = k ≡ codes "other"
InClass ((g, ops) ∷ groups) base k =
    (Memᴰ base ops × (k ≡ g)) ⊎ ((¬ Memᴰ base ops) × InClass groups base k)

-- How many operations a mix counts, without the wrap of its sum.
unfoldable pub counted : Census → ℕ
counted [] = 0
counted ((base, n) ∷ mix) = n + counted mix

group_in-InClass :
    (groups : List (Text × List Text)) (base : Text) → InClass groups base (group_in groups base)
unfolding InClass group_in
group_in-InClass [] base = refl
group_in-InClass ((g, ops) ∷ groups) base =
    let listed = any_iff (λ o. text_eq o base) (λ o. text_eq_iff o base) ops in
    if-both (λ k. (Memᴰ base ops × (k ≡ g)) ⊎ ((¬ Memᴰ base ops) × InClass groups base k))
      (among ops base) (λ h. let (o, m, e) = listed.0 h in inl (subst (λ x. Memᴰ x ops) e m, refl))
      (λ h. inr (λ m. false≢true (sym h ∙ listed.1 (base, m, refl)), group_in-InClass groups base))

total_of-counted : (mix : Census) → total_of mix ≡ counted mix % 2 ^ 64
unfolding total_of counted
total_of-counted [] = refl
total_of-counted ((base, n) ∷ mix) = let rest = total_of-counted mix in omega (arith, rest)

module _ (F : Type 0) ⦃fl : Float F⦄ where
  -- The shares of the items of a class, in percent of a total, added in the order of the mix.
  pub data Adds (k : Text) (total : ℕ) : Census → F → F → Type 0 where
    done : {x : F} → Adds k total [] x x
    item :
        {base : Text} {n : ℕ} {mix : Census} {x y : F}
        → InClass match_groups base k
        → Adds k total mix (fl.add x (fl.div (fl.mul fl.hundred (fl.of_ℕ n)) (fl.of_ℕ total))) y
        → Adds k total ((base, n) ∷ mix) x y
    pass :
        {base j : Text} {n : ℕ} {mix : Census} {x y : F}
        → InClass match_groups base j
        → j ≢ k
        → Adds k total mix x y
        → Adds k total ((base, n) ∷ mix) x y

  -- The share of a class in a mix: of all that it counts, modulo 2^64.
  abbrev pub ShareOf : Text → Census → F → Type 0
  ShareOf k mix x = Adds k (counted mix % 2 ^ 64) mix fl.nought x

differs : {a b : Text} → text_eq a b ≡ false → a ≢ b
differs {a} {b} h e = false≢true (sym h ∙ (text_eq_iff a b).1 e)

on_cases : (Q : Bool → Type 0) (b : Bool) → (b ≡ true → Q true) → (b ≡ false → Q false) → Q b
on_cases Q true f g = f refl
on_cases Q false f g = g refl

module _ {F : Type 0} ⦃fl : Float F⦄ where
  percent : ℕ → ℕ → F
  percent n total = fl.div (fl.mul fl.hundred (fl.of_ℕ n)) (fl.of_ℕ total)

  added : Text → Text → F → F → F
  added k grp share x = if text_eq k grp then fl.add x share else x

  pub share_in : Text → ℕ → Census → F → F
  unfolding added percent
  share_in k total [] x = x
  share_in k total ((base, n) ∷ mix) x =
      share_in k total mix (added k (group_in match_groups base) (percent n total) x)

  share_in-Adds :
      (k : Text) (total : ℕ) (mix : Census) (x : F) → Adds F k total mix x (share_in k total mix x)
  unfolding share_in added percent
  share_in-Adds k total [] x = done
  share_in-Adds k total ((base, n) ∷ mix) x =
      let grp = group_in match_groups base in
      let class_of = group_in-InClass match_groups base in
      if-both (λ z. Adds F k total ((base, n) ∷ mix) x (share_in k total mix z)) (text_eq k grp)
        (λ e.
          item (subst (InClass match_groups base) (sym ((text_eq_iff k grp).0 e)) class_of)
            (share_in-Adds k total mix (fl.add x (percent n total))))
        (λ e. pass class_of (λ g. differs e (sym g)) (share_in-Adds k total mix x))

  abbrev classes : List (Text × F) → List Text
  classes slots = map (λ (s : Text × F). s.0) slots

  added_alone :
      (k : Text) (share : F) (slots : List (Text × F))
      → All (λ y. k ≢ y) (classes slots)
      → map (λ (s : Text × F). (s.0, added s.0 k share s.1)) slots ≡ slots
  unfolding added
  added_alone k share [] d = refl
  added_alone k share ((j, x) ∷ slots) (unlike, d) =
      if-both
        (λ z. (j, z) ∷ map (λ (s : Text × F). (s.0, added s.0 k share s.1)) slots ≡ (j, x) ∷ slots)
        (text_eq j k) (λ e. elim (unlike (sym ((text_eq_iff j k).0 e))) [ ])
        (λ _. ap (λ l. (j, x) ∷ l) (added_alone k share slots d))

  add_share-added :
      (grp : Text) (share : F) (slots : List (Text × F))
      → Distinct (classes slots)
      → add_share grp share slots ≡ map (λ (s : Text × F). (s.0, added s.0 grp share s.1)) slots
  unfolding add_share added Distinct
  add_share-added grp share [] d = refl
  add_share-added grp share ((k, x) ∷ slots) (unlike, d) =
      let rest = map (λ (s : Text × F). (s.0, added s.0 grp share s.1)) slots in
      on_cases
        (λ b.
          (if b then (k, fl.add x share) ∷ slots else (k, x) ∷ add_share grp share slots)
          ≡ (k, if b then fl.add x share else x) ∷ rest)
        (text_eq k grp)
        (λ e.
          ap (λ l. (k, fl.add x share) ∷ l)
            (sym (
              added_alone grp share slots
                (subst (λ g. All (λ y. g ≢ y) (classes slots)) ((text_eq_iff k grp).0 e) unlike))))
        (λ _. ap (λ l. (k, x) ∷ l) (add_share-added grp share slots d))

  classes-added :
      (grp : Text) (share : F) (slots : List (Text × F))
      → classes (map (λ (s : Text × F). (s.0, added s.0 grp share s.1)) slots) ≡ classes slots
  classes-added grp share slots = map-map _ _ slots

  add_shares-share_in :
      (total : ℕ) (mix : Census) (slots : List (Text × F))
      → Distinct (classes slots)
      → add_shares total mix slots ≡ map (λ (s : Text × F). (s.0, share_in s.0 total mix s.1)) slots
  unfolding add_shares share_in percent
  add_shares-share_in total [] slots d = sym (map-id slots)
  add_shares-share_in total ((base, n) ∷ mix) slots d =
      let grp = group_in match_groups base in
      let share : F = fl.div (fl.mul fl.hundred (fl.of_ℕ n)) (fl.of_ℕ total) in
      ap (add_shares total mix) (add_share-added grp share slots d)
      ∙ add_shares-share_in total mix _ (subst Distinct (sym (classes-added grp share slots)) d)
      ∙ map-map _ _ slots

  share_in_all :
      (total : ℕ) (mix : Census) (ks : List Text)
      → map (λ (s : Text × F). (s.0, share_in s.0 total mix s.1)) (no_shares ks)
        ≡ map {B = Text × F} (λ k. (k, share_in k total mix fl.nought)) ks
  unfolding no_shares
  share_in_all total mix [] = refl
  share_in_all total mix (k ∷ ks) =
      ap (λ l. (k, share_in k total mix fl.nought) ∷ l) (share_in_all total mix ks)

not_holds : (b : Bool) → not b ≡ true → b ≢ true
not_holds true h e = false≢true h
not_holds false h e = false≢true e

unlike_all :
    (x : Text) (ys : List Text) → all (λ y. not (text_eq x y)) ys ≡ true → All (λ y. x ≢ y) ys
unlike_all x [] h = tt
unlike_all x (y ∷ ys) h =
    let (now, later) = and_iff.0 h in
    (λ e. not_holds (text_eq x y) now ((text_eq_iff x y).1 e), unlike_all x ys later)

distinct : List Text → Bool
distinct [] = true
distinct (x ∷ xs) = all (λ y. not (text_eq x y)) xs && distinct xs

distinct-Distinct : (xs : List Text) → distinct xs ≡ true → Distinct xs
unfolding distinct Distinct
distinct-Distinct [] h = tt
distinct-Distinct (x ∷ xs) h =
    let (now, later) = and_iff.0 h in (unlike_all x xs now, distinct-Distinct xs later)

group_names-Distinct : Distinct group_names
unfolding distinct
group_names-Distinct = distinct-Distinct group_names refl

module _ (F : Type 0) ⦃fl : Float F⦄ where
  classes-no_shares : (ks : List Text) → classes (no_shares {F = F} ks) ≡ ks
  unfolding no_shares
  classes-no_shares [] = refl
  classes-no_shares (k ∷ ks) = ap (λ l. k ∷ l) (classes-no_shares ks)

module _ {F : Type 0} ⦃fl : Float F⦄ where
  -- The slots of a mix are the shares of the classes.
  pub shares-share_in :
      (mix : Census)
      → add_shares (total_of mix) mix (no_shares group_names)
        ≡ map {B = Text × F} (λ k. (k, share_in k (total_of mix) mix fl.nought)) group_names
  shares-share_in mix =
      add_shares-share_in (total_of mix) mix (no_shares group_names)
        (subst Distinct (sym (classes-no_shares F group_names)) group_names-Distinct)
      ∙ share_in_all (total_of mix) mix group_names

  pub share_in-ShareOf :
      (k : Text) (mix : Census) → ShareOf F k mix (share_in k (total_of mix) mix fl.nought)
  share_in-ShareOf k mix =
      subst (λ t. Adds F k t mix fl.nought (share_in k (total_of mix) mix fl.nought))
        (total_of-counted mix) (share_in-Adds k (total_of mix) mix fl.nought)
