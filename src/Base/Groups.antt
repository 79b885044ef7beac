-- ===== src/Base/Groups.antt =====
-- Lists gathered by a key, in the order of first sight: what the code writes as a search for the key's
-- entry, with a push to the entry or behind the last.
use mathlib.Core.Path.{◌≡◌}
use mathlib.Core.Bool.{Bool, true}
use mathlib.Core.List.{List, [], ◌∷◌, ◌++◌, Perm, perm_append_comm, perm_middle, append_assoc}
use mathlib.Core.List.Perm
use calx_mill.Base.Lists.{All, All-append}
use calx_mill.Base.Sort.{insert_by, sort_by}
use calx_mill.Base.Tests.{if◌then◌else◌, if-both}

-- A key and what was found under it, which is never nothing.
pub record Group (K : Type 0) (A : Type 0) : Type 0 where
  pub key : K
  pub first : A
  pub more : List A

module _ {K : Type 0} {A : Type 0} where
  abbrev pub members : Group K A → List A
  members g = g.first ∷ g.more

  abbrev pub push_member : A → Group K A → Group K A
  push_member x g = record { key = g.key; first = g.first; more = g.more ++ x ∷ [] }

  unfoldable pub push_group : (K → Bool) → K → A → List (Group K A) → List (Group K A)
  push_group is_key k x [] = record { key = k; first = x; more = [] } ∷ []
  push_group is_key k x (g ∷ gs) =
      let rest = push_group is_key k x gs in if is_key g.key then push_member x g ∷ gs else g ∷ rest

  -- All that the groups hold.
  abbrev pub gathered : List (Group K A) → List A
  gathered [] = []
  gathered (g ∷ gs) = members g ++ gathered gs

  pub gathered-push_group :
      (is_key : K → Bool) (k : K) (x : A) (gs : List (Group K A))
      → Perm (gathered (push_group is_key k x gs)) (x ∷ gathered gs)
  unfolding push_group
  gathered-push_group is_key k x [] = Perm.rfl
  gathered-push_group is_key k x (g ∷ gs) =
      if-both (λ l. Perm (gathered l) (x ∷ gathered (g ∷ gs))) (is_key g.key)
        (λ _.
          Perm.trans
            (Perm.cons g.first
              (rw (append_assoc g.more (x ∷ []) (gathered gs)) (perm_middle g.more (gathered gs))))
            (Perm.swap x g.first (g.more ++ gathered gs)))
        (λ _.
          Perm.trans (Perm.append_left (members g) (gathered-push_group is_key k x gs))
            (perm_middle (members g) (gathered gs)))

-- Sorted groups hold the same.
module _ {K : Type 0} {A : Type 0} (le : Group K A → Group K A → Bool) where
  past : (a b c : List A) → Perm (a ++ (b ++ c)) (b ++ (a ++ c))
  past a b c =
      rw (← append_assoc a b c, ← append_assoc b a c) (Perm.append_right c (perm_append_comm a b))

  gathered-insert_by :
      (g : Group K A) (gs : List (Group K A))
      → Perm (gathered (insert_by le g gs)) (members g ++ gathered gs)
  unfolding insert_by
  gathered-insert_by g [] = Perm.rfl
  gathered-insert_by g (h ∷ gs) =
      if-both (λ (l : List (Group K A)). Perm (gathered l) (members g ++ gathered (h ∷ gs)))
        (le g h) (λ _. Perm.rfl)
        (λ _.
          Perm.trans (Perm.append_left (members h) (gathered-insert_by g gs))
            (past (members h) (members g) (gathered gs)))

  pub gathered-sort_by : (gs : List (Group K A)) → Perm (gathered (sort_by le gs)) (gathered gs)
  unfolding sort_by
  gathered-sort_by [] = Perm.rfl
  gathered-sort_by (g ∷ gs) =
      Perm.trans (gathered-insert_by g (sort_by le gs))
        (Perm.append_left (members g) (gathered-sort_by gs))

-- What every member has with its key, kept as members are pushed.
module _ {K : Type 0} {A : Type 0} (P : K → A → Type 0) where
  abbrev pub Holding : Group K A → Type 0
  Holding g = All (P g.key) (members g)

  pub push_group-Holding :
      (is_key : K → Bool) (k : K) (x : A) (gs : List (Group K A))
      → P k x
      → ((l : K) → is_key l ≡ true → P l x)
      → All Holding gs
      → All Holding (push_group is_key k x gs)
  unfolding push_group
  push_group-Holding is_key k x [] p same h = ((p, tt), tt)
  push_group-Holding is_key k x (g ∷ gs) p same ((q, qs), h) =
      if-both (All Holding) (is_key g.key)
        (λ e. ((q, All-append (P g.key) g.more (x ∷ []) qs (same g.key e, tt)), h))
        (λ _. ((q, qs), push_group-Holding is_key k x gs p same h))
