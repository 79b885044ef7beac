-- ===== src/Validity/Loaded.antt =====
-- What a registry that `parse_registry` of src/validity.rs accepts is like.
use mathlib.Core.List.{append_assoc, append-nil}
use mathlib.Core.Path.{subst}
use calx_mill.Base.{
  ◌≡◌, ◌≢◌, refl, sym, ap, ◌∙◌, false, inr, List, [], ◌∷◌, ◌++◌, map, All, false≢true,
}
use calx_mill.Base.Result.{
  Ensures, Ensures-inr, Ensures-else, Ensures-from, Ensures-map, ensures, ensured,
}
use calx_mill.Base.Distinct.{Distinct, Distinct-push}
use calx_mill.Base.Scan.{or_false}
use calx_mill.Base.Text.{Text, codes, text_eq_iff}
use calx_mill.Base.Float.{Float}
use calx_mill.Csv.Reader.{Table, parse_table}
use calx_mill.Validity.Fit.{AnchorRow}
use calx_mill.Validity.Registry.{
  cell, has_id, parse_row, next_row, load_rows, load_table, parse_registry,
}

module _ {F : Type 0} ⦃fl : Float F⦄ where
  abbrev pub ids : List (AnchorRow F) → List Text
  ids rows = map (λ (row : AnchorRow F). row.id) rows

  ids-push :
      (rows : List (AnchorRow F)) (row : AnchorRow F) (id : Text)
      → row.id ≡ id
      → ids (rows ++ row ∷ []) ≡ ids rows ++ id ∷ []
  ids-push [] row id e = ap (λ i. i ∷ []) e
  ids-push (first ∷ rows) row id e = ap (λ xs. first.id ∷ xs) (ids-push rows row id e)

  has_id-false :
      (rows : List (AnchorRow F)) (id : Text)
      → has_id rows id ≡ false
      → All (λ y. y ≢ id) (ids rows)
  unfolding has_id
  has_id-false [] id h = tt
  has_id-false (row ∷ rows) id h =
      let (here, later) = or_false h in
      (λ e. false≢true (sym here ∙ (text_eq_iff row.id id).1 e), has_id-false rows id later)

  HasId : Table → List Text → AnchorRow F → Type 0
  HasId t r row = row.id ≡ cell t (codes "id") r

module _ (F : Type 0) ⦃fl : Float F⦄ where
  parse_row-Ensures : (t : Table) (r : List Text) → Ensures (HasId t r) (parse_row {F = F} t r)
  unfolding parse_row HasId
  parse_row-Ensures t r = ensures _ _ _ (λ measured. ensures _ _ _ (λ parsed.
      ensures _ _ _ (λ tol_raw. ensures _ _ _ (λ tol.
        ensures _ _ _
          (λ kvs. ensures _ _ _ (λ domain. ensures _ _ _ (λ at. Ensures-inr _ _ _ refl)))))))

module _ {F : Type 0} ⦃fl : Float F⦄ where
  -- A new row has its id from the table, and no row before has it.
  IsNew : Table → List Text → List (AnchorRow F) → AnchorRow F → Type 0
  IsNew t r rows row = HasId t r row × All (λ y. y ≢ cell t (codes "id") r) (ids rows)

  next_row-Ensures :
      (t : Table) (r : List Text) (rows : List (AnchorRow F))
      → Ensures (IsNew t r rows) (next_row t r rows)
  unfolding next_row IsNew
  next_row-Ensures t r rows = Ensures-else _ _ _ _ (λ fresh.
      Ensures-map _ _ _ (λ row same. (same, has_id-false rows (cell t (codes "id") r) fresh))
        (parse_row-Ensures F t r))

  -- The loop keeps the ids distinct, and adds those of the table's rows in their order.
  Extends : Table → List (List Text) → List (AnchorRow F) → List (AnchorRow F) → Type 0
  Extends t rs rows out = Distinct (ids out) × (ids out ≡ ids rows ++ map (cell t (codes "id")) rs)

  load_rows-Ensures :
      (t : Table) (rs : List (List Text)) (rows : List (AnchorRow F))
      → Distinct (ids rows)
      → Ensures (Extends t rs rows) (load_rows t rs rows)
  unfolding load_rows Extends IsNew HasId
  load_rows-Ensures t [] rows d = Ensures-inr _ _ _ (d, sym (append-nil (ids rows)))
  load_rows-Ensures t (r ∷ rs) rows d =
      Ensures-from (IsNew t r rows) _ _ _ (next_row-Ensures t r rows) (λ row new.
        let added = ids-push rows row (cell t (codes "id") r) new.0 in
        Ensures-map (Extends t rs (rows ++ row ∷ [])) _ _
          (λ out (later : Extends t rs (rows ++ row ∷ []) out). (
            later.0,
            later.1
                ∙ ap (λ xs. xs ++ map (cell t (codes "id")) rs) added
                ∙ append_assoc (ids rows) (cell t (codes "id") r ∷ [])
                    (map (cell t (codes "id")) rs),
          ))
          (load_rows-Ensures t rs (rows ++ row ∷ []) (
            subst Distinct (sym added) (Distinct-push (ids rows) (cell t (codes "id") r) d new.1))))

module _ (F : Type 0) ⦃fl : Float F⦄ where
  load_table-Ensures : (t : Table) → Ensures (Extends {F = F} t t.rows []) (load_table {F = F} t)
  unfolding load_table Distinct
  load_table-Ensures t = ensures _ _ _ (λ u. load_rows-Ensures t t.rows [] tt)

module _ {F : Type 0} ⦃fl : Float F⦄ where
  -- When a registry loads, its rows are those of the CSV table, in order, by their ids, and no two
  -- ids are the same.
  pub parse_registry-Distinct :
      (text : Text) (rows : List (AnchorRow F))
      → parse_registry text ≡ inr rows
      → Distinct (ids rows)
        × (ids rows ≡ map (cell (parse_table text) (codes "id")) (parse_table text).rows)
  unfolding parse_registry Extends
  parse_registry-Distinct text rows h =
      ensured (Extends (parse_table text) (parse_table text).rows []) _
        (load_table-Ensures F (parse_table text)) h
