-- ===== src/Validity/Registry.antt =====
-- `parse_kv` and `parse_registry` of src/validity.rs: loading the anchors.
use calx_mill.Base.{
  ℕ, Bool, not, inl, inr, Option, none, some, List, [], ◌∷◌, ◌++◌, if◌then◌else◌, any, keep, get_or,
}
use calx_mill.Base.Result.{Result, ◌>>=◌, ok_or}
use calx_mill.Base.Text.{Text, codes, text_eq, trim, split, split_once}
use calx_mill.Base.Float.{Float}
use calx_mill.Csv.Reader.{Table, parse_table, col, is_empty}
use calx_mill.Validity.Fit.{DomainBound, range, exact, AnchorRow}

pub data RegistryError : Type 0 where
  not_key_value : Text → RegistryError
  missing_column : Text → RegistryError
  duplicate_id : Text → RegistryError
  bad_measured : Text → RegistryError
  bad_tol : Text → RegistryError
  negative_tol : Text → RegistryError
  bad_tol_kind : Text → RegistryError
  bad_range : Text → RegistryError

abbrev pub Load : Type 0 → Type 0
Load A = Result RegistryError A

-- The loop of `parse_kv`, with what is read so far.
kv_from : List (Text × Text) → List Text → Load (List (Text × Text))
kv_from out [] = inr out
kv_from out (part ∷ parts) = do
  kv ← ok_or (split_once (codes "=") part) (not_key_value part)
  kv_from (out ++ (trim kv.0, trim kv.1) ∷ []) parts

unfoldable pub parse_kv : Text → Load (List (Text × Text))
unfolding kv_from
parse_kv field = kv_from [] (keep (λ p. not (is_empty p)) (split b';' field))

abbrev pub needed : List Text
needed =
    codes "id"
    ∷ codes "measured"
    ∷ codes "tol"
    ∷ codes "tol_kind"
    ∷ codes "units"
    ∷ codes "at"
    ∷ codes "domain"
    ∷ []

unfoldable pub check_columns : List Text → List Text → Load Unit
check_columns header [] = inr tt
check_columns header (need ∷ needs) =
    let rest = check_columns header needs in
    if any (λ h. text_eq h need) header then rest else inl (missing_column need)

cell_at : List Text → Option ℕ → Text
cell_at r none = []
cell_at r (some i) = get_or r i []

-- `r[t.col(name)]`. The columns that the loader reads are those that it has checked to be there, and
-- a table's rows are as long as its header.
unfoldable pub cell : Table → Text → List Text → Text
unfolding cell_at
cell t name r = cell_at r (col name t)

module _ {F : Type 0} ⦃fl : Float F⦄ where
  unfoldable pub resolve_tol : Text → Text → F → F → Load F
  resolve_tol id kind tol_raw measured =
      if text_eq kind (codes "abs")
      then inr tol_raw
      else if text_eq kind (codes "rel")
      then inr (fl.mul (fl.div tol_raw fl.hundred) (fl.abs measured))
      else inl (bad_tol_kind id)

  parse_bound : Text → Text → Option (Text × Text) → Load (DomainBound F)
  parse_bound id v none = inr (exact v)
  parse_bound id v (some (lo, hi)) = do
    x ← ok_or (fl.parse (trim lo)) (bad_range id)
    y ← ok_or (fl.parse (trim hi)) (bad_range id)
    inr (range x y)

  bounds_from :
      Text → List (Text × DomainBound F) → List (Text × Text) → Load (List (Text × DomainBound F))
  unfolding parse_bound
  bounds_from id domain [] = inr domain
  bounds_from id domain ((k, v) ∷ kvs) = do
    bound ← parse_bound id v (split_once (codes "..") v)
    bounds_from id (domain ++ (k, bound) ∷ []) kvs

  check_tol : Text → F → Load F
  check_tol id tol_raw = if fl.lt tol_raw fl.nought then inl (negative_tol id) else inr tol_raw

  -- The rest of a round of the loop, once the id is known to be new.
  unfoldable pub parse_row : Table → List Text → Load (AnchorRow F)
  unfolding check_tol resolve_tol bounds_from
  parse_row t r = do
    let id = cell t (codes "id") r
    measured ← ok_or (fl.parse (cell t (codes "measured") r)) (bad_measured id)
    parsed ← ok_or (fl.parse (cell t (codes "tol") r)) (bad_tol id)
    tol_raw ← check_tol id parsed
    tol ← resolve_tol id (cell t (codes "tol_kind") r) tol_raw measured
    kvs ← parse_kv (cell t (codes "domain") r)
    domain ← bounds_from id [] kvs
    at ← parse_kv (cell t (codes "at") r)
    inr (record {
      id = id;
      anchor = record { measured = measured; tol = tol };
      units = cell t (codes "units") r;
      at = at;
      domain = domain;
    })

  unfoldable pub has_id : List (AnchorRow F) → Text → Bool
  has_id rows id = any (λ x. text_eq x.id id) rows

  unfoldable pub next_row : Table → List Text → List (AnchorRow F) → Load (AnchorRow F)
  next_row t r rows =
      if has_id rows (cell t (codes "id") r)
      then inl (duplicate_id (cell t (codes "id") r))
      else parse_row t r

  unfoldable pub load_rows :
      Table → List (List Text) → List (AnchorRow F) → Load (List (AnchorRow F))
  load_rows t [] rows = inr rows
  load_rows t (r ∷ rs) rows = do row ← next_row t r rows; load_rows t rs (rows ++ row ∷ [])

  unfoldable pub load_table : Table → Load (List (AnchorRow F))
  load_table t = do _ ← check_columns t.header needed; load_rows t t.rows []

  unfoldable pub parse_registry : Text → Load (List (AnchorRow F))
  parse_registry text = load_table (parse_table text)
