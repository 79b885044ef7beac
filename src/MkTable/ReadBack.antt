-- ===== src/MkTable/ReadBack.antt =====
-- The table that `mk_table` of src/nvidia/mktable.rs writes, read by src/nvidia/csvio.rs.
use mathlib.Core.Path.{subst}
use calx_mill.Base.{
  ℕ, zero, suc, ◌≡◌, refl, sym, ap, ◌∙◌, Bool, true, false, not, ◌||◌, Option, none, some, inr,
  List, [], ◌∷◌, map, length, All, All-append, arith,
}
use calx_mill.Base.Result.{inr_back, bind-inr}
use calx_mill.Base.Text.{Text}
use calx_mill.Base.Float.{Float}
use calx_mill.Base.Decimal.{FloatText}
use calx_mill.Base.Groups.{Group, members}
use calx_mill.Csv.Reader.{pad, with_header, parse_table, is_empty}
use calx_mill.Csv.RoundTrip.{IsWritable, write_all, parse_records-write_all}
use calx_mill.MkTable.Rows.{Meas, Measurements}
use calx_mill.MkTable.Grouping.{GroupKey}
use calx_mill.MkTable.Judge.{Priors}
use calx_mill.MkTable.Table.{
  Row, table_fields, record_of_row, publish_groups, publish_rows, publish, absent_record,
  absent_records, table_records, mk_table,
}

-- A record has a field for each column of the table.
abbrev pub IsFull : List Text → Type 0
IsFull r = length r ≡ 16

module _ (F : Type 0) ⦃fl : Float F⦄ ⦃ft : FloatText F⦄ where
  record_of_row-IsFull :
      (labels : List (Text × Text)) (row_id : Text) (m : Meas) (grp : List Meas) (row : Row F)
      (value : Text)
      → IsFull (record_of_row F labels row_id m grp row value)
  unfolding record_of_row
  record_of_row-IsFull labels row_id m grp row value = refl

  publish_groups-IsFull :
      (labels : List (Text × Text)) (priors : Priors) (row_id : Text) (m : Meas)
      (groups : List (Group GroupKey Meas)) (rs : List (List Text))
      → publish_groups F labels priors row_id m groups ≡ inr rs
      → All IsFull rs
  unfolding publish_groups
  publish_groups-IsFull labels priors row_id m [] rs h = subst (All IsFull) (inr_back h) tt
  publish_groups-IsFull labels priors row_id m (g ∷ groups) rs h =
      let (vals, (_, h1)) = bind-inr _ _ h in
      let (row, (_, h2)) = bind-inr _ _ h1 in
      let (value, (_, h3)) = bind-inr _ _ h2 in
      let (more, (others, h4)) = bind-inr _ _ h3 in
      subst (All IsFull) (inr_back h4) (
        record_of_row-IsFull labels row_id m (members g) row value,
        publish_groups-IsFull labels priors row_id m groups more others,
      )

  publish_rows-IsFull :
      (labels : List (Text × Text)) (priors : Priors) (rows : Measurements) (rs : List (List Text))
      → publish_rows F labels priors rows ≡ inr rs
      → All IsFull rs
  unfolding publish_rows
  publish_rows-IsFull labels priors [] rs h = subst (All IsFull) (inr_back h) tt
  publish_rows-IsFull labels priors (g ∷ rows) rs h =
      let (now, (first, h1)) = bind-inr _ _ h in
      let (more, (others, h2)) = bind-inr _ _ h1 in
      subst (All IsFull) (inr_back h2) (
        All-append IsFull now more (publish_groups-IsFull labels priors g.key g.first _ now first)
          (publish_rows-IsFull labels priors rows more others))

absent_all-IsFull :
    (id inst src notes : ℕ) (rows : List (List Text))
    → All IsFull (map (absent_record id inst src notes) rows)
unfolding absent_record
absent_all-IsFull id inst src notes [] = tt
absent_all-IsFull id inst src notes (row ∷ rows) = (refl, absent_all-IsFull id inst src notes rows)

absent_records-IsFull :
    (na : Option Text) (rs : List (List Text)) → absent_records na ≡ inr rs → All IsFull rs
unfolding absent_records
absent_records-IsFull none rs h = subst (All IsFull) (inr_back h) tt
absent_records-IsFull (some na) rs h =
    let (id, (_, h1)) = bind-inr _ _ h in
    let (inst, (_, h2)) = bind-inr _ _ h1 in
    let (src, (_, h3)) = bind-inr _ _ h2 in
    let (notes, (_, h4)) = bind-inr _ _ h3 in
    subst (All IsFull) (inr_back h4) (absent_all-IsFull id inst src notes _)

or_end : (b : Bool) → (b || true) ≡ true
or_end true = refl
or_end false = refl

IsFull-IsWritable : (r : List Text) → IsFull r → IsWritable r
IsFull-IsWritable [] h = ground (arith, h)
IsFull-IsWritable (f ∷ []) h = absurd (omega arith)
IsFull-IsWritable (f ∷ g ∷ fs) h = or_end (not (is_empty f))

all-IsWritable : (rs : List (List Text)) → All IsFull rs → All IsWritable rs
all-IsWritable [] h = tt
all-IsWritable (r ∷ rs) (h, hs) = (IsFull-IsWritable r h, all-IsWritable rs hs)

pad_full : (n : ℕ) (r : List Text) → length r ≡ n → pad n r ≡ r
unfolding pad
pad_full zero r h = refl
pad_full (suc n) [] h = absurd (omega arith)
pad_full (suc n) (f ∷ r) h = ap (◌∷◌ f) (pad_full n r (omega arith))

pad_all : (rs : List (List Text)) → All IsFull rs → map (pad 16) rs ≡ rs
pad_all [] h = refl
pad_all (r ∷ rs) (h, hs) =
    ap (λ l. l ∷ map (pad 16) rs) (pad_full 16 r h) ∙ ap (◌∷◌ r) (pad_all rs hs)

parse_table-write_all :
    (rs : List (List Text))
    → All IsFull rs
    → parse_table (write_all (table_fields ∷ rs)) ≡ record { header = table_fields; rows = rs }
unfolding parse_table with_header
parse_table-write_all rs h =
    ap with_header (parse_records-write_all (table_fields ∷ rs) (refl, all-IsWritable rs h))
    ∙ ap (λ l. record { header = table_fields; rows = l }) (pad_all rs h)

module _ (F : Type 0) ⦃fl : Float F⦄ ⦃ft : FloatText F⦄ where
  table_records-IsFull :
      (results : List (Text × Text)) (priors_csv : Text) (na : Option Text) (rs : List (List Text))
      → table_records F results priors_csv na ≡ inr rs
      → All IsFull rs
  unfolding table_records publish
  table_records-IsFull results priors_csv na rs h =
      let (priors, (_, h1)) = bind-inr _ _ h in
      let (meas, (_, h2)) = bind-inr _ _ h1 in
      let (rows, (published, h3)) = bind-inr _ _ h2 in
      let (absent, (missing, h4)) = bind-inr _ _ h3 in
      subst (All IsFull) (inr_back h4) (
        All-append IsFull rows absent (publish_rows-IsFull F _ priors _ rows published)
          (absent_records-IsFull na absent missing))

  -- The text of a table that is made, read as a table, has the header of the table, and its rows are
  -- the records that were gathered, each with a field for every column. The number that is reported is
  -- that of the rows.
  pub parse_table-mk_table :
      (results : List (Text × Text)) (priors_csv : Text) (na : Option Text) (out : Text) (n : ℕ)
      → mk_table F results priors_csv na ≡ inr (out, n)
      → (rs : List (List Text)) × (table_records F results priors_csv na ≡ inr rs)
        × (parse_table out ≡ record { header = table_fields; rows = rs })
        × All IsFull rs
        × (n ≡ length rs)
  unfolding mk_table
  parse_table-mk_table results priors_csv na out n h =
      let (rs, (made, last)) = bind-inr _ _ h in
      let full = table_records-IsFull results priors_csv na rs made in
      let pair = inr_back last in
      (
        rs,
        made,
        ap parse_table (sym (ap (λ (p : Text × ℕ). p.0) pair)) ∙ parse_table-write_all rs full,
        full,
        sym (ap (λ (p : Text × ℕ). p.1) pair),
      )
