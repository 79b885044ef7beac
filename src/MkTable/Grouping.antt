-- ===== src/MkTable/Grouping.antt =====
-- The groups of a row's measurements, one for each row of the table, in `mk_table` of
-- src/nvidia/mktable.rs.
use calx_mill.Base.{Bool, ◌||◌, Option, none, some, List, [], ◌∷◌, ◌++◌, map, if◌then◌else◌}
use calx_mill.Base.Text.{Text, codes, text_eq}
use calx_mill.Base.Sort.{text_leb, sort_by}
use calx_mill.Base.Groups.{Group, push_group}
use calx_mill.MkTable.Rows.{Meas}
use calx_mill.MkTable.Labels.{sweep_base}

pub data GroupKey : Type 0 where
  sweep : Text → GroupKey
  standalone : Text → GroupKey

unfoldable pub sort_key : GroupKey → Text
sort_key (sweep s) = codes "('sweep', '" ++ (s ++ codes "')")
sort_key (standalone v) = v

abbrev pub Gathered : Type 0
Gathered = List (Group Text Meas)

unfoldable pub push_by : Text → Meas → Gathered → Gathered
push_by k m gs = push_group (λ l. text_eq l k) k m gs

-- A measurement goes to the sweep of its suffix, or to its own variant.
unfoldable pub put_meas : Meas → Option Text → Gathered × Gathered → Gathered × Gathered
put_meas m (some sb) (sweeps, alone) = (push_by sb m sweeps, alone)
put_meas m none (sweeps, alone) = (sweeps, push_by m.variant m alone)

unfoldable pub put_all : List Meas → Gathered × Gathered → Gathered × Gathered
put_all [] both = both
put_all (m ∷ rows) both = put_all rows (put_meas m (sweep_base m.variant) both)

abbrev pub with_key : (Text → GroupKey) → Group Text Meas → Group GroupKey Meas
with_key c g = record { key = c g.key; first = g.first; more = g.more }

unfoldable pub put_variants : List Meas → Gathered → Gathered
put_variants [] gs = gs
put_variants (m ∷ rows) gs = put_variants rows (push_by m.variant m gs)

unfoldable pub both_kinds : Gathered × Gathered → List (Group GroupKey Meas)
both_kinds (sweeps, alone) = map (with_key sweep) sweeps ++ map (with_key standalone) alone

unfoldable pub is_swept : Text → Bool
is_swept kind = text_eq kind (codes "recip_tput") || text_eq kind (codes "bandwidth")

-- In rows of other kinds every variant is its own group.
unfoldable pub groups_of : Text → List Meas → List (Group GroupKey Meas)
groups_of kind rows =
    if is_swept kind
    then both_kinds (put_all rows ([], []))
    else map (with_key standalone) (put_variants rows [])

abbrev pub key_leb : Group GroupKey Meas → Group GroupKey Meas → Bool
key_leb a b = text_leb (sort_key a.key) (sort_key b.key)

unfoldable pub sorted_groups : Text → List Meas → List (Group GroupKey Meas)
sorted_groups kind rows = sort_by key_leb (groups_of kind rows)
