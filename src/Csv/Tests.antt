-- ===== src/Csv/Tests.antt =====
-- Runs of the reader and the writer on the inputs of the source's tests, and the theorems at concrete data.
use calx_mill.Base.{◌≡◌, refl, List, [], ◌∷◌, ◌++◌}
use calx_mill.Base.Text.{Text, codes}
use calx_mill.Csv.Reader.{parse_table, parse_records}
use calx_mill.Csv.Writer.{write_record, write_fields, write_more, write_field}
use calx_mill.Csv.RoundTrip.{write_all, parse_records-write_all, parse_records-blank_lost}

plain_and_quoted : parse_table (codes "a,b,c\r\n1,\"x,y\",3\n\n4,,\"q\"\"q\"\n") ≡ record {
  header = codes "a" ∷ codes "b" ∷ codes "c" ∷ [];
  rows = (codes "1" ∷ codes "x,y" ∷ codes "3" ∷ []) ∷ (codes "4" ∷ [] ∷ codes "q\"q" ∷ []) ∷ [];
}
unfolding parse_table
plain_and_quoted = refl

minimal_quoting :
    write_record (codes "a" ∷ codes "b,c" ∷ codes "d\"e" ∷ [] ∷ [])
    ≡ codes "a,\"b,c\",\"d\"\"e\",\r\n"
unfolding write_record write_fields write_more write_field
minimal_quoting = refl

abbrev sheet : List (List Text)
sheet = (codes "kernel" ∷ codes "a,\"b\"" ∷ []) ∷ ([] ∷ codes "x\r\ny" ∷ []) ∷ []

parse_records-write_all_example : parse_records (write_all sheet) ≡ sheet
parse_records-write_all_example = parse_records-write_all sheet (refl, (refl, tt))

parse_records-blank_lost_example : parse_records (write_all sheet ++ write_record ([] ∷ [])) ≡ sheet
parse_records-blank_lost_example = parse_records-blank_lost sheet (refl, (refl, tt))
