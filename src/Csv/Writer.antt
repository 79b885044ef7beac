-- ===== src/Csv/Writer.antt =====
-- `write_record` of src/nvidia/csvio.rs.
use calx_mill.Base.{Bool, ◌||◌, List, [], ◌∷◌, ◌++◌, ◌==◌, if◌then◌else◌, any, ℕ}
use calx_mill.Base.Text.{Text}
use calx_mill.Csv.Reader.{comma, quote, carriage_return, newline}

-- The characters for which a field is quoted.
abbrev pub is_special : ℕ → Bool
is_special c = c == comma || c == quote || c == carriage_return || c == newline

-- `replace('"', "\"\"")`.
unfoldable pub double_quotes : Text → Text
double_quotes [] = []
double_quotes (c ∷ cs) =
    if c == quote then quote ∷ quote ∷ double_quotes cs else c ∷ double_quotes cs

unfoldable pub write_field : Text → Text
unfolding double_quotes
write_field f = if any is_special f then quote ∷ (double_quotes f ++ quote ∷ []) else f

-- The loop over the fields behind the first.
unfoldable pub write_more : List Text → Text
write_more [] = []
write_more (f ∷ fields) = comma ∷ (write_field f ++ write_more fields)

unfoldable pub write_fields : List Text → Text
write_fields [] = []
write_fields (f ∷ fields) = write_field f ++ write_more fields

-- What the call appends to its output.
unfoldable pub write_record : List Text → Text
write_record fields = write_fields fields ++ carriage_return ∷ newline ∷ []
