-- ===== src/Sass/Tests.antt =====
-- Runs on a small disassembly, and the theorems at concrete data.
use calx_mill.Base.{
  ℕ, ◌%◌, ◌^◌, ◌≡◌, refl, inr, true, false, Option, none, some, List, [], ◌∷◌, ◌++◌, length, All,
  update_last, arith,
}
use calx_mill.Base.Result.{◌>>=◌}
use calx_mill.Base.Text.{Text, codes, is_whitespace, trim_start, trim, split, split_once}
use calx_mill.Base.Words.{take_while, drop_while, up_to, split_whitespace, lines}
use calx_mill.Pattern.Syntax.{Pattern, lit, one, atom_ok}
use calx_mill.Pattern.Match.{match_here}
use calx_mill.Pattern.Search.{is_match}
use calx_mill.Projection.Census.{Census, add}
use calx_mill.Projection.Tally.{count_of}
use calx_mill.Sass.Scan.{
  from_hex, is_hex, is_digit, is_upper, is_mnemonic_byte, behind_predicate, scan_instr,
  function_name, uniform_predicated_drops, uniform_drops_in,
}
use calx_mill.Sass.Functions.{Instr, Function, base_of, mnemonic_of, decode, parse_functions}
use calx_mill.Sass.HotLoop.{
  bra_target, next_index, position_of, backward, better, loop_from, hot_loop,
}
use calx_mill.Sass.Largest.{Ascending, IsBest}
use calx_mill.Sass.Picked.{Readable, hot_loop-IsBest}
use calx_mill.Sass.Mix.{
  mix_functions, kernel_index, enter, add_at, census_line, census_lines, census_per_kernel,
}
use calx_mill.Sass.Counted.{Bodies, with_base_in, IsPlain, mix_functions_counts}
use calx_mill.Sass.Kernels.{Selected, names, census_per_kernel-Selected}
use calx_mill.Sass.Printed.{Predicate, predicated, printed, IsRun, IsPredicate, Stops}
use calx_mill.Sass.Read.{scan_instr-printed}

-- Matches every name with a `k` in it.
abbrev any_k : Pattern
any_k = (lit b'k', one) ∷ []

abbrev disassembly : Text
disassembly =
    codes
      "Function : k1\n /*0000*/ MOV R1, R2 ;\n /*0010*/ FFMA.FTZ R1, R2 ;\n /*0020*/ @UP0 UMOV R1 ;\n /*0030*/ @!P0 BRA 0x10 ;\n"

abbrev k1 : List Instr
k1 =
    record { addr = 0; base = codes "MOV"; text = codes "MOV R1, R2" }
    ∷ record { addr = 16; base = codes "FFMA"; text = codes "FFMA.FTZ R1, R2" }
    ∷ record { addr = 48; base = codes "BRA"; text = codes "@!P0 BRA 0x10" }
    ∷ []

functions_read : parse_functions disassembly ≡ inr (record { name = codes "k1"; instrs = k1 } ∷ [])
unfolding parse_functions lines split function_name trim_start split_whitespace scan_instr from_hex
    is_hex is_upper is_mnemonic_byte behind_predicate decode mnemonic_of base_of trim take_while
    drop_while ◌>>=◌ update_last is_whitespace
functions_read = refl

one_dropped : uniform_predicated_drops disassembly ≡ inr 1
unfolding uniform_predicated_drops uniform_drops_in lines split trim_start scan_instr from_hex
    is_hex is_upper is_mnemonic_byte behind_predicate take_while drop_while ◌>>=◌ is_whitespace
    split_once
one_dropped = refl

hot_k1 : hot_loop k1 ≡ inr (some (1, 2))
unfolding hot_loop loop_from backward bra_target position_of next_index better from_hex is_hex
    take_while drop_while ◌>>=◌ is_whitespace
hot_k1 = refl

k1-Ascending : Ascending k1
unfolding Ascending
k1-Ascending = omega arith

k1-Readable : Readable k1
unfolding Readable bra_target from_hex is_hex take_while drop_while ◌>>=◌ is_whitespace
k1-Readable = ((none, refl), ((none, refl), ((some 16, refl), tt)))

hot_loop-IsBest_example :
    (best : Option (ℕ × ℕ)) × ((hot_loop k1 ≡ inr best) × IsBest k1 (length k1) best)
hot_loop-IsBest_example = hot_loop-IsBest k1 k1-Ascending (omega arith) k1-Readable

abbrev functions : List Function
functions = record { name = codes "k1"; instrs = k1 } ∷ []

functions-IsPlain : All IsPlain functions
functions-IsPlain = ((k1-Ascending, (omega arith, k1-Readable)), tt)

mix_functions_counts_example :
    (bodies : List (List Instr)) × (mix : Census) × Bodies any_k functions bodies
    × (mix_functions any_k functions ([], 0) ≡ inr (mix, length bodies))
    × ((op : Text) → count_of op mix ≡ with_base_in op bodies % 2 ^ 64)
mix_functions_counts_example = mix_functions_counts any_k functions functions-IsPlain

abbrev k1_counts : List (Text × Census)
k1_counts = (codes "k1", (codes "MOV", 1) ∷ (codes "FFMA", 1) ∷ (codes "BRA", 1) ∷ []) ∷ []

kernels_counted : census_per_kernel disassembly any_k false ≡ inr k1_counts
unfolding census_per_kernel census_lines census_line enter kernel_index add_at add lines split
    function_name trim_start split_whitespace scan_instr from_hex is_hex is_upper is_mnemonic_byte
    behind_predicate base_of up_to take_while drop_while ◌>>=◌ is_whitespace is_match match_here
    atom_ok
kernels_counted = refl

census_per_kernel-Selected_example : Selected any_k (names k1_counts)
census_per_kernel-Selected_example =
    census_per_kernel-Selected any_k disassembly false k1_counts kernels_counted

abbrev guard : Predicate
guard = predicated true (codes "0") (codes " ")

abbrev branch_line : Text
branch_line =
    codes " "
    ++ (codes "/*"
        ++ (codes "30"
            ++ (codes "*/" ++ (codes " " ++ printed guard (b'B' ∷ (codes "RA" ++ codes " 0x10"))))))

thirty : from_hex (codes "30") ≡ inr 48
unfolding from_hex
thirty = refl

scan_instr-printed_example :
    scan_instr branch_line
    ≡ inr (
        some (record {
          addr = 48;
          body = printed guard (b'B' ∷ (codes "RA" ++ codes " 0x10"));
          behind = codes " 0x10";
        }))
unfolding IsRun IsPredicate Stops is_hex is_digit is_upper is_mnemonic_byte is_whitespace
scan_instr-printed_example =
    scan_instr-printed (codes " ") (codes "30") (codes " ") guard b'B' (codes "RA") (codes " 0x10")
      48 (refl, tt) (refl, (refl, tt)) thirty (refl, tt) ((refl, tt), (refl, tt)) refl
      (refl, (refl, tt)) refl
