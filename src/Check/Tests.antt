-- ===== src/Check/Tests.antt =====
-- A run of the purity check on a small disassembly, and the theorems there.
use calx_mill.Base.{◌≡◌, refl, false, some, List, [], ◌∷◌, All, update_last}
use calx_mill.Base.Result.{◌>>=◌}
use calx_mill.Base.Text.{Text, codes, is_whitespace, trim_start, trim, split}
use calx_mill.Base.Words.{take_while, drop_while, split_whitespace, lines}
use calx_mill.Sass.Scan.{
  from_hex, is_hex, is_upper, is_mnemonic_byte, behind_predicate, scan_instr, function_name,
}
use calx_mill.Sass.Functions.{base_of, mnemonic_of, decode, parse_functions}
use calx_mill.Sass.HotLoop.{
  bra_target, next_index, position_of, loop_start, backward, better, loop_from, hot_loop,
}
use calx_mill.Base.Text.{split_once}
use calx_mill.Base.Result.{ok_or}
use calx_mill.Base.{Option}
use calx_mill.Base.Float.{Sample, sample_float}
use calx_mill.Pattern.Syntax.{atom_ok}
use calx_mill.Pattern.Compile.{try_new, new}
use calx_mill.Pattern.Match.{match_here}
use calx_mill.Pattern.Search.{is_match}
use calx_mill.Projection.Census.{Census, add}
use calx_mill.Check.Shares.{
  no_shares, add_share, add_shares, distances, shares_of, shares, census_match, match_code,
  group_names,
}
use calx_mill.Check.Matched.{HasMix, CloseShares, match_code_zero}
use calx_mill.Sass.Mix.{body_between, add_instrs, add_body, mix_function, mix_functions, loop_mix}
use calx_mill.Check.Cases.{GateOpts}
use calx_mill.Check.Purity.{pure_loop, is_failure, CheckReport, checked, check_code}
use calx_mill.Base.{none, true}
use calx_mill.Base.Decimal.{sample_text}
use calx_mill.Cli.Args.{Args}
use calx_mill.Cli.Command.{World}
use calx_mill.Cli.Pure.{Pure}

abbrev opts : GateOpts
opts = record { min_primary = 1; l0_bytes = 8192; staging_budget = 6 }

abbrev timed : Text
timed =
    codes
      "Function : ffma_anchor\n /*0000*/ MOV R1, R2 ;\n /*0010*/ FFMA R1, R2 ;\n /*0020*/ BRA 0x10 ;\n"

abbrev report : CheckReport
report = checked (pure_loop (codes "fn<ffma_anchor>") 1 2 32 [] ∷ [])

passes : check_code report ≡ 0
unfolding check_code is_failure
passes = refl

abbrev sass_text : Text → Option Text
sass_text path = some timed

matches_itself :
    match_code (some 5) (census_match Sample sass_text (codes "a.sass:ffma") (codes "b.sass:"))
    ≡ some 0
unfolding match_code census_match shares shares_of split_once try_new new loop_mix mix_functions
    mix_function add_body add_instrs add add_shares add_share no_shares distances ok_or is_match
    match_here atom_ok parse_functions lines split function_name trim_start split_whitespace
    scan_instr from_hex is_hex is_upper is_mnemonic_byte behind_predicate decode mnemonic_of base_of
    trim take_while drop_while ◌>>=◌ update_last is_whitespace hot_loop loop_from backward
    bra_target position_of next_index better loop_start body_between
matches_itself = refl

match_code_zero_example :
    (a : Census) × (b : Census) × (HasMix sass_text (codes "a.sass:ffma") a
      × HasMix sass_text (codes "b.sass:") b
      × All (CloseShares Sample (some 5) a b) group_names)
match_code_zero_example =
    match_code_zero Sample sass_text (some 5) (codes "a.sass:ffma") (codes "b.sass:") matches_itself

abbrev world : World
world = record {
  read_file = λ path. none;
  sass_text = sass_text;
  exists = λ path. true;
  read_dir = λ path. none;
  write_file = λ path text. false;
  join = λ root path. path;
  with_sass = λ path. path;
  file_name = some;
}

abbrev raw : List Text
raw = codes "--min-primary" ∷ codes "1" ∷ codes "ffma.sass" ∷ []

abbrev args : Args
args = record {
  positional = codes "ffma.sass" ∷ [];
  flags = (codes "min-primary", some (codes "1")) ∷ [];
}
