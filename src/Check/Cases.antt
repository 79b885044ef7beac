-- ===== src/Check/Cases.antt =====
-- What `check` of src/nvidia/check.rs expects of a function, by its name.
use calx_mill.Base.{
  ℕ, Bool, not, ◌&&◌, Option, none, some, List, [], ◌∷◌, ◌++◌, map, ltb, length, any, keep,
  if◌then◌else◌,
}
use calx_mill.Base.Text.{Text, codes, text_eq, contains_text}
use calx_mill.Base.Sort.{text_leb, sort_by}
use calx_mill.Check.Tables.{Expect, expect}
use calx_mill.Check.Bespoke.{expect_fn}

pub record GateOpts : Type 0 where
  pub min_primary : ℕ
  pub l0_bytes : ℕ
  pub staging_budget : ℕ

abbrev pub default_opts : GateOpts
default_opts = record { min_primary = 64; l0_bytes = 8192; staging_budget = 6 }

-- The least count of a bespoke kernel, and the expectation of a mix of several operations.
pub record GateCase : Type 0 where
  pub label : Text
  pub expectation : Option Expect
  pub fn_min : Option ℕ
  pub union : Option (List Text × List Text)

abbrev pub Entry : Type 0
Entry = Text × Option Expect

-- The first entry whose key is a part of the name.
unfoldable pub find_part : List Entry → Text → Option Entry
find_part [] name = none
find_part ((k, e) ∷ entries) name =
    if contains_text k name then some (k, e) else find_part entries name

find_kind : List Text → Text → Option Text
find_kind [] name = none
find_kind (k ∷ kinds) name = if contains_text k name then some k else find_kind kinds name

kinds : List Text
kinds = codes "lat_kernel" ∷ codes "tput_kernel" ∷ codes "pure_kernel" ∷ codes "mix_kernel" ∷ []

has_op : Text → Text → Bool
has_op name op = contains_text (op ++ codes "E") name

-- An operation's name that is a part of another that the function has too.
is_shadowed : Text → List Entry → Text → Bool
unfolding has_op
is_shadowed name entries o =
    any (λ (p : Entry). not (text_eq o p.0) && contains_text o p.0 && has_op name p.0) entries

-- The operations that the function's name has.
unfoldable pub matches : Text → List Entry
unfolding has_op is_shadowed
matches name =
    let found = keep (λ (e : Entry). has_op name e.0) expect in
    keep (λ (e : Entry). not (is_shadowed name found e.0)) found

join_plus : List Text → Text
join_plus [] = []
join_plus (t ∷ []) = t
join_plus (t ∷ u ∷ ts) = t ++ (codes "+" ++ join_plus (u ∷ ts))

in_brackets : Text → Text → Text
in_brackets kind inner = kind ++ (codes "<" ++ (inner ++ codes ">"))

-- The expectations of several operations together, none where one of them has none.
unfoldable pub united : List Entry → Option (List Text × List Text)
united [] = some ([], [])
united ((o, none) ∷ entries) = none
united ((o, some e) ∷ entries) = elim (united entries) [
  | none ↦ none
  | some (ps, cs) ↦ some (e.primary ++ ps, e.companions ++ cs)
]

mix_case : Text → List Entry → Option (List Text × List Text) → Option GateCase
unfolding join_plus in_brackets
mix_case kind entries none = none
mix_case kind entries (some u) = some (record {
  label = in_brackets kind (join_plus (sort_by text_leb (map (λ (e : Entry). e.0) entries)));
  expectation = none;
  fn_min = none;
  union = some u;
})

-- The first of the longest names.
longest : Entry → List Entry → Entry
longest best [] = best
longest best (e ∷ entries) = longest (if ltb (length best.0) (length e.0) then e else best) entries

template_case : Text → List Entry → Option GateCase
unfolding mix_case longest in_brackets
template_case kind [] = none
template_case kind (e ∷ entries) =
    if text_eq kind (codes "mix_kernel")
    then mix_case kind (e ∷ entries) (united (e ∷ entries))
    else (let best = longest e entries in
        some (record {
          label = in_brackets kind best.0;
          expectation = best.1;
          fn_min = none;
          union = none;
        }))

kind_case : Text → Option Text → Option GateCase
unfolding template_case
kind_case name none = none
kind_case name (some kind) = template_case kind (matches name)

least_or : Option ℕ → ℕ → ℕ
least_or none d = d
least_or (some n) d = n

fn_case : GateOpts → Text → Option Expect → Option GateCase
unfolding least_or in_brackets
fn_case opts key none = none
fn_case opts key (some e) = some (record {
  label = in_brackets (codes "fn") key;
  expectation = some e;
  fn_min = some (least_or e.least opts.min_primary);
  union = none;
})

case_by : GateOpts → Text → Option Entry → Option GateCase
unfolding fn_case kind_case find_kind kinds
case_by opts name (some (key, e)) = fn_case opts key e
case_by opts name none = kind_case name (find_kind kinds name)

-- The case of a function, none where it is not checked.
unfoldable pub case_of : GateOpts → Text → Option GateCase
unfolding case_by
case_of opts name = case_by opts name (find_part expect_fn name)
