-- ===== src/Validity/Command.antt =====
-- The texts of `gate`'s arguments in src/main.rs: a domain fit and a query.
use calx_mill.Base.{
  ◌≡◌, refl, not, ◌||◌, Option, none, some, inl, inr, List, [], ◌∷◌, ◌++◌, keep, if◌then◌else◌,
}
use calx_mill.Base.Result.{Result, ◌>>=◌, ok_or}
use calx_mill.Base.Text.{Text, codes, text_eq, trim, split, split_once}
use calx_mill.Csv.Reader.{is_empty}
use calx_mill.Validity.Authority.{DomainFit, at_anchor, in_domain, out_of_domain}

unfoldable pub parse_fit : Text → Option DomainFit
parse_fit s =
    if text_eq s (codes "at-anchor")
    then some at_anchor
    else if text_eq s (codes "in-domain")
    then some in_domain
    else if text_eq s (codes "out-of-domain") || text_eq s (codes "out")
    then some out_of_domain
    else none

unfoldable pub fit_name : DomainFit → Text
fit_name at_anchor = codes "at-anchor"
fit_name in_domain = codes "in-domain"
fit_name out_of_domain = codes "out-of-domain"

-- A query that is refused: a part is no pair, or there is no part.
pub data QueryError : Type 0 where
  not_pair : Text → QueryError
  no_pairs : QueryError

-- The loop, with the pairs that it has read.
pairs : List (Text × Text) → List Text → Result QueryError (List (Text × Text))
pairs query [] = inr query
pairs query (part ∷ parts) = do
  kv ← ok_or (split_once (codes "=") part) (not_pair part)
  pairs (query ++ (trim kv.0, trim kv.1) ∷ []) parts

some_pairs : List (Text × Text) → Result QueryError (List (Text × Text))
some_pairs [] = inl no_pairs
some_pairs query = inr query

unfoldable pub parse_query : Text → Result QueryError (List (Text × Text))
unfolding pairs some_pairs
parse_query at = do
  query ← pairs [] (keep (λ p. not (is_empty p)) (split b',' at))
  some_pairs query

-- The name of a fit is read back as the fit.
pub parse_fit-fit_name : (fit : DomainFit) → parse_fit (fit_name fit) ≡ some fit
unfolding parse_fit fit_name
parse_fit-fit_name at_anchor = refl
parse_fit-fit_name in_domain = refl
parse_fit-fit_name out_of_domain = refl
