-- ===== src/Cli/Items.antt =====
-- Which arguments `Args::parse` of src/main.rs accepts, and what it makes of them.
use mathlib.Core.Path.{subst}
use mathlib.Core.List.{append-nil}
use calx_mill.Base.{
  ◌≡◌, ◌↔◌, refl, sym, ap, ◌∙◌, true, false, none, some, inl, inr, List, [], ◌∷◌, ◌++◌, any, All,
  if◌then◌else◌, none≢some, Option, if-both, arith,
}
use mathlib.Core.Option.{some-injective}
use calx_mill.Base.Result.{Result}
use calx_mill.Base.Text.{Text, codes, text_eq, text_eq_iff, strip_prefix}
use calx_mill.Cli.Args.{
  Args, ArgError, needs_value, Token, valued, valueless, output, plain, token_of, token, push_flag,
  push_positional, no_args, flag_token, plain_token, parse_last, parse_step, parse_from, parse,
}

-- A flag without a value, one with a value, `-o` with its value, and a positional argument.
pub data Item : Type 0 where
  switch : Text → Item
  option : Text → Text → Item
  out : Text → Item
  free : Text → Item

-- The arguments that an item is written with.
unfoldable pub written : List Item → List Text
written [] = []
written (switch name ∷ items) = (codes "--" ++ name) ∷ written items
written (option name v ∷ items) = (codes "--" ++ name) ∷ v ∷ written items
written (out v ∷ items) = codes "-o" ∷ v ∷ written items
written (free a ∷ items) = a ∷ written items

-- A flag has a value exactly when its name is listed. A positional argument does not begin like a
-- flag.
unfoldable pub IsItem : List Text → Item → Type 0
IsItem value_flags (switch name) = any (λ f. text_eq f name) value_flags ≡ false
IsItem value_flags (option name v) = any (λ f. text_eq f name) value_flags ≡ true
IsItem value_flags (out v) = Unit
IsItem value_flags (free a) =
    (strip_prefix (codes "--") a ≡ none) × (text_eq a (codes "-o") ≡ false)

unfoldable pub add_item : Args → Item → Args
add_item args (switch name) = push_flag name none args
add_item args (option name v) = push_flag name (some v) args
add_item args (out v) = push_flag (codes "o") (some v) args
add_item args (free a) = push_positional a args

unfoldable pub gather : Args → List Item → Args
gather args [] = args
gather args (item ∷ items) = gather (add_item args item) items

-- What a token says of its argument.
Means : List Text → Text → Token → Type 0
Means value_flags a (valued name) =
    (codes "--" ++ name ≡ a) × (any (λ f. text_eq f name) value_flags ≡ true)
Means value_flags a (valueless name) =
    (codes "--" ++ name ≡ a) × (any (λ f. text_eq f name) value_flags ≡ false)
Means value_flags a output = codes "-o" ≡ a
Means value_flags a (plain b) =
    (b ≡ a) × ((strip_prefix (codes "--") a ≡ none) × (text_eq a (codes "-o") ≡ false))

prefix_back : (p a n : Text) → strip_prefix p a ≡ some n → p ++ n ≡ a
prefix_back [] a n h = sym (some-injective _ _ h)
prefix_back (c ∷ p) [] n h = elim (none≢some h) [ ]
prefix_back (c ∷ p) (d ∷ a) n h = ground (arith, prefix_back p a n)

token_of-Means :
    (value_flags : List Text) (a : Text) (o : Option Text)
    → strip_prefix (codes "--") a ≡ o
    → Means value_flags a (token_of value_flags a o)
unfolding token_of Means
token_of-Means value_flags a none e =
    if-both (Means value_flags a) (text_eq a (codes "-o"))
      (λ h. sym ((text_eq_iff a (codes "-o")).0 h)) (λ h. (refl, (e, h)))
token_of-Means value_flags a (some name) e =
    if-both (Means value_flags a) (any (λ f. text_eq f name) value_flags)
      (λ h. (prefix_back (codes "--") a name e, h)) (λ h. (prefix_back (codes "--") a name e, h))

token-Means : (value_flags : List Text) (a : Text) → Means value_flags a (token value_flags a)
unfolding token
token-Means value_flags a = token_of-Means value_flags a (strip_prefix (codes "--") a) refl

-- The items that a list of arguments is written with, and what they add up to.
unfoldable pub Reads : List Text → Args → List Text → Args → Type 0
Reads value_flags start raw args =
    (items : List Item) × (All (IsItem value_flags) items
      × ((written items ≡ raw) × (gather start items ≡ args)))

Reads-nil : (value_flags : List Text) (start : Args) → Reads value_flags start [] start
unfolding Reads written gather
Reads-nil value_flags start = ([], (tt, (refl, refl)))

-- An item before others that are read.
Reads-cons :
    (value_flags : List Text) (start : Args) (item : Item) (front raw all_raw : List Text)
    (args : Args)
    → IsItem value_flags item
    → ((items : List Item) → written (item ∷ items) ≡ front ++ written items)
    → front ++ raw ≡ all_raw
    → Reads value_flags (add_item start item) raw args
    → Reads value_flags start all_raw args
unfolding Reads gather
Reads-cons value_flags start item front raw all_raw args good write same (items, (goods, (e, g))) =
    (item ∷ items, ((good, goods), (write items ∙ ap (λ r. front ++ r) e ∙ same, g)))

Reads-last :
    (value_flags : List Text) (start : Args) (a : Text) (args : Args) (t : Token)
    → Means value_flags a t
    → parse_last t start ≡ inr args
    → Reads value_flags start (a ∷ []) args
unfolding parse_last Means IsItem add_item written
Reads-last value_flags start a args (valued name) m h = cc
Reads-last value_flags start a args output m h = cc
Reads-last value_flags start a args (valueless name) m h =
    Reads-cons value_flags start (switch name) ((codes "--" ++ name) ∷ []) [] (a ∷ []) args m.1
      (λ items. refl) (ap (λ b. b ∷ []) m.0)
      (subst (Reads value_flags _ []) (cc) (Reads-nil value_flags (add_item start (switch name))))
Reads-last value_flags start a args (plain b) m h =
    Reads-cons value_flags start (free a) (a ∷ []) [] (a ∷ []) args m.1 (λ items. refl) refl
      (subst (Reads value_flags _ []) (cc) (Reads-nil value_flags (add_item start (free a))))

Reads-step :
    (value_flags : List Text) (start : Args) (a v : Text) (raw : List Text) (args : Args)
    (t : Token)
    → (behind at : Args → Result ArgError Args)
    → ((s : Args) → behind s ≡ inr args → Reads value_flags s raw args)
    → ((s : Args) → at s ≡ inr args → Reads value_flags s (v ∷ raw) args)
    → Means value_flags a t
    → parse_step t v start behind at ≡ inr args
    → Reads value_flags start (a ∷ v ∷ raw) args
unfolding parse_step Means IsItem add_item written
Reads-step value_flags start a v raw args (valued name) behind at p q m h =
    Reads-cons value_flags start (option name v) ((codes "--" ++ name) ∷ v ∷ []) raw (a ∷ v ∷ raw)
      args m.1 (λ items. refl) (ap (λ b. b ∷ v ∷ raw) m.0) (p _ h)
Reads-step value_flags start a v raw args (valueless name) behind at p q m h =
    Reads-cons value_flags start (switch name) ((codes "--" ++ name) ∷ []) (v ∷ raw) (a ∷ v ∷ raw)
      args m.1 (λ items. refl) (ap (λ b. b ∷ v ∷ raw) m.0) (q _ h)
Reads-step value_flags start a v raw args output behind at p q m h =
    Reads-cons value_flags start (out v) (codes "-o" ∷ v ∷ []) raw (a ∷ v ∷ raw) args tt
      (λ items. refl) (ap (λ b. b ∷ v ∷ raw) m) (p _ h)
Reads-step value_flags start a v raw args (plain b) behind at p q m h =
    Reads-cons value_flags start (free a) (a ∷ []) (v ∷ raw) (a ∷ v ∷ raw) args m.1 (λ items. refl)
      refl (q _ (subst (λ c. at (push_positional c start) ≡ inr args) m.0 h))

parse_from-Reads :
    (value_flags : List Text) (raw : List Text) (start args : Args)
    → parse_from value_flags raw start ≡ inr args
    → Reads value_flags start raw args
unfolding parse_from
parse_from-Reads value_flags [] start args h =
    subst (Reads value_flags start []) (cc) (Reads-nil value_flags start)
parse_from-Reads value_flags (a ∷ []) start args h =
    Reads-last value_flags start a args (token value_flags a) (token-Means value_flags a) h
parse_from-Reads value_flags (a ∷ v ∷ raw) start args h =
    Reads-step value_flags start a v raw args (token value_flags a) (parse_from value_flags raw)
      (parse_from value_flags (v ∷ raw)) (λ s. parse_from-Reads value_flags raw s args)
      (λ s. parse_from-Reads value_flags (v ∷ raw) s args) (token-Means value_flags a) h

parse_from-plain :
    (value_flags : List Text) (a b : Text) (raw : List Text) (start : Args)
    → token value_flags a ≡ plain b
    → parse_from value_flags (a ∷ raw) start ≡ parse_from value_flags raw (push_positional b start)
unfolding parse_from parse_last parse_step
parse_from-plain value_flags a b [] start e = rw e refl
parse_from-plain value_flags a b (v ∷ raw) start e = rw e refl

parse_from-valueless :
    (value_flags : List Text) (a name : Text) (raw : List Text) (start : Args)
    → token value_flags a ≡ valueless name
    → parse_from value_flags (a ∷ raw) start
      ≡ parse_from value_flags raw (push_flag name none start)
unfolding parse_from parse_last parse_step
parse_from-valueless value_flags a name [] start e = rw e refl
parse_from-valueless value_flags a name (v ∷ raw) start e = rw e refl

parse_from-behind :
    (value_flags : List Text) (a v name : Text) (raw : List Text) (start : Args)
    → token value_flags a ≡ valued name
    → parse_from value_flags (a ∷ v ∷ raw) start
      ≡ parse_from value_flags raw (push_flag name (some v) start)
unfolding parse_from parse_step
parse_from-behind value_flags a v name raw start e = rw e refl

parse_from-output :
    (value_flags : List Text) (v : Text) (raw : List Text) (start : Args)
    → parse_from value_flags (codes "-o" ∷ v ∷ raw) start
      ≡ parse_from value_flags raw (push_flag (codes "o") (some v) start)
unfolding parse_from parse_step token token_of plain_token
parse_from-output value_flags v raw start = refl

token-valued :
    (value_flags : List Text) (name : Text)
    → any (λ f. text_eq f name) value_flags ≡ true
    → token value_flags (codes "--" ++ name) ≡ valued name
unfolding token token_of flag_token
token-valued value_flags name h = rw h refl

token-valueless :
    (value_flags : List Text) (name : Text)
    → any (λ f. text_eq f name) value_flags ≡ false
    → token value_flags (codes "--" ++ name) ≡ valueless name
unfolding token token_of flag_token
token-valueless value_flags name h = rw h refl

token-plain :
    (value_flags : List Text) (a : Text)
    → strip_prefix (codes "--") a ≡ none
    → text_eq a (codes "-o") ≡ false
    → token value_flags a ≡ plain a
unfolding token token_of plain_token
token-plain value_flags a h k =
    ap (token_of value_flags a) h ∙ ap (λ b. if b then output else plain a) k

pub parse_from-written :
    (value_flags : List Text) (items : List Item) (raw : List Text) (start : Args)
    → All (IsItem value_flags) items
    → parse_from value_flags (written items ++ raw) start
      ≡ parse_from value_flags raw (gather start items)
unfolding written IsItem gather add_item
parse_from-written value_flags [] raw start good = refl
parse_from-written value_flags (switch name ∷ items) raw start (good, goods) =
    parse_from-valueless value_flags (codes "--" ++ name) name (written items ++ raw) start
      (token-valueless value_flags name good)
    ∙ parse_from-written value_flags items raw _ goods
parse_from-written value_flags (option name v ∷ items) raw start (good, goods) =
    parse_from-behind value_flags (codes "--" ++ name) v name (written items ++ raw) start
      (token-valued value_flags name good)
    ∙ parse_from-written value_flags items raw _ goods
parse_from-written value_flags (out v ∷ items) raw start (good, goods) =
    parse_from-output value_flags v (written items ++ raw) start
    ∙ parse_from-written value_flags items raw _ goods
parse_from-written value_flags (free a ∷ items) raw start (good, goods) =
    parse_from-plain value_flags a a (written items ++ raw) start
      (token-plain value_flags a good.0 good.1)
    ∙ parse_from-written value_flags items raw _ goods

parse_from-end : (value_flags : List Text) (args : Args) → parse_from value_flags [] args ≡ inr args
unfolding parse_from
parse_from-end value_flags args = refl

-- A flag that needs a value, at the end.
pub parse-needs_value :
    (value_flags : List Text) (items : List Item) (name : Text)
    → All (IsItem value_flags) items
    → any (λ f. text_eq f name) value_flags ≡ true
    → parse (written items ++ (codes "--" ++ name) ∷ []) value_flags ≡ inl (needs_value name)
unfolding parse parse_from parse_last
parse-needs_value value_flags items name goods listed =
    parse_from-written value_flags items ((codes "--" ++ name) ∷ []) no_args goods
    ∙ ap (λ t. parse_last t (gather no_args items)) (token-valued value_flags name listed)

-- The arguments that are accepted are those that flags and positional arguments are written with,
-- each flag with a value exactly when its name is listed, and what is read of them has the
-- positional arguments and the flags in their order.
pub parse_iff :
    (value_flags raw : List Text) (args : Args)
    → (parse raw value_flags ≡ inr args) ↔ Reads value_flags no_args raw args
unfolding parse Reads
parse_iff value_flags raw args = (
  parse_from-Reads value_flags raw no_args args,
  λ (items, (good, (e, g))).
      ap (λ r. parse_from value_flags r no_args) (sym (append-nil (written items) ∙ e))
      ∙ parse_from-written value_flags items [] no_args good
      ∙ parse_from-end value_flags _
      ∙ ap inr g,
)
