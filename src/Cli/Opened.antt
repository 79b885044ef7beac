-- ===== src/Cli/Opened.antt =====
-- What a command of src/main.rs has read when it goes on.
use calx_mill.Base.{◌≡◌, ap, some, inl, inr, List, [], ◌∷◌}
use calx_mill.Base.Result.{Result, ok_or, ok_or-inr}
use calx_mill.Base.Text.{Text}
use calx_mill.Cli.Args.{Args, parse}
use calx_mill.Cli.Command.{
  RunStop, World, bad_args, unreadable, stopped, unless_panic, args_of, only, read,
}

module _ {ℓ} {E : Type 0} {A : Type ℓ} where
  pub stopped-inr : (f : E → RunStop) (r : Result E A) {x : A} → stopped f r ≡ inr x → r ≡ inr x
  unfolding stopped
  stopped-inr f (inl e) h = cc
  stopped-inr f (inr y) h = cc

  pub unless_panic-inr : (r : Result E A) {x : A} → unless_panic r ≡ inr x → r ≡ inr x
  unfolding unless_panic
  unless_panic-inr (inl e) h = cc
  unless_panic-inr (inr y) h = cc

pub only-inr : (m : Text) (ps : List Text) {p : Text} → only m ps ≡ inr p → ps ≡ p ∷ []
unfolding only
only-inr m [] h = cc
only-inr m (q ∷ []) h = cc
only-inr m (q ∷ r ∷ ps) h = cc

pub args_of-inr :
    (raw flags : List Text) {args : Args}
    → args_of raw flags ≡ inr args
    → parse raw flags ≡ inr args
unfolding args_of
args_of-inr raw flags h = stopped-inr _ _ h

pub read-inr :
    (w : World) (path : Text) {text : Text} → read w path ≡ inr text → w.read_file path ≡ some text
unfolding read
read-inr w path h = ok_or-inr _ _ h

pub inr-args_of :
    (raw flags : List Text) {args : Args}
    → parse raw flags ≡ inr args
    → args_of raw flags ≡ inr args
unfolding args_of stopped
inr-args_of raw flags h = ap (stopped bad_args) h

pub inr-only : (m : Text) (ps : List Text) {p : Text} → ps ≡ p ∷ [] → only m ps ≡ inr p
unfolding only
inr-only m ps h = ap (only m) h

pub inr-read :
    (w : World) (path : Text) {text : Text} → w.read_file path ≡ some text → read w path ≡ inr text
unfolding read ok_or
inr-read w path h = ap (λ o. ok_or o (unreadable path)) h
