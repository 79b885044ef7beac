-- ===== src/Projection/Flagged.antt =====
-- Which operations `project` of src/nvidia/projection.rs flags, and how many it counts.
use mathlib.Core.List.{append_assoc, append-nil}
use calx_mill.Base.{
  ℕ, ◌+◌, ◌%◌, ◌^◌, ◌≡◌, refl, sym, ap, ◌∙◌, inl, inr, Bool, true, false, not, ◌&&◌, ◌||◌, Option,
  none, some, List, [], ◌∷◌, ◌++◌, if◌then◌else◌, if-both, if-both2, wrapping_add64, arith,
}
use calx_mill.Base.Result.{Result, Ensures, Ensures-inr, Ensures-from, Ensures-map, ensures}
use calx_mill.Base.Scan.{or_true}
use mathlib.Core.Path.{subst}
use calx_mill.Base.Text.{Text, codes, text_eq, text_eq_iff}
use calx_mill.Base.Float.{Float}
use calx_mill.Sass.Functions.{base_of}
use calx_mill.Projection.Census.{Census}
use calx_mill.Projection.Rates.{RateRow, Rates}
use calx_mill.Projection.Tables.{control, lsu, contains}
use calx_mill.Projection.Demand.{
  ProjectPanic, tensor_shape, shape_measured, base_measured, or_row, is_shape_defaulted, Demand,
  flag_if,
}
use calx_mill.Projection.Fold.{memory_op, on_pipe, costed_op, pipe_op, project_op, project_ops}

-- Traffic of the local memory.
unfoldable pub is_local : Text → Bool
is_local base = text_eq base (codes "LDL") || text_eq base (codes "STL")

absent : {A : Type 0} → Option A → Bool
absent none = true
absent (some x) = false

-- A row for the exact shape is not there, and one for the base is not there either or there is a
-- shape.
lacks_row : Option RateRow → Option Text → Option RateRow → Bool
lacks_row own shape shared = absent own && (absent shared || not (absent shape))

unfoldable pub is_unrated : Rates → Text → Bool
unfolding lacks_row absent
is_unrated rates mnemonic =
    let base = base_of mnemonic in
    let shape = tensor_shape base mnemonic in
    lacks_row (shape_measured rates base shape) shape (base_measured rates base)

-- An operation that is projected without a measured rate of its own, or not at all, though it is no
-- control operation.
unfoldable pub is_flagged : Rates → Text → Bool
is_flagged rates mnemonic =
    if contains control (base_of mnemonic)
    then false
    else if contains lsu (base_of mnemonic)
    then is_local (base_of mnemonic)
    else is_unrated rates mnemonic

abbrev flag : Bool → Text → List Text
flag b mnemonic = if b then mnemonic ∷ [] else []

-- The names of the flagged operations, and the sum of the counts.
unfoldable pub flagged : Rates → Census → List Text
flagged rates [] = []
flagged rates ((mnemonic, n) ∷ census) =
    if is_flagged rates mnemonic then mnemonic ∷ flagged rates census else flagged rates census

unfoldable pub total : Census → ℕ
total [] = 0
total ((mnemonic, n) ∷ census) = n + total census

shared_local :
    (base : Text)
    → (text_eq base (codes "LDS") || text_eq base (codes "STS")) ≡ true
    → is_local base ≡ false
unfolding is_local
shared_local base h = elim (or_true h) [
  | inl e ↦ ap is_local ((text_eq_iff base (codes "LDS")).0 e)
  | inr e ↦ ap is_local ((text_eq_iff base (codes "STS")).0 e)
]

flag-front :
    (b : Bool) (mnemonic : Text) (more : List Text)
    → flag b mnemonic ++ more ≡ (if b then mnemonic ∷ more else more)
flag-front true mnemonic more = refl
flag-front false mnemonic more = refl

-- The two flags of an operation of a pipe are one.
flags_join :
    (own : Option RateRow) (shape : Option Text) (shared : Option RateRow) (mnemonic : Text)
    → flag (is_shape_defaulted own shape shared) mnemonic
        ++ flag (absent (or_row own shared)) mnemonic
      ≡ flag (lacks_row own shape shared) mnemonic
unfolding is_shape_defaulted or_row absent lacks_row
flags_join (some o) shape shared mnemonic = refl
flags_join none none none mnemonic = refl
flags_join none none (some s) mnemonic = refl
flags_join none (some h) none mnemonic = refl
flags_join none (some h) (some s) mnemonic = refl

module _ {F : Type 0} ⦃fl : Float F⦄ where
  -- The demand has the operations of another, those of a list behind them, and as many instructions.
  record Adds (d : Demand F) (names : List Text) (more : Demand F) : Type 0 where
    pub names_added : more.defaulted ≡ d.defaulted ++ names
    pub insts_same : more.insts ≡ d.insts

  Adds-none :
      (d more : Demand F) → more.defaulted ≡ d.defaulted → more.insts ≡ d.insts → Adds d [] more
  Adds-none d more e i = record { names_added = e ∙ sym (append-nil d.defaulted); insts_same = i }

  flag_if-Adds :
      (b : Bool) (mnemonic : Text) (d : Demand F) → Adds d (flag b mnemonic) (flag_if b mnemonic d)
  flag_if-Adds true mnemonic d = record { names_added = refl; insts_same = refl }
  flag_if-Adds false mnemonic d = Adds-none d _ refl refl

  not_local :
      (base mnemonic : Text) (d more : Demand F)
      → is_local base ≡ false
      → Adds d [] more
      → Adds d (flag (is_local base) mnemonic) more
  not_local base mnemonic d more e a = subst (λ b. Adds d (flag b mnemonic) more) (sym e) a

  memory_op-Adds :
      (base mnemonic : Text) (n : ℕ) (d : Demand F)
      → Adds d (flag (is_local base) mnemonic) (memory_op base mnemonic n d)
  unfolding memory_op is_local
  memory_op-Adds base mnemonic n d =
      if-both (Adds d (flag (is_local base) mnemonic))
        (text_eq base (codes "LDS") || text_eq base (codes "STS"))
        (λ h. not_local base mnemonic d _ (shared_local base h) (Adds-none d _ refl refl))
        (λ _.
          if-both (Adds d (flag (is_local base) mnemonic)) (text_eq base (codes "LDSM"))
            (λ h.
              not_local base mnemonic d _ (ap is_local ((text_eq_iff base (codes "LDSM")).0 h))
                (Adds-none d _ refl refl))
            (λ _.
              if-both (Adds d (flag (is_local base) mnemonic))
                (text_eq base (codes "LDL") || text_eq base (codes "STL"))
                (λ h. rw h (flag_if-Adds true mnemonic d)) (λ h. rw h (Adds-none d _ refl refl))))

  Adds-trans :
      (d e f : Demand F) (names more : List Text)
      → Adds d names e
      → Adds e more f
      → Adds d (names ++ more) f
  Adds-trans d e f names more p q = record {
    names_added =
        q.names_added
        ∙ ap (λ (l : List Text). l ++ more) p.names_added
        ∙ append_assoc d.defaulted names more;
    insts_same = q.insts_same ∙ p.insts_same;
  }

  costed_op-Adds :
      (o : Option RateRow) (base mnemonic : Text) (n : ℕ) (d : Demand F)
      → Ensures (Adds d (flag (absent o) mnemonic)) (costed_op o base mnemonic n d)
  unfolding costed_op absent on_pipe
  costed_op-Adds (some r) base mnemonic n d =
      ensures _ _ _ (λ rate. Ensures-inr ProjectPanic _ _ (Adds-none d _ refl refl))
  costed_op-Adds none base mnemonic n d =
      Ensures-inr ProjectPanic _ _ (record { names_added = refl; insts_same = refl })

  pipe_op-Adds :
      (rates : Rates) (base mnemonic : Text) (n : ℕ) (d : Demand F)
      → Ensures
          (Adds d (
            flag
              (lacks_row
                (shape_measured rates base (tensor_shape base mnemonic))
                (tensor_shape base mnemonic)
                (base_measured rates base))
              mnemonic))
          (pipe_op rates base mnemonic n d)
  unfolding pipe_op
  pipe_op-Adds rates base mnemonic n d =
      let shape = tensor_shape base mnemonic in
      let own = shape_measured rates base shape in
      let shared = base_measured rates base in
      let b = is_shape_defaulted own shape shared in
      Ensures-map (Adds (flag_if b mnemonic d) (flag (absent (or_row own shared)) mnemonic)) _ _
        (λ out a.
          subst (λ names. Adds d names out) (flags_join own shape shared mnemonic)
            (Adds-trans d (flag_if b mnemonic d) out _ _ (flag_if-Adds b mnemonic d) a))
        (costed_op-Adds (or_row own shared) base mnemonic n (flag_if b mnemonic d))

  project_op-Adds :
      (rates : Rates) (mnemonic : Text) (n : ℕ) (d : Demand F)
      → Ensures
          (Adds
            (record d { insts = wrapping_add64 d.insts n })
            (flag (is_flagged rates mnemonic) mnemonic))
          (project_op rates mnemonic n d)
  unfolding project_op is_flagged is_unrated
  project_op-Adds rates mnemonic n d =
      let base = base_of mnemonic in
      let counted = record d { insts = wrapping_add64 d.insts n } in
      let P = λ (b : Bool) (r : Result ProjectPanic (Demand F)).
        Ensures (Adds counted (flag b mnemonic)) r in
      if-both2 P (contains control base)
        (λ _. Ensures-inr ProjectPanic _ _ (Adds-none counted counted refl refl))
        (λ _.
          if-both2 P (contains lsu base)
            (λ _. Ensures-inr ProjectPanic _ _ (memory_op-Adds base mnemonic n counted))
            (λ _. pipe_op-Adds rates base mnemonic n counted))

  -- The demand of a whole census, from another demand on.
  unfoldable pub Totals : Rates → Census → Demand F → Demand F → Type 0
  Totals rates census d out =
      (out.defaulted ≡ d.defaulted ++ flagged rates census)
      × (out.insts % 2 ^ 64 ≡ (d.insts + total census) % 2 ^ 64)

  pub project_ops-Totals :
      (rates : Rates) (census : Census) (d : Demand F)
      → Ensures (Totals rates census d) (project_ops rates census d)
  unfolding project_ops Totals flagged total
  project_ops-Totals rates [] d =
      Ensures-inr ProjectPanic _ _
        (sym (append-nil d.defaulted), ap (λ (k : ℕ). k % 2 ^ 64) (omega arith))
  project_ops-Totals rates ((mnemonic, n) ∷ census) d =
      Ensures-from
        (Adds (record d { insts = wrapping_add64 d.insts n })
          (flag (is_flagged rates mnemonic) mnemonic))
        _ _ _ (project_op-Adds rates mnemonic n d)
        (λ more a.
          Ensures-map (Totals rates census more) _ _
            (λ out (names, insts). (
              names
                  ∙ ap (λ (l : List Text). l ++ flagged rates census) a.names_added
                  ∙ append_assoc d.defaulted (flag (is_flagged rates mnemonic) mnemonic)
                      (flagged rates census)
                  ∙ ap (λ (l : List Text). d.defaulted ++ l)
                      (flag-front (is_flagged rates mnemonic) mnemonic (flagged rates census)),
              omega (arith, insts, a.insts_same),
            ))
            (project_ops-Totals rates census more))
