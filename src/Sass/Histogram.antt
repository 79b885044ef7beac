-- ===== src/Sass/Histogram.antt =====
-- `census_csv` of src/nvidia/sass.rs: the histogram of each kernel as CSV. Sorting is stable.
use calx_mill.Base.{ℕ, List, [], ◌∷◌, ◌++◌, leb, wrapping_add64}
use calx_mill.Base.Text.{Text, codes}
use calx_mill.Base.Float.{Float}
use calx_mill.Base.Decimal.{FloatText, show_ℕ}
use calx_mill.Base.Sort.{sort_by, text_leb}
use calx_mill.Projection.Census.{Census}

unfoldable pub by_kernel : List (Text × Census) → List (Text × Census)
by_kernel = sort_by (λ a b. text_leb a.0 b.0)

unfoldable pub by_count : Census → Census
by_count = sort_by (λ a b. leb b.1 a.1)

unfoldable pub counted : Census → ℕ
counted [] = 0
counted ((op, n) ∷ items) = wrapping_add64 n (counted items)

module _ (F : Type 0) ⦃fl : Float F⦄ ⦃ft : FloatText F⦄ where
  unfoldable pub item_line : Text → ℕ → Text × ℕ → Text
  item_line kernel total (op, n) =
      kernel
      ++ codes ","
      ++ op
      ++ codes ","
      ++ show_ℕ n
      ++ codes ","
      ++ ft.fixed 2 (fl.div (fl.mul fl.hundred (fl.of_ℕ n)) (fl.of_ℕ total))
      ++ codes "\n"

  unfoldable pub item_lines : Text → ℕ → Census → Text
  item_lines kernel total [] = []
  item_lines kernel total (item ∷ items) =
      item_line kernel total item ++ item_lines kernel total items

  unfoldable pub kernel_lines : List (Text × Census) → Text
  kernel_lines [] = []
  kernel_lines ((kernel, census) ∷ counts) =
      item_lines kernel (counted census) (by_count census) ++ kernel_lines counts

  unfoldable pub census_csv : List (Text × Census) → Text
  census_csv counts = codes "kernel,op,count,share_pct\n" ++ kernel_lines (by_kernel counts)
