-- ===== src/Lint/Checks/Proper.antt =====
-- .linters/cpp/cpplint.py: what every report of a check has in common, and how checks are put together.
pub mod Lines
pub mod Raising
pub mod Language
use nebula_chaos.Prelude.{
  ℕ, ◌≡◌, refl, Bool, true, false, ◌&&◌, ◌==◌, Option, none, some, List, [], ◌∷◌, ◌++◌, arith, leb,
  if◌then◌else◌, any, all, String, Text, codes, text_eq, ==_self,
}
use nebula_chaos.Lint.State.{Failure}
use nebula_chaos.Lint.State.Nolint.{error_categories}
use nebula_chaos.Lint.Checks.{report, report_if}

-- The report is about the line, of a category that a filter can name, and of a confidence of 5 at most.
abbrev pub is_proper : ℕ → Failure → Bool
is_proper linenum f =
    (f.linenum == linenum) && (any (text_eq f.category) error_categories && leb f.confidence 5)

unfoldable pub IsProper : ℕ → List Failure → Type 0
IsProper linenum failures = all (is_proper linenum) failures ≡ true

module _ (linenum : ℕ) where
  pub nil-IsProper : IsProper linenum []
  unfolding IsProper
  nil-IsProper = refl

  pub report-IsProper :
      (category : String) (confidence : ℕ) (message : Text)
      → any (text_eq (codes category)) error_categories ≡ true
      → leb confidence 5 ≡ true
      → IsProper linenum (report linenum category confidence message)
  unfolding IsProper
  report-IsProper category confidence message c k = ground (arith, ==_self linenum)

  pub append-IsProper :
      (xs ys : List Failure)
      → IsProper linenum xs
      → IsProper linenum ys
      → IsProper linenum (xs ++ ys)
  unfolding IsProper
  append-IsProper [] ys p q = q
  append-IsProper (x ∷ xs) ys p q = ground (arith, append-IsProper xs ys)

  pub report_if-IsProper :
      (condition : Bool) (failures : List Failure)
      → IsProper linenum failures
      → IsProper linenum (report_if condition failures)
  unfolding IsProper
  report_if-IsProper true failures p = p
  report_if-IsProper false failures p = refl

  pub if-IsProper :
      (condition : Bool) (xs ys : List Failure)
      → IsProper linenum xs
      → IsProper linenum ys
      → IsProper linenum (if condition then xs else ys)
  unfolding IsProper
  if-IsProper true xs ys p q = p
  if-IsProper false xs ys p q = q

-- The reports of a check that may raise an IndexError, which reports nothing.
abbrev pub reports_of : Option (List Failure) → List Failure
reports_of none = []
reports_of (some failures) = failures
