-- ===== src/Lint/Checks/Proper/Raising.antt =====
-- .linters/cpp/cpplint.py: the reports of the checks that may raise an IndexError.
use nebula_chaos.Prelude.{ℕ, Bool, true, false, Option, none, some, List, [], if◌then◌else◌, Text}
use nebula_chaos.Lint.Regex.{Position}
use nebula_chaos.Lint.Cleansed.{CleansedLines}
use nebula_chaos.Lint.State.{Failure}
use nebula_chaos.Lint.Brackets.{Closing, found, not_found}
use nebula_chaos.Lint.Nesting.{NestingState, ClassInfo}
use nebula_chaos.Lint.Checks.Explicit.{
  check_arguments, check_given, check_match, check_constructor, check_class, add_failures,
  check_for_non_standard_constructs,
}
use nebula_chaos.Lint.Checks.Operators.{
  unless_found, less_found, greater_found, both, comparison_found, shift_found, unary_found, around,
  check_assignment, check_angles, check_comparisons, check_shifts, check_operator_spacing,
}
use nebula_chaos.Lint.Checks.Proper.{IsProper, append-IsProper, nil-IsProper, reports_of}
use nebula_chaos.Lint.Checks.Proper.Lines.{
  proper, check_format_strings-IsProper, check_declarations-IsProper,
}

module _ (linenum : ℕ) where
  check_arguments-IsProper :
      (name : Text) (b : Bool) (args : List Text)
      → IsProper linenum (check_arguments name b args linenum)
  unfolding check_arguments
  check_arguments-IsProper name b args = search proper

  check_given-IsProper :
      (name : Text) (b : Bool) (o : Option (List Text))
      → IsProper linenum (reports_of (check_given name b o linenum))
  check_given-IsProper name b none = nil-IsProper linenum
  check_given-IsProper name b (some args) = check_arguments-IsProper name b args

  check_match-IsProper :
      (name : Text) (o : Option Position)
      → IsProper linenum (reports_of (check_match name o linenum))
  check_match-IsProper name none = nil-IsProper linenum
  check_match-IsProper name (some p) = search check_given-IsProper

  check_class-IsProper :
      (o : Option ClassInfo) (line : Text)
      → IsProper linenum (reports_of (check_class o line linenum))
  unfolding check_constructor
  check_class-IsProper none line = nil-IsProper linenum
  check_class-IsProper (some c) line = search check_match-IsProper

  add_failures-IsProper :
      (before : List Failure) (o : Option (List Failure))
      → IsProper linenum before
      → IsProper linenum (reports_of o)
      → IsProper linenum (reports_of (add_failures before o))
  add_failures-IsProper before none p q = nil-IsProper linenum
  add_failures-IsProper before (some more) p q = append-IsProper linenum before more p q

  both-IsProper :
      (a b : Option (List Failure))
      → IsProper linenum (reports_of a)
      → IsProper linenum (reports_of b)
      → IsProper linenum (reports_of (both a b))
  both-IsProper none b p q = nil-IsProper linenum
  both-IsProper (some xs) none p q = nil-IsProper linenum
  both-IsProper (some xs) (some ys) p q = append-IsProper linenum xs ys p q

  around-IsProper :
      (xs : List Failure) (o : Option (List Failure)) (ys : List Failure)
      → IsProper linenum xs
      → IsProper linenum (reports_of o)
      → IsProper linenum ys
      → IsProper linenum (reports_of (around xs o ys))
  around-IsProper xs none ys p q r = nil-IsProper linenum
  around-IsProper xs (some zs) ys p q r = search proper

  unless_found-IsProper :
      (o : Option Closing) (xs : List Failure)
      → IsProper linenum xs
      → IsProper linenum (reports_of (unless_found o xs))
  unless_found-IsProper none xs p = nil-IsProper linenum
  unless_found-IsProper (some (not_found line)) xs p = p
  unless_found-IsProper (some (found line n pos)) xs p = nil-IsProper linenum

  less_found-IsProper :
      (elided : List Text) (o : Option Position)
      → IsProper linenum (reports_of (less_found elided linenum o))
  less_found-IsProper elided none = nil-IsProper linenum
  less_found-IsProper elided (some p) = search (proper, unless_found-IsProper)

  greater_found-IsProper :
      (elided : List Text) (o : Option Position)
      → IsProper linenum (reports_of (greater_found elided linenum o))
  greater_found-IsProper elided none = nil-IsProper linenum
  greater_found-IsProper elided (some p) = search (proper, unless_found-IsProper)

  check_angles-IsProper :
      (elided : List Text) (line : Text)
      → IsProper linenum (reports_of (check_angles elided line linenum))
  unfolding check_angles
  check_angles-IsProper elided line =
      search (both-IsProper, less_found-IsProper, greater_found-IsProper)

  comparison_found-IsProper :
      (elided : List Text) (line : Text) (o : Option Position)
      → IsProper linenum (reports_of (comparison_found elided line linenum o))
  comparison_found-IsProper elided line (some p) = search proper
  comparison_found-IsProper elided line none = search include_or
    where
      include_or :
          (b : Bool)
          → IsProper linenum (reports_of (if b then some [] else check_angles elided line linenum))
      include_or true = nil-IsProper linenum
      include_or false = check_angles-IsProper elided line

  shift_found-IsProper : (o : Option Position) → IsProper linenum (shift_found o linenum)
  shift_found-IsProper none = nil-IsProper linenum
  shift_found-IsProper (some p) = search proper

  unary_found-IsProper : (o : Option Position) → IsProper linenum (unary_found o linenum)
  unary_found-IsProper none = nil-IsProper linenum
  unary_found-IsProper (some p) = search proper

  check_shifts-IsProper : (line : Text) → IsProper linenum (check_shifts line linenum)
  unfolding check_shifts
  check_shifts-IsProper line = search (proper, shift_found-IsProper, unary_found-IsProper)

  check_assignment-IsProper : (line : Text) → IsProper linenum (check_assignment line linenum)
  unfolding check_assignment
  check_assignment-IsProper line = search proper

-- Every report of CheckForNonStandardConstructs and of CheckOperatorSpacing is about the line that is
-- checked, has one of the categories of _ERROR_CATEGORIES, and a confidence of 5 at most, where no
-- IndexError is raised.
pub raising_checks-IsProper :
    (lines : CleansedLines) (linenum : ℕ) (state : NestingState)
    → IsProper linenum (reports_of (check_for_non_standard_constructs lines linenum state))
      × IsProper linenum (reports_of (check_operator_spacing lines linenum))
unfolding check_for_non_standard_constructs check_operator_spacing check_comparisons
raising_checks-IsProper lines linenum state = (
  search (
    proper, add_failures-IsProper, check_format_strings-IsProper, check_declarations-IsProper,
    check_class-IsProper,
  ),
  search (
    around-IsProper, check_assignment-IsProper, comparison_found-IsProper, check_shifts-IsProper,
  ),
)
