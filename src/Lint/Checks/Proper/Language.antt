-- ===== src/Lint/Checks/Proper/Language.antt =====
-- .linters/cpp/cpplint.py: the reports of the checks of tokens and language features.
use nebula_chaos.Prelude.{
  subst, get_or, ◌≡◌, ℕ, Bool, true, false, if◌then◌else◌, Option, none, some, List, [], ◌∷◌, Text,
  String,
}
use nebula_chaos.Lint.Cleansed.{CleansedLines}
use nebula_chaos.Lint.Checks.Language.{
  check_alt_tokens, report_tokens, check_make_pair_uses_deduction, check_fragment,
  check_redundant_override_or_final, check_item_indentation_in_namespace,
}
use nebula_chaos.Lint.Checks.Features.{
  flag_headers, flag_name, flag_cxx11_features, flag_cxx14_features,
}
use nebula_chaos.Lint.Checks.Macros.{
  CheckMacro, check_operands, operands_parsed, macro_closed, macro_ended, macro_found,
  find_check_macro, check_macros, check_check,
}
use nebula_chaos.Lint.Checks.Operands.{ExpressionTurn, goes, ends, returns}
use nebula_chaos.Lint.State.{Failure}
use nebula_chaos.Lint.Regex.{Position}
use nebula_chaos.Lint.Nesting.{Block, NestingState}
use nebula_chaos.Lint.Checks.Braces.{
  check_initializer, brace_found, check_semicolons, followed_by, check_braces_spacing,
}
use nebula_chaos.Lint.Brackets.{Closing, found, not_found, close_expression}
use nebula_chaos.Lint.Checks.Proper.{IsProper, nil-IsProper, append-IsProper, reports_of}
use nebula_chaos.Lint.Checks.Proper.Lines.{proper}

module _ (linenum : ℕ) where
  report_tokens-IsProper : (tokens : List Text) → IsProper linenum (report_tokens linenum tokens)
  unfolding report_tokens
  report_tokens-IsProper [] = nil-IsProper linenum
  report_tokens-IsProper (token ∷ tokens) = search (proper, report_tokens-IsProper tokens)

  flag_headers-IsProper : (line : Text) → IsProper linenum (flag_headers line linenum)
  unfolding flag_headers
  flag_headers-IsProper line = search proper

  flag_name-IsProper :
      (name : String) (line : Text) → IsProper linenum (flag_name name line linenum)
  unfolding flag_name
  flag_name-IsProper name line = search proper

  check_fragment-IsProper : (o : Option Text) → IsProper linenum (check_fragment o linenum)
  check_fragment-IsProper none = nil-IsProper linenum
  check_fragment-IsProper (some fragment) = search proper

  check_operands-IsProper :
      (m : CheckMacro) (turn : ExpressionTurn) → IsProper linenum (check_operands m linenum turn)
  unfolding check_operands
  check_operands-IsProper m (goes lhs expression) = nil-IsProper linenum
  check_operands-IsProper m returns = nil-IsProper linenum
  check_operands-IsProper m (ends lhs operator rhs) = search proper

  operands_parsed-IsProper :
      (m : CheckMacro) (b : Bool) (o : Option ExpressionTurn)
      → IsProper linenum (reports_of (if b then operands_parsed m linenum o else some []))
  operands_parsed-IsProper m false o = nil-IsProper linenum
  operands_parsed-IsProper m true none = nil-IsProper linenum
  operands_parsed-IsProper m true (some turn) = check_operands-IsProper m turn

  macro_closed-IsProper :
      (lines : List Text) (m : CheckMacro) (start_pos : ℕ) (closing : Option Closing)
      → IsProper linenum (reports_of (macro_ended lines linenum m start_pos closing))
  unfolding macro_closed
  macro_closed-IsProper lines m start_pos none = nil-IsProper linenum
  macro_closed-IsProper lines m start_pos (some (not_found line)) = nil-IsProper linenum
  macro_closed-IsProper lines m start_pos (some (found line n pos)) =
      search operands_parsed-IsProper

  macro_found-IsProper :
      (lines : List Text) (o : Option (CheckMacro × ℕ))
      → IsProper linenum (reports_of (macro_found lines linenum o))
  macro_found-IsProper lines none = nil-IsProper linenum
  macro_found-IsProper lines (some (m, start_pos)) =
      macro_closed-IsProper lines m start_pos (close_expression lines linenum start_pos)

  check_initializer-IsProper :
      (lines : CleansedLines) (stack : List Block) (t : Text) (closing : Option Closing)
      → IsProper linenum (reports_of (check_initializer lines linenum stack t closing))
  unfolding check_initializer
  check_initializer-IsProper lines stack t none = nil-IsProper linenum
  check_initializer-IsProper lines stack t (some closing) = search proper

  brace_found-IsProper :
      (lines : CleansedLines) (stack : List Block) (o : Option Position)
      → IsProper linenum (reports_of (brace_found lines linenum stack o))
  brace_found-IsProper lines stack none = nil-IsProper linenum
  brace_found-IsProper lines stack (some p) = check_initializer-IsProper lines stack _ _

  check_semicolons-IsProper : (line : Text) → IsProper linenum (check_semicolons line linenum)
  unfolding check_semicolons
  check_semicolons-IsProper line = search proper

  followed_by-IsProper :
      (o : Option (List Failure)) (later : List Failure)
      → IsProper linenum (reports_of o)
      → IsProper linenum later
      → IsProper linenum (reports_of (followed_by o later))
  followed_by-IsProper none later p q = nil-IsProper linenum
  followed_by-IsProper (some before) later p q = append-IsProper linenum before later p q

check_check-IsProper :
    (lines : CleansedLines) (linenum : ℕ)
    → IsProper linenum (reports_of (check_check lines linenum))
unfolding check_check
check_check-IsProper lines linenum =
    macro_found-IsProper linenum (lines.elided)
      (find_check_macro check_macros (get_or (lines.elided) linenum []))

check_braces_spacing-IsProper :
    (lines : CleansedLines) (linenum : ℕ) (state : NestingState)
    → IsProper linenum (reports_of (check_braces_spacing lines linenum state))
unfolding check_braces_spacing
check_braces_spacing-IsProper lines linenum state =
    search (proper, followed_by-IsProper, brace_found-IsProper, check_semicolons-IsProper)

-- Every report of the checks of alternative tokens, C++11 and C++14 features, make_pair, override and
-- the indentation in namespaces, and of the checks of CHECK macros and the spaces around braces where
-- these two end without an IndexError, is about the line that is checked, has one of the categories of
-- _ERROR_CATEGORIES, and a confidence of 5 at most.
pub language_checks-IsProper :
    (lines : CleansedLines) (linenum : ℕ) (elided : List Text) (state : NestingState)
    (macros braces : List Failure)
    → check_check lines linenum ≡ some macros
    → check_braces_spacing lines linenum state ≡ some braces
    → IsProper linenum (check_alt_tokens lines linenum)
      × IsProper linenum (check_make_pair_uses_deduction lines linenum)
      × IsProper linenum (flag_cxx11_features lines linenum)
      × IsProper linenum (flag_cxx14_features lines linenum)
      × IsProper linenum (check_redundant_override_or_final lines linenum)
      × IsProper linenum (check_item_indentation_in_namespace elided linenum)
      × IsProper linenum macros
      × IsProper linenum braces
unfolding check_alt_tokens check_make_pair_uses_deduction flag_cxx11_features flag_cxx14_features
    check_redundant_override_or_final check_item_indentation_in_namespace
language_checks-IsProper lines linenum elided state macros braces e f = (
  search (proper, report_tokens-IsProper),
  search proper,
  search (proper, flag_headers-IsProper, flag_name-IsProper),
  search proper,
  search check_fragment-IsProper,
  search proper,
  subst (λ o. IsProper linenum (reports_of o)) e (check_check-IsProper lines linenum),
  subst (λ o. IsProper linenum (reports_of o)) f
      (check_braces_spacing-IsProper lines linenum state),
)
