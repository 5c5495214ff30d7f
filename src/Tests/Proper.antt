-- ===== src/Tests/Proper.antt =====
-- .linters/cpp/cpplint.py: the reports of the checks of lines, on one line.
use nebula_chaos.Prelude.{Text, List, true, false, ◌≡◌, refl, some, false, [], ◌∷◌, codes}
use nebula_chaos.Lint.Cleansed.{CleansedLines}
use nebula_chaos.Lint.Nesting.{NestingState, ClassInfo}
use nebula_chaos.Lint.Checks.Constructs.{
  check_posix_threading, check_vlog_arguments, check_invalid_increment,
  check_for_multiline_comments_and_strings,
}
use nebula_chaos.Lint.Checks.Explicit.{check_for_non_standard_constructs}
use nebula_chaos.Lint.Checks.Operators.{check_operator_spacing}
use nebula_chaos.Lint.Checks.Calls.{check_spacing_for_function_call}
use nebula_chaos.Lint.Checks.Spacing.{check_spacing}
use nebula_chaos.Lint.Checks.Punctuation.{
  check_parenthesis_spacing, check_comma_spacing, check_section_spacing,
}
use nebula_chaos.Lint.Regex.{search_split, group_of}
use nebula_chaos.Lint.Checks.Spacing.{is_blank_line}
use nebula_chaos.Lint.Checks.Language.{
  check_alt_tokens, check_make_pair_uses_deduction, check_redundant_override_or_final,
  check_item_indentation_in_namespace, find_tokens, get_previous_non_blank_line,
}
use nebula_chaos.Lint.Checks.Features.{flag_cxx11_features, flag_cxx14_features}
use nebula_chaos.Lint.State.{Failure}
use nebula_chaos.Lint.Checks.{report}
use nebula_chaos.Lint.Brackets.{end_turn}
use nebula_chaos.Lint.Checks.Braces.{check_braces_spacing, is_type, is_type_in}
use nebula_chaos.Lint.Checks.Macros.{check_check}
use nebula_chaos.Lint.Checks.Operands.{expression_turn, parse_operands, ends}
use nebula_chaos.Lint.Checks.Proper.Language.{language_checks-IsProper}
use nebula_chaos.Lint.Checks.Proper.{IsProper, reports_of}
use nebula_chaos.Lint.Checks.Proper.Lines.{line_checks-IsProper}
use nebula_chaos.Lint.Checks.Proper.Raising.{raising_checks-IsProper}

abbrev lines : CleansedLines
lines = record {
  elided = codes "// marker" ∷ codes "int a=rand( );" ∷ [];
  lines = codes "// marker" ∷ codes "int a=rand( );" ∷ [];
  raw_lines = codes "// marker" ∷ codes "int a=rand( );//x" ∷ [];
  num_lines = 2;
  lines_without_raw_strings = codes "// marker" ∷ codes "int a=rand( );//x" ∷ [];
}

abbrev state : NestingState
state = record { stack = []; pp_stack = [] }

abbrev class_a : ClassInfo
class_a = record {
  name = codes "A";
  is_derived = false;
  access = codes "private";
  is_struct = false;
  class_indent = 0;
  last_line = 40;
}

line_checks-IsProper_example :
    IsProper 1 (check_for_multiline_comments_and_strings lines 1)
    × IsProper 1 (check_vlog_arguments lines 1)
    × IsProper 1 (check_posix_threading lines 1)
    × IsProper 1 (check_invalid_increment lines 1)
    × IsProper 1 (check_spacing lines 1 state)
    × IsProper 1 (check_spacing_for_function_call lines 1)
    × IsProper 1 (check_parenthesis_spacing lines 1)
    × IsProper 1 (check_comma_spacing lines 1)
    × IsProper 1 (check_section_spacing lines class_a 0 1)
line_checks-IsProper_example = line_checks-IsProper lines 1 state class_a 0

raising_checks-IsProper_example :
    IsProper 1 (reports_of (check_for_non_standard_constructs lines 1 state))
    × IsProper 1 (reports_of (check_operator_spacing lines 1))
raising_checks-IsProper_example = raising_checks-IsProper lines 1 state

abbrev macro_line : Text
macro_line = codes "CHECK(x == 42) ;"

abbrev macro_lines : CleansedLines
macro_lines = record {
  elided = codes "// marker" ∷ macro_line ∷ [];
  lines = codes "// marker" ∷ macro_line ∷ [];
  raw_lines = codes "// marker" ∷ macro_line ∷ [];
  num_lines = 2;
  lines_without_raw_strings = codes "// marker" ∷ macro_line ∷ [];
}

abbrev macro_reports : List Failure
macro_reports =
    report 1 "readability/check" 2 (codes "Consider using CHECK_EQ instead of CHECK(a == b)")

abbrev brace_reports : List Failure
brace_reports = report 1 "whitespace/semicolon" 5 (
    codes
      "Extra space before last semicolon. If this should be an empty statement, use {} instead.")

macro_reported : check_check macro_lines 1 ≡ some macro_reports
unfolding check_check expression_turn end_turn parse_operands
macro_reported = refl

brace_reported : check_braces_spacing macro_lines 1 state ≡ some brace_reports
unfolding check_braces_spacing
brace_reported = refl

language_checks-IsProper_example :
    IsProper 1 (check_alt_tokens macro_lines 1)
    × IsProper 1 (check_make_pair_uses_deduction macro_lines 1)
    × IsProper 1 (flag_cxx11_features macro_lines 1)
    × IsProper 1 (flag_cxx14_features macro_lines 1)
    × IsProper 1 (check_redundant_override_or_final macro_lines 1)
    × IsProper 1 (check_item_indentation_in_namespace (macro_lines.elided) 1)
    × IsProper 1 macro_reports
    × IsProper 1 brace_reports
language_checks-IsProper_example =
    language_checks-IsProper macro_lines 1 (macro_lines.elided) state macro_reports brace_reports
      macro_reported brace_reported

tokens_found : find_tokens 20 (codes "if (not a and b)") ≡ codes "not" ∷ codes "and" ∷ []
unfolding find_tokens search_split group_of
tokens_found = refl

line_found :
    get_previous_non_blank_line (codes "a;" ∷ codes " " ∷ codes "b;" ∷ []) 2 ≡ (codes "a;", some 0)
unfolding get_previous_non_blank_line is_blank_line
line_found = refl

operands_parsed :
    parse_operands 20 [] (codes "f(a, b) << 2 >= 3")
    ≡ some (ends (codes "f(a, b)<< 2 ") (codes ">=") (codes " 3"))
unfolding parse_operands expression_turn end_turn
operands_parsed = refl

type_found : is_type (lines.elided) [] (codes "x = uint64_t") ≡ true
unfolding is_type is_type_in
type_found = refl

no_type : is_type (lines.elided) [] (codes "if (x)") ≡ false
unfolding is_type is_type_in
no_type = refl
