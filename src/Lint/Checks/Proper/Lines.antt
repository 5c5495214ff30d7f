-- ===== src/Lint/Checks/Proper/Lines.antt =====
-- .linters/cpp/cpplint.py: the reports of the checks of one line.
use nebula_chaos.Prelude.{
  ℕ, refl, Bool, true, false, Option, none, some, List, [], ◌∷◌, if◌then◌else◌, Text, codes,
  find_text,
}
use nebula_chaos.Lint.Regex.{Position}
use nebula_chaos.Lint.Cleansed.{CleansedLines}
use nebula_chaos.Lint.Nesting.{NestingState, ClassInfo}
use nebula_chaos.Lint.Checks.{report}
use nebula_chaos.Lint.Checks.Constructs.{
  UnsafeCall, check_calls, check_posix_threading, check_vlog_arguments, check_invalid_increment,
  check_for_multiline_comments_and_strings, check_format_strings, check_declarations,
}
use nebula_chaos.Lint.Checks.Calls.{
  check_behind_opening, check_before_opening, check_before_closing, check_spacing_for_function_call,
}
use nebula_chaos.Lint.Checks.Remarks.{
  check_comment, check_comment_at, check_todo, check_todo_match, check_found,
}
use nebula_chaos.Lint.Checks.Spacing.{
  check_spacing, check_blank_line, check_blank_start, check_blank_end, check_brackets,
  section_found,
}
use nebula_chaos.Lint.Checks.Punctuation.{
  check_parenthesis_spacing, check_comma_spacing, check_section_spacing, no_space_found,
  condition_found,
}
use nebula_chaos.Lint.Checks.Punctuation
use nebula_chaos.Lint.Checks.Proper.{
  IsProper, report-IsProper, append-IsProper, report_if-IsProper, if-IsProper, nil-IsProper,
}

pub ruleset proper =
    (report-IsProper, append-IsProper, report_if-IsProper, if-IsProper, nil-IsProper, refl)

module _ (linenum : ℕ) where
  pub check_format_strings-IsProper :
      (line : Text) → IsProper linenum (check_format_strings line linenum)
  unfolding check_format_strings
  check_format_strings-IsProper line = search proper

  pub check_declarations-IsProper :
      (line : Text) → IsProper linenum (check_declarations line linenum)
  unfolding check_declarations
  check_declarations-IsProper line = search proper depth 12

  check_calls-IsProper :
      (calls : List UnsafeCall) (line : Text) → IsProper linenum (check_calls calls line linenum)
  unfolding check_calls
  check_calls-IsProper [] line = nil-IsProper linenum
  check_calls-IsProper (call ∷ calls) line = search (proper, check_calls-IsProper calls line)

  check_behind_opening-IsProper :
      (fncall : Text) → IsProper linenum (check_behind_opening fncall linenum)
  unfolding check_behind_opening
  check_behind_opening-IsProper fncall = search proper

  check_before_closing-IsProper :
      (fncall : Text) → IsProper linenum (check_before_closing fncall linenum)
  unfolding check_before_closing
  check_before_closing-IsProper fncall = search proper

  operator-IsProper :
      (b : Bool) (message : Text)
      → IsProper linenum (report linenum "whitespace/parens" (if b then 0 else 4) message)
  operator-IsProper true message = search proper
  operator-IsProper false message = search proper

  check_before_opening-IsProper :
      (line fncall : Text) → IsProper linenum (check_before_opening line fncall linenum)
  unfolding check_before_opening
  check_before_opening-IsProper line fncall = report_if-IsProper linenum _ _ (operator-IsProper _ _)

  check_todo_match-IsProper : (o : Option Position) → IsProper linenum (check_todo_match o linenum)
  check_todo_match-IsProper none = nil-IsProper linenum
  check_todo_match-IsProper (some p) = search proper

  check_comment_at-IsProper :
      (line : Text) (pos next : ℕ) → IsProper linenum (check_comment_at line pos linenum next)
  unfolding check_comment_at check_todo
  check_comment_at-IsProper line pos next = search (proper, check_todo_match-IsProper)

  check_comment-IsProper :
      (line : Text) (next : ℕ) → IsProper linenum (check_comment line linenum next)
  unfolding check_comment
  check_comment-IsProper line next = found (find_text (codes "//") line)
    where
      found : (o : Option ℕ) → IsProper linenum (check_found line o linenum next)
      found none = nil-IsProper linenum
      found (some pos) = report_if-IsProper linenum _ _ (check_comment_at-IsProper line pos next)

  section_found-IsProper : (o : Option Position) → IsProper linenum (section_found o linenum)
  section_found-IsProper none = nil-IsProper linenum
  section_found-IsProper (some p) = search proper

  check_blank_start-IsProper :
      (elided : List Text) (prev : Text) → IsProper linenum (check_blank_start elided linenum prev)
  unfolding check_blank_start
  check_blank_start-IsProper elided prev = search proper

  check_blank_end-IsProper :
      (n : ℕ) (raw : List Text) → IsProper linenum (check_blank_end n raw linenum)
  unfolding check_blank_end
  check_blank_end-IsProper n raw = search proper

  check_blank_line-IsProper :
      (lines : CleansedLines) → IsProper linenum (check_blank_line lines linenum)
  unfolding check_blank_line
  check_blank_line-IsProper lines =
      search (proper, check_blank_start-IsProper, check_blank_end-IsProper, section_found-IsProper)

  check_brackets-IsProper : (line : Text) → IsProper linenum (check_brackets line linenum)
  unfolding check_brackets
  check_brackets-IsProper line = search proper

  no_space_found-IsProper : (o : Option Position) → IsProper linenum (no_space_found o linenum)
  no_space_found-IsProper none = nil-IsProper linenum
  no_space_found-IsProper (some p) = search proper

  condition_found-IsProper :
      (line : Text) (o : Option Position) → IsProper linenum (condition_found line o linenum)
  condition_found-IsProper line none = nil-IsProper linenum
  condition_found-IsProper line (some p) = search proper

  class_section-IsProper :
      (lines : CleansedLines) (starting : ℕ) (o : Option Position)
      → IsProper linenum (Punctuation.section_found lines starting linenum o)
  class_section-IsProper lines starting none = nil-IsProper linenum
  class_section-IsProper lines starting (some p) =
      report_if-IsProper linenum _ _ (report-IsProper linenum "whitespace/blank_line" 3 _ refl refl)

-- Every report of these checks is about the line that is checked, has one of the categories of
-- _ERROR_CATEGORIES, and a confidence of 5 at most.
pub line_checks-IsProper :
    (lines : CleansedLines) (linenum : ℕ) (state : NestingState) (c : ClassInfo) (starting : ℕ)
    → IsProper linenum (check_for_multiline_comments_and_strings lines linenum)
      × IsProper linenum (check_vlog_arguments lines linenum)
      × IsProper linenum (check_posix_threading lines linenum)
      × IsProper linenum (check_invalid_increment lines linenum)
      × IsProper linenum (check_spacing lines linenum state)
      × IsProper linenum (check_spacing_for_function_call lines linenum)
      × IsProper linenum (check_parenthesis_spacing lines linenum)
      × IsProper linenum (check_comma_spacing lines linenum)
      × IsProper linenum (check_section_spacing lines c starting linenum)
unfolding check_for_multiline_comments_and_strings check_vlog_arguments check_posix_threading
    check_invalid_increment check_spacing check_spacing_for_function_call check_parenthesis_spacing
    check_comma_spacing check_section_spacing
line_checks-IsProper lines linenum state c starting = (
  search proper,
  search proper,
  search (proper, check_calls-IsProper),
  search proper,
  search (proper, check_blank_line-IsProper, check_comment-IsProper, check_brackets-IsProper),
  search (
    proper, check_behind_opening-IsProper, check_before_opening-IsProper,
    check_before_closing-IsProper,
  ),
  search (proper, no_space_found-IsProper, condition_found-IsProper),
  search proper,
  search (proper, class_section-IsProper),
)
