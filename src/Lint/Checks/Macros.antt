-- ===== src/Lint/Checks/Macros.antt =====
-- .linters/cpp/cpplint.py: FindCheckMacro and CheckCheck.
pub mod Ends
use nebula_chaos.Prelude.{
  ℕ, suc, ◌+◌, ◌-◌, ◌<◌, ◌==◌, Bool, true, false, ◌&&◌, ◌||◌, not, Option, none, some, List, [],
  ◌∷◌, ◌++◌, if◌then◌else◌, is_nil, length, take, drop, get_or, String, Text, codes, text_eq,
  is_found, find_text, strip,
}
use nebula_chaos.Lint.Regex.{
  Pattern, Position, seq, alt, many, text, group, boundary, line_end, is_digit, one, all_of, one_of,
  any_char, optional, some_of, matches, match_re, group_of,
}
use nebula_chaos.Lint.Cleansed.{CleansedLines}
use nebula_chaos.Lint.State.{Failure}
use nebula_chaos.Lint.Brackets.{Closing, found, not_found, close_expression}
use nebula_chaos.Lint.Checks.Operands.{ExpressionTurn, goes, ends, returns, parse_operands}
use nebula_chaos.Lint.Checks.{report, report_if, lit, spaces}

-- A macro with what its replacements begin with, and whether they test the opposite.
pub record CheckMacro : Type 0 where
  pub name : Text
  pub prefix : Text
  pub is_inverse : Bool

abbrev check_macro : String → String → Bool → CheckMacro
check_macro name prefix is_inverse = record {
  name = codes name;
  prefix = codes prefix;
  is_inverse = is_inverse;
}

-- _CHECK_MACROS
abbrev pub check_macros : List CheckMacro
check_macros =
    check_macro "DCHECK" "DCHECK_" false
    ∷ check_macro "CHECK" "CHECK_" false
    ∷ check_macro "EXPECT_TRUE" "EXPECT_" false
    ∷ check_macro "ASSERT_TRUE" "ASSERT_" false
    ∷ check_macro "EXPECT_FALSE" "EXPECT_" true
    ∷ check_macro "ASSERT_FALSE" "ASSERT_" true
    ∷ []

-- Operators with the ends of their replacements, and of those of the opposite tests.
abbrev pub replacements : List (String × String × String)
replacements =
    ("==", "EQ", "NE")
    ∷ ("!=", "NE", "EQ")
    ∷ (">=", "GE", "LT")
    ∷ (">", "GT", "LE")
    ∷ ("<=", "LE", "GT")
    ∷ ("<", "LT", "GE")
    ∷ []

-- _CHECK_REPLACEMENT[check_macro][operator]
abbrev pub check_replacement : CheckMacro → Text → Text
check_replacement m operator = m.prefix ++ end_of replacements
  where
    end_of : List (String × String × String) → Text
    end_of [] = []
    end_of ((op, replacement, inv_replacement) ∷ more) =
        if text_eq operator (codes op)
        then codes (if m.is_inverse then inv_replacement else replacement)
        else end_of more

abbrev group_text : ℕ → Position → Text
group_text n p = elim (group_of p n) [ none ↦ [] | some t ↦ t ]

abbrev macro_pattern : CheckMacro → Pattern
macro_pattern m =
    seq (group 1 (all_of (many any_char ∷ boundary ∷ text m.name ∷ spaces ∷ []))) (lit "(")

-- FindCheckMacro
unfoldable pub find_check_macro : List CheckMacro → Text → Option (CheckMacro × ℕ)
unfolding match_re group_of find_text
find_check_macro [] line = none
find_check_macro (m ∷ macros) line =
    elim (if is_found (find_text m.name line) then match_re (macro_pattern m) line else none) [
      | none ↦ find_check_macro macros line
      | some p ↦ some (m, length (group_text 1 p))
    ]

-- ^([-+]?(\d+|0[xX][0-9a-fA-F]+)[lLuU]{0,3}|".*"|\'.*\')$
abbrev match_constant : Pattern
match_constant =
    seq
      (alt
        (all_of (
          optional (one_of (codes "-+"))
          ∷ alt (some_of (one is_digit)) (
              all_of (
                lit "0"
                ∷ one_of (codes "xX")
                ∷ some_of (one_of (codes "0123456789abcdefABCDEF"))
                ∷ []))
          ∷ suffix
          ∷ suffix
          ∷ suffix
          ∷ []))
        (alt (all_of (lit "\"" ∷ many any_char ∷ lit "\"" ∷ []))
          (all_of (lit "'" ∷ many any_char ∷ lit "'" ∷ []))))
      line_end
  where
    suffix : Pattern
    suffix = optional (one_of (codes "lLuU"))

-- The end of CheckCheck, behind the loop.
unfoldable pub check_operands : CheckMacro → ℕ → ExpressionTurn → List Failure
unfolding matches find_text strip
check_operands m linenum (goes lhs expression) = []
check_operands m linenum returns = []
check_operands m linenum (ends lhs operator rhs) =
    report_if
      (not (is_nil lhs || (is_nil operator || is_nil rhs))
        && (not (is_found (find_text (codes "&&") rhs) || is_found (find_text (codes "||") rhs))
            && (matches match_constant (strip lhs) || matches match_constant (strip rhs))))
      (report linenum "readability/check" 2 (
        codes "Consider using "
        ++ (check_replacement m operator
            ++ (codes " instead of " ++ (m.name ++ (codes "(a " ++ (operator ++ codes " b)")))))))

abbrev join_lines : List Text → Text
join_lines [] = []
join_lines (line ∷ lines) = line ++ join_lines lines

-- The text between the parentheses of the macro.
unfoldable pub macro_expression : List Text → ℕ → ℕ → Text → ℕ → ℕ → Text
macro_expression lines linenum start_pos last_line end_line end_pos =
    let line = get_or lines linenum [] in
    if linenum == end_line
    then take ((end_pos - 1) - (start_pos + 1)) (drop (start_pos + 1) line)
    else drop (start_pos + 1) line
      ++ (join_lines (take (end_line - (linenum + 1)) (drop (linenum + 1) lines))
          ++ take (end_pos - 1) last_line)

abbrev pub operands_parsed : CheckMacro → ℕ → Option ExpressionTurn → Option (List Failure)
operands_parsed m linenum none = none
operands_parsed m linenum (some turn) = some (check_operands m linenum turn)

-- CheckCheck behind the search for the end of the macro.
unfoldable pub macro_closed : List Text → ℕ → CheckMacro → ℕ → Closing → Option (List Failure)
unfolding matches parse_operands macro_expression check_operands
macro_closed lines linenum m start_pos (not_found line) = some []
macro_closed lines linenum m start_pos (found last_line end_line end_pos) =
    let expression = macro_expression lines linenum start_pos last_line end_line end_pos in
    if matches (seq spaces (lit ";")) (drop end_pos last_line)
    then operands_parsed m linenum (parse_operands (suc (length expression)) [] expression)
    else some []

abbrev pub macro_ended : List Text → ℕ → CheckMacro → ℕ → Option Closing → Option (List Failure)
macro_ended lines linenum m start_pos none = none
macro_ended lines linenum m start_pos (some closing) =
    macro_closed lines linenum m start_pos closing

abbrev pub macro_found : List Text → ℕ → Option (CheckMacro × ℕ) → Option (List Failure)
macro_found lines linenum none = some []
macro_found lines linenum (some (m, start_pos)) =
    macro_ended lines linenum m start_pos (close_expression lines linenum start_pos)

-- CheckCheck; `none` is an IndexError of CloseExpression, or that the fuel ran out.
unfoldable pub check_check : CleansedLines → ℕ → Option (List Failure)
unfolding find_check_macro close_expression macro_closed
check_check clean_lines linenum =
    macro_found (clean_lines.elided) linenum
      (find_check_macro check_macros (get_or (clean_lines.elided) linenum []))
