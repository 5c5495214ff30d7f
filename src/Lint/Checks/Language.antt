-- ===== src/Lint/Checks/Language.antt =====
-- .linters/cpp/cpplint.py: the checks of alternative tokens, of make_pair and of "override", and the
-- functions that other checks ask about a line.
use nebula_chaos.Prelude.{
  ℕ, zero, suc, ◌-◌, Bool, true, false, ◌&&◌, ◌||◌, Option, none, some, List, [], ◌∷◌, ◌++◌,
  if◌then◌else◌, length, get_or, ltb, String, Text, codes, text_eq, is_found, find_text, has_char,
}
use nebula_chaos.Lint.Regex.{
  Pattern, Position, seq, alt, many, group, boundary, line_end, line_start, ahead, all_of, one_of,
  any_char, matches, occurs, group_of, search_split,
}
use nebula_chaos.Lint.Cleansed.{CleansedLines}
use nebula_chaos.Lint.State.{Failure}
use nebula_chaos.Lint.Checks.{report, report_if, lit, word_of, spaces, some_spaces, some_words}
use nebula_chaos.Lint.Checks.Spacing.{is_blank_line}

abbrev first_group : Position → Text
first_group p = elim (group_of p 1) [ none ↦ [] | some t ↦ t ]

-- _ALT_TOKEN_REPLACEMENT
abbrev pub alt_token_replacement : List (String × String)
alt_token_replacement =
    ("and", "&&")
    ∷ ("bitor", "|")
    ∷ ("or", "||")
    ∷ ("xor", "^")
    ∷ ("compl", "~")
    ∷ ("bitand", "&")
    ∷ ("and_eq", "&=")
    ∷ ("or_eq", "|=")
    ∷ ("xor_eq", "^=")
    ∷ ("not", "!")
    ∷ ("not_eq", "!=")
    ∷ []

abbrev replacement_of : List (String × String) → Text → Text
replacement_of [] token = []
replacement_of ((name, operator) ∷ more) token =
    if text_eq (codes name) token then codes operator else replacement_of more token

-- [ =()](and|…)(?=[ (]|$)
abbrev alt_token_pattern : Pattern
alt_token_pattern = all_of (
    one_of (codes " =()")
    ∷ group 1 (
        word_of "and" (
          "bitor" ∷ "or" ∷ "xor" ∷ "compl" ∷ "bitand" ∷ "and_eq" ∷ "or_eq" ∷ "xor_eq" ∷ "not"
          ∷ "not_eq" ∷ []))
    ∷ ahead (alt (one_of (codes " (")) line_end)
    ∷ [])

-- The first groups of finditer; each match takes three characters at least.
unfoldable pub find_tokens : ℕ → Text → List Text
unfolding search_split group_of
find_tokens zero line = []
find_tokens (suc fuel) line = elim (search_split alt_token_pattern line) [
  | none ↦ []
  | some (front, p) ↦ first_group p ∷ find_tokens fuel (p.rest)
]

unfoldable pub report_tokens : ℕ → List Text → List Failure
report_tokens linenum [] = []
report_tokens linenum (token ∷ tokens) =
    report linenum "readability/alt_tokens" 2 (
      codes "Use operator "
      ++ (replacement_of alt_token_replacement token ++ (codes " instead of " ++ token)))
    ++ report_tokens linenum tokens

-- CheckAltTokens
unfoldable pub check_alt_tokens : CleansedLines → ℕ → List Failure
unfolding matches find_text find_tokens report_tokens
check_alt_tokens clean_lines linenum =
    let line = get_or (clean_lines.elided) linenum [] in
    if matches (seq spaces (lit "#")) line
      || (is_found (find_text (codes "/*") line) || is_found (find_text (codes "*/") line))
    then []
    else report_tokens linenum (find_tokens (suc (length line)) line)

-- CheckMakePairUsesDeduction
unfoldable pub check_make_pair_uses_deduction : CleansedLines → ℕ → List Failure
unfolding occurs
check_make_pair_uses_deduction clean_lines linenum =
    report_if
      (occurs (all_of (boundary ∷ lit "make_pair" ∷ spaces ∷ lit "<" ∷ []))
        (get_or (clean_lines.elided) linenum []))
      (report linenum "build/explicit_make_pair" 4 (
        codes
          "For C++11-compatibility, omit template arguments from make_pair OR use pair directly OR if appropriate, construct a pair directly"))

-- The text from the last closing parenthesis on.
unfoldable pub from_last_parenthesis : Text → Option Text
from_last_parenthesis [] = none
from_last_parenthesis (c ∷ t) = elim (from_last_parenthesis t) [
  | some fragment ↦ some fragment
  | none ↦ if is_closing c then some (c ∷ t) else none
]
  where
    is_closing : ℕ → Bool
    is_closing c = has_char c (codes ")")

unfoldable pub declarator_fragment : List Text → ℕ → Option Text
unfolding from_last_parenthesis
declarator_fragment elided linenum =
    let line = get_or elided linenum [] in
    elim (from_last_parenthesis line) [
      | some fragment ↦ some fragment
      | none ↦
          if ltb 1 linenum && has_char b')' (get_or elided (linenum - 1) [])
          then some line
          else none
    ]

abbrev pub check_fragment : Option Text → ℕ → List Failure
check_fragment none linenum = []
check_fragment (some fragment) linenum =
    report_if
      (occurs (all_of (boundary ∷ lit "override" ∷ boundary ∷ [])) fragment
        && occurs (all_of (boundary ∷ lit "final" ∷ boundary ∷ [])) fragment)
      (report linenum "readability/inheritance" 4
        (codes "\"override\" is redundant since function is already declared as \"final\""))

-- CheckRedundantOverrideOrFinal
unfoldable pub check_redundant_override_or_final : CleansedLines → ℕ → List Failure
unfolding declarator_fragment occurs
check_redundant_override_or_final clean_lines linenum =
    check_fragment (declarator_fragment (clean_lines.elided) linenum) linenum

-- CheckItemIndentationInNamespace
unfoldable pub check_item_indentation_in_namespace : List Text → ℕ → List Failure
unfolding matches
check_item_indentation_in_namespace raw_lines_no_comments linenum =
    report_if (matches some_spaces (get_or raw_lines_no_comments linenum []))
      (report linenum "runtime/indentation_namespace" 4 (codes "Do not indent within a namespace"))

-- IsMacroDefinition
unfoldable pub is_macro_definition : List Text → ℕ → Bool
unfolding occurs
is_macro_definition clean_lines linenum =
    occurs (seq line_start (lit "#define")) (get_or clean_lines linenum [])
    || (ltb 0 linenum && occurs (seq (lit "\\") line_end) (get_or clean_lines (linenum - 1) []))

-- IsForwardClassDeclaration: ^\s*(\btemplate\b)*.*class\s+\w+;\s*$
unfoldable pub is_forward_class_declaration : List Text → ℕ → Bool
unfolding matches
is_forward_class_declaration clean_lines linenum =
    matches
      (all_of (
        spaces
        ∷ many (all_of (boundary ∷ lit "template" ∷ boundary ∷ []))
        ∷ many any_char
        ∷ lit "class"
        ∷ some_spaces
        ∷ some_words
        ∷ lit ";"
        ∷ spaces
        ∷ line_end
        ∷ []))
      (get_or clean_lines linenum [])

-- GetPreviousNonBlankLine, with `none` for line -1
unfoldable pub get_previous_non_blank_line : List Text → ℕ → Text × Option ℕ
unfolding is_blank_line
get_previous_non_blank_line elided zero = ([], none)
get_previous_non_blank_line elided (suc prevlinenum) =
    let prevline = get_or elided prevlinenum [] in
    elim (is_blank_line prevline) [
      | false ↦ (prevline, some prevlinenum)
      | true ↦ get_previous_non_blank_line elided prevlinenum
    ]
