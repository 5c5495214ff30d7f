-- ===== src/Lint/Checks/Calls.antt =====
-- .linters/cpp/cpplint.py: CheckSpacingForFunctionCall.
use nebula_chaos.Prelude.{
  ℕ, Bool, false, ◌&&◌, ◌||◌, ◌==◌, not, none, some, List, [], ◌∷◌, ◌++◌, if◌then◌else◌, get_or,
  String, Text, codes,
}
use nebula_chaos.Lint.Regex.{
  Pattern, Position, one, seq, alt, many, group, boundary, line_end, line_start, is_space,
  not_ahead, all_of, any_of, one_of, none_of, any_char, optional, some_of, occurs, search_re,
  group_of,
}
use nebula_chaos.Lint.Cleansed.{CleansedLines}
use nebula_chaos.Lint.State.{Failure}
use nebula_chaos.Lint.Checks.{
  report, report_if, lit, word_of, spaces, some_spaces, some_words, word,
}

-- The patterns of conditions: \bif\s*\((.*)\)\s*{ and so on.
abbrev condition_of : String → Text → Pattern
condition_of name closing = all_of (
    boundary
    ∷ lit name
    ∷ spaces
    ∷ lit "("
    ∷ group 1 (many any_char)
    ∷ lit ")"
    ∷ spaces
    ∷ one_of closing
    ∷ [])

abbrev first_group : Position → Text
first_group p = elim (group_of p 1) [ none ↦ [] | some t ↦ t ]

-- The text between the brackets of the first pattern that is found, or the whole line.
unfoldable pub look_inside : List Pattern → Text → Text
unfolding search_re group_of
look_inside [] line = line
look_inside (a ∷ as') line = elim (search_re a line) [
  | some p ↦ first_group p
  | none ↦ look_inside as' line
]

abbrev pub conditions : List Pattern
conditions =
    condition_of "if" (codes "{")
    ∷ condition_of "for" (codes "{")
    ∷ condition_of "while" (codes "{;")
    ∷ condition_of "switch" (codes "{")
    ∷ []

-- What is no function call: a control structure, and pointers or references to functions and arrays.
abbrev no_calls : List Pattern
no_calls =
    all_of (
      boundary
      ∷ word_of "if"
          ("for" ∷ "while" ∷ "switch" ∷ "return" ∷ "new" ∷ "delete" ∷ "catch" ∷ "sizeof" ∷ [])
      ∷ boundary
      ∷ [])
    ∷ all_of (
        lit " ("
        ∷ some_of (none_of (codes ")"))
        ∷ lit ")("
        ∷ many (none_of (codes ")"))
        ∷ alt (lit ")") (seq (lit ",") line_end)
        ∷ [])
    ∷ all_of (
        lit " ("
        ∷ some_of (none_of (codes ")"))
        ∷ lit ")["
        ∷ some_of (none_of (codes "]"))
        ∷ lit "]"
        ∷ [])
    ∷ []

unfoldable pub occurs_any : List Pattern → Text → Bool
unfolding occurs
occurs_any [] t = false
occurs_any (a ∷ as') t = occurs a t || occurs_any as' t

-- \w\s*\(\s(?!\s*\\$) and \(\s+(?!(\s*\\)|\()
abbrev space_behind_call : Pattern
space_behind_call = all_of (
    word
    ∷ spaces
    ∷ lit "("
    ∷ one is_space
    ∷ not_ahead (all_of (spaces ∷ lit "\\" ∷ line_end ∷ []))
    ∷ [])

abbrev space_behind_bracket : Pattern
space_behind_bracket =
    all_of (lit "(" ∷ some_spaces ∷ not_ahead (alt (seq spaces (lit "\\")) (lit "(")) ∷ [])

abbrev underscores : Pattern
underscores = optional (seq (lit "_") (optional (lit "_")))

-- What may stand with a space in front of a bracket.
abbrev spaced_calls : List Pattern
spaced_calls =
    all_of (
      underscores
      ∷ lit "asm"
      ∷ underscores
      ∷ some_spaces
      ∷ underscores
      ∷ lit "volatile"
      ∷ underscores
      ∷ some_spaces
      ∷ lit "("
      ∷ [])
    ∷ any_of (all_of (lit "#" ∷ spaces ∷ lit "define" ∷ [])) (
        lit "typedef"
        ∷ all_of (lit "using" ∷ some_spaces ∷ some_words ∷ spaces ∷ lit "=" ∷ [])
        ∷ [])
    ∷ all_of (
        word
        ∷ some_spaces
        ∷ lit "("
        ∷ many (seq some_words (lit "::"))
        ∷ lit "*"
        ∷ some_words
        ∷ lit ")("
        ∷ [])
    ∷ all_of (boundary ∷ lit "case" ∷ some_spaces ∷ lit "(" ∷ [])
    ∷ []

unfoldable pub check_behind_opening : Text → ℕ → List Failure
unfolding occurs
check_behind_opening fncall linenum =
    if occurs space_behind_call fncall
    then report linenum "whitespace/parens" 4 (codes "Extra space after ( in function call")
    else report_if (occurs space_behind_bracket fncall)
        (report linenum "whitespace/parens" 2 (codes "Extra space after ("))

-- \boperator_*\b
abbrev operator_function : Pattern
operator_function = all_of (boundary ∷ lit "operator" ∷ many (lit "_") ∷ boundary ∷ [])

unfoldable pub check_before_opening : Text → Text → ℕ → List Failure
unfolding occurs occurs_any
check_before_opening line fncall linenum =
    report_if
      (occurs (all_of (word ∷ some_spaces ∷ lit "(" ∷ [])) fncall
        && not (occurs_any spaced_calls fncall))
      (report linenum "whitespace/parens" (if occurs operator_function line then 0 else 4)
        (codes "Extra space before ( in function call"))

unfoldable pub check_before_closing : Text → ℕ → List Failure
unfolding occurs
check_before_closing fncall linenum =
    report_if
      (occurs
        (all_of (
          none_of (codes ")")
          ∷ some_spaces
          ∷ lit ")"
          ∷ spaces
          ∷ one (λ c. not (is_space c || (c == 123)))
          ∷ []))
        fncall)
      (if occurs (all_of (line_start ∷ some_spaces ∷ lit ")" ∷ [])) fncall
        then report linenum "whitespace/parens" 2
            (codes "Closing ) should be moved to the previous line")
        else report linenum "whitespace/parens" 2 (codes "Extra space before )"))

-- CheckSpacingForFunctionCall
unfoldable pub check_spacing_for_function_call : CleansedLines → ℕ → List Failure
unfolding look_inside occurs_any check_behind_opening check_before_opening check_before_closing
check_spacing_for_function_call clean_lines linenum =
    let line = get_or (clean_lines.elided) linenum [] in
    let fncall = look_inside conditions line in
    report_if (not (occurs_any no_calls fncall)) (
      check_behind_opening fncall linenum
      ++ (check_before_opening line fncall linenum ++ check_before_closing fncall linenum))
