-- ===== src/Lint/Checks/Spacing.antt =====
-- .linters/cpp/cpplint.py: CheckSpacing, with IsBlankLine.
use nebula_chaos.Prelude.{
  ℕ, zero, suc, ◌+◌, ◌-◌, Bool, true, false, ◌&&◌, ◌||◌, ◌==◌, not, Option, none, some, List, [],
  ◌∷◌, ◌++◌, ltb, if◌then◌else◌, is_nil, length, take, get_or, all, Text, codes, text_eq, is_blank,
  is_found, find_text, lstrip,
}
use nebula_chaos.Lint.Regex.{
  Pattern, Position, seq, alt, many, group, line_end, all_of, any_of, none_of, any_char, optional,
  matches, occurs, match_re, group_of,
}
use nebula_chaos.Lint.Cleansed.{CleansedLines}
use nebula_chaos.Lint.State.{Failure}
use nebula_chaos.Lint.Nesting.{NestingState, in_namespace_body, in_extern_c}
use nebula_chaos.Lint.Checks.{report, report_if, lit, word_of, spaces, some_spaces, word}
use nebula_chaos.Lint.Checks.Remarks.{check_comment}

-- IsBlankLine
unfoldable pub is_blank_line : Text → Bool
is_blank_line line = all is_blank line

-- lines[linenum - 1], where Python takes the last line in front of the first.
abbrev pub line_before : List Text → ℕ → Text
line_before lines linenum = get_or lines (if linenum == 0 then length lines - 1 else linenum - 1) []

-- There is an opening brace, and no closing one behind the last of them.
unfoldable pub ends_in_block : Bool → Text → Bool
ends_in_block seen [] = seen
ends_in_block seen (c ∷ t) =
    ends_in_block (if c == 123 then true else if c == 125 then false else seen) t

-- ` {6}\w`
abbrev six_spaces : Pattern
six_spaces = seq (lit "      ") word

-- The loop over search_position, on the lines in front of line `count`: the first of them that is
-- not indented by 6 spaces begins the initializer list.
unfoldable pub initializer_above : List Text → ℕ → Bool
unfolding matches
initializer_above elided zero = false
initializer_above elided (suc count) =
    let rest = initializer_above elided count in
    let line = get_or elided count [] in
    if matches six_spaces line then rest else text_eq (take 5 line) (codes "    :")

-- The line before ends the head of a function or of a constructor.
unfoldable pub is_exception : List Text → ℕ → Text → Bool
unfolding matches initializer_above
is_exception elided linenum prev_line =
    if matches six_spaces prev_line
    then initializer_above elided (linenum - 1)
    else matches
        (all_of (
          lit "    "
          ∷ word
          ∷ many (none_of (codes "("))
          ∷ lit ")"
          ∷ spaces
          ∷ optional (seq (lit "const") spaces)
          ∷ alt (all_of (lit "{" ∷ spaces ∷ line_end ∷ [])) (lit ":")
          ∷ []))
        prev_line
      || matches (lit "    :") prev_line

abbrev first_group : Position → Text
first_group p = elim (group_of p 1) [ none ↦ [] | some t ↦ t ]

abbrev pub section_found : Option Position → ℕ → List Failure
section_found none linenum = []
section_found (some p) linenum =
    report linenum "whitespace/blank_line" 3
      (codes "Do not leave a blank line after \"" ++ (first_group p ++ codes ":\""))

unfoldable pub check_blank_start : List Text → ℕ → Text → List Failure
unfolding ends_in_block is_exception
check_blank_start elided linenum prev_line =
    report_if (ends_in_block false prev_line && not (is_exception elided linenum prev_line)) (
      report linenum "whitespace/blank_line" 2
        (codes "Redundant blank line at the start of a code block should be deleted."))

unfoldable pub check_blank_end : ℕ → List Text → ℕ → List Failure
unfolding matches find_text
check_blank_end num_lines raw linenum =
    let next_line = get_or raw (linenum + 1) [] in
    report_if
      (ltb (linenum + 1) num_lines
        && (not (is_nil next_line)
            && (matches (seq spaces (lit "}")) next_line
                && not (is_found (find_text (codes "} else ") next_line)))))
      (report linenum "whitespace/blank_line" 3
        (codes "Redundant blank line at the end of a code block should be deleted."))

-- The checks of a blank line.
unfoldable pub check_blank_line : CleansedLines → ℕ → List Failure
unfolding check_blank_start check_blank_end match_re group_of
check_blank_line clean_lines linenum =
    let prev_line = line_before (clean_lines.elided) linenum in
    check_blank_start (clean_lines.elided) linenum prev_line
    ++ (check_blank_end (clean_lines.num_lines) (clean_lines.lines_without_raw_strings) linenum
        ++ section_found
            (match_re
              (all_of
                (spaces ∷ group 1 (word_of "public" ("protected" ∷ "private" ∷ [])) ∷ lit ":" ∷ []))
              prev_line)
            linenum)

-- The first column of the next line that is no space.
abbrev next_start : ℕ → List Text → ℕ → ℕ
next_start num_lines raw linenum =
    let next_line = get_or raw (linenum + 1) [] in
    if ltb (linenum + 1) num_lines then length next_line - length (lstrip next_line) else 0

-- The checks of brackets, and of the colon of a range-based for loop.
unfoldable pub check_brackets : Text → ℕ → List Failure
unfolding occurs
check_brackets line linenum =
    report_if
      (occurs (all_of (word ∷ some_spaces ∷ lit "[" ∷ [])) line
        && not (
            occurs
              (all_of (
                any_of (seq (lit "auto") (optional (lit "&"))) (lit "delete" ∷ lit "return" ∷ [])
                ∷ some_spaces
                ∷ lit "["
                ∷ []))
              line))
      (report linenum "whitespace/braces" 5 (codes "Extra space before ["))
    ++ report_if
        (occurs (all_of (range_for ∷ none_of (codes ":") ∷ lit ":" ∷ none_of (codes ": ") ∷ []))
            line
          || occurs (all_of (range_for ∷ none_of (codes ": ") ∷ lit ":" ∷ none_of (codes ":") ∷ []))
              line)
        (report linenum "whitespace/forcolon" 2
          (codes "Missing space around colon in range-based for loop"))
  where
    range_for : Pattern
    range_for = all_of (lit "for" ∷ many (lit " ") ∷ lit "(" ∷ many any_char ∷ [])

-- CheckSpacing
unfoldable pub check_spacing : CleansedLines → ℕ → NestingState → List Failure
unfolding is_blank_line in_namespace_body in_extern_c check_blank_line lstrip check_comment
    check_brackets
check_spacing clean_lines linenum nesting_state =
    let raw = clean_lines.lines_without_raw_strings in
    let line = get_or raw linenum [] in
    report_if
      (is_blank_line line
        && (not (in_namespace_body (nesting_state.stack))
            && not (in_extern_c (nesting_state.stack))))
      (check_blank_line clean_lines linenum)
    ++ (check_comment line linenum (next_start (clean_lines.num_lines) raw linenum)
        ++ check_brackets (get_or (clean_lines.elided) linenum []) linenum)
