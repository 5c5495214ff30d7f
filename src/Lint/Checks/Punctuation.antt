-- ===== src/Lint/Checks/Punctuation.antt =====
-- .linters/cpp/cpplint.py: CheckParenthesisSpacing, CheckCommaSpacing and CheckSectionSpacing.
use nebula_chaos.Prelude.{
  ℕ, suc, ◌+◌, ◌-◌, Bool, ◌&&◌, ◌||◌, ◌==◌, not, Option, none, some, List, [], ◌∷◌, ◌++◌, ltb, leb,
  if◌then◌else◌, is_nil, length, drop, get_or, Text, codes, text_eq,
}
use nebula_chaos.Lint.Regex.{
  Pattern, Position, one, seq, many, group, boundary, line_end, is_space, all_of, none_of, any_char,
  some_of, occurs, match_re, search_re, group_of, replace_all,
}
use nebula_chaos.Lint.Cleansed.{CleansedLines}
use nebula_chaos.Lint.State.{Failure}
use nebula_chaos.Lint.Nesting.{ClassInfo}
use nebula_chaos.Lint.Checks.{report, report_if, lit, word_of, spaces}
use nebula_chaos.Lint.Checks.Spacing.{is_blank_line, line_before}

abbrev group_text : Position → ℕ → Text
group_text p n = elim (group_of p n) [ none ↦ [] | some t ↦ t ]

abbrev pub no_space_found : Option Position → ℕ → List Failure
no_space_found none linenum = []
no_space_found (some p) linenum =
    report linenum "whitespace/parens" 5 (codes "Missing space before ( in " ++ group_text p 1)

-- \b(if|for|while|switch)\s*\(([ ]*)(.).*[^ ]+([ ]*)\)\s*{\s*$
abbrev condition : Pattern
condition = all_of (
    boundary
    ∷ group 1 (word_of "if" ("for" ∷ "while" ∷ "switch" ∷ []))
    ∷ spaces
    ∷ lit "("
    ∷ group 2 (many (lit " "))
    ∷ group 3 any_char
    ∷ many any_char
    ∷ some_of (none_of (codes " "))
    ∷ group 4 (many (lit " "))
    ∷ lit ")"
    ∷ spaces
    ∷ lit "{"
    ∷ spaces
    ∷ line_end
    ∷ [])

-- \bfor\s*\(.*; \)
abbrev open_for : Pattern
open_for = all_of (boundary ∷ lit "for" ∷ spaces ∷ lit "(" ∷ many any_char ∷ lit "; )" ∷ [])

abbrev pub condition_found : Text → Option Position → ℕ → List Failure
condition_found line none linenum = []
condition_found line (some p) linenum =
    let left = length (group_text p 2) in
    let right = length (group_text p 4) in
    report_if
      (not (left == right)
        && not (
            (text_eq (group_text p 3) (codes ";") && (left == 1 + right))
            || (is_nil (group_text p 2) && occurs open_for line)))
      (report linenum "whitespace/parens" 5
        (codes "Mismatching spaces inside () in " ++ group_text p 1))
    ++ report_if (not (leb left 1)) (
        report linenum "whitespace/parens" 5
          (codes "Should have zero or one spaces inside ( and ) in " ++ group_text p 1))

-- CheckParenthesisSpacing
unfoldable pub check_parenthesis_spacing : CleansedLines → ℕ → List Failure
unfolding search_re group_of occurs
check_parenthesis_spacing clean_lines linenum =
    let line = get_or (clean_lines.elided) linenum [] in
    no_space_found
      (search_re (seq (lit " ") (group 1 (word_of "if(" ("for(" ∷ "while(" ∷ "switch(" ∷ []))))
        line)
      linenum
    ++ condition_found line (search_re condition line) linenum

-- `,[^,\s]`
abbrev tight_comma : Pattern
tight_comma = seq (lit ",") (one (λ c. not ((c == 44) || is_space c)))

-- CheckCommaSpacing
unfoldable pub check_comma_spacing : CleansedLines → ℕ → List Failure
unfolding occurs replace_all
check_comma_spacing clean_lines linenum =
    let line = get_or (clean_lines.elided) linenum [] in
    report_if
      (occurs tight_comma (
          replace_all
            (all_of (boundary ∷ lit "operator" ∷ spaces ∷ lit "," ∷ spaces ∷ lit "(" ∷ []))
            (codes "F(") line)
        && occurs tight_comma (get_or (clean_lines.lines_without_raw_strings) linenum []))
      (report linenum "whitespace/comma" 3 (codes "Missing space after ,"))
    ++ report_if (occurs (seq (lit ";") (one (λ c. not (is_space c) && not (has_any c)))) line)
        (report linenum "whitespace/semicolon" 3 (codes "Missing space after ;"))
  where
    has_any : ℕ → Bool
    has_any c = (c == 125) || ((c == 59) || ((c == 92) || ((c == 41) || (c == 47))))

-- The loop over the lines from `i` to in front of `linenum`: the first that ends in a brace.
unfoldable pub find_class_head : List Text → ℕ → ℕ → ℕ → ℕ
unfolding occurs
find_class_head [] i linenum start = start
find_class_head (line ∷ lines) i linenum start =
    let later = find_class_head lines (suc i) linenum start in
    if not (ltb i linenum)
    then start
    else if occurs (all_of (lit "{" ∷ spaces ∷ line_end ∷ [])) line
    then i
    else later

abbrev pub section_found : CleansedLines → ℕ → ℕ → Option Position → List Failure
section_found clean_lines starting_linenum linenum none = []
section_found clean_lines starting_linenum linenum (some p) =
    let prev_line = line_before (clean_lines.lines) linenum in
    let head =
      find_class_head (drop starting_linenum (clean_lines.lines)) starting_linenum linenum
        starting_linenum in
    report_if
      (not (is_blank_line prev_line)
        && (not (
              occurs (all_of (boundary ∷ word_of "class" ("struct" ∷ []) ∷ boundary ∷ []))
                prev_line)
            && (not (occurs (seq (lit "\\") line_end) prev_line) && ltb head (linenum - 1))))
      (report linenum "whitespace/blank_line" 3
        (codes "\"" ++ (group_text p 1 ++ codes ":\" should be preceded by a blank line")))

-- CheckSectionSpacing of a class that starts on line `starting_linenum`. The last line is 0, or not
-- in front of the first one.
unfoldable pub check_section_spacing : CleansedLines → ClassInfo → ℕ → ℕ → List Failure
unfolding match_re group_of occurs find_class_head is_blank_line
check_section_spacing clean_lines class_info starting_linenum linenum =
    if leb (class_info.last_line - starting_linenum) 24 || leb linenum starting_linenum
    then []
    else section_found clean_lines starting_linenum linenum (
        match_re
          (all_of
            (spaces ∷ group 1 (word_of "public" ("protected" ∷ "private" ∷ [])) ∷ lit ":" ∷ []))
          (get_or (clean_lines.lines) linenum []))
