-- ===== src/Lint/Checks/Remarks.antt =====
-- .linters/cpp/cpplint.py: CheckComment.
use nebula_chaos.Prelude.{
  ℕ, ◌-◌, ◌%◌, Bool, true, ◌&&◌, ◌||◌, ◌==◌, not, Option, none, some, List, [], ◌∷◌, ◌++◌, ltb, leb,
  is_nil, length, take, drop, get_or, Text, codes, text_eq, find_text, count_text,
}
use nebula_chaos.Lint.Regex.{
  Pattern, Position, one, seq, alt, many, many_lazy, group, line_end, is_space, all_of, none_of,
  any_char, optional, matches, match_re, group_of, replace_all,
}
use nebula_chaos.Lint.State.{Failure}
use nebula_chaos.Lint.Checks.{report, report_if, lit, spaces, some_spaces, word}

-- The character `back` places in front of the comment is there, and is no space.
abbrev close_behind : ℕ → Text → ℕ → Bool
close_behind back line commentpos =
    leb back commentpos && not (is_space (get_or line (commentpos - back) 32))

-- _RE_PATTERN_TODO
abbrev todo : Pattern
todo = all_of (
    lit "//"
    ∷ group 1 spaces
    ∷ lit "TODO"
    ∷ optional (group 2 (all_of (lit "(" ∷ any_char ∷ many_lazy any_char ∷ lit ")" ∷ [])))
    ∷ optional (lit ":")
    ∷ optional (group 3 (alt (one is_space) line_end))
    ∷ [])

abbrev group_length : Option Text → ℕ
group_length none = 0
group_length (some t) = length t

-- `not username`
abbrev is_missing : Option Text → Bool
is_missing none = true
is_missing (some t) = is_nil t

-- middle_whitespace != ' ' and middle_whitespace != '', where None is neither
abbrev is_unspaced : Option Text → Bool
is_unspaced none = true
is_unspaced (some t) = not (text_eq t (codes " ")) && not (is_nil t)

abbrev pub check_todo_match : Option Position → ℕ → List Failure
check_todo_match none linenum = []
check_todo_match (some p) linenum =
    report_if (ltb 1 (group_length (group_of p 1)))
      (report linenum "whitespace/todo" 2 (codes "Too many spaces before TODO"))
    ++ (report_if (is_missing (group_of p 2)) (
          report linenum "readability/todo" 2 (
            codes "Missing username in TODO; it should look like \"// TODO(my_username): Stuff.\""))
        ++ report_if (is_unspaced (group_of p 3)) (
            report linenum "whitespace/todo" 2
              (codes "TODO(my_username) should be followed by a space")))

unfoldable pub check_todo : Text → ℕ → List Failure
unfolding match_re group_of
check_todo comment linenum = check_todo_match (match_re todo comment) linenum

-- (///|//\!)(\s+|$)
abbrev doxygen : Pattern
doxygen = seq (alt (lit "///") (lit "//!")) (alt some_spaces line_end)

-- The checks of CheckComment on a comment that begins at `commentpos`.
unfoldable pub check_comment_at : Text → ℕ → ℕ → ℕ → List Failure
unfolding matches check_todo
check_comment_at line commentpos linenum next_line_start =
    let comment = drop commentpos line in
    report_if
      (not (
          matches (all_of (many any_char ∷ lit "{" ∷ many (lit " ") ∷ lit "//" ∷ [])) line
          && (next_line_start == commentpos))
        && (close_behind 1 line commentpos || close_behind 2 line commentpos))
      (report linenum "whitespace/comments" 2
        (codes "At least two spaces is best between code and comments"))
    ++ (check_todo comment linenum
        ++ report_if
            (matches (all_of (lit "//" ∷ many (none_of (codes " ")) ∷ word ∷ [])) comment
              && not (matches doxygen comment))
            (report linenum "whitespace/comments" 4
              (codes "Should have a space between // and comment")))

abbrev pub check_found : Text → Option ℕ → ℕ → ℕ → List Failure
check_found line none linenum next_line_start = []
check_found line (some commentpos) linenum next_line_start =
    report_if
      (count_text (codes "\"") (replace_all (seq (lit "\\") any_char) [] (take commentpos line)) % 2
        == 0)
      (check_comment_at line commentpos linenum next_line_start)

-- CheckComment
unfoldable pub check_comment : Text → ℕ → ℕ → List Failure
unfolding find_text count_text replace_all check_comment_at
check_comment line linenum next_line_start =
    check_found line (find_text (codes "//") line) linenum next_line_start
