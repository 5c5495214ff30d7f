-- ===== src/Lint/Comments.antt =====
-- .linters/cpp/cpplint.py: the comments that cpplint takes out of the lines before it checks them.
pub mod Blocks
use nebula_chaos.Prelude.{
  ℕ, zero, suc, ◌+◌, ◌%◌, ◌≡◌, refl, Bool, true, ◌&&◌, not, Option, none, some, List, [], ◌∷◌, ltb,
  ◌==◌, if◌then◌else◌, length, drop, Text, codes, starts_with, strip, ends_with, find_text,
  is_found, count_text, replace_text,
}

-- A multi-line comment begins on the line and does not end there. `find('*/', 2)` leaves the
-- first two characters out.
unfoldable pub begins_comment : Text → Bool
begins_comment line =
    starts_with (codes "/*") (strip line)
    && not (is_found (find_text (codes "*/") (drop 2 (strip line))))

unfoldable pub ends_comment : Text → Bool
ends_comment line = ends_with (codes "*/") (strip line)

-- The first line from `ix` on that passes the test, or the number of lines.
unfoldable pub find_line_from : (Text → Bool) → ℕ → List Text → ℕ
find_line_from test ix [] = ix
find_line_from test ix (line ∷ lines) =
    let later = find_line_from test (suc ix) lines in if test line then ix else later

unfoldable pub find_next_multi_line_comment_start : List Text → ℕ → ℕ
unfolding find_line_from begins_comment
find_next_multi_line_comment_start lines ix = find_line_from begins_comment ix (drop ix lines)

unfoldable pub find_next_multi_line_comment_end : List Text → ℕ → ℕ
unfolding find_line_from ends_comment
find_next_multi_line_comment_end lines ix = find_line_from ends_comment ix (drop ix lines)

abbrev pub dummy_comment : Text
dummy_comment = codes "/**/"

-- RemoveMultiLineCommentsFromRange: the lines from `begin` to in front of `end`.
unfoldable pub remove_multi_line_comments_from_range : List Text → ℕ → ℕ → List Text
remove_multi_line_comments_from_range lines begin zero = lines
remove_multi_line_comments_from_range [] begin (suc end) = []
remove_multi_line_comments_from_range (line ∷ lines) zero (suc end) =
    dummy_comment ∷ remove_multi_line_comments_from_range lines zero end
remove_multi_line_comments_from_range (line ∷ lines) (suc begin) (suc end) =
    line ∷ remove_multi_line_comments_from_range lines begin end

-- The lines, and the number of the line that the error names, if there is one.
abbrev pub Cleaned : Type 0
Cleaned = List Text × Option ℕ

-- RemoveMultiLineComments from line `ix` on; `none` means that the fuel ran out.
unfoldable pub remove_comments_from : ℕ → List Text → ℕ → Option Cleaned
remove_comments_from zero lines ix = none
remove_comments_from (suc fuel) lines ix =
    let begin = find_next_multi_line_comment_start lines ix in
    let end = find_next_multi_line_comment_end lines begin in
    let rest =
      remove_comments_from fuel (remove_multi_line_comments_from_range lines begin (end + 1))
        (end + 1) in
    if ltb ix (length lines) && ltb begin (length lines)
    then (if ltb end (length lines) then rest else some (lines, some (begin + 1)))
    else some (lines, none)

unfoldable pub remove_multi_line_comments : List Text → Option Cleaned
unfolding remove_comments_from
remove_multi_line_comments lines = remove_comments_from (suc (length lines)) lines 0

-- IsCppString: the parity of a difference, which Python may take below zero, is that of the sum.
unfoldable pub is_cpp_string : Text → Bool
is_cpp_string line =
    let line' = replace_text (codes "\\\\") (codes "XX") line in
    (count_text (codes "\"") line'
        + count_text (codes "\\\"") line'
        + count_text (codes "'\"'") line')
      % 2
    == 1

string_open : is_cpp_string (codes "a = \"b\\\\\\\" // ") ≡ true
unfolding is_cpp_string replace_text count_text
string_open = refl
