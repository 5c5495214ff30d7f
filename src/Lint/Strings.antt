-- ===== src/Lint/Strings.antt =====
-- .linters/cpp/cpplint.py: CleanseComments and CleansedLines._CollapseStrings, on one line.
pub mod Collapse
use nebula_chaos.Prelude.{
  ℕ, zero, suc, ◌+◌, Bool, ◌&&◌, ◌||◌, not, Option, none, some, [], ◌∷◌, ◌++◌, leb, ◌==◌,
  if◌then◌else◌, length, take, drop, Text, codes, find_text, rstrip,
}
use nebula_chaos.Lint.Comments.{is_cpp_string}
use nebula_chaos.Lint.Regex.{
  Pattern, one, seq, alt, many, group, boundary, line_end, ahead, not_ahead, is_space, is_digit,
  is_word, all_of, any_of, text, one_of, none_of, any_char, optional, some_of, matches, occurs,
  replace_all,
}

abbrev spaces : Pattern
spaces = many (one is_space)

-- _RE_PATTERN_INCLUDE
abbrev pub include_pattern : Pattern
include_pattern = all_of (
    spaces
    ∷ text (codes "#")
    ∷ spaces
    ∷ text (codes "include")
    ∷ spaces
    ∷ group 1 (one_of (codes "<\""))
    ∷ group 2 (many (none_of (codes ">\"")))
    ∷ one_of (codes ">\"")
    ∷ many any_char
    ∷ line_end
    ∷ [])

abbrev is_hex : ℕ → Bool
is_hex c = is_digit c || ((leb b'a' c && leb c b'f') || (leb b'A' c && leb c b'F'))

-- _RE_PATTERN_CLEANSE_LINE_ESCAPES
abbrev pub escapes : Pattern
escapes = seq (text (codes "\\")) (
    group 1 (
      any_of (one_of (codes "abfnrtv?\"\\'"))
        (some_of (one is_digit) ∷ seq (text (codes "x")) (some_of (one is_hex)) ∷ [])))

-- _RE_PATTERN_C_COMMENTS
abbrev c_comment : Pattern
c_comment = all_of (
    text (codes "/*")
    ∷ many (alt (none_of (codes "*")) (seq (text (codes "*")) (not_ahead (text (codes "/")))))
    ∷ text (codes "*/")
    ∷ [])

-- _RE_PATTERN_CLEANSE_LINE_C_COMMENTS
abbrev cleanse_line_c_comments : Pattern
cleanse_line_c_comments = group 1 (
    any_of (all_of (spaces ∷ c_comment ∷ spaces ∷ line_end ∷ [])) (
      seq c_comment (some_of (one is_space))
      ∷ all_of (some_of (one is_space) ∷ c_comment ∷ ahead (one (λ c. not (is_word c))) ∷ [])
      ∷ c_comment
      ∷ []))

-- The line up to a comment from `//` on, unless that lies in a string.
abbrev without_line_comment : Text → Option ℕ → Text
without_line_comment line none = line
without_line_comment line (some pos) =
    if is_cpp_string (take pos line) then line else rstrip (take pos line)

-- CleanseComments
unfoldable pub cleanse_comments : Text → Text
unfolding replace_all is_cpp_string rstrip
cleanse_comments line =
    replace_all cleanse_line_c_comments [] (without_line_comment line (find_text (codes "//") line))

abbrev is_quote : ℕ → Bool
is_quote c = (c == b'"') || (c == b'\'')

-- The character in front of the first of the three parts.
abbrev pub put_first : ℕ → Option (Text × ℕ × Text) → Option (Text × ℕ × Text)
put_first c none = none
put_first c (some (head, quote, tail)) = some (c ∷ head, quote, tail)

-- Match(r'^([^\'"]*)([\'"])(.*)$', elided), of a line without line feeds
unfoldable pub split_quote : Text → Option (Text × ℕ × Text)
split_quote [] = none
split_quote (c ∷ rest) =
    let later = put_first c (split_quote rest) in if is_quote c then some ([], c, rest) else later

-- \b(?:0[bBxX]?|[1-9])[0-9a-fA-F]*$
abbrev number_end : Pattern
number_end = all_of (
    boundary
    ∷ alt (seq (text (codes "0")) (optional (one_of (codes "bBxX"))))
        (one (λ c. leb b'1' c && leb c b'9'))
    ∷ many (one is_hex)
    ∷ line_end
    ∷ [])

-- Match(r'^((?:\'?[0-9a-zA-Z_])*)(.*)$', t): the literal without its quotes, and the rest.
abbrev cons_first : ℕ → Text × Text → Text × Text
cons_first c (literal, rest) = (c ∷ literal, rest)

unfoldable pub split_literal : Text → Text × Text
split_literal [] = ([], [])
split_literal (c ∷ []) = if is_word c then (c ∷ [], []) else ([], c ∷ [])
split_literal (c ∷ d ∷ rest) =
    let next = cons_first c (split_literal (d ∷ rest)) in
    let quoted = cons_first d (split_literal rest) in
    if is_word c then next else if (c == b'\'') && is_word d then quoted else ([], c ∷ d ∷ rest)

-- One turn of the loop of _CollapseStrings: it ends with the last piece, or goes on with the rest.
pub data CollapseStep : Type 0 where
  ends : (piece : Text) → CollapseStep
  goes : (piece rest : Text) → CollapseStep

-- A quoted text that ends at position `i` of the tail.
abbrev collapse_quoted : Text → Text → Text → Text → Option ℕ → CollapseStep
collapse_quoted elided head quotes tail none = ends elided
collapse_quoted elided head quotes tail (some i) = goes (head ++ quotes) (drop (i + 1) tail)

abbrev collapse_at : Text → Option (Text × ℕ × Text) → CollapseStep
collapse_at elided none = ends elided
collapse_at elided (some (head, quote, tail)) =
    let literal = split_literal (b'\'' ∷ tail) in
    if quote == b'"'
    then collapse_quoted elided head (codes "\"\"") tail (find_text (codes "\"") tail)
    else if occurs number_end head
    then goes (head ++ literal.0) (literal.1)
    else collapse_quoted elided head (codes "''") tail (find_text (codes "'") tail)

unfoldable pub collapse_turn : Text → CollapseStep
unfolding split_quote split_literal occurs
collapse_turn elided = collapse_at elided (split_quote elided)

abbrev pub put_before : Text → Option Text → Option Text
put_before piece none = none
put_before piece (some t) = some (piece ++ t)

-- The loop of _CollapseStrings; `none` means that the fuel ran out.
unfoldable pub collapse_from : ℕ → Text → Option Text
collapse_from zero elided = none
collapse_from (suc fuel) elided = elim (collapse_turn elided) [
  | ends piece ↦ some piece
  | goes piece rest ↦ put_before piece (collapse_from fuel rest)
]

unfoldable pub collapse : Text → Option Text
collapse elided = collapse_from (suc (length elided)) elided

-- _CollapseStrings
unfoldable pub collapse_strings : Text → Option Text
unfolding matches replace_all
collapse_strings elided =
    if matches include_pattern elided then some elided else collapse (replace_all escapes [] elided)
