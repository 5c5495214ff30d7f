-- ===== src/Lint/Cleansed.antt =====
-- .linters/cpp/cpplint.py: CleanseRawStrings, and the constructor of class CleansedLines.
pub mod Lines
use nebula_chaos.Prelude.{
  ℕ, zero, suc, ◌+◌, not, Option, none, some, List, [], ◌∷◌, ◌++◌, if◌then◌else◌, length, drop,
  Text, codes, find_text, has_char, ◌&&◌, map,
}
use nebula_chaos.Lint.Regex.{
  Pattern, Position, one, seq, alt, many, group, boundary, is_space, all_of, any_of, text, none_of,
  any_char, matches, match_re, group_of, search_split,
}
use nebula_chaos.Lint.Strings.{cleanse_comments, collapse_strings}

-- \b(?:R|u8R|uR|UR|LR)"([^\s\\()]*)\(
abbrev pub raw_string_start : Pattern
raw_string_start = all_of (
    boundary
    ∷ any_of (text (codes "R"))
        (text (codes "u8R") ∷ text (codes "uR") ∷ text (codes "UR") ∷ text (codes "LR") ∷ [])
    ∷ text (codes "\"")
    ∷ group 2 (many (one (λ c. not (is_space c) && not (has_char c (codes "\\()")))))
    ∷ text (codes "(")
    ∷ [])

-- \'(\\.|[^\'])*\' and the like for another quote
abbrev quoted : Text → Pattern
quoted quote =
    all_of
      (text quote ∷ many (alt (seq (text (codes "\\")) any_char) (none_of quote)) ∷ text quote ∷ [])

-- ^([^\'"]|\'(\\.|[^\'])*\'|"(\\.|[^"])*")*//
abbrev pub line_comment : Pattern
line_comment =
    seq (many (any_of (none_of (codes "'\"")) (quoted (codes "'") ∷ quoted (codes "\"") ∷ [])))
      (text (codes "//"))

abbrev pub text_of : Option Text → Text
text_of none = []
text_of (some t) = t

abbrev pub delimiter_of : Position → Text
delimiter_of p = codes ")" ++ (text_of (group_of p 2) ++ codes "\"")

-- One turn of the inner loop: the line as it is, the line where a raw string stays open, with its
-- delimiter, or the line with which the loop goes on.
pub data RawTurn : Type 0 where
  breaks : RawTurn
  opens : (line delimiter : Text) → RawTurn
  goes : (line : Text) → RawTurn

abbrev pub after_delimiter : Text → Text → Text → Option ℕ → RawTurn
after_delimiter front delimiter rest none = opens (front ++ codes "\"\"") delimiter
after_delimiter front delimiter rest (some end) =
    goes (front ++ (codes "\"\"" ++ drop (end + length delimiter) rest))

abbrev pub raw_found : Option (Text × Position) → RawTurn
raw_found none = breaks
raw_found (some (front, p)) =
    if matches line_comment front
    then breaks
    else after_delimiter front (delimiter_of p) p.rest (find_text (delimiter_of p) p.rest)

-- The raw string matches anywhere in the line; `(.*)$` takes the rest, since a line has no line feed.
unfoldable pub raw_turn : Text → RawTurn
unfolding search_split matches group_of
raw_turn line = raw_found (search_split raw_string_start line)

-- The inner loop of CleanseRawStrings; `none` means that the fuel ran out.
unfoldable pub cleanse_raw : ℕ → Text → Option (Text × Option Text)
cleanse_raw zero line = none
cleanse_raw (suc fuel) line = elim (raw_turn line) [
  | breaks ↦ some (line, none)
  | opens line' delimiter ↦ some (line', some delimiter)
  | goes line' ↦ cleanse_raw fuel line'
]

-- Match(r'^(\s*)\S', line).group(1), where `none` is the AttributeError of a None
unfoldable pub leading_space : Text → Option Text
unfolding match_re group_of
leading_space line =
    elim (match_re (seq (group 1 (many (one is_space))) (one (λ c. not (is_space c)))) line) [
      | none ↦ none
      | some p ↦ some (text_of (group_of p 1))
    ]

abbrev pub resumed : Text → Text → ℕ → Option Text → Option (Text × Option Text)
resumed line delimiter end none = none
resumed line delimiter end (some space) =
    let line' = space ++ (codes "\"\"" ++ drop (end + length delimiter) line) in
    cleanse_raw (suc (length line')) line'

-- A line that begins inside a raw string, by the end of the string in it.
unfoldable pub resume_raw : Text → Text → Option ℕ → Option (Text × Option Text)
unfolding leading_space
resume_raw line delimiter none = some (codes "\"\"", some delimiter)
resume_raw line delimiter (some end) = resumed line delimiter end (leading_space line)

-- One line, behind an open raw string or not; `none` is an AttributeError, or that the fuel ran out.
unfoldable pub cleanse_raw_line : Option Text → Text → Option (Text × Option Text)
cleanse_raw_line none line = cleanse_raw (suc (length line)) line
cleanse_raw_line (some delimiter) line = resume_raw line delimiter (find_text delimiter line)

-- The loop of CleanseRawStrings over the lines, whose end forgets an open string.
unfoldable pub cleanse_raw_lines : Option Text → List Text → Option (List Text)
cleanse_raw_lines delimiter [] = some []
cleanse_raw_lines delimiter (line ∷ lines) = elim (cleanse_raw_line delimiter line) [
  | none ↦ none
  | some (line', next) ↦ elim (cleanse_raw_lines next lines) [
    | none ↦ none
    | some lines' ↦ some (line' ∷ lines')
  ]
]

unfoldable pub cleanse_raw_strings : List Text → Option (List Text)
cleanse_raw_strings raw_lines = cleanse_raw_lines none raw_lines

pub record CleansedLines : Type 0 where
  pub elided : List Text
  pub lines : List Text
  pub raw_lines : List Text
  pub num_lines : ℕ
  pub lines_without_raw_strings : List Text

unfoldable pub elide_lines : List Text → Option (List Text)
unfolding collapse_strings cleanse_comments
elide_lines [] = some []
elide_lines (line ∷ rest) = elim (collapse_strings line) [
  | none ↦ none
  | some elided ↦ elim (elide_lines rest) [
    | none ↦ none
    | some more ↦ some (cleanse_comments elided ∷ more)
  ]
]

-- CleansedLines.__init__
unfoldable pub cleansed_lines : List Text → Option CleansedLines
cleansed_lines raw = elim (cleanse_raw_strings raw) [
  | none ↦ none
  | some without ↦ elim (elide_lines without) [
    | none ↦ none
    | some elided ↦ some (record {
      elided = elided;
      lines = map cleanse_comments without;
      raw_lines = raw;
      num_lines = length raw;
      lines_without_raw_strings = without;
    })
  ]
]
