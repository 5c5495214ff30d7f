-- ===== src/Lint/Nesting/Templates.antt =====
-- .linters/cpp/cpplint.py: NestingState.InTemplateArgumentList.
pub mod Ends
use nebula_chaos.Prelude.{
  ℕ, zero, suc, ◌+◌, ◌-◌, Bool, true, false, Option, none, some, List, [], ◌∷◌, leb, ◌==◌,
  if◌then◌else◌, length, drop, get_elem?, Text, codes, has_char,
}
use nebula_chaos.Lint.Regex.{
  Pattern, Position, seq, many, group, none_of, any_char, match_re, group_of,
}
use nebula_chaos.Lint.Brackets.{Closing, found, not_found, close_expression}

-- ^[^{};=\[\]\.<>]*(.)
abbrev pub next_token : Pattern
next_token = seq (many (none_of (codes "{};=[].<>"))) (group 1 any_char)

-- One turn of the loop: the result, or the place where the loop goes on.
pub data TemplateTurn : Type 0 where
  answers : Bool → TemplateTurn
  moves : (linenum pos : ℕ) → TemplateTurn
  -- the IndexError of a line that is not there
  raises : TemplateTurn

abbrev pub token_of : Position → ℕ
token_of p = elim (group_of p 1) [ some (c ∷ t) ↦ c | _ ↦ 0 ]

abbrev pub behind_closing : Option Closing → TemplateTurn
behind_closing none = raises
behind_closing (some (not_found line)) = answers false
behind_closing (some (found line end_line end_pos)) = moves end_line end_pos

-- The token, which ends in front of position `pos`.
unfoldable pub token_turn : List Text → ℕ → Text → ℕ → ℕ → TemplateTurn
unfolding close_expression
token_turn elided linenum line token pos =
    if has_char token (codes "{};")
    then answers false
    else if has_char token (codes ">=[].")
    then answers true
    else if token == b'<'
    then behind_closing (close_expression elided linenum (pos - 1))
    else if leb (length line) (pos + 1)
    then moves (linenum + 1) 0
    else moves linenum (pos + 1)

abbrev match_turn : List Text → ℕ → Text → ℕ → Option Position → TemplateTurn
match_turn elided linenum line pos none = moves (linenum + 1) 0
match_turn elided linenum line pos (some p) =
    token_turn elided linenum line (token_of p) (pos + length p.before)

unfoldable pub template_turn : List Text → ℕ → Text → ℕ → TemplateTurn
unfolding match_re group_of token_turn
template_turn elided linenum line pos =
    match_turn elided linenum line pos (match_re next_token (drop pos line))

-- The loop; `none` means that the fuel ran out, or an IndexError.
unfoldable pub template_from : ℕ → List Text → ℕ → ℕ → Option Bool
template_from zero elided linenum pos = none
template_from (suc fuel) elided linenum pos = elim (get_elem? elided linenum) [
  | none ↦ some false
  | some line ↦ elim (template_turn elided linenum line pos) [
    | answers b ↦ some b
    | moves linenum' pos' ↦ template_from fuel elided linenum' pos'
    | raises ↦ none
  ]
]

-- The number of characters and ends of lines, which bounds the number of turns.
unfoldable pub text_size : List Text → ℕ
text_size [] = 0
text_size (line ∷ lines) = suc (length line) + text_size lines

unfoldable pub in_template_argument_list : List Text → ℕ → ℕ → Option Bool
unfolding template_from text_size
in_template_argument_list elided linenum pos =
    template_from (suc (text_size elided)) elided linenum pos
