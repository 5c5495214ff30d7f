-- ===== src/Lint/Brackets/Reverse.antt =====
-- .linters/cpp/cpplint.py: FindStartOfExpressionInLine and ReverseCloseExpression, which look for
-- the bracket that opens an expression.
pub mod Lines
pub mod Soundness
use nebula_chaos.Prelude.{
  ℕ, zero, suc, ◌-◌, Bool, false, ◌&&◌, ◌||◌, not, Option, none, some, List, [], ◌∷◌, ◌==◌,
  if◌then◌else◌, length, take, drop, get_elem?, reverse, Text, codes, is_nil,
}
use nebula_chaos.Lint.Regex.{Pattern, one, all_of, text, is_space, matches}
use nebula_chaos.Lint.Brackets.{
  Scan, closed, unbalanced, pending, Turn, goes, skips, stops, is_opening, is_closing, fits,
  ends_with_operator, previous_is, unless_empty, close_bracket, end_of_statement, Closing, found,
  not_found,
}

-- r'\s>=\s'
abbrev at_least : Pattern
at_least = all_of (one is_space ∷ text (codes ">=") ∷ one is_space ∷ [])

-- Match(r'\s>=\s', line[i - 1:]), where `c` stands at `i`
unfoldable pub is_at_least : Text → ℕ → Text → Bool
is_at_least [] c after = false
is_at_least (p ∷ before) c after = matches at_least (p ∷ c ∷ after)

-- The cases of the loop body, for the character `c` at position `i`.
unfoldable pub start_angle : Text → ℕ → Text → List ℕ → Turn
start_angle before c after stack =
    if not (is_nil before)
      && (previous_is b'-' before || is_at_least before c after || ends_with_operator before)
    then skips stack
    else goes (b'>' ∷ stack)

unfoldable pub open_angle : Text → ℕ → List ℕ → Turn
open_angle before i stack = if previous_is b'<' before then skips stack else elim stack [
  | [] ↦ goes []
  | s ∷ r ↦ if s == b'>' then unless_empty (closed i) r else goes (s ∷ r)
]

unfoldable pub start_turn : Text → ℕ → Text → ℕ → List ℕ → Turn
unfolding start_angle open_angle close_bracket end_of_statement
start_turn before c after i stack =
    if is_closing c
    then goes (c ∷ stack)
    else if c == b'>'
    then start_angle before c after stack
    else if c == b'<'
    then open_angle before i stack
    else if is_opening c
    then close_bracket b'>' (λ s. fits c s) (closed i) stack
    else if c == b';'
    then end_of_statement b'>' stack
    else goes stack

-- The walk backwards: the text up to the position, from the position backwards, and what stands
-- behind it. The position of the first character is the number of the others.
unfoldable pub scan_start : Text → Text → List ℕ → Scan
scan_start after [] stack = pending stack
scan_start after (c ∷ []) stack = elim (start_turn [] c after 0 stack) [
  | goes stack' ↦ pending stack'
  | skips stack' ↦ pending stack'
  | stops s ↦ s
]
scan_start after (c ∷ d ∷ before) stack =
    elim (start_turn (d ∷ before) c after (suc (length before)) stack) [
      | goes stack' ↦ scan_start (c ∷ after) (d ∷ before) stack'
      | skips stack' ↦ scan_start (d ∷ c ∷ after) before stack'
      | stops s ↦ s
    ]

-- FindStartOfExpressionInLine, where `count` is one more than the position to start from.
unfoldable pub find_start_of_expression_in_line : Text → ℕ → List ℕ → Scan
find_start_of_expression_in_line line count stack =
    scan_start (drop count line) (reverse (take count line)) stack

-- The loop of ReverseCloseExpression over the lines in front of line `n`, where `none` is an
-- IndexError.
unfoldable pub reverse_lines : List Text → ℕ → Text → List ℕ → Option Closing
reverse_lines elided zero line stack = some (not_found line)
reverse_lines elided (suc n) line stack =
    let next : Option Closing = elim (get_elem? elided n) [
      | none ↦ none
      | some l ↦ elim (find_start_of_expression_in_line l (length l) stack) [
        | closed pos ↦ some (found l n pos)
        | unbalanced ↦ some (not_found l)
        | pending stack' ↦ reverse_lines elided n l stack'
      ]
    ] in
    if is_nil stack then some (not_found line) else next

abbrev pub reverse_from : List Text → ℕ → Text → Scan → Option Closing
reverse_from elided linenum line (closed start) = some (found line linenum start)
reverse_from elided linenum line unbalanced = some (not_found line)
reverse_from elided linenum line (pending stack) = reverse_lines elided linenum line stack

unfoldable pub reverse_at : List Text → ℕ → ℕ → Text → ℕ → Option Closing
reverse_at elided linenum pos line c =
    if not (is_closing c || (c == b'>'))
    then some (not_found line)
    else reverse_from elided linenum line (find_start_of_expression_in_line line (suc pos) [])

unfoldable pub reverse_close_expression : List Text → ℕ → ℕ → Option Closing
unfolding reverse_at
reverse_close_expression elided linenum pos = elim (get_elem? elided linenum) [
  | none ↦ none
  | some line ↦ elim (get_elem? line pos) [
    | none ↦ none
    | some c ↦ reverse_at elided linenum pos line c
  ]
]
