-- ===== src/Lint/Brackets.antt =====
-- .linters/cpp/cpplint.py: matching brackets over several lines. A nesting stack is a list with
-- its top in front; a line is walked from a position on, with the text in front of it at hand.
pub mod Lines
pub mod Soundness
pub mod Balance
pub mod Reverse
pub mod Bounds
use nebula_chaos.Prelude.{
  ℕ, suc, ◌+◌, ◌-◌, Bool, false, ◌&&◌, ◌||◌, not, Option, none, some, List, [], ◌∷◌, ◌==◌,
  if◌then◌else◌, take, drop, get_elem?, reverse, Text, codes, is_nil,
}
use nebula_chaos.Lint.Regex.{
  Pattern, one, many, boundary, line_end, all_of, text, one_of, is_space, matches, occurs,
}

-- What is found on a line: the position behind the match, or at it when the walk goes backwards;
-- brackets that do not fit, (-1, None); or the end of the line, (-1, stack).
pub data Scan : Type 0 where
  closed : ℕ → Scan
  unbalanced : Scan
  pending : List ℕ → Scan

-- What a character does: the walk goes on, passes over one more character, or stops.
pub data Turn : Type 0 where
  goes skips : List ℕ → Turn
  stops : Scan → Turn

abbrev pub is_opening : ℕ → Bool
is_opening c = (c == b'(') || (c == b'[') || (c == b'{')

abbrev pub is_closing : ℕ → Bool
is_closing c = (c == b')') || (c == b']') || (c == b'}')

-- The two brackets are a pair.
abbrev pub fits : ℕ → ℕ → Bool
fits o c =
    ((o == b'(') && (c == b')')) || ((o == b'[') && (c == b']')) || ((o == b'{') && (c == b'}'))

-- while stack and stack[-1] == mark: stack.pop()
unfoldable pub pop_marks : ℕ → List ℕ → List ℕ
pop_marks mark [] = []
pop_marks mark (s ∷ stack) =
    let rest = pop_marks mark stack in if s == mark then rest else s ∷ stack

-- r'\boperator\s*$'
abbrev operator_end : Pattern
operator_end = all_of (boundary ∷ text (codes "operator") ∷ many (one is_space) ∷ line_end ∷ [])

-- The text in front of a position is kept backwards.
unfoldable pub ends_with_operator : Text → Bool
ends_with_operator before = occurs operator_end (reverse before)

abbrev pub previous_is : ℕ → Text → Bool
previous_is c [] = false
previous_is c (p ∷ before) = p == c

abbrev pub tail_of : Text → Text
tail_of [] = []
tail_of (p ∷ before) = before

-- The stack behind a pop that must leave something.
abbrev pub unless_empty : Scan → List ℕ → Turn
unless_empty s [] = stops s
unless_empty s (x ∷ stack) = goes (x ∷ stack)

-- The cases of the loop body in FindEndOfExpressionInLine, for the character at position `i`.
unfoldable pub end_angle : Text → List ℕ → Turn
end_angle before stack =
    if previous_is b'<' before
    then elim stack [
      | [] ↦ goes []
      | s ∷ r ↦ if s == b'<' then unless_empty unbalanced r else goes (s ∷ r)
    ]
    else if not (is_nil before) && ends_with_operator before
    then goes stack
    else goes (b'<' ∷ stack)

abbrev pub close_popped : (ℕ → Bool) → Scan → List ℕ → Turn
close_popped pairs result [] = stops unbalanced
close_popped pairs result (s ∷ r) = if pairs s then unless_empty result r else stops unbalanced

unfoldable pub close_bracket : ℕ → (ℕ → Bool) → Scan → List ℕ → Turn
unfolding pop_marks
close_bracket mark pairs result stack = close_popped pairs result (pop_marks mark stack)

unfoldable pub close_angle : Text → ℕ → List ℕ → Turn
close_angle before i stack =
    if not (is_nil before) && (previous_is b'-' before || ends_with_operator (tail_of before))
    then goes stack
    else elim stack [
      | [] ↦ goes []
      | s ∷ r ↦ if s == b'<' then unless_empty (closed (i + 1)) r else goes (s ∷ r)
    ]

unfoldable pub end_of_statement : ℕ → List ℕ → Turn
unfolding pop_marks
end_of_statement mark stack = unless_empty unbalanced (pop_marks mark stack)

unfoldable pub end_turn : Text → ℕ → ℕ → List ℕ → Turn
unfolding end_angle close_bracket close_angle end_of_statement
end_turn before c i stack =
    if is_opening c
    then goes (c ∷ stack)
    else if c == b'<'
    then end_angle before stack
    else if is_closing c
    then close_bracket b'<' (λ s. fits s c) (closed (i + 1)) stack
    else if c == b'>'
    then close_angle before i stack
    else if c == b';'
    then end_of_statement b'<' stack
    else goes stack

-- FindEndOfExpressionInLine from position `i` on.
unfoldable pub scan_end : Text → ℕ → Text → List ℕ → Scan
scan_end before i [] stack = pending stack
scan_end before i (c ∷ rest) stack = elim (end_turn before c i stack) [
  | goes stack' ↦ scan_end (c ∷ before) (i + 1) rest stack'
  | skips stack' ↦ scan_end (c ∷ before) (i + 1) rest stack'
  | stops s ↦ s
]

unfoldable pub find_end_of_expression_in_line : Text → ℕ → List ℕ → Scan
unfolding scan_end
find_end_of_expression_in_line line startpos stack =
    scan_end (reverse (take startpos line)) startpos (drop startpos line) stack

-- (line, linenum, pos), or -1 for the position with the last line that was read.
pub data Closing : Type 0 where
  found : (line : Text) (linenum pos : ℕ) → Closing
  not_found : (line : Text) → Closing

-- The loop of CloseExpression over the lines behind line `n`.
unfoldable pub close_lines : ℕ → Text → List ℕ → List Text → Closing
close_lines n line stack [] = not_found line
close_lines n line stack (l ∷ lines) =
    let next : Closing = elim (find_end_of_expression_in_line l 0 stack) [
      | closed pos ↦ found l (n + 1) pos
      | unbalanced ↦ not_found l
      | pending stack' ↦ close_lines (n + 1) l stack' lines
    ] in
    if is_nil stack then not_found line else next

-- r'<[<=]'
abbrev shift_or_compare : Pattern
shift_or_compare = all_of (text (codes "<") ∷ one_of (codes "<=") ∷ [])

-- CloseExpression, where `none` is an IndexError.
-- What follows the scan of the first line.
abbrev pub close_from : List Text → ℕ → Text → Scan → Closing
close_from elided linenum line (closed end) = found line linenum end
close_from elided linenum line unbalanced = not_found line
close_from elided linenum line (pending stack) =
    close_lines linenum line stack (drop (suc linenum) elided)

unfoldable pub close_at : List Text → ℕ → ℕ → Text → ℕ → Closing
close_at elided linenum pos line c =
    if not (is_opening c || (c == b'<')) || matches shift_or_compare (drop pos line)
    then not_found line
    else close_from elided linenum line (find_end_of_expression_in_line line pos [])

unfoldable pub close_expression : List Text → ℕ → ℕ → Option Closing
unfolding close_at
close_expression elided linenum pos = elim (get_elem? elided linenum) [
  | none ↦ none
  | some line ↦ elim (get_elem? line pos) [
    | none ↦ none
    | some c ↦ some (close_at elided linenum pos line c)
  ]
]
