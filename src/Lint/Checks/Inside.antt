-- ===== src/Lint/Checks/Inside.antt =====
-- .linters/cpp/cpplint.py: _GetTextInside.
pub mod Matched
pub mod Found
use nebula_chaos.Prelude.{
  ℕ, Bool, ◌||◌, ◌==◌, Option, none, some, List, [], ◌∷◌, if◌then◌else◌, Text,
}
use nebula_chaos.Lint.Regex.{Pattern, Position, search_re}

-- matching_punctuation, and what is in closing_punctuation.
abbrev pub matching : ℕ → Option ℕ
matching c =
    if c == b'('
    then some b')'
    else if c == b'{'
    then some b'}'
    else if c == b'['
    then some b']'
    else none

abbrev pub is_closing : ℕ → Bool
is_closing c = (c == b')') || ((c == b'}') || (c == b']'))

-- One turn of the loop, by the character and the top of the stack.
pub data InsideTurn : Type 0 where
  pops fails stays : InsideTurn
  pushes : ℕ → InsideTurn

abbrev open_turn : Option ℕ → InsideTurn
open_turn none = stays
open_turn (some closing) = pushes closing

unfoldable pub inside_turn : ℕ → ℕ → InsideTurn
inside_turn top c =
    if c == top then pops else if is_closing c then fails else open_turn (matching c)

abbrev pub put_char : ℕ → Option Text → Option Text
put_char c none = none
put_char c (some t) = some (c ∷ t)

-- The loop, which collects the text in front of the last character that it pops.
unfoldable pub inside_from : ℕ → List ℕ → Text → Option Text
inside_from top stack [] = none
inside_from top stack (c ∷ t) = elim (inside_turn top c) [
  | pops ↦ elim stack [ [] ↦ some [] | next ∷ below ↦ put_char c (inside_from next below t) ]
  | fails ↦ none
  | stays ↦ put_char c (inside_from top stack t)
  | pushes closing ↦ put_char c (inside_from closing (top ∷ stack) t)
]

-- The text, None, or a failed assertion.
pub data TextInside : Type 0 where
  inside : Text → TextInside
  no_text : TextInside
  asserts : TextInside

abbrev pub as_text : Option Text → TextInside
as_text none = no_text
as_text (some t) = inside t

abbrev opened_by : Text → Text → TextInside
opened_by [] rest = asserts
opened_by (c ∷ before) rest = elim (matching c) [
  | none ↦ asserts
  | some closing ↦ as_text (inside_from closing [] rest)
]

abbrev start_found : Option Position → TextInside
start_found none = no_text
start_found (some p) = opened_by p.before p.rest

-- _GetTextInside; the patterns that it is called with have no ^ and no $.
unfoldable pub get_text_inside : Text → Pattern → TextInside
unfolding search_re inside_from
get_text_inside text start_pattern = start_found (search_re start_pattern text)
