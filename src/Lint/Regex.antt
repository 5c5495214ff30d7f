-- ===== src/Lint/Regex.antt =====
-- What cpplint.py uses of Python's `re`: patterns as data, and the backtracking match, which tries
-- the alternatives in Python's order and takes the first that lets the rest of the pattern match.
mod Patterns
pub mod Width
pub mod Spaces
pub use Patterns.*
use nebula_chaos.Prelude.{
  ℕ, zero, suc, ◌-◌, ◌≡◌, refl, Bool, true, false, ◌&&◌, ◌||◌, Option, none, some, List, [], ◌∷◌,
  ◌++◌, ltb, leb, ◌==◌, if◌then◌else◌, length, take, reverse, Text, codes, is_nil,
}
use nebula_chaos.Lint.Regex.Patterns.{
  Pattern, one, empty, seq, alt, many, many_lazy, group, line_end, line_start, boundary, ahead,
  not_ahead,
}

-- A position in the text, with what the groups have matched so far, the last match first.
pub record Position : Type 0 where
  -- the text in front of the position, from the position backwards
  pub before : Text
  pub rest : Text
  pub groups : List (ℕ × Text)

abbrev pub Matcher : Type 0
Matcher = Position → (Position → Option Position) → Option Position

-- The first of two attempts that succeeds; the second is made only if the first one fails.
first_of_two : Matcher → Matcher → Matcher
first_of_two m n p k = elim (m p k) [ some r ↦ some r | none ↦ n p k ]

step_over : (ℕ → Bool) → Text → Position → (Position → Option Position) → Option Position
step_over test [] p k = none
step_over test (c ∷ rest) p k =
    if test c then k (record p { before = c ∷ p.before; rest = rest }) else none

-- A round that matches nothing ends the repetition. Fuel above the length of the rest is enough.
repeat : ℕ → Matcher → Matcher
unfolding first_of_two
repeat zero m p k = k p
repeat (suc fuel) m p k =
    first_of_two
      (λ q k'. m q (λ r. if ltb (length r.rest) (length q.rest) then repeat fuel m r k' else none))
      (λ q k'. k' q) p k

repeat_lazy : ℕ → Matcher → Matcher
unfolding first_of_two
repeat_lazy zero m p k = k p
repeat_lazy (suc fuel) m p k =
    first_of_two (λ q k'. k' q)
      (λ q k'.
        m q (λ r. if ltb (length r.rest) (length q.rest) then repeat_lazy fuel m r k' else none))
      p k

abbrev pub is_digit : ℕ → Bool
is_digit c = leb 48 c && leb c 57

abbrev pub is_letter : ℕ → Bool
is_letter c = (leb 97 c && leb c 122) || (leb 65 c && leb c 90)

-- \w and \s, of ASCII text
abbrev pub is_word : ℕ → Bool
is_word c = is_letter c || is_digit c || (c == 95)

abbrev pub is_space : ℕ → Bool
is_space c = (c == 32) || (leb 9 c && leb c 13)

first_is_word : Text → Bool
first_is_word [] = false
first_is_word (c ∷ t) = is_word c

-- `$` also stands in front of a line feed at the end.
at_end : Text → Bool
at_end [] = true
at_end (c ∷ t) = (c == 10) && is_nil t

abbrev is_some_position : Option Position → Bool
is_some_position none = false
is_some_position (some p) = true

run_pattern : Pattern → Matcher
unfolding first_of_two step_over repeat repeat_lazy first_is_word at_end
run_pattern (one test) p k = step_over test p.rest p k
run_pattern empty p k = k p
run_pattern (seq a b) p k = run_pattern a p (λ q. run_pattern b q k)
run_pattern (alt a b) p k = first_of_two (run_pattern a) (run_pattern b) p k
run_pattern (many a) p k = repeat (suc (length p.rest)) (run_pattern a) p k
run_pattern (many_lazy a) p k = repeat_lazy (suc (length p.rest)) (run_pattern a) p k
run_pattern (group n a) p k = run_pattern a p (λ q. k (record q {
  groups = (n, reverse (take (length q.before - length p.before) q.before)) ∷ q.groups;
}))
run_pattern line_end p k = if at_end p.rest then k p else none
run_pattern line_start p k = if is_nil p.before then k p else none
run_pattern boundary p k = elim (first_is_word p.before) [
  | true ↦ if first_is_word p.rest then none else k p
  | false ↦ if first_is_word p.rest then k p else none
]
run_pattern (ahead a) p k = elim (run_pattern a p some) [ some q ↦ k p | none ↦ none ]
run_pattern (not_ahead a) p k = elim (run_pattern a p some) [ some q ↦ none | none ↦ k p ]

-- Match(pattern, s)
unfoldable pub match_re : Pattern → Text → Option Position
unfolding run_pattern
match_re a s = run_pattern a (record { before = []; rest = s; groups = [] }) some

search_from : Pattern → Text → Text → Option Position
unfolding run_pattern
search_from a before [] = run_pattern a (record { before = before; rest = []; groups = [] }) some
search_from a before (c ∷ rest) =
    elim (run_pattern a (record { before = before; rest = c ∷ rest; groups = [] }) some) [
      | some p ↦ some p
      | none ↦ search_from a (c ∷ before) rest
    ]

-- Search(pattern, s)
unfoldable pub search_re : Pattern → Text → Option Position
unfolding search_from
search_re a s = search_from a [] s

unfoldable pub matches : Pattern → Text → Bool
unfolding match_re
matches a s = is_some_position (match_re a s)

unfoldable pub occurs : Pattern → Text → Bool
unfolding search_re
occurs a s = is_some_position (search_re a s)

split_from : Pattern → Text → Text → Option (Text × Position)
unfolding run_pattern
split_from a before [] =
    elim (run_pattern a (record { before = before; rest = []; groups = [] }) some) [
      | some p ↦ some (reverse before, p)
      | none ↦ none
    ]
split_from a before (c ∷ rest) =
    elim (run_pattern a (record { before = before; rest = c ∷ rest; groups = [] }) some) [
      | some p ↦ some (reverse before, p)
      | none ↦ split_from a (c ∷ before) rest
    ]

-- Match(r'^(.*?)' + pattern, s): the first group, and the match. The text has no line feed.
unfoldable pub search_split : Pattern → Text → Option (Text × Position)
unfolding split_from
search_split a s = split_from a [] s

-- The text behind position `before` with each match replaced, where no match is empty.
sub_from : ℕ → Pattern → Text → Text → Text → Text
unfolding run_pattern
sub_from zero a rep before rest = rest
sub_from (suc fuel) a rep before [] = []
sub_from (suc fuel) a rep before (c ∷ rest) =
    elim (run_pattern a (record { before = before; rest = c ∷ rest; groups = [] }) some) [
      | some p ↦
          if ltb (length p.rest) (length (c ∷ rest))
          then rep ++ sub_from fuel a rep p.before p.rest
          else c ∷ sub_from fuel a rep (c ∷ before) rest
      | none ↦ c ∷ sub_from fuel a rep (c ∷ before) rest
    ]

-- ReplaceAll(pattern, rep, s)
unfoldable pub replace_all : Pattern → Text → Text → Text
unfolding sub_from
replace_all a rep s = sub_from (suc (length s)) a rep [] s

find_group : ℕ → List (ℕ × Text) → Option Text
find_group n [] = none
find_group n ((m, t) ∷ gs) = if m == n then some t else find_group n gs

-- m.group(n), where `none` is Python's None
unfoldable pub group_of : Position → ℕ → Option Text
unfolding find_group
group_of p n = find_group n p.groups

digits_then_end :
    match_re (seq (group 1 (many (one is_digit))) line_end) (codes "12")
    ≡ some (record { before = codes "21"; rest = []; groups = (1, codes "12") ∷ [] })
unfolding match_re
digits_then_end = refl
