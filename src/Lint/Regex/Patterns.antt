-- ===== src/Lint/Regex/Patterns.antt =====
-- Patterns of regular expressions, and short names for the usual ones.
use nebula_chaos.Prelude.{ℕ, Bool, ◌==◌, not, List, [], ◌∷◌, Text, has_char}

pub data Pattern : Type 0 where
  -- one character that passes the test; the empty pattern
  one : (ℕ → Bool) → Pattern
  empty : Pattern
  seq alt : Pattern → Pattern → Pattern
  -- `*` and `*?`
  many many_lazy : Pattern → Pattern
  group : ℕ → Pattern → Pattern
  -- `$`, `^` and `\b`
  line_end line_start boundary : Pattern
  -- `(?=…)` and `(?!…)`
  ahead not_ahead : Pattern → Pattern

-- One after the other, and one of them.
abbrev pub all_of : List Pattern → Pattern
all_of [] = empty
all_of (a ∷ as') = seq a (all_of as')

abbrev pub any_of : Pattern → List Pattern → Pattern
any_of a [] = a
any_of a (b ∷ bs) = alt a (any_of b bs)

-- The text itself; one of its characters; a character that is not one of them.
abbrev pub text : Text → Pattern
text [] = empty
text (c ∷ t) = seq (one (λ d. d == c)) (text t)

abbrev pub one_of : Text → Pattern
one_of t = one (λ c. has_char c t)

abbrev pub none_of : Text → Pattern
none_of t = one (λ c. not (has_char c t))

-- `.`, `?` and `+`
abbrev pub any_char : Pattern
any_char = one (λ c. not (c == 10))

abbrev pub optional : Pattern → Pattern
optional a = alt a empty

abbrev pub some_of : Pattern → Pattern
some_of a = seq a (many a)
