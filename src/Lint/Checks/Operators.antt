-- ===== src/Lint/Checks/Operators.antt =====
-- .linters/cpp/cpplint.py: CheckOperatorSpacing.
use nebula_chaos.Prelude.{
  ℕ, zero, suc, Bool, ◌&&◌, ◌||◌, ◌==◌, not, Option, none, some, List, [], ◌∷◌, ◌++◌, if◌then◌else◌,
  is_nil, length, get_or, all, map, Text, codes, text_eq, has_char,
}
use nebula_chaos.Lint.Regex.{
  Pattern, Position, one, seq, alt, many, group, boundary, line_end, is_space, is_word, is_digit,
  is_letter, all_of, any_of, text, any_char, optional, some_of, matches, occurs, match_re,
  search_re, group_of,
}
use nebula_chaos.Lint.Cleansed.{CleansedLines}
use nebula_chaos.Lint.State.{Failure}
use nebula_chaos.Lint.Brackets.{Closing, found, not_found, close_expression}
use nebula_chaos.Lint.Brackets.Reverse.{reverse_close_expression}
use nebula_chaos.Lint.Checks.{report, report_if, lit, word_of, spaces, no_space}

abbrev group_text : Position → ℕ → Text
group_text p n = elim (group_of p n) [ none ↦ [] | some t ↦ t ]

-- ^(.*\boperator\b)(\S+)(\s*\(.*)$
abbrev operator_method : Pattern
operator_method = all_of (
    group 1 (all_of (many any_char ∷ boundary ∷ lit "operator" ∷ boundary ∷ []))
    ∷ group 2 (some_of no_space)
    ∷ group 3 (all_of (spaces ∷ lit "(" ∷ many any_char ∷ []))
    ∷ line_end
    ∷ [])

-- The loop that puts underscores for the name of an operator. Each round takes away a character
-- that is no underscore, the one behind `operator\b`, so fuel above the length is enough.
unfoldable pub hide_operators : ℕ → Text → Text
unfolding match_re group_of
hide_operators zero line = line
hide_operators (suc fuel) line = elim (match_re operator_method line) [
  | none ↦ line
  | some p ↦
      hide_operators fuel (group_text p 1 ++ (map (λ c. 95) (group_text p 2) ++ group_text p 3))
]

abbrev word_or_dot : Pattern
word_or_dot = one (λ c. is_word c || (c == 46))

unfoldable pub check_assignment : Text → ℕ → List Failure
unfolding occurs
check_assignment line linenum =
    report_if
      ((occurs (seq word_or_dot (lit "=")) line || occurs (seq (lit "=") word_or_dot) line)
        && (not
              (occurs (all_of (boundary ∷ word_of "if" ("while" ∷ "for" ∷ []) ∷ lit " " ∷ [])) line)
            && (not (
                  occurs
                    (word_of ">="
                      ("<=" ∷ "==" ∷ "!=" ∷ "&=" ∷ "^=" ∷ "|=" ∷ "+=" ∷ "*=" ∷ "/=" ∷ "%=" ∷ []))
                    line)
                && not (occurs (lit "operator=") line))))
      (report linenum "whitespace/operators" 4 (codes "Missing spaces around ="))

-- [^<>=!\s](==|!=|<=|>=|\|\|)[^<>=!\s,;\)]
abbrev comparison : Pattern
comparison = all_of (
    one (λ c. not (is_space c) && not (has_char c (codes "<>=!")))
    ∷ group 1 (word_of "==" ("!=" ∷ "<=" ∷ ">=" ∷ "||" ∷ []))
    ∷ one (λ c. not (is_space c) && not (has_char c (codes "<>=!,;)")))
    ∷ [])

-- Nothing is found behind, where the position is -1; `none` is an IndexError.
abbrev pub unless_found : Option Closing → List Failure → Option (List Failure)
unless_found none failures = none
unless_found (some (not_found line)) failures = some failures
unless_found (some (found line linenum pos)) failures = some []

-- ^(.*[^\s<])<[^\s=<,] and ^(.*[^-\s>])>[^\s=>,]
abbrev tight_angle : Text → Text → Text → Pattern
tight_angle front angle behind = all_of (
    group 1 (seq (many any_char) (one (λ c. not (is_space c) && not (has_char c front))))
    ∷ text angle
    ∷ one (λ c. not (is_space c) && not (has_char c behind))
    ∷ [])

abbrev pub less_found : List Text → ℕ → Option Position → Option (List Failure)
less_found elided linenum none = some []
less_found elided linenum (some p) =
    unless_found (close_expression elided linenum (length (group_text p 1)))
      (report linenum "whitespace/operators" 3 (codes "Missing spaces around <"))

abbrev pub greater_found : List Text → ℕ → Option Position → Option (List Failure)
greater_found elided linenum none = some []
greater_found elided linenum (some p) =
    unless_found (reverse_close_expression elided linenum (length (group_text p 1)))
      (report linenum "whitespace/operators" 3 (codes "Missing spaces around >"))

abbrev pub both : Option (List Failure) → Option (List Failure) → Option (List Failure)
both none more = none
both (some failures) none = none
both (some failures) (some more) = some (failures ++ more)

unfoldable pub check_angles : List Text → Text → ℕ → Option (List Failure)
unfolding match_re group_of close_expression reverse_close_expression
check_angles elided line linenum =
    both
      (less_found elided linenum
        (match_re (tight_angle (codes "<") (codes "<") (codes "=<,")) line))
      (greater_found elided linenum
        (match_re (tight_angle (codes "->") (codes ">") (codes "=>,")) line))

abbrev pub comparison_found : List Text → Text → ℕ → Option Position → Option (List Failure)
comparison_found elided line linenum (some p) =
    some
      (report linenum "whitespace/operators" 3 (codes "Missing spaces around " ++ group_text p 1))
comparison_found elided line linenum none =
    if matches (all_of (lit "#" ∷ many any_char ∷ lit "include" ∷ [])) line
    then some []
    else check_angles elided line linenum

unfoldable pub check_comparisons : List Text → Text → ℕ → Option (List Failure)
unfolding search_re group_of matches check_angles
check_comparisons elided line linenum =
    comparison_found elided line linenum (search_re comparison line)

-- (operator|[^\s(<])(?:L|UL|LL|ULL|l|ul|ll|ull)?<<([^\s,=<])
abbrev left_shift : Pattern
left_shift = all_of (
    group 1 (alt (lit "operator") (one (λ c. not (is_space c) && not (has_char c (codes "(<")))))
    ∷ optional (word_of "L" ("UL" ∷ "LL" ∷ "ULL" ∷ "l" ∷ "ul" ∷ "ll" ∷ "ull" ∷ []))
    ∷ lit "<<"
    ∷ group 2 (one (λ c. not (is_space c) && not (has_char c (codes ",=<"))))
    ∷ [])

-- t.isdigit()
abbrev is_number : Text → Bool
is_number t = not (is_nil t) && all is_digit t

abbrev pub shift_found : Option Position → ℕ → List Failure
shift_found none linenum = []
shift_found (some p) linenum =
    report_if
      (not (is_number (group_text p 1) && is_number (group_text p 2))
        && not
            (text_eq (group_text p 1) (codes "operator") && text_eq (group_text p 2) (codes ";")))
      (report linenum "whitespace/operators" 3 (codes "Missing spaces around <<"))

-- (!\s|~\s|[\s]--[\s;]|[\s]\+\+[\s;])
abbrev spaced_unary : Pattern
spaced_unary = group 1 (
    any_of (seq (lit "!") (one is_space)) (
      seq (lit "~") (one is_space)
      ∷ all_of (one is_space ∷ lit "--" ∷ one (λ c. is_space c || (c == 59)) ∷ [])
      ∷ all_of (one is_space ∷ lit "++" ∷ one (λ c. is_space c || (c == 59)) ∷ [])
      ∷ []))

abbrev pub unary_found : Option Position → ℕ → List Failure
unary_found none linenum = []
unary_found (some p) linenum =
    report linenum "whitespace/operators" 4 (codes "Extra space for operator " ++ group_text p 1)

-- The checks behind those of comparisons.
unfoldable pub check_shifts : Text → ℕ → List Failure
unfolding search_re group_of occurs
check_shifts line linenum =
    shift_found (search_re left_shift line) linenum
    ++ (report_if (occurs (seq (lit ">>") (one (λ c. is_letter c || (c == 95)))) line)
          (report linenum "whitespace/operators" 3 (codes "Missing spaces around >>"))
        ++ unary_found (search_re spaced_unary line) linenum)

abbrev pub around : List Failure → Option (List Failure) → List Failure → Option (List Failure)
around before none behind = none
around before (some failures) behind = some (before ++ (failures ++ behind))

-- CheckOperatorSpacing; `none` is an IndexError.
unfoldable pub check_operator_spacing : CleansedLines → ℕ → Option (List Failure)
unfolding hide_operators check_assignment check_comparisons check_shifts
check_operator_spacing clean_lines linenum =
    let elided = clean_lines.elided in
    let line = get_or elided linenum [] in
    let hidden = hide_operators (suc (length line)) line in
    around (check_assignment hidden linenum) (check_comparisons elided hidden linenum)
      (check_shifts hidden linenum)
