-- ===== src/Lint/Checks/Braces.antt =====
-- .linters/cpp/cpplint.py: _IsType and CheckBracesSpacing.
use nebula_chaos.Prelude.{
  ℕ, zero, suc, ◌+◌, ◌-◌, Bool, true, false, ◌&&◌, not, Option, none, some, List, [], ◌∷◌, ◌++◌,
  any, leb, if◌then◌else◌, length, take, drop, get_or, Text, codes, is_found, find_text,
}
use nebula_chaos.Lint.Regex.{
  Pattern, Position, one, empty, seq, alt, many, group, boundary, line_end, line_start, is_space,
  all_of, any_of, text, one_of, none_of, any_char, optional, some_of, matches, occurs, match_re,
  group_of,
}
use nebula_chaos.Lint.Cleansed.{CleansedLines}
use nebula_chaos.Lint.State.{Failure}
use nebula_chaos.Lint.Brackets.{Closing, found, not_found, close_expression}
use nebula_chaos.Lint.Nesting.{Block, NestingState, namespace_info}
use nebula_chaos.Lint.Checks.{report, report_if, lit, word_of, spaces, some_spaces, no_space}

abbrev first_group : Position → Text
first_group p = elim (group_of p 1) [ none ↦ [] | some t ↦ t ]

-- _TYPES, whose last alternative is empty
abbrev pub types : Pattern
types =
    seq
      (any_of (seq (lit "char") (optional (word_of "16_t" ("32_t" ∷ [])))) (
        word_of "wchar_t" (
          "bool" ∷ "short" ∷ "int" ∷ "long" ∷ "signed" ∷ "unsigned" ∷ "float" ∷ "double"
          ∷ "ptrdiff_t" ∷ "size_t" ∷ "max_align_t" ∷ "nullptr_t" ∷ [])
        ∷ all_of (
            optional (lit "u")
            ∷ lit "int"
            ∷ optional (word_of "_fast" ("_least" ∷ []))
            ∷ word_of "8" ("16" ∷ "32" ∷ "64" ∷ [])
            ∷ lit "_t"
            ∷ [])
        ∷ all_of (optional (lit "u") ∷ lit "int" ∷ word_of "max" ("ptr" ∷ []) ∷ lit "_t" ∷ [])
        ∷ empty
        ∷ []))
      line_end

-- ^.*(\b\S+)$
unfoldable pub last_token : Text → Text
unfolding match_re group_of
last_token expr =
    elim (match_re
      (all_of (many any_char ∷ group 1 (seq boundary (some_of no_space)) ∷ line_end ∷ [])) expr) [
        | some p ↦ first_group p
        | none ↦ expr
      ]

-- The last of `n` lines from `start` on with "template" in it.
unfoldable pub find_template : List Text → ℕ → ℕ → Option ℕ
unfolding find_text
find_template elided start zero = none
find_template elided start (suc n) =
    let above = find_template elided start n in
    if is_found (find_text (codes "template") (get_or elided (start + n) []))
    then some (start + n)
    else above

abbrev next_block_start : List Block → ℕ
next_block_start [] = 0
next_block_start (b ∷ below) = b.starting_linenum

-- \b(?:typename|class|struct)\s+token\b
abbrev typename_pattern : Text → Pattern
typename_pattern token = all_of (
    boundary
    ∷ word_of "typename" ("class" ∷ "struct" ∷ [])
    ∷ some_spaces
    ∷ text token
    ∷ boundary
    ∷ [])

-- The parameters of a template in front of the block name the token.
unfoldable pub is_parameter : List Text → Text → Block → List Block → Bool
unfolding find_template occurs
is_parameter elided token top below =
    let last_line = top.starting_linenum in
    let start = next_block_start below in
    elim (find_template elided start (suc last_line - start)) [
      | none ↦ false
      | some first_line ↦
          any (occurs (typename_pattern token))
            (take (suc last_line - first_line) (drop first_line elided))
    ]

-- The loop over the blocks, up to a namespace.
unfoldable pub is_type_in : List Text → Text → List Block → Bool
unfolding is_parameter
is_type_in elided token [] = false
is_type_in elided token (top ∷ below) =
    let outer = is_type_in elided token below in
    elim (top.kind) [
      | namespace_info name ↦ false
      | _ ↦ if is_parameter elided token top below then true else outer
    ]

-- _IsType
unfoldable pub is_type : List Text → List Block → Text → Bool
unfolding last_token matches is_type_in
is_type elided stack expr =
    if matches types (last_token expr) then true else is_type_in elided (last_token expr) stack

abbrev join_lines : List Text → Text
join_lines [] = []
join_lines (line ∷ lines) = line ++ join_lines lines

-- trailing_text
abbrev pub trailing_text : CleansedLines → Closing → Text
trailing_text clean_lines (not_found line) = []
trailing_text clean_lines (found endline endlinenum endpos) =
    drop endpos endline
    ++ join_lines (
        take
          ((if leb (endlinenum + 3) (clean_lines.num_lines - 1)
              then endlinenum + 3
              else clean_lines.num_lines - 1)
            - (endlinenum + 1))
          (drop (endlinenum + 1) clean_lines.elided))

-- The check behind CloseExpression.
unfoldable pub check_initializer :
    CleansedLines → ℕ → List Block → Text → Option Closing → Option (List Failure)
unfolding matches is_type
check_initializer clean_lines linenum stack leading_text none = none
check_initializer clean_lines linenum stack leading_text (some closing) = some (
    report_if
      (not (
          matches (seq (many (alt (one is_space) (lit "}"))) (one_of (codes "{.;,)<>]:")))
            (trailing_text clean_lines closing))
        && not (is_type (clean_lines.elided) stack leading_text))
      (report linenum "whitespace/braces" 5 (codes "Missing space before {")))

abbrev pub brace_found : CleansedLines → ℕ → List Block → Option Position → Option (List Failure)
brace_found clean_lines linenum stack none = some []
brace_found clean_lines linenum stack (some p) =
    check_initializer clean_lines linenum stack (first_group p)
      (close_expression clean_lines.elided linenum (length (first_group p)))

-- ^(.*[^ ({>]){
abbrev joined_brace : Pattern
joined_brace = seq (group 1 (seq (many any_char) (none_of (codes " ({>")))) (lit "{")

-- The checks of semicolons.
unfoldable pub check_semicolons : Text → ℕ → List Failure
unfolding occurs
check_semicolons line linenum =
    if occurs (all_of (lit ":" ∷ spaces ∷ lit ";" ∷ spaces ∷ line_end ∷ [])) line
    then report linenum "whitespace/semicolon" 5
        (codes "Semicolon defining empty statement. Use {} instead.")
    else if occurs (all_of (line_start ∷ spaces ∷ lit ";" ∷ spaces ∷ line_end ∷ [])) line
    then report linenum "whitespace/semicolon" 5 (
        codes "Line contains only semicolon. If this should be an empty statement, use {} instead.")
    else report_if
        (occurs (all_of (some_spaces ∷ lit ";" ∷ spaces ∷ line_end ∷ [])) line
          && not (occurs (all_of (boundary ∷ lit "for" ∷ boundary ∷ [])) line))
        (report linenum "whitespace/semicolon" 5 (
          codes
            "Extra space before last semicolon. If this should be an empty statement, use {} instead."))

abbrev pub followed_by : Option (List Failure) → List Failure → Option (List Failure)
followed_by none later = none
followed_by (some before) later = some (before ++ later)

-- CheckBracesSpacing; `none` is an IndexError of CloseExpression.
unfoldable pub check_braces_spacing : CleansedLines → ℕ → NestingState → Option (List Failure)
unfolding match_re occurs check_initializer check_semicolons group_of close_expression
check_braces_spacing clean_lines linenum nesting_state =
    let line = get_or (clean_lines.elided) linenum [] in
    followed_by (brace_found clean_lines linenum (nesting_state.stack) (match_re joined_brace line))
      (report_if (occurs (lit "}else") line)
          (report linenum "whitespace/braces" 5 (codes "Missing space before else"))
        ++ check_semicolons line linenum)
