-- ===== src/Lint/State/Nolint.antt =====
-- .linters/cpp/cpplint.py: ParseNolintSuppressions, and the categories that it knows.
pub mod Lines
use nebula_chaos.Prelude.{
  ℕ, ◌+◌, ◌-◌, ◌&&◌, Option, none, some, List, [], ◌∷◌, any, take, drop, length, if◌then◌else◌,
  Text, codes, ◌++◌, text_eq, starts_with, ends_with,
}
use nebula_chaos.Lint.Regex.{
  Pattern, Position, group, boundary, all_of, text, none_of, optional, some_of, search_re, group_of,
}
use nebula_chaos.Lint.State.{Failure, Suppressions}

-- _ERROR_CATEGORIES
abbrev pub error_categories : List Text
error_categories =
    codes "build/class"
    ∷ codes "build/c++11"
    ∷ codes "build/c++14"
    ∷ codes "build/c++tr1"
    ∷ codes "build/deprecated"
    ∷ codes "build/endif_comment"
    ∷ codes "build/explicit_make_pair"
    ∷ codes "build/forward_decl"
    ∷ codes "build/header_guard"
    ∷ codes "build/include"
    ∷ codes "build/include_subdir"
    ∷ codes "build/include_alpha"
    ∷ codes "build/include_order"
    ∷ codes "build/include_what_you_use"
    ∷ codes "build/namespaces_literals"
    ∷ codes "build/namespaces"
    ∷ codes "build/printf_format"
    ∷ codes "build/storage_class"
    ∷ codes "legal/copyright"
    ∷ codes "readability/alt_tokens"
    ∷ codes "readability/braces"
    ∷ codes "readability/casting"
    ∷ codes "readability/check"
    ∷ codes "readability/constructors"
    ∷ codes "readability/fn_size"
    ∷ codes "readability/inheritance"
    ∷ codes "readability/multiline_comment"
    ∷ codes "readability/multiline_string"
    ∷ codes "readability/namespace"
    ∷ codes "readability/nolint"
    ∷ codes "readability/nul"
    ∷ codes "readability/strings"
    ∷ codes "readability/todo"
    ∷ codes "readability/utf8"
    ∷ codes "runtime/arrays"
    ∷ codes "runtime/casting"
    ∷ codes "runtime/explicit"
    ∷ codes "runtime/int"
    ∷ codes "runtime/init"
    ∷ codes "runtime/invalid_increment"
    ∷ codes "runtime/member_string_references"
    ∷ codes "runtime/memset"
    ∷ codes "runtime/indentation_namespace"
    ∷ codes "runtime/operator"
    ∷ codes "runtime/printf"
    ∷ codes "runtime/printf_format"
    ∷ codes "runtime/references"
    ∷ codes "runtime/string"
    ∷ codes "runtime/threadsafe_fn"
    ∷ codes "runtime/vlog"
    ∷ codes "whitespace/blank_line"
    ∷ codes "whitespace/braces"
    ∷ codes "whitespace/comma"
    ∷ codes "whitespace/comments"
    ∷ codes "whitespace/empty_conditional_body"
    ∷ codes "whitespace/empty_if_body"
    ∷ codes "whitespace/empty_loop_body"
    ∷ codes "whitespace/end_of_line"
    ∷ codes "whitespace/ending_newline"
    ∷ codes "whitespace/forcolon"
    ∷ codes "whitespace/indent"
    ∷ codes "whitespace/line_length"
    ∷ codes "whitespace/newline"
    ∷ codes "whitespace/operators"
    ∷ codes "whitespace/parens"
    ∷ codes "whitespace/semicolon"
    ∷ codes "whitespace/tab"
    ∷ codes "whitespace/todo"
    ∷ []

-- _LEGACY_ERROR_CATEGORIES
abbrev pub legacy_error_categories : List Text
legacy_error_categories = codes "readability/streams" ∷ codes "readability/function" ∷ []

-- \bNOLINT(NEXTLINE)?\b(\([^)]+\))?
abbrev pub nolint : Pattern
nolint = all_of (
    boundary
    ∷ text (codes "NOLINT")
    ∷ optional (group 1 (text (codes "NEXTLINE")))
    ∷ boundary
    ∷ optional (
        group 2 (all_of (text (codes "(") ∷ some_of (none_of (codes ")")) ∷ text (codes ")") ∷ [])))
    ∷ [])

abbrev pub suppress : Option Text → ℕ → Suppressions → Suppressions
suppress category line s = record s { on_lines = (category, line) ∷ s.on_lines }

-- A category in brackets: the new suppressions, and the error about an unknown one.
unfoldable pub suppress_category : Text → ℕ → ℕ → Suppressions → Suppressions × List Failure
unfolding ends_with
suppress_category named linenum line s =
    let category = take (length named - 2) (drop 1 named) in
    if text_eq named (codes "(*)")
    then (suppress none line s, [])
    else if starts_with (codes "(") named && ends_with (codes ")") named
    then (if any (text_eq category) error_categories
        then (suppress (some category) line s, [])
        else if any (text_eq category) legacy_error_categories
        then (s, [])
        else (
          s,
          record {
            linenum = linenum;
            category = codes "readability/nolint";
            confidence = 5;
            message = codes "Unknown NOLINT error category: " ++ category;
          }
              ∷ [],
        ))
    else (s, [])

-- A comment on the line of number `linenum`, by its two groups.
unfoldable pub suppress_groups :
    Option Text → Option Text → ℕ → Suppressions → Suppressions × List Failure
unfolding suppress_category
suppress_groups none none linenum s = (suppress none linenum s, [])
suppress_groups (some t) none linenum s = (suppress none (linenum + 1) s, [])
suppress_groups none (some named) linenum s = suppress_category named linenum linenum s
suppress_groups (some t) (some named) linenum s = suppress_category named linenum (linenum + 1) s

abbrev pub parse_found : Option Position → ℕ → Suppressions → Suppressions × List Failure
parse_found none linenum s = (s, [])
parse_found (some p) linenum s = suppress_groups (group_of p 1) (group_of p 2) linenum s

-- ParseNolintSuppressions
unfoldable pub parse_nolint_suppressions : Text → ℕ → Suppressions → Suppressions × List Failure
unfolding suppress_groups search_re group_of
parse_nolint_suppressions raw_line linenum s = parse_found (search_re nolint raw_line) linenum s
