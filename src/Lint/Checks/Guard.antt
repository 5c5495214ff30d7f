-- ===== src/Lint/Checks/Guard.antt =====
-- .linters/cpp/cpplint.py: CheckForHeaderGuard, and the suppressions of a whole file. The variable
-- that GetHeaderGuardCPPVariable computes of the file name is an argument.
pub mod Silence
use nebula_chaos.Prelude.{
  ℕ, suc, ◌-◌, Bool, true, false, ◌&&◌, ◌||◌, not, Option, none, some, List, [], ◌∷◌, ◌++◌,
  if◌then◌else◌, is_nil, length, take, drop, get_or, any, String, Text, codes, text_eq, starts_with,
  split_words,
}
use nebula_chaos.Lint.Regex.{
  Pattern, Position, seq, alt, many, group, boundary, line_end, line_start, all_of, any_of, text,
  none_of, any_char, optional, matches, occurs, match_re, group_of,
}
use nebula_chaos.Lint.State.{Failure, Suppressions}
use nebula_chaos.Lint.State.Nolint.{parse_nolint_suppressions}
use nebula_chaos.Lint.Checks.{report, report_if, lit, spaces, some_spaces}

-- A comment or a pragma that makes the check return at once.
unfoldable pub is_silenced : List Text → Bool
unfolding occurs
is_silenced raw_lines =
    any (occurs (all_of (lit "//" ∷ spaces ∷ lit "NOLINT(build/header_guard)" ∷ []))) raw_lines
    || any (occurs (all_of (line_start ∷ spaces ∷ lit "#pragma" ∷ some_spaces ∷ lit "once" ∷ [])))
        raw_lines

-- What the loop over the lines finds.
pub record Guard : Type 0 where
  pub ifndef : Text
  pub ifndef_linenum : ℕ
  pub define : Text
  pub endif : Text
  pub endif_linenum : ℕ

abbrev pub no_guard : Guard
no_guard = record { ifndef = []; ifndef_linenum = 0; define = []; endif = []; endif_linenum = 0 }

-- The first two words of a line.
abbrev pub add_words : ℕ → List Text → Guard → Guard
add_words linenum (name ∷ arg ∷ rest) g =
    if is_nil g.ifndef && text_eq name (codes "#ifndef")
    then record g { ifndef = arg; ifndef_linenum = linenum }
    else if is_nil g.define && text_eq name (codes "#define")
    then record g { define = arg }
    else g
add_words linenum _ g = g

abbrev pub add_endif : ℕ → Text → Guard → Guard
add_endif linenum line g =
    if starts_with (codes "#endif") line
    then record g { endif = line; endif_linenum = linenum }
    else g

unfoldable pub find_guard : List Text → ℕ → Guard → Guard
unfolding split_words
find_guard [] linenum g = g
find_guard (line ∷ lines) linenum g =
    find_guard lines (suc linenum) (add_endif linenum line (add_words linenum (split_words line) g))

abbrev pub has_guard : Guard → Bool
has_guard g = not (is_nil g.ifndef) && (not (is_nil g.define) && text_eq g.ifndef g.define)

abbrev pub no_guard_failure : Text → List Failure
no_guard_failure cppvar =
    report 0 "build/header_guard" 5
      (codes "No #ifndef header guard found, suggested CPP variable is: " ++ cppvar)

-- The suppressions behind the check of the name, and what it reports.
unfoldable pub check_name : Text → Guard → List Text → Suppressions → Suppressions × List Failure
unfolding parse_nolint_suppressions
check_name cppvar g raw_lines s =
    if text_eq (g.ifndef) cppvar
    then (s, [])
    else let (s', before) =
        parse_nolint_suppressions (get_or raw_lines (g.ifndef_linenum) []) (g.ifndef_linenum) s in
      (
        s',
        before
            ++ report (g.ifndef_linenum) "build/header_guard"
                (if text_eq (g.ifndef) (cppvar ++ codes "_") then 0 else 5)
                (codes "#ifndef header guard has wrong style, please use: " ++ cppvar),
      )

-- A // or /* comment behind #endif; the names hold letters, digits and underscores only.
abbrev line_comment_end : Text → Pattern
line_comment_end cppvar = all_of (
    lit "#endif"
    ∷ spaces
    ∷ lit "//"
    ∷ spaces
    ∷ text cppvar
    ∷ optional (group 1 (lit "_"))
    ∷ boundary
    ∷ [])

abbrev block_comment_end : Text → Pattern
block_comment_end cppvar = all_of (
    lit "#endif"
    ∷ spaces
    ∷ lit "/*"
    ∷ spaces
    ∷ text cppvar
    ∷ optional (group 1 (lit "_"))
    ∷ spaces
    ∷ lit "*/"
    ∷ [])

-- ^(?:(?:\'(?:\.|[^\'])*\')|(?:"(?:\.|[^"])*")|[^\'"])*//
abbrev single_line_comment : Pattern
single_line_comment =
    seq (many (any_of (quoted "'") (quoted "\"" ∷ none_of (codes "'\"") ∷ []))) (lit "//")
  where
    quoted : String → Pattern
    quoted quote =
        all_of (lit quote ∷ many (alt (lit ".") (none_of (codes quote))) ∷ lit quote ∷ [])

-- A line between the first and the last has a // comment.
unfoldable pub has_line_comments : List Text → Bool
unfolding matches
has_line_comments raw_lines =
    any (matches single_line_comment) (take (length raw_lines - 2) (drop 1 raw_lines))

abbrev is_underscored : Position → Bool
is_underscored p = elim (group_of p 1) [ none ↦ false | some t ↦ true ]

abbrev pub endif_failure : ℕ → ℕ → Text → List Failure
endif_failure linenum confidence comment =
    report linenum "build/header_guard" confidence
      (codes "#endif line should be \"#endif  " ++ (comment ++ codes "\""))

abbrev check_block_comment : Text → Guard → Bool → Option Position → List Failure
check_block_comment cppvar g false o = endif_failure g.endif_linenum 5 (codes "// " ++ cppvar)
check_block_comment cppvar g true none = endif_failure g.endif_linenum 5 (codes "// " ++ cppvar)
check_block_comment cppvar g true (some p) =
    report_if (is_underscored p)
      (endif_failure g.endif_linenum 0 (codes "/* " ++ (cppvar ++ codes " */")))

abbrev check_line_comment : Text → Guard → List Text → Option Position → List Failure
check_line_comment cppvar g raw_lines (some p) =
    report_if (is_underscored p) (endif_failure g.endif_linenum 0 (codes "// " ++ cppvar))
check_line_comment cppvar g raw_lines none =
    check_block_comment cppvar g (not (has_line_comments raw_lines))
      (match_re (block_comment_end cppvar) g.endif)

unfoldable pub check_endif : Text → Guard → List Text → List Failure
unfolding match_re group_of has_line_comments
check_endif cppvar g raw_lines =
    check_line_comment cppvar g raw_lines (match_re (line_comment_end cppvar) g.endif)

-- The check of a guard that was found.
unfoldable pub check_guard : Text → Guard → List Text → Suppressions → Suppressions × List Failure
unfolding check_name check_endif parse_nolint_suppressions
check_guard cppvar g raw_lines s =
    let (s', name) = check_name cppvar g raw_lines s in
    let (s'', before) =
      parse_nolint_suppressions (get_or raw_lines (g.endif_linenum) []) (g.endif_linenum) s' in
    (s'', name ++ (before ++ check_endif cppvar g raw_lines))

-- CheckForHeaderGuard on lines_without_raw_strings
unfoldable pub check_for_header_guard :
    Text → List Text → Suppressions → Suppressions × List Failure
unfolding is_silenced find_guard check_guard
check_for_header_guard cppvar raw_lines s =
    let g = find_guard raw_lines 0 no_guard in
    if is_silenced raw_lines
    then (s, [])
    else if has_guard g
    then check_guard cppvar g raw_lines s
    else (s, no_guard_failure cppvar)

-- \b(?:LINT_C_FILE|vim?:\s*.*(\s*|:)filetype=c(\s*|:|$))
abbrev c_file : Pattern
c_file = seq boundary (
    alt (lit "LINT_C_FILE") (
      all_of (
        lit "vi"
        ∷ optional (lit "m")
        ∷ lit ":"
        ∷ spaces
        ∷ many any_char
        ∷ alt spaces (lit ":")
        ∷ lit "filetype=c"
        ∷ any_of spaces (lit ":" ∷ line_end ∷ [])
        ∷ [])))

abbrev kernel_file : Pattern
kernel_file = seq boundary (lit "LINT_KERNEL_FILE")

abbrev suppress_everywhere : Bool → String → Suppressions → Suppressions
suppress_everywhere false category s = s
suppress_everywhere true category s = record s { everywhere = codes category ∷ s.everywhere }

-- ProcessGlobalSuppresions
unfoldable pub process_global_suppresions : List Text → Suppressions → Suppressions
unfolding occurs
process_global_suppresions [] s = s
process_global_suppresions (line ∷ lines) s = process_global_suppresions lines (
    suppress_everywhere (occurs kernel_file line) "whitespace/tab"
      (suppress_everywhere (occurs c_file line) "readability/casting" s))

-- ResetNolintSuppressions
unfoldable pub reset_nolint_suppressions : Suppressions → Suppressions
reset_nolint_suppressions s = record { everywhere = []; on_lines = [] }
