-- ===== src/Lint/Checks/Features.antt =====
-- .linters/cpp/cpplint.py: FlagCxx11Features and FlagCxx14Features.
use nebula_chaos.Prelude.{
  ℕ, Bool, false, ◌&&◌, ◌||◌, not, none, some, List, [], ◌∷◌, ◌++◌, get_or, String, Text, codes,
  text_eq, starts_with,
}
use nebula_chaos.Lint.Regex.{
  Pattern, Position, seq, group, boundary, all_of, one_of, none_of, some_of, matches, occurs,
  match_re, group_of,
}
use nebula_chaos.Lint.Cleansed.{CleansedLines}
use nebula_chaos.Lint.State.{Failure}
use nebula_chaos.Lint.Checks.{report, report_if, lit, spaces, some_spaces}

abbrev first_group : Position → Text
first_group p = elim (group_of p 1) [ none ↦ [] | some t ↦ t ]

-- \s*#\s*include\s+[<"]([^<"]+)[">]
abbrev include_line : Pattern
include_line = all_of (
    spaces
    ∷ lit "#"
    ∷ spaces
    ∷ lit "include"
    ∷ some_spaces
    ∷ one_of (codes "<\"")
    ∷ group 1 (some_of (none_of (codes "<\"")))
    ∷ one_of (codes "\">")
    ∷ [])

-- The header that the line includes; a header has a name, so the empty text stands for none.
unfoldable pub included : Text → Text
unfolding match_re group_of
included line = elim (match_re include_line line) [ none ↦ [] | some p ↦ first_group p ]

abbrev is_one_of : List String → Text → Bool
is_one_of [] t = false
is_one_of (name ∷ names) t = text_eq t (codes name) || is_one_of names t

unfoldable pub flag_headers : Text → ℕ → List Failure
unfolding included
flag_headers line linenum =
    report_if (starts_with (codes "tr1/") (included line)) (
      report linenum "build/c++tr1" 5
        (codes "C++ TR1 headers such as <" ++ (included line ++ codes "> are unapproved.")))
    ++ report_if
        (is_one_of
          ("cfenv" ∷ "condition_variable" ∷ "fenv.h" ∷ "future" ∷ "mutex" ∷ "thread" ∷ "chrono"
            ∷ "ratio" ∷ "regex" ∷ "system_error" ∷ [])
          (included line))
        (report linenum "build/c++11" 5
          (codes "<" ++ (included line ++ codes "> is an unapproved C++11 header.")))

unfoldable pub flag_name : String → Text → ℕ → List Failure
unfolding occurs
flag_name top_name line linenum =
    report_if (occurs (all_of (boundary ∷ lit "std::" ∷ lit top_name ∷ boundary ∷ [])) line) (
      report linenum "build/c++11" 5 (
        codes "std::"
        ++ (codes top_name
            ++ codes
                " is an unapproved C++11 class or function.  Send c-style an example of where it would make your code more readable, and they may let you use it.")))

-- FlagCxx11Features
unfoldable pub flag_cxx11_features : CleansedLines → ℕ → List Failure
unfolding flag_headers matches flag_name
flag_cxx11_features clean_lines linenum =
    let line = get_or (clean_lines.elided) linenum [] in
    flag_headers line linenum
    ++ report_if
        (not (
          matches (seq spaces (lit "#")) line
          && not
              (matches (all_of (spaces ∷ lit "#" ∷ spaces ∷ lit "define" ∷ boundary ∷ [])) line)))
        (flag_name "alignment_of" line linenum ++ flag_name "aligned_union" line linenum)

-- FlagCxx14Features
unfoldable pub flag_cxx14_features : CleansedLines → ℕ → List Failure
unfolding included
flag_cxx14_features clean_lines linenum =
    let header = included (get_or (clean_lines.elided) linenum []) in
    report_if (is_one_of ("scoped_allocator" ∷ "shared_mutex" ∷ []) header) (
      report linenum "build/c++14" 5
        (codes "<" ++ (header ++ codes "> is an unapproved C++14 header.")))
