-- ===== src/Lint/Checks/Constructs.antt =====
-- .linters/cpp/cpplint.py: the checks that look for a pattern in one line.
use nebula_chaos.Prelude.{
  ℕ, ◌+◌, ◌%◌, ◌||◌, not, List, [], ◌∷◌, ◌++◌, ltb, ◌==◌, get_or, String, Text, codes, count_text,
  replace_text,
}
use nebula_chaos.Lint.Regex.{
  Pattern, one, seq, alt, many, boundary, line_start, is_space, is_digit, all_of, any_of, one_of,
  none_of, any_char, optional, some_of, matches, occurs,
}
use nebula_chaos.Lint.Cleansed.{CleansedLines}
use nebula_chaos.Lint.State.{Failure}
use nebula_chaos.Lint.Checks.{
  report, report_if, lit, word_of, spaces, some_spaces, some_words, digits,
}

-- CheckForMultilineCommentsAndStrings: the parity of the difference is that of the sum.
unfoldable pub check_for_multiline_comments_and_strings : CleansedLines → ℕ → List Failure
unfolding count_text replace_text
check_for_multiline_comments_and_strings clean_lines linenum =
    let line = replace_text (codes "\\\\") [] (get_or (clean_lines.elided) linenum []) in
    report_if (ltb (count_text (codes "*/") line) (count_text (codes "/*") line)) (
      report linenum "readability/multiline_comment" 5 (
        codes
          "Complex multi-line /*...*/-style comment found. Lint may give bogus warnings.  Consider replacing these with //-style comments, with #if 0...#endif, or with more clearly structured multi-line comments."))
    ++ report_if ((count_text (codes "\"") line + count_text (codes "\\\"") line) % 2 == 1) (
        report linenum "readability/multiline_string" 5 (
          codes
            "Multi-line string (\"...\") found.  This lint script doesn't do well with such strings, and may give bogus warnings.  Use C++11 raw strings or concatenation instead."))

-- _UNSAFE_FUNC_PREFIX
abbrev unsafe_func_prefix : Pattern
unsafe_func_prefix = alt (seq (one_of (codes "-+*/=%^&|(<")) spaces) (seq (lit ">") some_spaces)

-- A row of _THREADING_LIST: the name without the bracket, and whether it is called with arguments.
-- The names of the row are the name with `(` and with `_r(`.
pub data UnsafeCall : Type 0 where
  with_arguments : String → UnsafeCall
  without_arguments : String → UnsafeCall

abbrev pub threading_list : List UnsafeCall
threading_list =
    with_arguments "asctime"
    ∷ with_arguments "ctime"
    ∷ with_arguments "getgrgid"
    ∷ with_arguments "getgrnam"
    ∷ without_arguments "getlogin"
    ∷ with_arguments "getpwnam"
    ∷ with_arguments "getpwuid"
    ∷ with_arguments "gmtime"
    ∷ with_arguments "localtime"
    ∷ without_arguments "rand"
    ∷ with_arguments "strtok"
    ∷ with_arguments "ttyname"
    ∷ []

abbrev pub unsafe_name : UnsafeCall → String
unsafe_name (with_arguments name) = name
unsafe_name (without_arguments name) = name

-- The third column of the row.
abbrev pub unsafe_pattern : UnsafeCall → Pattern
unsafe_pattern (with_arguments name) =
    all_of (unsafe_func_prefix ∷ lit name ∷ lit "(" ∷ some_of (none_of (codes ")")) ∷ lit ")" ∷ [])
unsafe_pattern (without_arguments name) = all_of (unsafe_func_prefix ∷ lit name ∷ lit "()" ∷ [])

abbrev pub unsafe_failure : ℕ → String → List Failure
unsafe_failure linenum name = report linenum "runtime/threadsafe_fn" 2 (
    codes "Consider using "
    ++ (codes name
        ++ (codes "_r(...) instead of "
            ++ (codes name ++ codes "(...) for improved thread safety."))))

unfoldable pub check_calls : List UnsafeCall → Text → ℕ → List Failure
unfolding occurs
check_calls [] line linenum = []
check_calls (call ∷ calls) line linenum =
    report_if (occurs (unsafe_pattern call) line) (unsafe_failure linenum (unsafe_name call))
    ++ check_calls calls line linenum

-- CheckPosixThreading
unfoldable pub check_posix_threading : CleansedLines → ℕ → List Failure
unfolding check_calls
check_posix_threading clean_lines linenum =
    check_calls threading_list (get_or (clean_lines.elided) linenum []) linenum

-- CheckVlogArguments
unfoldable pub check_vlog_arguments : CleansedLines → ℕ → List Failure
unfolding occurs
check_vlog_arguments clean_lines linenum =
    report_if
      (occurs
        (all_of (
          boundary
          ∷ lit "VLOG("
          ∷ word_of "INFO" ("ERROR" ∷ "WARNING" ∷ "DFATAL" ∷ "FATAL" ∷ [])
          ∷ lit ")"
          ∷ []))
        (get_or (clean_lines.elided) linenum []))
      (report linenum "runtime/vlog" 5 (
        codes
          "VLOG() should be used with numeric verbosity level.  Use LOG() if you want symbolic severity levels."))

-- CheckInvalidIncrement
unfoldable pub check_invalid_increment : CleansedLines → ℕ → List Failure
unfolding matches
check_invalid_increment clean_lines linenum =
    report_if
      (matches (all_of (spaces ∷ lit "*" ∷ some_words ∷ word_of "++" ("--" ∷ []) ∷ lit ";" ∷ []))
        (get_or (clean_lines.elided) linenum []))
      (report linenum "runtime/invalid_increment" 5
        (codes "Changing pointer instead of value (or unused value of operator*)."))

-- printf\s*\(.*".*%
abbrev printf_string : Pattern
printf_string =
    all_of
      (lit "printf" ∷ spaces ∷ lit "(" ∷ many any_char ∷ lit "\"" ∷ many any_char ∷ lit "%" ∷ [])

-- The checks of CheckForNonStandardConstructs on a line with its strings.
unfoldable pub check_format_strings : Text → ℕ → List Failure
unfolding occurs replace_text
check_format_strings line linenum =
    report_if
      (occurs (all_of (printf_string ∷ optional (one_of (codes "-+ ")) ∷ digits ∷ lit "q" ∷ []))
        line)
      (report linenum "runtime/printf_format" 3
        (codes "%q in format strings is deprecated.  Use %ll instead."))
    ++ (report_if (occurs (all_of (printf_string ∷ some_of (one is_digit) ∷ lit "$" ∷ [])) line) (
          report linenum "runtime/printf_format" 2
            (codes "%N$ formats are unconventional.  Try rewriting to avoid them."))
        ++ report_if
            (occurs
              (all_of
                (one_of (codes "\"'") ∷ many any_char ∷ lit "\\" ∷ one_of (codes "%[({") ∷ []))
              (replace_text (codes "\\\\") [] line))
            (report linenum "build/printf_format" 3
              (codes "%, [, (, and { are undefined character escapes.  Unescape them.")))

-- \b(const|volatile|…)\s+(register|static|extern|typedef)\b
abbrev storage_behind_type : Pattern
storage_behind_type = all_of (
    boundary
    ∷ any_of
        (word_of "const" (
          "volatile" ∷ "void" ∷ "char" ∷ "short" ∷ "int" ∷ "long" ∷ "float" ∷ "double" ∷ "signed"
          ∷ "unsigned" ∷ "schar" ∷ []))
        (seq (optional (lit "u")) (word_of "int8" ("int16" ∷ "int32" ∷ "int64" ∷ [])) ∷ [])
    ∷ some_spaces
    ∷ word_of "register" ("static" ∷ "extern" ∷ "typedef" ∷ [])
    ∷ boundary
    ∷ [])

-- (\w+|[+-]?\d+(\.\d*)?)\s*(<|>)\?=?\s*(\w+|[+-]?\d+)(\.\d*)?
abbrev min_or_max : Pattern
min_or_max =
    let number = seq (optional (one_of (codes "+-"))) (some_of (one is_digit)) in
    let fraction = optional (seq (lit ".") digits) in
    all_of (
      alt some_words (seq number fraction)
      ∷ spaces
      ∷ one_of (codes "<>")
      ∷ lit "?"
      ∷ optional (lit "=")
      ∷ spaces
      ∷ alt some_words number
      ∷ fraction
      ∷ [])

-- The checks of CheckForNonStandardConstructs on a line without comments and strings.
unfoldable pub check_declarations : Text → ℕ → List Failure
unfolding occurs matches
check_declarations line linenum =
    report_if (occurs storage_behind_type line) (
      report linenum "build/storage_class" 5 (
        codes
          "Storage-class specifier (static, extern, typedef, etc) should be at the beginning of the declaration."))
    ++ (report_if
          (matches
            (all_of (
              spaces
              ∷ lit "#"
              ∷ spaces
              ∷ lit "endif"
              ∷ spaces
              ∷ some_of (one (λ c. not ((c == 47) || is_space c)))
              ∷ []))
            line)
          (report linenum "build/endif_comment" 5
            (codes "Uncommented text after #endif is non-standard.  Use a comment."))
        ++ (report_if
              (matches
                (all_of (
                  spaces
                  ∷ lit "class"
                  ∷ some_spaces
                  ∷ some_of (all_of (some_words ∷ spaces ∷ lit "::" ∷ spaces ∷ []))
                  ∷ some_words
                  ∷ spaces
                  ∷ lit ";"
                  ∷ []))
                line)
              (report linenum "build/forward_decl" 5
                (codes "Inner-style forward declarations are invalid.  Remove this line."))
            ++ (report_if (occurs min_or_max line) (
                  report linenum "build/deprecated" 3
                    (codes ">? and <? (max and min) operators are non-standard and deprecated."))
                ++ report_if
                    (occurs
                      (all_of (
                        line_start
                        ∷ spaces
                        ∷ lit "const"
                        ∷ spaces
                        ∷ lit "string"
                        ∷ spaces
                        ∷ lit "&"
                        ∷ spaces
                        ∷ some_words
                        ∷ spaces
                        ∷ lit ";"
                        ∷ []))
                      line)
                    (report linenum "runtime/member_string_references" 2 (
                      codes
                        "const string& members are dangerous. It is much better to use alternatives, such as pointers or simple constants.")))))
