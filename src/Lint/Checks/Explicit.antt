-- ===== src/Lint/Checks/Explicit.antt =====
-- .linters/cpp/cpplint.py: the constructors that CheckForNonStandardConstructs looks at.
pub mod Arguments
use nebula_chaos.Prelude.{
  ℕ, ◌+◌, ◌-◌, Bool, true, false, ◌&&◌, ◌||◌, not, Option, none, some, List, [], ◌∷◌, ◌++◌, ltb,
  leb, ◌==◌, if◌then◌else◌, get_or, is_nil, length, String, Text, codes, text_eq, count_text,
  find_text, is_found, strip, split_text,
}
use nebula_chaos.Lint.Regex.{
  Pattern, Position, one, seq, alt, many, group, boundary, all_of, text, none_of, optional, matches,
  occurs, match_re, group_of,
}
use nebula_chaos.Lint.Cleansed.{CleansedLines}
use nebula_chaos.Lint.State.{Failure}
use nebula_chaos.Lint.Nesting.{Block, ClassInfo, class_info, NestingState}
use nebula_chaos.Lint.Checks.{report, report_if, lit, word_of, spaces, some_spaces, some_words}
use nebula_chaos.Lint.Checks.Constructs.{check_format_strings, check_declarations}

-- An argument with a bracket that is not closed yet.
unfoldable pub is_unfinished : Text → Bool
unfolding count_text
is_unfinished arg =
    ltb (count_text (codes ">") arg) (count_text (codes "<") arg)
    || ltb (count_text (codes ")") arg) (count_text (codes "(") arg)

abbrev pub put_arg : Text → Option (List Text) → Option (List Text)
put_arg arg none = none
put_arg arg (some args) = some (arg ∷ args)

-- The loops that collapse the arguments, from argument `arg` on; `none` is the IndexError behind
-- the last one.
unfoldable pub collapse_rest : Text → List Text → Option (List Text)
collapse_rest arg [] = if is_unfinished arg then none else some (arg ∷ [])
collapse_rest arg (next ∷ rest) = elim (is_unfinished arg) [
  | true ↦ collapse_rest (arg ++ (codes "," ++ next)) rest
  | false ↦ put_arg arg (collapse_rest next rest)
]

unfoldable pub collapse_args : List Text → Option (List Text)
unfolding collapse_rest
collapse_args [] = some []
collapse_args (arg ∷ args) = collapse_rest arg args

-- The arguments of a constructor, from the text between its brackets.
unfoldable pub constructor_args : Text → Option (List Text)
unfolding collapse_args split_text
constructor_args t = if is_nil t then some [] else collapse_args (split_text b',' t)

-- The number of arguments that hold the text.
unfoldable pub count_args : String → List Text → ℕ
unfolding find_text
count_args s [] = 0
count_args s (arg ∷ args) =
    (if is_found (find_text (codes s) arg) then 1 else 0) + count_args s args

unfoldable pub is_noarg : List Text → Bool
unfolding strip
is_noarg args =
    is_nil args || ((length args == 1) && text_eq (strip (get_or args 0 [])) (codes "void"))

unfoldable pub is_onearg : List Text → Bool
unfolding is_noarg count_args
is_onearg args =
    ((length args == 1) && not (is_noarg args))
    || ((leb 1 (length args)
          && (not (is_noarg args) && leb (length args - 1) (count_args "=" args)))
        || (leb (length args) 2 && leb 1 (count_args "&&..." args)))

-- \bstd\s*::\s*initializer_list\b
abbrev initializer_list : Pattern
initializer_list =
    all_of
      (boundary ∷ lit "std" ∷ spaces ∷ lit "::" ∷ spaces ∷ lit "initializer_list" ∷ boundary ∷ [])

-- (const\s+)?NAME(\s*<[^>]*>)?(\s+const)?\s*(?:<\w+>\s*)?&
abbrev copy_argument : Text → Pattern
copy_argument name = all_of (
    optional (seq (lit "const") some_spaces)
    ∷ text name
    ∷ optional (all_of (spaces ∷ lit "<" ∷ many (none_of (codes ">")) ∷ lit ">" ∷ []))
    ∷ optional (seq some_spaces (lit "const"))
    ∷ spaces
    ∷ optional (all_of (lit "<" ∷ some_words ∷ lit ">" ∷ spaces ∷ []))
    ∷ lit "&"
    ∷ [])

-- The checks on the arguments of a constructor.
unfoldable pub check_arguments : Text → Bool → List Text → ℕ → List Failure
unfolding is_noarg is_onearg count_args occurs matches strip
check_arguments name is_marked args linenum =
    let first = get_or args 0 [] in
    if not is_marked
      && (is_onearg args
          && (not (occurs initializer_list first)
              && not (matches (copy_argument name) (strip first))))
    then (if leb 1 (count_args "=" args) || leb 1 (count_args "&&..." args)
        then report linenum "runtime/explicit" 5
            (codes "Constructors callable with one argument should be marked explicit.")
        else report linenum "runtime/explicit" 5
            (codes "Single-parameter constructors should be marked explicit."))
    else report_if (is_marked && (not (is_onearg args) && is_noarg args)) (
        report linenum "runtime/explicit" 5
          (codes "Zero-parameter constructors should not be marked explicit."))

-- (?:(?:inline|constexpr)\s+)*
abbrev specifiers : Pattern
specifiers = many (seq (word_of "inline" ("constexpr" ∷ [])) some_spaces)

abbrev explicit_constructor : Text → Pattern
explicit_constructor name = all_of (
    some_spaces
    ∷ specifiers
    ∷ optional (group 1 (seq (lit "explicit") some_spaces))
    ∷ specifiers
    ∷ text name
    ∷ spaces
    ∷ lit "("
    ∷ group 2 (
        many (
          alt (none_of (codes "()"))
            (all_of (lit "(" ∷ many (none_of (codes "()")) ∷ lit ")" ∷ []))))
    ∷ lit ")"
    ∷ [])

-- name.split('::')[-1], with the part so far
unfoldable pub base_from : Text → Text → Text
base_from part [] = part
base_from part (c ∷ []) = part ++ c ∷ []
base_from part (c ∷ d ∷ rest) = elim ((c == 58) && (d == 58)) [
  | true ↦ base_from [] rest
  | false ↦ base_from (part ++ c ∷ []) (d ∷ rest)
]

unfoldable pub base_classname : Text → Text
unfolding base_from
base_classname name = base_from [] name

abbrev is_given : Option Text → Bool
is_given none = false
is_given (some t) = true

abbrev given : Option Text → Text
given none = []
given (some t) = t

abbrev pub check_given : Text → Bool → Option (List Text) → ℕ → Option (List Failure)
check_given name is_marked none linenum = none
check_given name is_marked (some args) linenum = some (check_arguments name is_marked args linenum)

abbrev pub check_match : Text → Option Position → ℕ → Option (List Failure)
check_match name none linenum = some []
check_match name (some p) linenum =
    check_given name (is_given (group_of p 1)) (constructor_args (given (group_of p 2))) linenum

-- The part of CheckForNonStandardConstructs behind the early return.
unfoldable pub check_constructor : Text → Text → ℕ → Option (List Failure)
unfolding match_re group_of constructor_args check_arguments
check_constructor name line linenum =
    check_match name (match_re (explicit_constructor name) line) linenum

-- InnermostClass, if the class has seen its opening brace.
unfoldable pub innermost_open_class : List Block → Option ClassInfo
innermost_open_class [] = none
innermost_open_class (top ∷ below) = elim (top.kind) [
  | class_info c ↦ if top.seen_open_brace then some c else none
  | _ ↦ innermost_open_class below
]

abbrev pub add_failures : List Failure → Option (List Failure) → Option (List Failure)
add_failures before none = none
add_failures before (some failures) = some (before ++ failures)

abbrev pub check_class : Option ClassInfo → Text → ℕ → Option (List Failure)
check_class none line linenum = some []
check_class (some c) line linenum = check_constructor (base_classname (c.name)) line linenum

-- CheckForNonStandardConstructs; `none` is an IndexError, which ends the run.
unfoldable pub check_for_non_standard_constructs :
    CleansedLines → ℕ → NestingState → Option (List Failure)
unfolding check_format_strings check_declarations innermost_open_class check_constructor
    base_classname
check_for_non_standard_constructs clean_lines linenum nesting_state =
    let line = get_or (clean_lines.elided) linenum [] in
    add_failures
      (check_format_strings (get_or (clean_lines.lines) linenum []) linenum
        ++ check_declarations line linenum)
      (check_class (innermost_open_class (nesting_state.stack)) line linenum)
