-- ===== src/Tests/Checks.antt =====
-- .linters/cpp/cpplint.py: the checks of lines on small inputs.
use nebula_chaos.Prelude.{
  ◌<◌, ℕ, ◌≡◌, ◌↔◌, refl, true, false, ◌||◌, none, some, List, [], ◌∷◌, codes, all, length, is_nil,
  ends_in, join_text, count_text, split_text, arith, find_text, replace_text, split_words, lstrip,
}
use nebula_chaos.Lint.Regex.{matches, occurs, match_re, search_re, group_of, replace_all}
use nebula_chaos.Lint.State.{Failure}
use nebula_chaos.Lint.Checks.Explicit.{
  is_unfinished, collapse_rest, collapse_args, constructor_args, check_constructor,
}
use nebula_chaos.Lint.Checks.Explicit.Arguments.{
  is_finished, constructor_args-join, constructor_args-raises,
}
use nebula_chaos.Lint.Checks.Whole.{mark_lines, read_lines, check_for_newline_at_eof}
use nebula_chaos.Lint.Checks.Whole.Newline.{check_for_newline_at_eof-read_lines}
use nebula_chaos.Lint.Checks.Functions.{
  FunctionState, base_trigger, check_function, log_from, error_level, check_for_function_lengths,
  is_starting_func, find_body, name_function, begin_function,
}
use nebula_chaos.Lint.Checks.Functions.Triggers.{is_fitting, check_function-fits}
use nebula_chaos.Lint.Checks.Calls.{check_behind_opening}
use nebula_chaos.Lint.Checks.Remarks.{check_comment, check_comment_at, check_todo}
use nebula_chaos.Lint.Checks.Constructs.{check_declarations, check_format_strings}

args_run :
    constructor_args (codes "map<int, int> m, int n = f(1, 2)")
    ≡ some (codes "map<int, int> m" ∷ codes " int n = f(1, 2)" ∷ [])
unfolding constructor_args collapse_args collapse_rest is_unfinished split_text count_text
args_run = refl

args_small : constructor_args (codes "A<b, c> d, e") ≡ some (codes "A<b, c> d" ∷ codes " e" ∷ [])
unfolding constructor_args collapse_args collapse_rest is_unfinished split_text count_text
args_small = refl

constructor_args-join_example :
    (join_text 44 (codes "A<b, c> d" ∷ codes " e" ∷ []) ≡ codes "A<b, c> d, e")
    × (all is_finished (codes "A<b, c> d" ∷ codes " e" ∷ []) ≡ true)
constructor_args-join_example =
    constructor_args-join (codes "A<b, c> d, e") (codes "A<b, c> d" ∷ codes " e" ∷ []) args_small

more :
    count_text (codes ">") (codes "bool b = 1 < 2")
    < count_text (codes "<") (codes "bool b = 1 < 2")
unfolding count_text
more = omega arith

constructor_args-raises_example : constructor_args (codes "bool b = 1 < 2") ≡ none
constructor_args-raises_example = constructor_args-raises (codes "bool b = 1 < 2") more

-- A constructor with such a default makes cpplint raise an IndexError.
constructor_raises : check_constructor (codes "A") (codes "  A(bool b = 1 < 2);") 1 ≡ none
unfolding check_constructor match_re group_of constructor_args collapse_args collapse_rest
    is_unfinished split_text count_text
constructor_raises = refl

check_for_newline_at_eof-read_lines_example :
    (check_for_newline_at_eof (mark_lines (read_lines (codes "a\r\nb\n")).lines) ≡ [])
    ↔ (is_nil (codes "a\r\nb\n") || ends_in 10 (codes "a\r\nb\n") ≡ true)
check_for_newline_at_eof-read_lines_example = check_for_newline_at_eof-read_lines (codes "a\r\nb\n")

abbrev long_function : FunctionState
long_function = record {
  in_a_function = true;
  lines_in_function = 1100;
  current_function = codes "f()";
}

check_function-fits_example :
    all (is_fitting (base_trigger (codes "f()")) 1100 1) (check_function 1 long_function 7) ≡ true
check_function-fits_example = check_function-fits 1 long_function 7

length_level : error_level 1100 250 ≡ 2
unfolding error_level log_from
length_level = refl

function_starts :
    check_for_function_lengths 0
      (record {
        elided = [];
        lines = codes "void A::f(int a," ∷ codes "   int b) {" ∷ [];
        raw_lines = [];
        num_lines = 2;
        lines_without_raw_strings = [];
      })
      0
      (record { in_a_function = false; lines_in_function = 3; current_function = [] })
    ≡ (
      record { in_a_function = true; lines_in_function = 0; current_function = codes "A::f()" },
      [],
    )
unfolding check_for_function_lengths is_starting_func find_body name_function begin_function
    match_re group_of matches occurs search_re split_words lstrip
function_starts = refl

abbrev categories : List Failure → List (ℕ × ℕ)
categories [] = []
categories (f ∷ fs) = (length f.category, f.confidence) ∷ categories fs

spaces_in_call : categories (check_behind_opening (codes "f( 1 )") 1) ≡ (17, 4) ∷ []
unfolding check_behind_opening occurs
spaces_in_call = refl

comment_runs :
    categories (check_comment (codes "x = 1; //TODO: y") 4 0) ≡ (19, 2) ∷ (16, 2) ∷ (19, 4) ∷ []
unfolding check_comment check_comment_at check_todo find_text count_text replace_all matches
    match_re group_of
comment_runs = refl

constructs_run :
    categories (check_declarations (codes "const static int a = b >? c;") 3)
    ≡ (19, 5) ∷ (16, 3) ∷ []
unfolding check_declarations occurs matches
constructs_run = refl

formats_run :
    categories (check_format_strings (codes "printf(\"%qd \\%\", a);") 3) ≡ (21, 3) ∷ (19, 3) ∷ []
unfolding check_format_strings occurs replace_text
formats_run = refl
