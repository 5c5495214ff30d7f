-- ===== src/Lint/State.antt =====
-- .linters/cpp/cpplint.py: class _CppLintState, and the functions that decide which errors are printed.
pub mod Filters
pub mod Counts
pub mod Nolint
use nebula_chaos.Prelude.{
  ℕ, ◌+◌, Bool, true, false, ◌&&◌, ◌||◌, not, Option, none, some, List, [], ◌∷◌, ◌++◌, ltb, ◌==◌,
  if◌then◌else◌, drop, all, any, is_nil, get_or, Text, codes, text_eq, starts_with, strip,
  split_text,
}

-- SetCountingStyle
pub data Counting : Type 0 where
  total : Counting
  toplevel : Counting
  detailed : Counting

pub record Failure : Type 0 where
  pub linenum : ℕ
  pub category : Text
  pub confidence : ℕ
  pub message : Text

-- What Error keeps for the end (AddJUnitFailure), and what it has written to a stream.
pub record CppLintState : Type 0 where
  pub verbose_level : ℕ
  pub error_count : ℕ
  pub filters : List Text
  pub filters_backup : List Text
  pub counting : Counting
  pub errors_by_category : List (Text × ℕ)
  pub output_format : Text
  pub junit_failures : List Failure
  pub written : List Failure

abbrev pub default_filters : List Text
default_filters = codes "-build/include_alpha" ∷ []

unfoldable pub initial : CppLintState
initial = record {
  verbose_level = 1;
  error_count = 0;
  filters = default_filters;
  filters_backup = default_filters;
  counting = total;
  errors_by_category = [];
  output_format = codes "emacs";
  junit_failures = [];
  written = [];
}

abbrev pub with_filters : List Text → CppLintState → CppLintState
with_filters fs state = record {
  verbose_level = state.verbose_level;
  error_count = state.error_count;
  filters = fs;
  filters_backup = state.filters_backup;
  counting = state.counting;
  errors_by_category = state.errors_by_category;
  output_format = state.output_format;
  junit_failures = state.junit_failures;
  written = state.written;
}

abbrev pub with_counts : ℕ → List (Text × ℕ) → CppLintState → CppLintState
with_counts n counts state = record {
  verbose_level = state.verbose_level;
  error_count = n;
  filters = state.filters;
  filters_backup = state.filters_backup;
  counting = state.counting;
  errors_by_category = counts;
  output_format = state.output_format;
  junit_failures = state.junit_failures;
  written = state.written;
}

abbrev pub is_signed : Text → Bool
is_signed filter = starts_with (codes "+") filter || starts_with (codes "-") filter

-- The filters that AddFilters finds between the commas.
abbrev pub clean_filters : List Text → List Text
clean_filters [] = []
clean_filters (filter ∷ rest) =
    if is_nil (strip filter) then clean_filters rest else strip filter ∷ clean_filters rest

-- AddFilters: whether it ends without a ValueError, and the state, which is changed in both cases.
unfoldable pub add_filters : Text → CppLintState → Bool × CppLintState
unfolding split_text
add_filters text state =
    let fs = state.filters ++ clean_filters (split_text b',' text) in
    (all is_signed fs, with_filters fs state)

-- SetFilters
unfoldable pub set_filters : Text → CppLintState → Bool × CppLintState
unfolding add_filters
set_filters text state = add_filters text (with_filters default_filters state)

-- BackupFilters
unfoldable pub backup_filters : CppLintState → CppLintState
backup_filters state = record {
  verbose_level = state.verbose_level;
  error_count = state.error_count;
  filters = state.filters;
  filters_backup = state.filters;
  counting = state.counting;
  errors_by_category = state.errors_by_category;
  output_format = state.output_format;
  junit_failures = state.junit_failures;
  written = state.written;
}

-- RestoreFilters
unfoldable pub restore_filters : CppLintState → CppLintState
restore_filters state = with_filters (state.filters_backup) state

-- ResetErrorCounts
unfoldable pub reset_error_counts : CppLintState → CppLintState
reset_error_counts state = with_counts 0 [] state

-- errors_by_category[category] += 1, where a new category starts from 0.
unfoldable pub bump : Text → List (Text × ℕ) → List (Text × ℕ)
bump category [] = (category, 1) ∷ []
bump category ((name, n) ∷ rest) =
    if text_eq name category then (name, n + 1) ∷ rest else (name, n) ∷ bump category rest

-- What IncrementErrorCount makes of errors_by_category.
unfoldable pub count_category : Counting → Text → List (Text × ℕ) → List (Text × ℕ)
unfolding split_text
count_category total category counts = counts
count_category toplevel category counts = bump (get_or (split_text b'/' category) 0 []) counts
count_category detailed category counts = bump category counts

-- IncrementErrorCount
unfoldable pub increment_error_count : Text → CppLintState → CppLintState
increment_error_count category state =
    with_counts (state.error_count + 1)
      (count_category (state.counting) category (state.errors_by_category)) state

-- _global_error_suppressions and _error_suppressions, whose key None is `none`.
pub record Suppressions : Type 0 where
  pub everywhere : List Text
  pub on_lines : List (Option Text × ℕ)

-- IsErrorSuppressedByNolint
abbrev pub holds_on : Text → ℕ → Option Text × ℕ → Bool
holds_on category linenum (none, line) = line == linenum
holds_on category linenum (some name, line) = text_eq name category && (line == linenum)

unfoldable pub is_error_suppressed_by_nolint : Suppressions → Text → ℕ → Bool
is_error_suppressed_by_nolint suppressions category linenum =
    any (text_eq category) (suppressions.everywhere)
    || any (holds_on category linenum) (suppressions.on_lines)

-- The loop of _ShouldPrintError over the filters; `none` is its failed assertion.
unfoldable pub is_filtered_from : Bool → List Text → Text → Option Bool
is_filtered_from filtered [] category = some filtered
is_filtered_from filtered (filter ∷ rest) category =
    let hit = starts_with (drop 1 filter) category in
    let hides = is_filtered_from (filtered || hit) rest category in
    let shows = is_filtered_from (filtered && not hit) rest category in
    if starts_with (codes "-") filter
    then hides
    else if starts_with (codes "+") filter
    then shows
    else none

abbrev negated : Option Bool → Option Bool
negated none = none
negated (some b) = some (not b)

-- _ShouldPrintError
unfoldable pub should_print_error : Suppressions → CppLintState → Text → ℕ → ℕ → Option Bool
should_print_error suppressions state category confidence linenum =
    if is_error_suppressed_by_nolint suppressions category linenum
    then some false
    else if ltb confidence (state.verbose_level)
    then some false
    else negated (is_filtered_from false (state.filters) category)

-- The failure goes to the list for JUnit, or to a stream.
abbrev pub put_out : Failure → CppLintState → CppLintState
put_out failure state =
    let is_junit = text_eq (state.output_format) (codes "junit") in
    record {
      verbose_level = state.verbose_level;
      error_count = state.error_count;
      filters = state.filters;
      filters_backup = state.filters_backup;
      counting = state.counting;
      errors_by_category = state.errors_by_category;
      output_format = state.output_format;
      junit_failures =
          (if is_junit then state.junit_failures ++ failure ∷ [] else state.junit_failures);
      written = (if is_junit then state.written else state.written ++ failure ∷ []);
    }

abbrev print_if : Failure → CppLintState → Option Bool → Option CppLintState
print_if failure state none = none
print_if failure state (some false) = some state
print_if failure state (some true) =
    some (put_out failure (increment_error_count (failure.category) state))

-- Error
unfoldable pub log_error : Suppressions → CppLintState → Failure → Option CppLintState
unfolding should_print_error
log_error suppressions state failure = print_if failure state (
    should_print_error suppressions state (failure.category) (failure.confidence) (failure.linenum))
