-- ===== src/Tests/State.antt =====
-- .linters/cpp/cpplint.py: filters and counts.
use nebula_chaos.Prelude.{
  ◌+◌, ◌≡◌, refl, inl, true, false, ◌&&◌, not, leb, none, some, List, [], ◌∷◌, codes, split_text,
  strip, ends_with,
}
use nebula_chaos.Lint.State.{
  Failure, CppLintState, Suppressions, initial, set_filters, add_filters, with_filters,
  is_error_suppressed_by_nolint, is_filtered_from, should_print_error,
}
use nebula_chaos.Lint.State.Filters.{said, last_word, should_print_error-last_word}
use nebula_chaos.Lint.Regex.{search_re, group_of}
use nebula_chaos.Lint.State.Nolint.{parse_nolint_suppressions, suppress_groups, suppress_category}
use nebula_chaos.Lint.State.Nolint.Lines.{parse_nolint_suppressions_other_lines}
use nebula_chaos.Lint.State.Counts.{
  IsCounted, count_of, passes_in, log_errors, log_errors-IsCounted,
}

abbrev no_suppressions : Suppressions
no_suppressions = record { everywhere = []; on_lines = (none, 7) ∷ [] }

abbrev filtered : CppLintState
filtered =
    with_filters (codes "-build/include_alpha" ∷ codes "-build" ∷ codes "+build/class" ∷ []) initial

set_runs : set_filters (codes "-build, +build/class,") initial ≡ (true, filtered)
unfolding set_filters add_filters split_text initial strip
set_runs = refl

set_fails : (set_filters (codes "build") initial).0 ≡ false
unfolding set_filters add_filters split_text initial strip
set_fails = refl

print_runs : should_print_error no_suppressions filtered (codes "build/class") 5 3 ≡ some true
unfolding should_print_error is_error_suppressed_by_nolint is_filtered_from initial
print_runs = refl

should_print_error-last_word_example :
    should_print_error no_suppressions filtered (codes "build/class") 5 3
    ≡ some (
        not (is_error_suppressed_by_nolint no_suppressions (codes "build/class") 3)
        && (leb (filtered.verbose_level) 5
            && not (said false (last_word (filtered.filters) (codes "build/class")))))
should_print_error-last_word_example =
    should_print_error-last_word no_suppressions (codes "-build, +build/class,") initial filtered
      (codes "build/class") 5 3 set_runs

abbrev failures : List Failure
failures =
    record { linenum = 3; category = codes "build/class"; confidence = 5; message = codes "a" }
    ∷ record { linenum = 7; category = codes "build/class"; confidence = 5; message = codes "b" }
    ∷ []

filtered-IsCounted : IsCounted filtered
unfolding initial
filtered-IsCounted = (refl, inl refl)

log_errors-IsCounted_example :
    (final : CppLintState) × (log_errors no_suppressions filtered failures ≡ some final)
    × (final.error_count
        ≡ filtered.error_count + count_of (passes_in no_suppressions filtered) failures)
    × IsCounted final
log_errors-IsCounted_example =
    log_errors-IsCounted no_suppressions filtered failures refl filtered-IsCounted

unfold_nolint : Unit {0}
unfolding parse_nolint_suppressions suppress_groups suppress_category ends_with search_re group_of
unfold_nolint = tt

nolint_runs :
    parse_nolint_suppressions (codes "int a;  // NOLINTNEXTLINE(build/class)") 4 no_suppressions
    ≡ (record { everywhere = []; on_lines = (some (codes "build/class"), 5) ∷ (none, 7) ∷ [] }, [])
unfolding unfold_nolint
nolint_runs = refl

parse_nolint_suppressions_example :
    is_error_suppressed_by_nolint
      ((parse_nolint_suppressions (codes "int a;  // NOLINT") 4 no_suppressions).0)
      (codes "build/class")
      7
    ≡ is_error_suppressed_by_nolint no_suppressions (codes "build/class") 7
parse_nolint_suppressions_example =
    parse_nolint_suppressions_other_lines (codes "int a;  // NOLINT") 4 no_suppressions
      (codes "build/class") 7 refl refl
