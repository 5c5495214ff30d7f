-- ===== src/Tests/Guard.antt =====
-- .linters/cpp/cpplint.py: CheckForHeaderGuard on small headers.
use nebula_chaos.Prelude.{ℕ, ◌≡◌, ◌⊎◌, refl, true, [], ◌∷◌, List, Text, codes, split_words}
use nebula_chaos.Lint.Regex.{matches, occurs, match_re, search_re}
use nebula_chaos.Lint.State.{Suppressions, Failure}
use nebula_chaos.Lint.State.Nolint.{parse_nolint_suppressions}
use nebula_chaos.Lint.Checks.Guard.{
  check_for_header_guard, is_silenced, find_guard, check_guard, check_name, check_endif,
  has_line_comments,
}
use nebula_chaos.Lint.Checks.Guard.Silence.{has_directive, check_for_header_guard-silent}

abbrev guarded : List Text
guarded =
    codes "// marker"
    ∷ codes "#ifndef A_H_"
    ∷ codes "#define A_H_"
    ∷ codes "#endif  // A_H_"
    ∷ codes "// marker"
    ∷ []

abbrev nothing_suppressed : Suppressions
nothing_suppressed = record { everywhere = []; on_lines = [] }

guarded_silent : (check_for_header_guard (codes "A_H_") guarded nothing_suppressed).1 ≡ []
unfolding check_for_header_guard is_silenced find_guard check_guard check_name check_endif match_re
    occurs search_re split_words parse_nolint_suppressions
guarded_silent = refl

abbrev linenums : List Failure → List (ℕ × ℕ)
linenums [] = []
linenums (f ∷ fs) = (f.linenum, f.confidence) ∷ linenums fs

other_name :
    linenums (check_for_header_guard (codes "B_H_") guarded nothing_suppressed).1
    ≡ (1, 5) ∷ (3, 5) ∷ []
unfolding check_for_header_guard is_silenced find_guard check_guard check_name check_endif match_re
    occurs search_re split_words parse_nolint_suppressions matches has_line_comments
other_name = refl

check_for_header_guard-silent_example :
    (is_silenced guarded ≡ true)
    ⊎ ((has_directive "#ifndef" (codes "A_H_") guarded ≡ true)
        × (has_directive "#define" (codes "A_H_") guarded ≡ true))
check_for_header_guard-silent_example =
    check_for_header_guard-silent (codes "A_H_") guarded nothing_suppressed guarded_silent
