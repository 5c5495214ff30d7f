-- ===== src/Lint/State/Filters.antt =====
-- .linters/cpp/cpplint.py: which errors _ShouldPrintError lets through.
use nebula_chaos.Prelude.{
  ℕ, ◌≡◌, refl, Bool, true, false, ◌&&◌, ◌||◌, not, Option, none, some, List, [], ◌∷◌, leb, drop,
  all, arith, Text, codes, starts_with, inl, inr, Bool-cases, ap, subst,
}
use nebula_chaos.Lint.State.{
  CppLintState, Suppressions, is_signed, set_filters, add_filters, with_filters, default_filters,
  is_error_suppressed_by_nolint, is_filtered_from, should_print_error,
}

-- What the last filter whose text begins the category says of it: whether it hides the category.
abbrev pub last_word : List Text → Text → Option Bool
last_word [] category = none
last_word (filter ∷ rest) category =
    latest (last_word rest category) (starts_with (drop 1 filter) category)
      (starts_with (codes "-") filter)
  where
    latest : Option Bool → Bool → Bool → Option Bool
    latest (some b) hit minus = some b
    latest none true minus = some minus
    latest none false minus = none

abbrev pub said : Bool → Option Bool → Bool
said default none = default
said default (some b) = b

is_filtered_from-last_word :
    (filtered : Bool) (filters : List Text) (category : Text)
    → all is_signed filters ≡ true
    → is_filtered_from filtered filters category ≡ some (said filtered (last_word filters category))
unfolding is_filtered_from
is_filtered_from-last_word filtered [] category h = refl
is_filtered_from-last_word filtered (filter ∷ rest) category h =
    let hides =
      is_filtered_from-last_word (filtered || starts_with (drop 1 filter) category) rest category in
    let shows =
      is_filtered_from-last_word (filtered && not (starts_with (drop 1 filter) category)) rest
        category in
    ground arith

add_filters-is_signed :
    (text : Text) (state state' : CppLintState)
    → add_filters text state ≡ (true, state')
    → all is_signed (state'.filters) ≡ true
unfolding add_filters
add_filters-is_signed text state state' e =
    subst (λ s. all is_signed (s.filters) ≡ true) (ap (λ p. p.1) e) (ap (λ p. p.0) e)

-- The error is not suppressed, its confidence is at least the verbose level, and the last filter
-- whose text begins the category, if there is one, has no minus.
abbrev pub passes : Suppressions → ℕ → List Text → Text → ℕ → ℕ → Bool
passes suppressions verbose filters category confidence linenum =
    not (is_error_suppressed_by_nolint suppressions category linenum)
    && (leb verbose confidence && not (said false (last_word filters category)))

pub should_print_error-signed :
    (suppressions : Suppressions) (state : CppLintState) (category : Text) (confidence linenum : ℕ)
    → all is_signed (state.filters) ≡ true
    → should_print_error suppressions state category confidence linenum
      ≡ some (passes suppressions (state.verbose_level) (state.filters) category confidence linenum)
unfolding should_print_error
should_print_error-signed suppressions state category confidence linenum signed =
    let f = is_filtered_from-last_word false (state.filters) category signed in
    elim (Bool-cases (is_error_suppressed_by_nolint suppressions category linenum)) [
      | inl hidden ↦ rw hidden refl
      | inr shown ↦ rw (shown, f) (ground arith)
    ]

-- With the filters of a successful SetFilters, _ShouldPrintError fails no assertion and prints an
-- error exactly if it is not suppressed, its confidence is at least the verbose level, and the last
-- filter whose text begins the category, if there is one, has no minus.
pub should_print_error-last_word :
    (suppressions : Suppressions) (text : Text) (state state' : CppLintState) (category : Text)
    (confidence linenum : ℕ)
    → set_filters text state ≡ (true, state')
    → should_print_error suppressions state' category confidence linenum
      ≡ some (
          not (is_error_suppressed_by_nolint suppressions category linenum)
          && (leb (state'.verbose_level) confidence
              && not (said false (last_word (state'.filters) category))))
unfolding set_filters
should_print_error-last_word suppressions text state state' category confidence linenum e =
    should_print_error-signed suppressions state' category confidence linenum
      (add_filters-is_signed text (with_filters default_filters state) state' e)
