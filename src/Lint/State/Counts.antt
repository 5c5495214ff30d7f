-- ===== src/Lint/State/Counts.antt =====
-- .linters/cpp/cpplint.py: what the error counts are behind a number of calls of Error.
use nebula_chaos.Prelude.{
  ℕ, ◌+◌, ◌≡◌, refl, Bool, true, Option, none, some, List, [], ◌∷◌, if◌then◌else◌, all, arith,
  length, length-append, Text, codes, text_eq, ◌⊎◌, inl, inr, Bool-cases, ◌∙◌,
}
use nebula_chaos.Lint.State.{
  Counting, total, toplevel, detailed, Failure, CppLintState, Suppressions, bump,
  increment_error_count, is_signed, put_out, count_category, log_error,
}
use nebula_chaos.Lint.State.Filters.{passes, should_print_error-signed}

abbrev pub sum_of : List (Text × ℕ) → ℕ
sum_of [] = 0
sum_of ((name, n) ∷ rest) = n + sum_of rest

sum_of-bump :
    (category : Text) (counts : List (Text × ℕ)) → sum_of (bump category counts) ≡ sum_of counts + 1
unfolding bump
sum_of-bump category [] = omega arith
sum_of-bump category ((name, n) ∷ rest) = let ih = sum_of-bump category rest in ground arith

-- Every count is one of a message that was put out, and the categories have been counted, where
-- they are counted at all.
abbrev pub IsCounted : CppLintState → Type 0
IsCounted state =
    (state.error_count ≡ length (state.junit_failures) + length (state.written))
    × ((state.counting ≡ total) ⊎ (sum_of (state.errors_by_category) ≡ state.error_count))

sum_of-count_category :
    (counting : Counting) (category : Text) (counts : List (Text × ℕ)) (n : ℕ)
    → (counting ≡ total) ⊎ (sum_of counts ≡ n)
    → (counting ≡ total) ⊎ (sum_of (count_category counting category counts) ≡ n + 1)
unfolding count_category
sum_of-count_category total category counts n h = inl refl
sum_of-count_category toplevel category counts n (inl h) = absurd (ground arith)
sum_of-count_category toplevel category counts n (inr h) = inr (omega (arith, sum_of-bump _ counts))
sum_of-count_category detailed category counts n (inl h) = absurd (ground arith)
sum_of-count_category detailed category counts n (inr h) =
    inr (omega (arith, sum_of-bump category counts))

put_out-IsCounted :
    (failure : Failure) (state : CppLintState)
    → IsCounted state
    → IsCounted (put_out failure (increment_error_count (failure.category) state))
unfolding increment_error_count
put_out-IsCounted failure state (n, m) =
    elim (Bool-cases (text_eq (state.output_format) (codes "junit"))) [
      | inl junit ↦
          let k = length-append (state.junit_failures) (failure ∷ []) in
          (
            rw junit (omega arith),
            sum_of-count_category (state.counting) (failure.category) (state.errors_by_category)
                (state.error_count) m,
          )
      | inr other ↦
          let k = length-append (state.written) (failure ∷ []) in
          (
            rw other (omega arith),
            sum_of-count_category (state.counting) (failure.category) (state.errors_by_category)
                (state.error_count) m,
          )
    ]

-- Several calls of Error.
unfoldable pub log_errors : Suppressions → CppLintState → List Failure → Option CppLintState
log_errors suppressions state [] = some state
log_errors suppressions state (failure ∷ rest) = elim (log_error suppressions state failure) [
  | none ↦ none
  | some next ↦ log_errors suppressions next rest
]

abbrev pub count_of : (Failure → Bool) → List Failure → ℕ
count_of test [] = 0
count_of test (failure ∷ rest) = if test failure then count_of test rest + 1 else count_of test rest

abbrev pub passes_in : Suppressions → CppLintState → Failure → Bool
passes_in suppressions state failure =
    passes suppressions (state.verbose_level) (state.filters) (failure.category)
      (failure.confidence) (failure.linenum)

log_error-prints :
    (suppressions : Suppressions) (state : CppLintState) (failure : Failure)
    → all is_signed (state.filters) ≡ true
    → log_error suppressions state failure
      ≡ some (
          if passes_in suppressions state failure
          then put_out failure (increment_error_count (failure.category) state)
          else state)
unfolding log_error
log_error-prints suppressions state failure signed =
    let e =
      should_print_error-signed suppressions state (failure.category) (failure.confidence)
        (failure.linenum) signed in
    elim (Bool-cases (passes_in suppressions state failure)) [
      | inl printed ↦ rw (e, printed) refl
      | inr dropped ↦ rw (e, dropped) refl
    ]

log_errors-step :
    (suppressions : Suppressions) (state next : CppLintState) (failure : Failure)
    (rest : List Failure)
    → log_error suppressions state failure ≡ some next
    → log_errors suppressions state (failure ∷ rest) ≡ log_errors suppressions next rest
unfolding log_errors
log_errors-step suppressions state next failure rest e = rw (e, log_errors) refl

-- Behind any calls of Error with filters that SetFilters accepts, no assertion has failed, the error
-- count has grown by the number of errors that _ShouldPrintError lets through, and where it was
-- the number of messages put out and, unless only the total is counted, the sum over the categories,
-- it still is.
pub log_errors-IsCounted :
    (suppressions : Suppressions) (state : CppLintState) (failures : List Failure)
    → all is_signed (state.filters) ≡ true
    → IsCounted state
    → (final : CppLintState) × (log_errors suppressions state failures ≡ some final)
      × (final.error_count ≡ state.error_count + count_of (passes_in suppressions state) failures)
      × IsCounted final
unfolding log_errors increment_error_count
log_errors-IsCounted suppressions state [] signed counted = (state, refl, omega arith, counted)
log_errors-IsCounted suppressions state (failure ∷ rest) signed counted =
    let e = log_error-prints suppressions state failure signed in
    elim (Bool-cases (passes_in suppressions state failure)) [
      | inl printed ↦
          let next = put_out failure (increment_error_count (failure.category) state) in
          let (final, runs, n, m) =
            log_errors-IsCounted suppressions next rest signed
              (put_out-IsCounted failure state counted) in
          let step : log_error suppressions state failure ≡ some next = e ∙ rw printed refl in
          (
            final,
            log_errors-step suppressions state next failure rest step ∙ runs,
            rw printed (omega arith),
            m,
          )
      | inr dropped ↦
          let (final, runs, n, m) = log_errors-IsCounted suppressions state rest signed counted in
          let step : log_error suppressions state failure ≡ some state = e ∙ rw dropped refl in
          (
            final,
            log_errors-step suppressions state state failure rest step ∙ runs,
            rw dropped n,
            m,
          )
    ]
