-- ===== src/Lint/State/Nolint/Lines.antt =====
-- .linters/cpp/cpplint.py: the lines that a NOLINT comment bears on.
use nebula_chaos.Prelude.{
  ℕ, ◌+◌, ◌-◌, ◌≡◌, refl, false, ◌&&◌, Option, none, some, any, arith, Text, text_eq, ◌==◌, take,
  drop, length, codes, starts_with, ends_with, Bool-cases, inl, inr,
}
use nebula_chaos.Lint.Regex.{search_re, group_of, Position}
use nebula_chaos.Lint.State.{Suppressions, is_error_suppressed_by_nolint}
use nebula_chaos.Lint.State.Nolint.{
  suppress, suppress_category, suppress_groups, parse_found, parse_nolint_suppressions, nolint,
  error_categories, legacy_error_categories,
}

-- The line is not among those on which the suppressions may differ.
SameOn : Suppressions → Suppressions → Text → ℕ → Type 0
SameOn s t category m =
    is_error_suppressed_by_nolint t category m ≡ is_error_suppressed_by_nolint s category m

suppress-SameOn :
    (c : Option Text) (line : ℕ) (s : Suppressions) (category : Text) (m : ℕ)
    → (line == m) ≡ false
    → SameOn s (suppress c line s) category m
unfolding SameOn is_error_suppressed_by_nolint
suppress-SameOn none line s category m h = ground arith
suppress-SameOn (some name) line s category m h = ground arith

category-SameOn :
    (named : Text) (linenum line : ℕ) (s : Suppressions) (category : Text) (m : ℕ)
    → (line == m) ≡ false
    → SameOn s ((suppress_category named linenum line s).0) category m
unfolding suppress_category SameOn
category-SameOn named linenum line s category m h =
    let unnamed = suppress-SameOn none line s category m h in
    let own = suppress-SameOn (some (take (length named - 2) (drop 1 named))) line s category m h in
    elim (Bool-cases (text_eq named (codes "(*)"))) [
      | inl star ↦ rw star unnamed
      | inr other ↦
          elim (Bool-cases (starts_with (codes "(") named && ends_with (codes ")") named)) [
            | inr bare ↦ rw (other, bare) refl
            | inl closed ↦
                elim (Bool-cases
                  (any (text_eq (take (length named - 2) (drop 1 named))) error_categories)) [
                    | inl known ↦ rw (other, closed, known) own
                    | inr unknown ↦
                        elim (Bool-cases (
                          any (text_eq (take (length named - 2) (drop 1 named)))
                            legacy_error_categories)) [
                              | inl legacy ↦ rw (other, closed, unknown, legacy) refl
                              | inr strange ↦ rw (other, closed, unknown, strange) refl
                            ]
                  ]
          ]
    ]

groups-SameOn :
    (next_line named : Option Text) (linenum : ℕ) (s : Suppressions) (category : Text) (m : ℕ)
    → (linenum == m) ≡ false
    → (linenum + 1 == m) ≡ false
    → SameOn s ((suppress_groups next_line named linenum s).0) category m
unfolding suppress_groups
groups-SameOn none none linenum s category m h g = suppress-SameOn none linenum s category m h
groups-SameOn (some t) none linenum s category m h g =
    suppress-SameOn none (linenum + 1) s category m g
groups-SameOn none (some named) linenum s category m h g =
    category-SameOn named linenum linenum s category m h
groups-SameOn (some t) (some named) linenum s category m h g =
    category-SameOn named linenum (linenum + 1) s category m g

found-SameOn :
    (found : Option Position) (linenum : ℕ) (s : Suppressions) (category : Text) (m : ℕ)
    → (linenum == m) ≡ false
    → (linenum + 1 == m) ≡ false
    → SameOn s ((parse_found found linenum s).0) category m
unfolding SameOn
found-SameOn none linenum s category m h g = refl
found-SameOn (some p) linenum s category m h g =
    groups-SameOn (group_of p 1) (group_of p 2) linenum s category m h g

-- ParseNolintSuppressions of a line leaves the suppression of every category as it is on all lines
-- but that line and the next.
pub parse_nolint_suppressions_other_lines :
    (raw_line : Text) (linenum : ℕ) (s : Suppressions) (category : Text) (m : ℕ)
    → (linenum == m) ≡ false
    → (linenum + 1 == m) ≡ false
    → is_error_suppressed_by_nolint ((parse_nolint_suppressions raw_line linenum s).0) category m
      ≡ is_error_suppressed_by_nolint s category m
unfolding parse_nolint_suppressions SameOn
parse_nolint_suppressions_other_lines raw_line linenum s category m h g =
    found-SameOn (search_re nolint raw_line) linenum s category m h g
