-- ===== src/Lint/Checks/Guard/Silence.antt =====
-- .linters/cpp/cpplint.py: what a header has that CheckForHeaderGuard does not report.
use nebula_chaos.Prelude.{
  ℕ, suc, ◌≡◌, refl, ◌⊎◌, ◌≢◌, inl, inr, Bool, true, false, ◌&&◌, ◌||◌, List, [], ◌∷◌, ◌++◌, arith,
  if◌then◌else◌, is_nil, any, String, get_or, Text, codes, text_eq, split_words, Bool-cases,
  text_eq_self, text_eq_iff, subst, ◌∙◌, ap, sym,
}
use nebula_chaos.Lint.State.{Failure, Suppressions}
use nebula_chaos.Lint.State.Nolint.{parse_nolint_suppressions}
use nebula_chaos.Lint.Checks.{report}
use nebula_chaos.Lint.Checks.Guard.{
  is_silenced, Guard, no_guard, add_words, add_endif, find_guard, has_guard, check_name,
  check_guard, check_for_header_guard,
}

-- The line begins with the two words.
abbrev pub begins_with : Text → Text → List Text → Bool
begins_with name arg (first ∷ second ∷ rest) = text_eq first name && text_eq second arg
begins_with name arg _ = false

-- Some line does.
abbrev pub has_directive : String → Text → List Text → Bool
has_directive name arg lines = any (λ line. begins_with (codes name) arg (split_words line)) lines

-- The name is the one from before, or the line has it.
abbrev Finds : String → Text → Text → Bool → Type 0
Finds name before after found = (after ≡ before) ⊎ (found ≡ true)

words-ifndef :
    (n : ℕ) (ws : List Text) (g : Guard)
    → Finds "#ifndef" g.ifndef
        (add_words n ws g).ifndef
        (begins_with (codes "#ifndef") (add_words n ws g).ifndef ws)
words-ifndef n [] g = inl refl
words-ifndef n (w ∷ []) g = inl refl
words-ifndef n (w ∷ v ∷ ws) g = elim (Bool-cases (is_nil g.ifndef && text_eq w (codes "#ifndef"))) [
  | inl here ↦ inr (ground (arith, text_eq_self v))
  | inr miss ↦ elim (Bool-cases (is_nil g.define && text_eq w (codes "#define"))) [
    | inl other ↦ inl (ground arith)
    | inr none_of_both ↦ inl (ground arith)
  ]
]

words-define :
    (n : ℕ) (ws : List Text) (g : Guard)
    → Finds "#define" g.define
        (add_words n ws g).define
        (begins_with (codes "#define") (add_words n ws g).define ws)
words-define n [] g = inl refl
words-define n (w ∷ []) g = inl refl
words-define n (w ∷ v ∷ ws) g = elim (Bool-cases (is_nil g.ifndef && text_eq w (codes "#ifndef"))) [
  | inl here ↦ inl (ground arith)
  | inr miss ↦ elim (Bool-cases (is_nil g.define && text_eq w (codes "#define"))) [
    | inl other ↦ inr (ground (arith, text_eq_self v))
    | inr none_of_both ↦ inl (ground arith)
  ]
]

endif-ifndef : (n : ℕ) (line : Text) (g : Guard) → (add_endif n line g).ifndef ≡ g.ifndef
endif-ifndef n line g = ground arith

endif-define : (n : ℕ) (line : Text) (g : Guard) → (add_endif n line g).define ≡ g.define
endif-define n line g = ground arith

or-left : (a b : Bool) → a ≡ true → (a || b) ≡ true
or-left a b e = rw e refl

find_guard-ifndef :
    (lines : List Text) (n : ℕ) (g : Guard)
    → Finds "#ifndef" g.ifndef
        (find_guard lines n g).ifndef
        (has_directive "#ifndef" (find_guard lines n g).ifndef lines)
unfolding find_guard
find_guard-ifndef [] n g = inl refl
find_guard-ifndef (line ∷ lines) n g =
    let ws = split_words line in
    let g' = add_endif n line (add_words n ws g) in
    elim (find_guard-ifndef lines (suc n) g') [
      | inr later ↦ inr (ground (arith, later))
      | inl same ↦ elim (words-ifndef n ws g) [
        | inl old ↦ inl (same ∙ endif-ifndef n line (add_words n ws g) ∙ old)
        | inr here ↦
            let first =
              ap (λ x. begins_with (codes "#ifndef") x ws)
                (same ∙ endif-ifndef n line (add_words n ws g))
              ∙ here in
            inr (or-left _ _ first)
      ]
    ]

find_guard-define :
    (lines : List Text) (n : ℕ) (g : Guard)
    → Finds "#define" g.define
        (find_guard lines n g).define
        (has_directive "#define" (find_guard lines n g).define lines)
unfolding find_guard
find_guard-define [] n g = inl refl
find_guard-define (line ∷ lines) n g =
    let ws = split_words line in
    let g' = add_endif n line (add_words n ws g) in
    elim (find_guard-define lines (suc n) g') [
      | inr later ↦ inr (ground (arith, later))
      | inl same ↦ elim (words-define n ws g) [
        | inl old ↦ inl (same ∙ endif-define n line (add_words n ws g) ∙ old)
        | inr here ↦
            let first =
              ap (λ x. begins_with (codes "#define") x ws)
                (same ∙ endif-define n line (add_words n ws g))
              ∙ here in
            inr (or-left _ _ first)
      ]
    ]

append-is_nil : (xs ys : List Failure) → xs ++ ys ≡ [] → xs ≡ []
append-is_nil [] ys e = refl
append-is_nil (x ∷ xs) ys e = absurd (ground arith)

snoc-ne_nil : (xs : List Failure) (y : Failure) → (xs ++ y ∷ []) ≢ []
snoc-ne_nil [] y e = absurd (ground arith)
snoc-ne_nil (x ∷ xs) y e = absurd (ground arith)

-- The name is only right where it is the one that is asked for.
check_name-nil :
    (cppvar : Text) (g : Guard) (lines : List Text) (s : Suppressions)
    → (check_name cppvar g lines s).1 ≡ []
    → text_eq g.ifndef cppvar ≡ true
unfolding check_name
check_name-nil cppvar g lines s e = elim (Bool-cases (text_eq g.ifndef cppvar)) [
  | inl same ↦ same
  | inr other ↦ absurd (snoc-ne_nil _ _ (wrong other))
]
  where
    wrong :
        text_eq g.ifndef cppvar ≡ false
        → (parse_nolint_suppressions (get_or lines g.ifndef_linenum []) g.ifndef_linenum s).1
            ++ report g.ifndef_linenum "build/header_guard"
                (if text_eq g.ifndef (cppvar ++ codes "_") then 0 else 5)
                (codes "#ifndef header guard has wrong style, please use: " ++ cppvar)
          ≡ []
    wrong other = rw other at e

check_guard-nil :
    (cppvar : Text) (g : Guard) (lines : List Text) (s : Suppressions)
    → (check_guard cppvar g lines s).1 ≡ []
    → text_eq g.ifndef cppvar ≡ true
unfolding check_guard
check_guard-nil cppvar g lines s e = check_name-nil cppvar g lines s (append-is_nil _ _ e)

has_guard-eq : (g : Guard) → has_guard g ≡ true → g.ifndef ≡ g.define
has_guard-eq g h = (text_eq_iff g.ifndef g.define).0 (ground arith)

found-directive :
    (name : String) (word' : Text) (lines : List Text)
    → is_nil word' ≡ false
    → Finds name [] word' (has_directive name word' lines)
    → has_directive name word' lines ≡ true
found-directive name word' lines h (inl e) = absurd (ground arith)
found-directive name word' lines h (inr e) = e

-- A header about which CheckForHeaderGuard reports nothing has a comment or a pragma that silences
-- it, or a line "#ifndef" and a line "#define" with the name that is asked for.
pub check_for_header_guard-silent :
    (cppvar : Text) (lines : List Text) (s : Suppressions)
    → (check_for_header_guard cppvar lines s).1 ≡ []
    → (is_silenced lines ≡ true)
      ⊎ ((has_directive "#ifndef" cppvar lines ≡ true)
          × (has_directive "#define" cppvar lines ≡ true))
unfolding check_for_header_guard
check_for_header_guard-silent cppvar lines s e = elim (Bool-cases (is_silenced lines)) [
  | inl quiet ↦ inl quiet
  | inr loud ↦ elim (Bool-cases (has_guard (find_guard lines 0 no_guard))) [
    | inr missing ↦ absurd (ground arith)
    | inl guarded ↦
        let g = find_guard lines 0 no_guard in
        let named : (check_guard cppvar g lines s).1 ≡ [] = ground arith in
        let same : g.ifndef ≡ cppvar =
          (text_eq_iff g.ifndef cppvar).0 (check_guard-nil cppvar g lines s named) in
        let defined : g.define ≡ cppvar = sym (has_guard-eq g guarded) ∙ same in
        inr (
          subst (λ x. has_directive "#ifndef" x lines ≡ true) same
              (found-directive "#ifndef" g.ifndef lines (ground arith)
                (find_guard-ifndef lines 0 no_guard)),
          subst (λ x. has_directive "#define" x lines ≡ true) defined
              (found-directive "#define" g.define lines (ground arith)
                (find_guard-define lines 0 no_guard)),
        )
  ]
]
