-- ===== src/Lint/Brackets/Soundness.antt =====
-- .linters/cpp/cpplint.py: what stands at the end that CloseExpression finds.
use nebula_chaos.Prelude.{
  ℕ, suc, ◌+◌, ◌<◌, ◌≡◌, refl, true, ◌||◌, not, some, List, [], ◌∷◌, arith, ◌==◌, take, drop,
  get_elem?, reverse, Text, Bool-cases, subst, sym, ap, ◌⊎◌, inl, inr, get_elem?-drop, ◌∙◌,
}
use nebula_chaos.Lint.Regex.{matches}
use nebula_chaos.Lint.Brackets.{
  Scan, closed, unbalanced, pending, is_opening, find_end_of_expression_in_line, Closing, found,
  not_found, close_from, close_lines, close_at, close_expression, shift_or_compare,
}
use nebula_chaos.Lint.Brackets.Lines.{
  closes, HasBottom, ScanFits, begins, find_end-ScanFits, next_line-ScanFits,
}

-- What `close_lines` finds behind line `n`.
abbrev LineFits : ℕ → ℕ → List Text → Closing → Type 0
LineFits o n lines (not_found line) = Unit
LineFits o n lines (found line m p) =
    (j : ℕ) × (m ≡ n + 1 + j) × (get_elem? lines j ≡ some line) × ScanFits o 0 line (closed p)

LineFits-cons :
    (o n : ℕ) (l : Text) (lines : List Text) (r : Closing)
    → LineFits o (n + 1) lines r
    → LineFits o n (l ∷ lines) r
LineFits-cons o n l lines (not_found line) h = tt
LineFits-cons o n l lines (found line m p) (j, e, g, h) = (suc j, omega arith, g, h)

module _ (n : ℕ) (line : Text) (x : ℕ) (stack : List ℕ) (l : Text) (lines : List Text) where
  pub close_lines-closed :
      (p : ℕ)
      → find_end_of_expression_in_line l 0 (x ∷ stack) ≡ closed p
      → close_lines n line (x ∷ stack) (l ∷ lines) ≡ found l (n + 1) p
  unfolding close_lines
  close_lines-closed p e = rw (e, close_lines)

  pub close_lines-unbalanced :
      find_end_of_expression_in_line l 0 (x ∷ stack) ≡ unbalanced
      → close_lines n line (x ∷ stack) (l ∷ lines) ≡ not_found l
  unfolding close_lines
  close_lines-unbalanced e = rw (e, close_lines)

  pub close_lines-pending :
      (stack' : List ℕ)
      → find_end_of_expression_in_line l 0 (x ∷ stack) ≡ pending stack'
      → close_lines n line (x ∷ stack) (l ∷ lines) ≡ close_lines (n + 1) l stack' lines
  unfolding close_lines
  close_lines-pending stack' e = rw (e, close_lines)

pub Scan-cases :
    (s : Scan)
    → ((p : ℕ) × (s ≡ closed p)) ⊎ (s ≡ unbalanced) ⊎ ((stack : List ℕ) × (s ≡ pending stack))
Scan-cases (closed p) = inl (p, refl)
Scan-cases unbalanced = inr (inl refl)
Scan-cases (pending stack) = inr (inr (stack, refl))

close_lines-LineFits :
    (o n : ℕ) (line : Text) (stack : List ℕ) (lines : List Text)
    → HasBottom o stack
    → LineFits o n lines (close_lines n line stack lines)
close_lines-LineFits o n line stack [] h = unfold close_lines in tt
close_lines-LineFits o n line [] (l ∷ lines) h = absurd h
close_lines-LineFits o n line (x ∷ stack) (l ∷ lines) h =
    let fit = next_line-ScanFits o l (x ∷ stack) h in
    elim (Scan-cases (find_end_of_expression_in_line l 0 (x ∷ stack))) [
      | inl (p, e) ↦
          rw (close_lines-closed n line x stack l lines p e) (0, omega arith, refl, rw e at fit)
      | inr (inl e) ↦ rw (close_lines-unbalanced n line x stack l lines e) tt
      | inr (inr (stack', e)) ↦ rw (close_lines-pending n line x stack l lines stack' e) (
          LineFits-cons o n l lines (close_lines (n + 1) l stack' lines)
            (close_lines-LineFits o (n + 1) l stack' lines (rw e at fit)))
    ]

-- Where CloseExpression finds an end for a bracket at `pos` of line `n`.
abbrev ClosesAt : List Text → ℕ → ℕ → ℕ → Closing → Type 0
ClosesAt elided n pos c (not_found line) = Unit
ClosesAt elided n pos c (found line m p) =
    (get_elem? elided m ≡ some line)
    × ((n < m) ⊎ (m ≡ n) × (pos + 1 < p))
    × ((k : ℕ) × (d : ℕ) × (p ≡ k + 1) × (get_elem? line k ≡ some d) × (closes c d ≡ true))

close_from-ClosesAt :
    (elided : List Text) (n pos c : ℕ) (line : Text) (s : Scan)
    → get_elem? elided n ≡ some line
    → ScanFits c (pos + 1) (drop (suc pos) line) s
    → ClosesAt elided n pos c (close_from elided n line s)
close_from-ClosesAt elided n pos c line (closed p) g (k, d, e, g', h) = (
  g,
  inr (refl, omega arith),
  (suc pos + k, d, omega arith, sym (get_elem?-drop (suc pos) line k) ∙ g', h),
)
close_from-ClosesAt elided n pos c line unbalanced g h = tt
close_from-ClosesAt elided n pos c line (pending stack) g h =
    later (close_lines n line stack (drop (suc n) elided))
      (close_lines-LineFits c n line stack (drop (suc n) elided) h)
  where
    later : (r : Closing) → LineFits c n (drop (suc n) elided) r → ClosesAt elided n pos c r
    later (not_found l) f = tt
    later (found l m p) (j, e, g', (k, d, e', g'', h')) =
        let m' : suc n + j ≡ m = omega arith in
        (
          ap (get_elem? elided) (sym m') ∙ sym (get_elem?-drop (suc n) elided j) ∙ g',
          inl (omega arith),
          (k, d, omega arith, g'', h'),
        )

close_at-ClosesAt :
    (elided : List Text) (n pos c : ℕ) (line : Text)
    → get_elem? elided n ≡ some line
    → get_elem? line pos ≡ some c
    → begins (reverse (take pos line)) c ≡ true
    → ClosesAt elided n pos c (close_at elided n pos line c)
unfolding close_at
close_at-ClosesAt elided n pos c line g g' h =
    elim (Bool-cases
      (not (is_opening c || (c == b'<')) || matches shift_or_compare (drop pos line))) [
        | inl refused ↦ rw refused tt
        | inr passed ↦ rw passed (
            close_from-ClosesAt elided n pos c line (find_end_of_expression_in_line line pos []) g
              (find_end-ScanFits line pos c g' h))
      ]

pub close_expression-eq :
    (elided : List Text) (n pos : ℕ) (line : Text) (c : ℕ)
    → get_elem? elided n ≡ some line
    → get_elem? line pos ≡ some c
    → close_expression elided n pos ≡ some (close_at elided n pos line c)
unfolding close_expression
close_expression-eq elided n pos line c g g' = rw (g, g', close_expression)

-- Where CloseExpression is called at an opening bracket, or at a "<" that is neither the second
-- one of "<<" nor the name of an operator, and finds an end: the line that it returns is the line
-- of the number that it returns; the position lies behind the bracket; and the character in front
-- of the position closes the bracket.
pub close_expression-closes :
    (elided : List Text) (n pos c : ℕ) (line line' : Text) (m p : ℕ)
    → get_elem? elided n ≡ some line
    → get_elem? line pos ≡ some c
    → begins (reverse (take pos line)) c ≡ true
    → close_expression elided n pos ≡ some (found line' m p)
    → (get_elem? elided m ≡ some line')
      × ((n < m) ⊎ (m ≡ n) × (pos + 1 < p))
      × ((k : ℕ) × (d : ℕ) × (p ≡ k + 1) × (get_elem? line' k ≡ some d) × (closes c d ≡ true))
close_expression-closes elided n pos c line line' m p g g' h e =
    let same : close_at elided n pos line c ≡ found line' m p =
      cc (close_expression-eq elided n pos line c g g') in
    subst (ClosesAt elided n pos c) same (close_at-ClosesAt elided n pos c line g g' h)
