-- ===== src/Lint/Brackets/Bounds.antt =====
-- .linters/cpp/cpplint.py: where the position lies that CloseExpression returns, whatever it is called at.
use nebula_chaos.Prelude.{
  ℕ, suc, ◌+◌, ◌≤◌, ◌<◌, ◌≡◌, refl, ◌⊎◌, inl, inr, Bool, ◌||◌, not, some, List, [], ◌∷◌, arith,
  ◌==◌, length, take, drop, reverse, get_elem?, Text, Bool-cases, ap, sym, ◌∙◌, length-drop,
  get_elem?-drop,
}
use mathlib.Core.Path.{subst}
use nebula_chaos.Lint.Regex.{matches}
use nebula_chaos.Lint.Brackets.{
  closed, unbalanced, Turn, stops, is_opening, fits, pop_marks, unless_empty, end_angle,
  close_popped, close_bracket, close_angle, end_of_statement, end_turn, scan_end,
  find_end_of_expression_in_line, found, close_lines, close_from, close_at, close_expression,
  shift_or_compare,
}
use nebula_chaos.Lint.Brackets.Soundness.{Scan-cases, close_expression-eq}
use nebula_chaos.Lint.Brackets.Lines.{Turn-cases}

-- A turn at position `i` that ends with a match ends behind the character.
abbrev EndsBehind : ℕ → Turn → Type 0
EndsBehind i (stops (closed p)) = p ≡ i + 1
EndsBehind i _ = Unit

module _ (c i : ℕ) where
  unless_empty-EndsBehind : (r : List ℕ) → EndsBehind i (unless_empty (closed (i + 1)) r)
  unless_empty-EndsBehind [] = refl
  unless_empty-EndsBehind (x ∷ r) = tt

  unless_unbalanced-EndsBehind : (r : List ℕ) → EndsBehind i (unless_empty unbalanced r)
  unless_unbalanced-EndsBehind [] = tt
  unless_unbalanced-EndsBehind (x ∷ r) = tt

  close_popped-EndsBehind :
      (pairs : ℕ → Bool) (stack : List ℕ) → EndsBehind i (close_popped pairs (closed (i + 1)) stack)
  close_popped-EndsBehind pairs [] = tt
  close_popped-EndsBehind pairs (s ∷ r) = elim (Bool-cases (pairs s)) [
    | inl e ↦ rw e (unless_empty-EndsBehind r)
    | inr e ↦ rw e tt
  ]

  end_angle-EndsBehind : (before : Text) (stack : List ℕ) → EndsBehind i (end_angle before stack)
  unfolding end_angle
  end_angle-EndsBehind before [] = ground arith
  end_angle-EndsBehind before (s ∷ r) = ground (arith, unless_unbalanced-EndsBehind r)

  close_angle-EndsBehind :
      (before : Text) (stack : List ℕ) → EndsBehind i (close_angle before i stack)
  unfolding close_angle
  close_angle-EndsBehind before [] = ground arith
  close_angle-EndsBehind before (s ∷ r) = ground (arith, unless_empty-EndsBehind r)

  end_turn-EndsBehind : (before : Text) (stack : List ℕ) → EndsBehind i (end_turn before c i stack)
  unfolding end_turn close_bracket end_of_statement
  end_turn-EndsBehind before stack = ground (
    arith,
    end_angle-EndsBehind before stack,
    close_popped-EndsBehind (λ s. fits s c) (pop_marks b'<' stack),
    unless_unbalanced-EndsBehind (pop_marks b'<' stack),
    close_angle-EndsBehind before stack,
  )

-- A walk over `rest` from position `i` on.
scan_end-bounds :
    (before rest : Text) (i p : ℕ) (stack : List ℕ)
    → scan_end before i rest stack ≡ closed p
    → (i < p) × (p ≤ i + length rest)
unfolding scan_end
scan_end-bounds before [] i p stack e = absurd (cc)
scan_end-bounds before (c ∷ rest) i p stack e = elim (Turn-cases (end_turn before c i stack)) [
  | inl (stack', g) ↦
      let (a, b) = scan_end-bounds (c ∷ before) rest (i + 1) p stack' (ground arith) in
      (omega arith, omega arith)
  | inr (inl (stack', g)) ↦
      let (a, b) = scan_end-bounds (c ∷ before) rest (i + 1) p stack' (ground arith) in
      (omega arith, omega arith)
  | inr (inr (s, g)) ↦
      let t : end_turn before c i stack ≡ stops (closed p) = ground arith in
      let h : p ≡ i + 1 = subst (EndsBehind i) t (end_turn-EndsBehind c i before stack) in
      (omega arith, omega arith)
]

find_end-bounds :
    (line : Text) (start p : ℕ) (stack : List ℕ)
    → start ≤ length line
    → find_end_of_expression_in_line line start stack ≡ closed p
    → (start < p) × (p ≤ length line)
unfolding find_end_of_expression_in_line
find_end-bounds line start p stack h e =
    let (a, b) = scan_end-bounds (reverse (take start line)) (drop start line) start p stack e in
    (a, omega (arith, b, h, length-drop start line))

close_lines-bounds :
    (n : ℕ) (line : Text) (stack : List ℕ) (lines : List Text) (line' : Text) (m p : ℕ)
    → close_lines n line stack lines ≡ found line' m p
    → (j : ℕ) × (m ≡ suc n + j) × (get_elem? lines j ≡ some line') × (p ≤ length line')
unfolding close_lines
close_lines-bounds n line stack [] line' m p e = absurd (ground arith)
close_lines-bounds n line stack (l ∷ lines) line' m p e =
    elim (Scan-cases (find_end_of_expression_in_line l 0 stack)) [
      | inl (q, f) ↦
          let (a, b) = find_end-bounds l 0 q stack (omega arith) f in
          (0, ground arith, ground arith, ground arith)
      | inr (inl f) ↦ absurd (ground arith)
      | inr (inr (stack', f)) ↦
          let (j, i, g, h) = close_lines-bounds (n + 1) l stack' lines line' m p (ground arith) in
          (suc j, omega arith, g, h)
    ]

-- The place that CloseExpression returns: in the text, and behind the place it is called at.
abbrev pub Behind : List Text → ℕ → ℕ → Text → ℕ → ℕ → Type 0
Behind elided n pos line' m p =
    (get_elem? elided m ≡ some line') × (p ≤ length line') × ((n < m) ⊎ ((m ≡ n) × (pos < p)))

close_from-bounds :
    (elided : List Text) (n pos : ℕ) (line line' : Text) (m p : ℕ)
    → get_elem? elided n ≡ some line
    → pos ≤ length line
    → close_from elided n line (find_end_of_expression_in_line line pos []) ≡ found line' m p
    → Behind elided n pos line' m p
close_from-bounds elided n pos line line' m p g h e =
    elim (Scan-cases (find_end_of_expression_in_line line pos [])) [
      | inl (q, f) ↦
          let (a, b) = find_end-bounds line pos q [] h f in
          (ground (arith, g), ground arith, inr (ground arith, ground arith))
      | inr (inl f) ↦ absurd (ground arith)
      | inr (inr (stack, f)) ↦
          let (j, i, g', k) =
            close_lines-bounds n line stack (drop (suc n) elided) line' m p (ground arith) in
          (
            ap (get_elem? elided) i ∙ sym (get_elem?-drop (suc n) elided j) ∙ g',
            k,
            inl (omega arith),
          )
    ]

pub close_expression-bounds :
    (elided : List Text) (n pos c : ℕ) (line line' : Text) (m p : ℕ)
    → get_elem? elided n ≡ some line
    → get_elem? line pos ≡ some c
    → pos ≤ length line
    → close_expression elided n pos ≡ some (found line' m p)
    → Behind elided n pos line' m p
unfolding close_at
close_expression-bounds elided n pos c line line' m p g g' h e =
    elim (Bool-cases
      (not (is_opening c || (c == b'<')) || matches shift_or_compare (drop pos line))) [
        | inl refused ↦ absurd (ground (arith, close_expression-eq elided n pos line c g g'))
        | inr passed ↦
            close_from-bounds elided n pos line line' m p g h
              (ground (arith, close_expression-eq elided n pos line c g g'))
      ]
