-- ===== src/Lint/Brackets/Lines.antt =====
-- .linters/cpp/cpplint.py: what FindEndOfExpressionInLine finds in one line.
use nebula_chaos.Prelude.{
  ℕ, suc, ◌+◌, ◌≡◌, refl, Bool, true, ◌&&◌, ◌||◌, not, some, List, [], ◌∷◌, arith, ◌==◌, take, drop,
  get_elem?, reverse, Text, is_nil, Bool-cases, subst, ◌⊎◌, inl, inr, drop-get_elem?,
}
use nebula_chaos.Lint.Brackets.{
  Scan, closed, unbalanced, pending, Turn, goes, skips, stops, is_opening, fits, pop_marks,
  ends_with_operator, previous_is, unless_empty, end_angle, close_bracket, close_popped,
  close_angle, end_of_statement, end_turn, scan_end, find_end_of_expression_in_line,
}

-- `c` closes what `o` opens.
abbrev pub closes : ℕ → ℕ → Bool
closes o c = fits o c || ((o == b'<') && (c == b'>'))

-- The stack is not empty, and `o` lies at its bottom.
abbrev pub HasBottom : ℕ → List ℕ → Type 0
HasBottom o [] = ⊥
HasBottom o (x ∷ []) = x ≡ o
HasBottom o (x ∷ y ∷ r) = HasBottom o (y ∷ r)

pub HasBottom-cons : (o x : ℕ) (r : List ℕ) → HasBottom o r → HasBottom o (x ∷ r)
HasBottom-cons o x [] h = absurd h
HasBottom-cons o x (y ∷ r) h = h

-- What a turn may do on a stack with `o` at its bottom, at the character `c` of position `i`.
abbrev TurnFits : ℕ → ℕ → ℕ → Turn → Type 0
TurnFits o c i (goes stack) = HasBottom o stack
TurnFits o c i (skips stack) = ⊥
TurnFits o c i (stops (closed p)) = (p ≡ i + 1) × (closes o c ≡ true)
TurnFits o c i (stops unbalanced) = Unit
TurnFits o c i (stops (pending stack)) = ⊥

module _ (o c i : ℕ) where
  unbalanced-TurnFits :
      (x : ℕ) (r : List ℕ) → HasBottom o (x ∷ r) → TurnFits o c i (unless_empty unbalanced r)
  unbalanced-TurnFits x [] h = tt
  unbalanced-TurnFits x (y ∷ r) h = h

  closed-TurnFits :
      (x : ℕ) (r : List ℕ)
      → HasBottom o (x ∷ r)
      → closes x c ≡ true
      → TurnFits o c i (unless_empty (closed (i + 1)) r)
  closed-TurnFits x [] h e = (refl, subst (λ y. closes y c ≡ true) h e)
  closed-TurnFits x (y ∷ r) h e = h

  end_of_statement-TurnFits :
      (stack : List ℕ) → HasBottom o stack → TurnFits o c i (end_of_statement b'<' stack)
  unfolding end_of_statement
  end_of_statement-TurnFits [] h = absurd h
  end_of_statement-TurnFits (x ∷ []) h = ground arith
  end_of_statement-TurnFits (x ∷ y ∷ r) h = elim (Bool-cases (x == b'<')) [
    | inl angle ↦ rw angle (end_of_statement-TurnFits (y ∷ r) h)
    | inr other ↦ rw other h
  ]

  close_bracket-TurnFits :
      (stack : List ℕ)
      → HasBottom o stack
      → TurnFits o c i (close_bracket b'<' (λ s. fits s c) (closed (i + 1)) stack)
  unfolding close_bracket pop_marks
  close_bracket-TurnFits [] h = absurd h
  close_bracket-TurnFits (x ∷ []) h = ground (arith, closed-TurnFits x [] h)
  close_bracket-TurnFits (x ∷ y ∷ r) h = elim (Bool-cases (x == b'<')) [
    | inl angle ↦ rw (angle, close_popped) (close_bracket-TurnFits (y ∷ r) h)
    | inr other ↦ rw (other, close_popped) (ground (arith, closed-TurnFits x (y ∷ r) h))
  ]

  close_angle-TurnFits :
      (before : Text) (stack : List ℕ)
      → c ≡ b'>'
      → HasBottom o stack
      → TurnFits o c i (close_angle before i stack)
  unfolding close_angle
  close_angle-TurnFits before [] e h = absurd h
  close_angle-TurnFits before (x ∷ r) e h = ground (arith, closed-TurnFits x r h)

  end_angle-TurnFits :
      (before : Text) (stack : List ℕ) → HasBottom o stack → TurnFits o c i (end_angle before stack)
  unfolding end_angle
  end_angle-TurnFits before [] h = absurd h
  end_angle-TurnFits before (x ∷ r) h =
      ground (arith, unbalanced-TurnFits x r h, HasBottom-cons o b'<' (x ∷ r) h)

  end_turn-TurnFits :
      (before : Text) (stack : List ℕ)
      → HasBottom o stack
      → TurnFits o c i (end_turn before c i stack)
  unfolding end_turn
  end_turn-TurnFits before stack h = ground (
    arith,
    HasBottom-cons o c stack h,
    end_angle-TurnFits before stack h,
    close_bracket-TurnFits stack h,
    end_of_statement-TurnFits stack h,
    close_angle-TurnFits before stack,
  )

-- What a walk over `rest` from position `i` on may find. A match ends behind a character that
-- closes `o`.
abbrev pub ScanFits : ℕ → ℕ → Text → Scan → Type 0
ScanFits o i rest (closed p) =
    (k : ℕ) × (c : ℕ) × (p ≡ i + k + 1) × (get_elem? rest k ≡ some c) × (closes o c ≡ true)
ScanFits o i rest unbalanced = Unit
ScanFits o i rest (pending stack) = HasBottom o stack

ScanFits-cons :
    (o i x : ℕ) (rest : Text) (s : Scan) → ScanFits o (i + 1) rest s → ScanFits o i (x ∷ rest) s
ScanFits-cons o i x rest (closed p) (k, c, e, g, h) = (suc k, c, omega arith, g, h)
ScanFits-cons o i x rest unbalanced h = tt
ScanFits-cons o i x rest (pending stack) h = h

pub Turn-cases :
    (t : Turn)
    → ((stack : List ℕ) × (t ≡ goes stack))
      ⊎ ((stack : List ℕ) × (t ≡ skips stack))
      ⊎ ((s : Scan) × (t ≡ stops s))
Turn-cases (goes stack) = inl (stack, refl)
Turn-cases (skips stack) = inr (inl (stack, refl))
Turn-cases (stops s) = inr (inr (s, refl))

ScanFits-of_stops :
    (o c i : ℕ) (rest : Text) (s : Scan) → TurnFits o c i (stops s) → ScanFits o i (c ∷ rest) s
ScanFits-of_stops o c i rest (closed p) (e, h) = (0, c, omega arith, refl, h)
ScanFits-of_stops o c i rest unbalanced h = tt
ScanFits-of_stops o c i rest (pending stack) h = absurd h

module _ (before : Text) (c i : ℕ) (rest : Text) (stack : List ℕ) where
  pub scan_end-goes :
      (stack' : List ℕ)
      → end_turn before c i stack ≡ goes stack'
      → scan_end before i (c ∷ rest) stack ≡ scan_end (c ∷ before) (i + 1) rest stack'
  unfolding scan_end
  scan_end-goes stack' e = rw (e, scan_end)

  pub scan_end-stops :
      (s : Scan) → end_turn before c i stack ≡ stops s → scan_end before i (c ∷ rest) stack ≡ s
  unfolding scan_end
  scan_end-stops s e = rw (e, scan_end)

scan_end-ScanFits :
    (o : ℕ) (before : Text) (i : ℕ) (rest : Text) (stack : List ℕ)
    → HasBottom o stack
    → ScanFits o i rest (scan_end before i rest stack)
scan_end-ScanFits o before i [] stack h = unfold scan_end in h
scan_end-ScanFits o before i (c ∷ rest) stack h =
    let turn = end_turn-TurnFits o c i before stack h in
    elim (Turn-cases (end_turn before c i stack)) [
      | inl (stack', e) ↦ rw (scan_end-goes before c i rest stack stack' e) (
          ScanFits-cons o i c rest (scan_end (c ∷ before) (i + 1) rest stack')
            (scan_end-ScanFits o (c ∷ before) (i + 1) rest stack' (rw e at turn)))
      | inr (inl (stack', e)) ↦ absurd (rw e at turn)
      | inr (inr (s, e)) ↦
          rw (scan_end-stops before c i rest stack s e)
            (ScanFits-of_stops o c i rest s (rw e at turn))
    ]

-- The character begins an expression that CloseExpression can close: a bracket, or a "<" that is
-- not the second one of "<<" and not the name of an operator.
abbrev pub begins : Text → ℕ → Bool
begins before c =
    is_opening c
    || ((c == b'<')
        && not (previous_is b'<' before)
        && not (not (is_nil before) && ends_with_operator before))

begins-goes :
    (before : Text) (c i : ℕ) → begins before c ≡ true → end_turn before c i [] ≡ goes (c ∷ [])
unfolding end_turn
begins-goes before c i h = ground arith

-- The first line, from the bracket at `pos` on.
pub find_end-ScanFits :
    (line : Text) (pos c : ℕ)
    → get_elem? line pos ≡ some c
    → begins (reverse (take pos line)) c ≡ true
    → ScanFits c (pos + 1) (drop (suc pos) line) (find_end_of_expression_in_line line pos [])
unfolding find_end_of_expression_in_line
find_end-ScanFits line pos c e h =
    rw
      (
        drop-get_elem? pos line e,
        scan_end-goes (reverse (take pos line)) c pos (drop (suc pos) line) [] (c ∷ [])
            (begins-goes (reverse (take pos line)) c pos h),
      )
      (scan_end-ScanFits c (c ∷ reverse (take pos line)) (pos + 1) (drop (suc pos) line) (c ∷ [])
        refl)

pub next_line-ScanFits :
    (o : ℕ) (line : Text) (stack : List ℕ)
    → HasBottom o stack
    → ScanFits o 0 line (find_end_of_expression_in_line line 0 stack)
unfolding find_end_of_expression_in_line
next_line-ScanFits o line stack h = scan_end-ScanFits o [] 0 line stack h
