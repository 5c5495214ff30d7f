-- ===== src/Lint/Brackets/Reverse/Lines.antt =====
-- .linters/cpp/cpplint.py: what FindStartOfExpressionInLine finds in one line.
use mathlib.Core.List.{reverse-reverse}
use nebula_chaos.Prelude.{
  ℕ, suc, ◌<◌, ◌≡◌, refl, Bool, true, ◌&&◌, ◌||◌, not, some, List, [], ◌∷◌, arith, ◌==◌, length,
  take, drop, get_elem?, reverse, Text, is_nil, Bool-cases, subst, ◌⊎◌, inl, inr, ◌∙◌,
  length-reverse, length-take_le, get_elem?-of_take, take-suc, reverse-snoc, get_elem?-reverse_last,
  get_elem?-reverse_cons,
}
use nebula_chaos.Lint.Brackets.{
  Scan, closed, unbalanced, pending, Turn, goes, skips, stops, is_closing, fits, ends_with_operator,
  previous_is, unless_empty, close_bracket, close_popped, end_of_statement,
}
use nebula_chaos.Lint.Brackets.Lines.{closes, HasBottom, HasBottom-cons}
use nebula_chaos.Lint.Brackets.Reverse.{
  is_at_least, start_angle, open_angle, start_turn, scan_start, find_start_of_expression_in_line,
}

-- What a turn may do on a stack with the closing bracket `o` at its bottom, at the character `c`
-- of position `i`.
abbrev TurnFits : ℕ → ℕ → ℕ → Turn → Type 0
TurnFits o c i (goes stack) = HasBottom o stack
TurnFits o c i (skips stack) = HasBottom o stack
TurnFits o c i (stops (closed p)) = (p ≡ i) × (closes c o ≡ true)
TurnFits o c i (stops unbalanced) = Unit
TurnFits o c i (stops (pending stack)) = ⊥

module _ (o c i : ℕ) where
  closed-TurnFits :
      (x : ℕ) (r : List ℕ)
      → HasBottom o (x ∷ r)
      → closes c x ≡ true
      → TurnFits o c i (unless_empty (closed i) r)
  closed-TurnFits x [] h e = (refl, subst (λ y. closes c y ≡ true) h e)
  closed-TurnFits x (y ∷ r) h e = h

  end_of_statement-TurnFits :
      (stack : List ℕ) → HasBottom o stack → TurnFits o c i (end_of_statement b'>' stack)
  unfolding end_of_statement
  end_of_statement-TurnFits [] h = absurd h
  end_of_statement-TurnFits (x ∷ []) h = ground arith
  end_of_statement-TurnFits (x ∷ y ∷ r) h = elim (Bool-cases (x == b'>')) [
    | inl angle ↦ rw angle (end_of_statement-TurnFits (y ∷ r) h)
    | inr other ↦ rw other h
  ]

  close_bracket-TurnFits :
      (stack : List ℕ)
      → HasBottom o stack
      → TurnFits o c i (close_bracket b'>' (λ s. fits c s) (closed i) stack)
  unfolding close_bracket
  close_bracket-TurnFits [] h = absurd h
  close_bracket-TurnFits (x ∷ []) h = ground (arith, closed-TurnFits x [] h)
  close_bracket-TurnFits (x ∷ y ∷ r) h = elim (Bool-cases (x == b'>')) [
    | inl angle ↦ rw (angle, close_popped) (close_bracket-TurnFits (y ∷ r) h)
    | inr other ↦ rw (other, close_popped) (ground (arith, closed-TurnFits x (y ∷ r) h))
  ]

  start_angle-TurnFits :
      (before after : Text) (stack : List ℕ)
      → HasBottom o stack
      → TurnFits o c i (start_angle before c after stack)
  unfolding start_angle
  start_angle-TurnFits before after stack h = ground (arith, HasBottom-cons o b'>' stack h)

  open_angle-TurnFits :
      (before : Text) (stack : List ℕ)
      → c ≡ b'<'
      → HasBottom o stack
      → TurnFits o c i (open_angle before i stack)
  unfolding open_angle
  open_angle-TurnFits before [] e h = absurd h
  open_angle-TurnFits before (x ∷ r) e h = ground (arith, closed-TurnFits x r h)

  start_turn-TurnFits :
      (before after : Text) (stack : List ℕ)
      → HasBottom o stack
      → TurnFits o c i (start_turn before c after i stack)
  unfolding start_turn
  start_turn-TurnFits before after stack h = ground (
    arith,
    HasBottom-cons o c stack h,
    start_angle-TurnFits before after stack h,
    close_bracket-TurnFits stack h,
    end_of_statement-TurnFits stack h,
    open_angle-TurnFits before stack,
  )

-- What a walk backwards over `back` may find: the position of a character that `o` closes.
abbrev ScanFits : ℕ → Text → Scan → Type 0
ScanFits o back (closed p) =
    (c : ℕ) × (p < length back) × (get_elem? (reverse back) p ≡ some c) × (closes c o ≡ true)
ScanFits o back unbalanced = Unit
ScanFits o back (pending stack) = HasBottom o stack

ScanFits-cons : (o c : ℕ) (back : Text) (s : Scan) → ScanFits o back s → ScanFits o (c ∷ back) s
ScanFits-cons o c back (closed p) (d, below, e, h) =
    (d, omega arith, get_elem?-reverse_cons c back p below ∙ e, h)
ScanFits-cons o c back unbalanced h = tt
ScanFits-cons o c back (pending stack) h = h

ScanFits-of_stops :
    (o c : ℕ) (back : Text) (s : Scan)
    → TurnFits o c (length back) (stops s)
    → ScanFits o (c ∷ back) s
ScanFits-of_stops o c back (closed p) (e, h) =
    rw e (c, omega arith, get_elem?-reverse_last c back, h)
ScanFits-of_stops o c back unbalanced h = tt
ScanFits-of_stops o c back (pending stack) h = absurd h

Turn-cases :
    (t : Turn)
    → ((stack : List ℕ) × (t ≡ goes stack))
      ⊎ ((stack : List ℕ) × (t ≡ skips stack))
      ⊎ ((s : Scan) × (t ≡ stops s))
Turn-cases (goes stack) = inl (stack, refl)
Turn-cases (skips stack) = inr (inl (stack, refl))
Turn-cases (stops s) = inr (inr (s, refl))

module _ (after : Text) (c d : ℕ) (before : Text) (stack : List ℕ) where
  scan_start-goes :
      (stack' : List ℕ)
      → start_turn (d ∷ before) c after (suc (length before)) stack ≡ goes stack'
      → scan_start after (c ∷ d ∷ before) stack ≡ scan_start (c ∷ after) (d ∷ before) stack'
  unfolding scan_start
  scan_start-goes stack' e = rw (e, scan_start)

  scan_start-skips :
      (stack' : List ℕ)
      → start_turn (d ∷ before) c after (suc (length before)) stack ≡ skips stack'
      → scan_start after (c ∷ d ∷ before) stack ≡ scan_start (d ∷ c ∷ after) before stack'
  unfolding scan_start
  scan_start-skips stack' e = rw (e, scan_start)

  scan_start-stops :
      (s : Scan)
      → start_turn (d ∷ before) c after (suc (length before)) stack ≡ stops s
      → scan_start after (c ∷ d ∷ before) stack ≡ s
  unfolding scan_start
  scan_start-stops s e = rw (e, scan_start)

scan_start-one :
    (o : ℕ) (after : Text) (c : ℕ) (stack : List ℕ) (t : Turn)
    → start_turn [] c after 0 stack ≡ t
    → TurnFits o c 0 t
    → ScanFits o (c ∷ []) (scan_start after (c ∷ []) stack)
unfolding scan_start
scan_start-one o after c stack (goes stack') e h = rw (e, ScanFits) h
scan_start-one o after c stack (skips stack') e h = rw (e, ScanFits) h
scan_start-one o after c stack (stops s) e h = rw (e, ScanFits) (ScanFits-of_stops o c [] s h)

scan_start-ScanFits :
    (o : ℕ) (after back : Text) (stack : List ℕ)
    → HasBottom o stack
    → ScanFits o back (scan_start after back stack)
scan_start-ScanFits o after [] stack h = unfold scan_start in h
scan_start-ScanFits o after (c ∷ []) stack h =
    scan_start-one o after c stack (start_turn [] c after 0 stack) refl
      (start_turn-TurnFits o c 0 [] after stack h)
scan_start-ScanFits o after (c ∷ d ∷ before) stack h =
    let i = suc (length before) in
    let turn = start_turn-TurnFits o c i (d ∷ before) after stack h in
    elim (Turn-cases (start_turn (d ∷ before) c after i stack)) [
      | inl (stack', e) ↦ rw (scan_start-goes after c d before stack stack' e) (
          ScanFits-cons o c (d ∷ before) (scan_start (c ∷ after) (d ∷ before) stack')
            (scan_start-ScanFits o (c ∷ after) (d ∷ before) stack' (rw e at turn)))
      | inr (inl (stack', e)) ↦ rw (scan_start-skips after c d before stack stack' e) (
          ScanFits-cons o c (d ∷ before) (scan_start (d ∷ c ∷ after) before stack') (
            ScanFits-cons o d before (scan_start (d ∷ c ∷ after) before stack')
              (scan_start-ScanFits o (d ∷ c ∷ after) before stack' (rw e at turn))))
      | inr (inr (s, e)) ↦
          rw (scan_start-stops after c d before stack s e)
            (ScanFits-of_stops o c (d ∷ before) s (rw e at turn))
    ]

-- The same in the line that is walked over up to `count`.
abbrev pub LineFits : ℕ → ℕ → Text → Scan → Type 0
LineFits o count line (closed p) =
    (d : ℕ) × (p < count) × (get_elem? line p ≡ some d) × (closes d o ≡ true)
LineFits o count line unbalanced = Unit
LineFits o count line (pending stack) = HasBottom o stack

LineFits-of_ScanFits :
    (o count : ℕ) (line : Text) (s : Scan)
    → ScanFits o (reverse (take count line)) s
    → LineFits o count line s
LineFits-of_ScanFits o count line (closed p) (d, below, e, h) = (
  d,
  omega (arith, length-reverse (take count line), length-take_le count line),
  get_elem?-of_take count line p (rw (reverse-reverse (take count line)) at e),
  h,
)
LineFits-of_ScanFits o count line unbalanced h = tt
LineFits-of_ScanFits o count line (pending stack) h = h

pub next_line-LineFits :
    (o : ℕ) (line : Text) (stack : List ℕ)
    → HasBottom o stack
    → LineFits o (length line) line (find_start_of_expression_in_line line (length line) stack)
unfolding find_start_of_expression_in_line
next_line-LineFits o line stack h =
    LineFits-of_ScanFits o (length line) line
      (scan_start (drop (length line) line) (reverse (take (length line) line)) stack)
      (scan_start-ScanFits o (drop (length line) line) (reverse (take (length line) line)) stack h)

-- The character ends an expression: a bracket, or a ">" that is not part of "->" or " >= " and
-- not the name of an operator.
abbrev pub ends : Text → ℕ → Text → Bool
ends before c after =
    is_closing c
    || ((c == b'>')
        && not (
            not (is_nil before)
            && (previous_is b'-' before
                || is_at_least before c after
                || ends_with_operator before)))

ends-goes :
    (before : Text) (c : ℕ) (after : Text) (i : ℕ)
    → ends before c after ≡ true
    → start_turn before c after i [] ≡ goes (c ∷ [])
unfolding start_turn
ends-goes before c after i h = ground arith

-- A walk that begins at such a character, with nothing on the stack.
scan_start_first :
    (c : ℕ) (after before : Text)
    → ends before c after ≡ true
    → ScanFits c before (scan_start after (c ∷ before) [])
unfolding scan_start
scan_start_first c after [] h = rw (ends-goes [] c after 0 h, ScanFits, scan_start) refl
scan_start_first c after (d ∷ before) h =
    rw (scan_start-goes after c d before [] (c ∷ []) (ends-goes (d ∷ before) c after _ h))
      (scan_start-ScanFits c (c ∷ after) (d ∷ before) (c ∷ []) refl)

pub first_line-LineFits :
    (line : Text) (pos c : ℕ)
    → get_elem? line pos ≡ some c
    → ends (reverse (take pos line)) c (drop (suc pos) line) ≡ true
    → LineFits c pos line (find_start_of_expression_in_line line (suc pos) [])
unfolding find_start_of_expression_in_line
first_line-LineFits line pos c e h =
    rw (take-suc pos line e, reverse-snoc (take pos line) c)
      (LineFits-of_ScanFits c pos line
        (scan_start (drop (suc pos) line) (c ∷ reverse (take pos line)) [])
        (scan_start_first c (drop (suc pos) line) (reverse (take pos line)) h))
