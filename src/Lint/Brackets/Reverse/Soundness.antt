-- ===== src/Lint/Brackets/Reverse/Soundness.antt =====
-- .linters/cpp/cpplint.py: what stands at the start that ReverseCloseExpression finds.
use nebula_chaos.Prelude.{
  ℕ, zero, suc, ◌<◌, ◌≡◌, refl, true, ◌||◌, not, Option, none, some, List, [], ◌∷◌, arith, ◌==◌,
  length, take, drop, get_elem?, reverse, Text, Bool-cases, subst, sym, ◌⊎◌, inl, inr, Option-cases,
  ◌∙◌,
}
use nebula_chaos.Lint.Brackets.{
  Scan, closed, unbalanced, pending, is_closing, Closing, found, not_found,
}
use nebula_chaos.Lint.Brackets.Lines.{closes, HasBottom}
use nebula_chaos.Lint.Brackets.Soundness.{Scan-cases}
use nebula_chaos.Lint.Brackets.Reverse.{
  find_start_of_expression_in_line, reverse_lines, reverse_from, reverse_at,
  reverse_close_expression,
}
use nebula_chaos.Lint.Brackets.Reverse.Lines.{
  LineFits, next_line-LineFits, ends, first_line-LineFits,
}

-- What `reverse_lines` finds in front of line `n`.
abbrev StartsAbove : ℕ → ℕ → List Text → Option Closing → Type 0
StartsAbove o n elided none = Unit
StartsAbove o n elided (some (not_found line)) = Unit
StartsAbove o n elided (some (found line m p)) =
    (m < n)
    × (get_elem? elided m ≡ some line)
    × ((d : ℕ) × (get_elem? line p ≡ some d) × (closes d o ≡ true))

StartsAbove-suc :
    (o n : ℕ) (elided : List Text) (r : Option Closing)
    → StartsAbove o n elided r
    → StartsAbove o (suc n) elided r
StartsAbove-suc o n elided none h = tt
StartsAbove-suc o n elided (some (not_found line)) h = tt
StartsAbove-suc o n elided (some (found line m p)) (b, e, h) = (omega arith, e, h)

module _ (elided : List Text) (n : ℕ) (line : Text) (x : ℕ) (stack : List ℕ) where
  reverse_lines-none :
      get_elem? elided n ≡ none → reverse_lines elided (suc n) line (x ∷ stack) ≡ none
  unfolding reverse_lines
  reverse_lines-none e = rw (e, reverse_lines)

  module _ (l : Text) (g : get_elem? elided n ≡ some l) where
    reverse_lines-closed :
        (p : ℕ)
        → find_start_of_expression_in_line l (length l) (x ∷ stack) ≡ closed p
        → reverse_lines elided (suc n) line (x ∷ stack) ≡ some (found l n p)
    unfolding reverse_lines
    reverse_lines-closed p e = rw (g, reverse_lines, e, reverse_lines)

    reverse_lines-unbalanced :
        find_start_of_expression_in_line l (length l) (x ∷ stack) ≡ unbalanced
        → reverse_lines elided (suc n) line (x ∷ stack) ≡ some (not_found l)
    unfolding reverse_lines
    reverse_lines-unbalanced e = rw (g, reverse_lines, e, reverse_lines)

    reverse_lines-pending :
        (stack' : List ℕ)
        → find_start_of_expression_in_line l (length l) (x ∷ stack) ≡ pending stack'
        → reverse_lines elided (suc n) line (x ∷ stack) ≡ reverse_lines elided n l stack'
    unfolding reverse_lines
    reverse_lines-pending stack' e = rw (g, reverse_lines, e, reverse_lines)

reverse_lines-StartsAbove :
    (o : ℕ) (elided : List Text) (n : ℕ) (line : Text) (stack : List ℕ)
    → HasBottom o stack
    → StartsAbove o n elided (reverse_lines elided n line stack)
reverse_lines-StartsAbove o elided zero line stack h = unfold reverse_lines in tt
reverse_lines-StartsAbove o elided (suc n) line [] h = absurd h
reverse_lines-StartsAbove o elided (suc n) line (x ∷ stack) h =
    elim (Option-cases (get_elem? elided n)) [
      | inl e ↦ rw (reverse_lines-none elided n line x stack e) tt
      | inr (l, g) ↦
          let fit = next_line-LineFits o l (x ∷ stack) h in
          elim (Scan-cases (find_start_of_expression_in_line l (length l) (x ∷ stack))) [
            | inl (p, e) ↦
                let (d, _, e', h') = (rw e at fit) in
                rw (reverse_lines-closed elided n line x stack l g p e)
                  (omega arith, g, (d, e', h'))
            | inr (inl e) ↦ rw (reverse_lines-unbalanced elided n line x stack l g e) tt
            | inr (inr (stack', e)) ↦
                rw (reverse_lines-pending elided n line x stack l g stack' e) (
                  StartsAbove-suc o n elided (reverse_lines elided n l stack')
                    (reverse_lines-StartsAbove o elided n l stack' (rw e at fit)))
          ]
    ]

abbrev OpensAt : List Text → ℕ → ℕ → ℕ → Option Closing → Type 0
OpensAt elided n pos c none = Unit
OpensAt elided n pos c (some (not_found line)) = Unit
OpensAt elided n pos c (some (found line m p)) =
    (get_elem? elided m ≡ some line)
    × ((m < n) ⊎ (m ≡ n) × (p < pos))
    × ((d : ℕ) × (get_elem? line p ≡ some d) × (closes d c ≡ true))

OpensAt-of_StartsAbove :
    (elided : List Text) (n pos c : ℕ) (r : Option Closing)
    → StartsAbove c n elided r
    → OpensAt elided n pos c r
OpensAt-of_StartsAbove elided n pos c none h = tt
OpensAt-of_StartsAbove elided n pos c (some (not_found line)) h = tt
OpensAt-of_StartsAbove elided n pos c (some (found line m p)) (b, g, h) = (g, inl b, h)

reverse_from-OpensAt :
    (elided : List Text) (n pos c : ℕ) (line : Text) (s : Scan)
    → get_elem? elided n ≡ some line
    → LineFits c pos line s
    → OpensAt elided n pos c (reverse_from elided n line s)
reverse_from-OpensAt elided n pos c line (closed p) g (d, b, e, h) = (g, inr (refl, b), (d, e, h))
reverse_from-OpensAt elided n pos c line unbalanced g h = tt
reverse_from-OpensAt elided n pos c line (pending stack) g h =
    OpensAt-of_StartsAbove elided n pos c (reverse_lines elided n line stack)
      (reverse_lines-StartsAbove c elided n line stack h)

reverse_at-OpensAt :
    (elided : List Text) (n pos c : ℕ) (line : Text)
    → get_elem? elided n ≡ some line
    → get_elem? line pos ≡ some c
    → ends (reverse (take pos line)) c (drop (suc pos) line) ≡ true
    → OpensAt elided n pos c (reverse_at elided n pos line c)
unfolding reverse_at
reverse_at-OpensAt elided n pos c line g g' h =
    elim (Bool-cases (not (is_closing c || (c == b'>')))) [
      | inl refused ↦ rw refused tt
      | inr passed ↦ rw passed (
          reverse_from-OpensAt elided n pos c line
            (find_start_of_expression_in_line line (suc pos) []) g
            (first_line-LineFits line pos c g' h))
    ]

reverse_close_expression-eq :
    (elided : List Text) (n pos : ℕ) (line : Text) (c : ℕ)
    → get_elem? elided n ≡ some line
    → get_elem? line pos ≡ some c
    → reverse_close_expression elided n pos ≡ reverse_at elided n pos line c
unfolding reverse_close_expression
reverse_close_expression-eq elided n pos line c g g' = rw (g, g', reverse_close_expression)

-- Where ReverseCloseExpression is called at a closing bracket, or at a ">" that is not part of
-- "->" or " >= " and not the name of an operator, and finds a start: the line that it returns is
-- the line of the number that it returns; the position lies in front of the bracket; and the
-- character at the position opens the bracket.
pub reverse_close_expression-opens :
    (elided : List Text) (n pos c : ℕ) (line line' : Text) (m p : ℕ)
    → get_elem? elided n ≡ some line
    → get_elem? line pos ≡ some c
    → ends (reverse (take pos line)) c (drop (suc pos) line) ≡ true
    → reverse_close_expression elided n pos ≡ some (found line' m p)
    → (get_elem? elided m ≡ some line')
      × ((m < n) ⊎ (m ≡ n) × (p < pos))
      × ((d : ℕ) × (get_elem? line' p ≡ some d) × (closes d c ≡ true))
reverse_close_expression-opens elided n pos c line line' m p g g' h e =
    subst (OpensAt elided n pos c) (sym (reverse_close_expression-eq elided n pos line c g g') ∙ e)
      (reverse_at-OpensAt elided n pos c line g g' h)
