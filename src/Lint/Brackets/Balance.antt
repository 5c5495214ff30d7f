-- ===== src/Lint/Brackets/Balance.antt =====
-- .linters/cpp/cpplint.py: CloseExpression on a bracketed text in one line.
use nebula_chaos.Prelude.{
  ℕ, suc, ◌+◌, ◌≡◌, refl, true, false, some, List, [], ◌∷◌, ◌++◌, arith, ◌==◌, length, take, drop,
  get_elem?, reverse, Text, ap, append_assoc, ◌∙◌, length-append, drop-length_append,
  get_elem?-length_append,
}
use nebula_chaos.Lint.Regex.{matches}
use nebula_chaos.Lint.Brackets.{
  Scan, closed, goes, is_opening, is_closing, fits, pop_marks, unless_empty, end_turn, scan_end,
  find_end_of_expression_in_line, found, close_at, close_expression, shift_or_compare,
}
use nebula_chaos.Lint.Brackets.Lines.{scan_end-goes, scan_end-stops}
use nebula_chaos.Lint.Brackets.Soundness.{close_expression-eq}

-- Text in which every bracket is closed, with no "<" and no ">".
pub data IsBalanced : Text → Type 0 where
  nothing : IsBalanced []
  plain :
      (c : ℕ) (t : Text)
      → is_opening c ≡ false
      → is_closing c ≡ false
      → (c == b'<') ≡ false
      → (c == b'>') ≡ false
      → IsBalanced t
      → IsBalanced (c ∷ t)
  nested :
      (o c : ℕ) (inner t : Text)
      → is_opening o ≡ true
      → fits o c ≡ true
      → IsBalanced inner
      → IsBalanced t
      → IsBalanced (o ∷ inner ++ c ∷ t)

opening_first :
    (before : Text) (c i : ℕ) → is_opening c ≡ true → end_turn before c i [] ≡ goes (c ∷ [])
unfolding end_turn
opening_first before c i h = ground arith

module _ (before : Text) (c i s : ℕ) (stack : List ℕ) (bracket : is_opening s ≡ true) where
  plain-goes :
      is_opening c ≡ false
      → is_closing c ≡ false
      → (c == b'<') ≡ false
      → (c == b'>') ≡ false
      → end_turn before c i (s ∷ stack) ≡ goes (s ∷ stack)
  unfolding end_turn pop_marks
  plain-goes a b d e = ground arith

  opening-goes : is_opening c ≡ true → end_turn before c i (s ∷ stack) ≡ goes (c ∷ s ∷ stack)
  unfolding end_turn
  opening-goes h = ground arith

  closing-eq :
      fits s c ≡ true → end_turn before c i (s ∷ stack) ≡ unless_empty (closed (i + 1)) stack
  unfolding end_turn pop_marks
  closing-eq h = ground arith

-- A walk behind balanced text, with the stack that it had in front.
abbrev Passes : Text → ℕ → Text → List ℕ → Scan → Type 0
Passes t i rest stack r = (behind : Text) × (r ≡ scan_end behind (i + length t) rest stack)

scan_end-IsBalanced :
    {t : Text} (b : IsBalanced t) (before rest : Text) (i s : ℕ) (stack : List ℕ)
    → is_opening s ≡ true
    → Passes t i rest (s ∷ stack) (scan_end before i (t ++ rest) (s ∷ stack))
scan_end-IsBalanced nothing before rest i s stack h =
    (before, let e : i ≡ i + 0 = omega arith in ap (λ j. scan_end before j rest (s ∷ stack)) e)
scan_end-IsBalanced (plain c t p q u v b) before rest i s stack h =
    let (behind, e) = scan_end-IsBalanced b (c ∷ before) rest (i + 1) s stack h in
    let first =
      scan_end-goes before c i (t ++ rest) (s ∷ stack) (s ∷ stack)
        (plain-goes before c i s stack h p q u v) in
    let shift : i + 1 + length t ≡ i + suc (length t) = omega arith in
    (behind, first ∙ e ∙ ap (λ j. scan_end behind j rest (s ∷ stack)) shift)
scan_end-IsBalanced (nested o c inner t p q b b') before rest i s stack h =
    let first =
      scan_end-goes before o i (inner ++ (c ∷ t ++ rest)) (s ∷ stack) (o ∷ s ∷ stack)
        (opening-goes before o i s stack h p) in
    let (inside, e) = scan_end-IsBalanced b (o ∷ before) (c ∷ t ++ rest) (i + 1) o (s ∷ stack) p in
    let last =
      scan_end-goes inside c (i + 1 + length inner) (t ++ rest) (o ∷ s ∷ stack) (s ∷ stack)
        (closing-eq inside c (i + 1 + length inner) o (s ∷ stack) p q) in
    let (behind, e') =
      scan_end-IsBalanced b' (c ∷ inside) rest (i + 1 + length inner + 1) s stack h in
    let shift : i + 1 + length inner + 1 + length t ≡ i + suc (length (inner ++ c ∷ t)) =
      omega (arith, length-append inner (c ∷ t)) in
    (
      behind,
      ap (λ r. scan_end before i (o ∷ r) (s ∷ stack)) (append_assoc inner (c ∷ t) rest)
          ∙ first
          ∙ e
          ∙ last
          ∙ e'
          ∙ ap (λ j. scan_end behind j rest (s ∷ stack)) shift,
    )

-- The bracket itself, what is inside, and the bracket that closes it.
module _ (o c : ℕ) (inner tail : Text) (p : is_opening o ≡ true) (q : fits o c ≡ true)
    (b : IsBalanced inner) where
  scan_end_bracket :
      (before : Text) (i : ℕ)
      → scan_end before i (o ∷ inner ++ c ∷ tail) [] ≡ closed (i + length inner + 2)
  scan_end_bracket before i =
      let (inside, e) = scan_end-IsBalanced b (o ∷ before) (c ∷ tail) (i + 1) o [] p in
      let end : i + 1 + length inner + 1 ≡ i + length inner + 2 = omega arith in
      scan_end-goes before o i (inner ++ c ∷ tail) [] (o ∷ []) (opening_first before o i p)
      ∙ e
      ∙ scan_end-stops inside c (i + 1 + length inner) tail (o ∷ []) _
          (closing-eq inside c (i + 1 + length inner) o [] p q)
      ∙ ap closed end

find_end_bracket :
    (line : Text) (pos o : ℕ) (inner : Text) (c : ℕ) (tail : Text)
    → is_opening o ≡ true
    → fits o c ≡ true
    → IsBalanced inner
    → drop pos line ≡ o ∷ inner ++ c ∷ tail
    → find_end_of_expression_in_line line pos [] ≡ closed (pos + length inner + 2)
unfolding find_end_of_expression_in_line
find_end_bracket line pos o inner c tail p q b rest =
    rw rest (scan_end_bracket o c inner tail p q b (reverse (take pos line)) pos)

not_shift : (o : ℕ) (t : Text) → is_opening o ≡ true → matches shift_or_compare (o ∷ t) ≡ false
unfolding matches
not_shift o t p = ground arith

close_at-closed :
    (elided : List Text) (n pos : ℕ) (line : Text) (o : ℕ) (inner : Text) (c : ℕ) (tail : Text)
    → is_opening o ≡ true
    → fits o c ≡ true
    → IsBalanced inner
    → drop pos line ≡ o ∷ inner ++ c ∷ tail
    → close_at elided n pos line o ≡ found line n (pos + length inner + 2)
unfolding close_at
close_at-closed elided n pos line o inner c tail p q b rest =
    rw
      (
        p,
        rest,
        not_shift o (inner ++ c ∷ tail) p,
        find_end_bracket line pos o inner c tail p q b rest,
      )
      refl

-- CloseExpression finds the end of a bracketed expression on its line, at the bracket that closes
-- it, where what is inside has all its brackets closed and no "<" and no ">".
pub close_expression-IsBalanced :
    (elided : List Text) (n : ℕ) (front : Text) (o : ℕ) (inner : Text) (c : ℕ) (tail : Text)
    → get_elem? elided n ≡ some (front ++ (o ∷ inner ++ c ∷ tail))
    → is_opening o ≡ true
    → fits o c ≡ true
    → IsBalanced inner
    → close_expression elided n (length front)
      ≡ some (found (front ++ (o ∷ inner ++ c ∷ tail)) n (length front + length inner + 2))
close_expression-IsBalanced elided n front o inner c tail g p q b =
    let line = front ++ (o ∷ inner ++ c ∷ tail) in
    let here = get_elem?-length_append front o (inner ++ c ∷ tail) in
    let rest = drop-length_append front (o ∷ inner ++ c ∷ tail) in
    close_expression-eq elided n (length front) line o g here
    ∙ ap some (close_at-closed elided n (length front) line o inner c tail p q b rest)
