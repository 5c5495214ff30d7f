-- ===== src/Lint/Checks/Inside/Found.antt =====
-- .linters/cpp/cpplint.py: what _GetTextInside finds is all that lies between the brackets.
use nebula_chaos.Prelude.{
  ℕ, zero, suc, ◌≤◌, ◌≡◌, ◌↔◌, ◌⊎◌, inl, inr, refl, sym, ap, ◌∙◌, subst, true, false, ◌==◌, Option,
  none, some, List, [], ◌∷◌, ◌++◌, arith, length, length-append, append_assoc, append-nil, Text,
  Option-cases, Bool-cases,
}
use nebula_chaos.Lint.Checks.Inside.{
  matching, is_closing, pops, fails, stays, pushes, inside_turn, put_char, inside_from,
}
use nebula_chaos.Lint.Checks.Inside.Matched.{
  IsMatched, nothing, plain, brackets, behind, matching-closing, inside_from-IsMatched, step-pops,
  step-stays, step-pushes, put_text-nil,
}

-- What the turns tell about the character.
Turn-cases :
    (top c : ℕ)
    → ((inside_turn top c ≡ pops) × (c ≡ top))
      ⊎ (inside_turn top c ≡ fails)
      ⊎ ((inside_turn top c ≡ stays) × (matching c ≡ none) × (is_closing c ≡ false))
      ⊎ ((x : ℕ) × (inside_turn top c ≡ pushes x) × (matching c ≡ some x))
unfolding inside_turn
Turn-cases top c = elim (Bool-cases (c == top)) [
  | inl same ↦ inl (rw same refl, ground arith)
  | inr other ↦ elim (Bool-cases (is_closing c)) [
    | inl closes ↦ inr (inl (rw (other, closes) refl))
    | inr more ↦ elim (Option-cases (matching c)) [
      | inl m ↦ inr (inr (inl (rw (other, more, m) refl, m, more)))
      | inr (x, m) ↦ inr (inr (inr (x, rw (other, more, m) refl, m)))
    ]
  ]
]

put_char-inv :
    (c : ℕ) (o : Option Text) (u : Text)
    → put_char c o ≡ some u
    → (t : Text) × (o ≡ some t) × (u ≡ c ∷ t)
put_char-inv c none u e = absurd (cc)
put_char-inv c (some t) u e = (t, refl, ground arith)

step-fails :
    (top : ℕ) (stack : List ℕ) (c : ℕ) (t : Text)
    → inside_turn top c ≡ fails
    → inside_from top stack (c ∷ t) ≡ none
unfolding inside_from
step-fails top stack c t e = rw (inside_from, e) refl

-- A matched text in front of the partner of the top, and what the loop does behind it.
abbrev Splits : ℕ → List ℕ → Text → Text → Type 0
Splits top stack t u =
    (v : Text) × (rest : Text) × (w : Text) × IsMatched v
    × (t ≡ v ++ top ∷ rest)
    × (behind top stack rest ≡ some w)
    × (u ≡ v ++ w)

-- A bracket with its partner in front of a split.
brackets-Splits :
    (c x top : ℕ) (stack : List ℕ) (t v rest u w : Text)
    → matching c ≡ some x
    → IsMatched v
    → t ≡ v ++ x ∷ rest
    → u ≡ c ∷ (v ++ x ∷ w)
    → Splits top stack rest w
    → Splits top stack (c ∷ t) u
brackets-Splits c x top stack t v rest u w m p a d (v', rest', w', p', a', b', d') = (
  c ∷ v ++ x ∷ v',
  rest',
  w',
  brackets c x v v' m p p',
  ap (λ y. c ∷ y) (a ∙ ap (λ y. v ++ x ∷ y) a' ∙ sym (append_assoc v (x ∷ v') (top ∷ rest'))),
  b',
  d ∙ ap (λ y. c ∷ y) (ap (λ y. v ++ x ∷ y) d' ∙ sym (append_assoc v (x ∷ v') w')),
)

inside_from-Splits :
    (n top : ℕ) (stack : List ℕ) (t u : Text)
    → length t ≤ n
    → is_closing top ≡ true
    → inside_from top stack t ≡ some u
    → Splits top stack t u
unfolding inside_from
inside_from-Splits n top stack [] u h k e = absurd (cc)
inside_from-Splits zero top stack (c ∷ t) u h k e = absurd (omega arith)
inside_from-Splits (suc n) top stack (c ∷ t) u h k e = elim (Turn-cases top c) [
  | inl (turn, same) ↦
      let popped : behind top stack t ≡ some u =
        sym (step-pops top k stack t) ∙ ap (λ x. inside_from top stack (x ∷ t)) (sym same) ∙ e in
      ([], t, u, nothing, ap (λ x. x ∷ t) same, popped, refl)
  | inr (inl turn) ↦ absurd (cc (step-fails top stack c t turn))
  | inr (inr (inl (turn, m, free))) ↦
      let (u', f, g) =
        put_char-inv c (inside_from top stack t) u (sym (step-stays top k c stack t turn) ∙ e) in
      let (v, rest, w, p, a, b, d) = inside_from-Splits n top stack t u' (omega arith) k f in
      (c ∷ v, rest, w, plain c v m free p, ap (λ x. c ∷ x) a, b, g ∙ ap (λ x. c ∷ x) d)
  | inr (inr (inr (x, turn, m))) ↦
      let (u', f, g) =
        put_char-inv c (inside_from x (top ∷ stack) t) u
          (sym (step-pushes top k c x stack t turn) ∙ e) in
      let (v, rest, w, p, a, b, d) =
        inside_from-Splits n x (top ∷ stack) t u' (omega arith) (matching-closing c x m) f in
      let (w', f', g') = put_char-inv x (inside_from top stack rest) w b in
      let less : length rest ≤ n = omega (arith, h, ap length a, length-append v (x ∷ rest)) in
      brackets-Splits c x top stack t v rest u w' m p a
        (g ∙ ap (λ y. c ∷ y) (d ∙ ap (λ y. v ++ y) g'))
        (inside_from-Splits n top stack rest w' less k f')
]

-- Behind an opening bracket whose partner is `closing`, the loop of _GetTextInside finds a text
-- exactly where the text behind the bracket begins with it and with `closing`, and all brackets of it
-- have their partners in it.
pub inside_from-matched :
    (closing : ℕ) (t u : Text)
    → is_closing closing ≡ true
    → (inside_from closing [] t ≡ some u)
      ↔ ((rest : Text) × IsMatched u × (t ≡ u ++ closing ∷ rest))
inside_from-matched closing t u k = (
  λ e.
      let (v, rest, w, p, a, b, d) =
        inside_from-Splits (length t) closing [] t u (omega arith) k e in
      let ends : w ≡ [] = ground arith in
      let same : u ≡ v = d ∙ ap (λ x. v ++ x) ends ∙ append-nil v in
      (rest, subst IsMatched (sym same) p, a ∙ ap (λ x. x ++ closing ∷ rest) (sym same)),
  λ (rest, p, a).
      ap (inside_from closing []) a ∙ inside_from-IsMatched p closing [] rest k ∙ put_text-nil u,
)
