-- ===== src/Lint/Checks/Inside/Matched.antt =====
-- .linters/cpp/cpplint.py: the text that _GetTextInside finds has all its brackets matched.
use nebula_chaos.Prelude.{
  ℕ, ◌≡◌, refl, sym, ap, ◌∙◌, true, false, Option, none, some, List, [], ◌∷◌, ◌++◌, arith,
  append_assoc, Text, ==_self,
}
use nebula_chaos.Lint.Checks.Inside.{
  matching, is_closing, pops, stays, pushes, inside_turn, put_char, inside_from,
}

-- Every bracket has its partner.
pub data IsMatched : Text → Type 0 where
  nothing : IsMatched []
  plain :
      (c : ℕ) (t : Text)
      → matching c ≡ none
      → is_closing c ≡ false
      → IsMatched t
      → IsMatched (c ∷ t)
  brackets :
      (o c : ℕ) (inner t : Text)
      → matching o ≡ some c
      → IsMatched inner
      → IsMatched t
      → IsMatched (o ∷ inner ++ c ∷ t)

-- What the loop does behind the partner of the top.
abbrev pub behind : ℕ → List ℕ → Text → Option Text
behind top [] t = some []
behind top (next ∷ below) t = put_char top (inside_from next below t)

abbrev pub put_text : Text → Option Text → Option Text
put_text [] o = o
put_text (c ∷ t) o = put_char c (put_text t o)

pub matching-closing : (o c : ℕ) → matching o ≡ some c → is_closing c ≡ true
matching-closing o c e = ground arith

opening_not_closing : (o c : ℕ) → matching o ≡ some c → is_closing o ≡ false
opening_not_closing o c e = ground arith

module _ (top : ℕ) (closes : is_closing top ≡ true) where
  turn-top : inside_turn top top ≡ pops
  unfolding inside_turn
  turn-top = ground (arith, ==_self top)

  turn-plain : (c : ℕ) → matching c ≡ none → is_closing c ≡ false → inside_turn top c ≡ stays
  unfolding inside_turn
  turn-plain c m k = ground arith

  turn-opening : (o c : ℕ) → matching o ≡ some c → inside_turn top o ≡ pushes c
  unfolding inside_turn
  turn-opening o c m = ground (arith, opening_not_closing o c m)

  pub step-pops : (stack : List ℕ) (t : Text) → inside_from top stack (top ∷ t) ≡ behind top stack t
  unfolding inside_from
  step-pops [] t = rw (inside_from, turn-top) refl
  step-pops (next ∷ below) t = rw (inside_from, turn-top) refl

  pub step-stays :
      (c : ℕ) (stack : List ℕ) (t : Text)
      → inside_turn top c ≡ stays
      → inside_from top stack (c ∷ t) ≡ put_char c (inside_from top stack t)
  unfolding inside_from
  step-stays c stack t e = rw (inside_from, e) refl

  pub step-pushes :
      (c closing : ℕ) (stack : List ℕ) (t : Text)
      → inside_turn top c ≡ pushes closing
      → inside_from top stack (c ∷ t) ≡ put_char c (inside_from closing (top ∷ stack) t)
  unfolding inside_from
  step-pushes c closing stack t e = rw (inside_from, e) refl

put_text-append : (t u : Text) (o : Option Text) → put_text (t ++ u) o ≡ put_text t (put_text u o)
put_text-append [] u o = refl
put_text-append (c ∷ t) u o = ap (put_char c) (put_text-append t u o)

-- The loop walks over a matched text and its closing bracket.
pub inside_from-IsMatched :
    {u : Text}
    → IsMatched u
    → (top : ℕ) (stack : List ℕ) (rest : Text) → is_closing top ≡ true
    → inside_from top stack (u ++ top ∷ rest) ≡ put_text u (behind top stack rest)
inside_from-IsMatched nothing top stack rest k = step-pops top k stack rest
inside_from-IsMatched (plain c t m n p) top stack rest k =
    step-stays top k c stack (t ++ top ∷ rest) (turn-plain top k c m n)
    ∙ ap (put_char c) (inside_from-IsMatched p top stack rest k)
inside_from-IsMatched (brackets o c inner t m p q) top stack rest k =
    step-pushes top k o c stack _ (turn-opening top k o c m)
    ∙ ap (put_char o) (
        ap (inside_from c (top ∷ stack)) (append_assoc inner (c ∷ t) (top ∷ rest))
        ∙ inside_from-IsMatched p c (top ∷ stack) (t ++ top ∷ rest) (matching-closing o c m)
        ∙ ap (put_text inner) (ap (put_char c) (inside_from-IsMatched q top stack rest k))
        ∙ sym (put_text-append inner (c ∷ t) (behind top stack rest)))

pub put_text-nil : (u : Text) → put_text u (some []) ≡ some u
put_text-nil [] = refl
put_text-nil (c ∷ u) = ap (put_char c) (put_text-nil u)
