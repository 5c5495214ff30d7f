-- ===== src/Expression/Frame.antt =====
-- src/expression: which variables an evaluation reads.
use nebula_chaos.Prelude.{
  ◌≡◌, refl, Bool, false, ◌||◌, some, [], ◌∷◌, Text, text_eq, text_eq_iff, text_eq_self,
  if◌then◌else◌, arith, Bool-cases, inl, inr, sym, ap, subst, ◌∙◌,
}
use nebula_chaos.Expression.Integers.{done}
use nebula_chaos.Expression.Values.{
  Doubles, Value, value, Variables, get_var, set_var, Expression, constant, variable, unary,
  arithmetic, relational, logical,
}
use nebula_chaos.Expression.Eval.{eval, Result, with_operand}

module _ {D : Type 0} where
  pub get_var-set_var :
      (name : Text) (v : Value D) (vars : Variables D)
      → get_var name (set_var name v vars) ≡ value v
  unfolding get_var set_var
  get_var-set_var name v [] = let e = text_eq_self name in ground arith
  get_var-set_var name v ((n, w) ∷ rest) = let ih = get_var-set_var name v rest in ground arith

  pub get_var-set_other :
      (name other : Text) (v : Value D) (vars : Variables D)
      → text_eq name other ≡ false
      → get_var other (set_var name v vars) ≡ get_var other vars
  unfolding get_var set_var
  get_var-set_other name other v [] h = ground arith
  get_var-set_other name other v ((n, w) ∷ rest) h =
      let ih = get_var-set_other name other v rest h in
      elim (Bool-cases (text_eq n name)) [
        | inl same ↦
            let e : n ≡ name = (text_eq_iff n name).0 same in
            let other_name : text_eq n other ≡ false =
              subst (λ m. text_eq m other ≡ false) (sym e) h in
            rw (same, get_var, other_name) refl
        | inr differ ↦ rw (differ, get_var) (ap (λ r. if text_eq n other then value w else r) ih)
      ]

  -- The variable occurs in the expression.
  abbrev pub reads : Text → Expression D → Bool
  reads x (constant v) = false
  reads x (variable y) = text_eq x y
  reads x (unary op e) = reads x e
  reads x (arithmetic l op r) = reads x l || reads x r
  reads x (relational l op r) = reads x l || reads x r
  reads x (logical l op r) = reads x l || reads x r

module _ (doubles : Doubles) where
  with_operands :
      {a b c d : Result doubles}
      (k : Value (doubles.Double) → Value (doubles.Double) → Result doubles)
      → a ≡ b
      → c ≡ d
      → with_operand doubles a (λ x. with_operand doubles c (k x))
        ≡ with_operand doubles b (λ x. with_operand doubles d (k x))
  with_operands {b = b} {c = c} k e h =
      ap (λ r. with_operand doubles r (λ x. with_operand doubles c (k x))) e
      ∙ ap (λ r. with_operand doubles b (λ x. with_operand doubles r (k x))) h

module _ (doubles : Doubles) (x : Text) (v : Value (doubles.Double))
    (vars : Variables (doubles.Double)) where
  -- Setting a variable that the expression does not name leaves its evaluation as it is.
  pub eval-set_other :
      (e : Expression (doubles.Double))
      → reads x e ≡ false
      → eval doubles (some (set_var x v vars)) e ≡ eval doubles (some vars) e
  unfolding eval
  eval-set_other (constant w) h = refl
  eval-set_other (variable y) h = ap done (get_var-set_other x y v vars h)
  eval-set_other (unary op e) h = rw (eval-set_other e h) refl
  eval-set_other (arithmetic l op r) h =
      with_operands doubles _ (eval-set_other l (ground arith)) (eval-set_other r (ground arith))
  eval-set_other (relational l op r) h =
      with_operands doubles _ (eval-set_other l (ground arith)) (eval-set_other r (ground arith))
  eval-set_other (logical l op r) h =
      with_operands doubles _ (eval-set_other l (ground arith)) (eval-set_other r (ground arith))
