-- ===== src/Expression/Eval.antt =====
-- src/expression/Expressions.cpp: eval of every kind of expression.
use nebula_chaos.Prelude.{Bool, true, false, not, Option, none, some, ◌++◌, if◌then◌else◌}
use nebula_chaos.Expression.Integers.{
  ℤ, ◌+ℤ◌, ◌-ℤ◌, neg, mul, quot, rem, Outcome, done, died, and_then, int64, is_add_overflow,
  is_sub_overflow, is_mul_overflow, guarded,
}
use nebula_chaos.Expression.Values.{
  Doubles, err_unknown_op, err_bad_params, Value, int, double, bool, string, ValueOrErr, value,
  error, Variables, get_var, UnaryOperator, plus, negated, not_op, ArithmeticOperator, add_op,
  sub_op, mul_op, div_op, mod_op, RelationalOperator, lt_op, le_op, gt_op, ge_op, eq_op, ne_op,
  LogicalOperator, and_op, or_op, xor_op, Expression, constant, variable, unary, arithmetic,
  relational, logical, as_bool, almost_equal, variant_lt, variant_eq,
}

module _ (doubles : Doubles) where
  abbrev pub Result : Type 0
  Result = Outcome (ValueOrErr (doubles.Double))

  abbrev unknown : Result
  unknown = done (error err_unknown_op)

  abbrev returns_int : Outcome ℤ → Result
  returns_int r = and_then r (λ n. done (value (int n)))

  unfoldable pub eval_unary : UnaryOperator → Value (doubles.Double) → Result
  unfolding as_bool
  eval_unary plus v = done (value v)
  eval_unary negated (int n) = returns_int (int64 (neg n))
  eval_unary negated (double d) = done (value (double (doubles.negate d)))
  eval_unary negated _ = unknown
  eval_unary not_op v = done (value (bool (not (as_bool doubles v))))

  -- LOG(FATAL) on an overflow, and the operation otherwise.
  abbrev checked : Outcome Bool → ℤ → Result
  checked overflow r = and_then overflow (λ o. if o then died else returns_int (int64 r))

  unfoldable pub eval_ints : ArithmeticOperator → ℤ → ℤ → Result
  unfolding is_add_overflow is_sub_overflow is_mul_overflow
  eval_ints add_op l r = checked (is_add_overflow l r) (l +ℤ r)
  eval_ints sub_op l r = checked (is_sub_overflow l r) (l -ℤ r)
  eval_ints mul_op l r = checked (is_mul_overflow l r) (mul l r)
  eval_ints div_op l r = returns_int (guarded quot l r)
  eval_ints mod_op l r = returns_int (guarded rem l r)

  abbrev returns_double : doubles.Double → Result
  returns_double d = done (value (double d))

  -- The divisor is not almost zero.
  abbrev divides : doubles.Double → doubles.Double → Result
  divides r d =
      if doubles.less (doubles.magnitude r) (doubles.epsilon) then died else returns_double d

  unfoldable pub eval_doubles : ArithmeticOperator → doubles.Double → doubles.Double → Result
  eval_doubles add_op l r = returns_double (doubles.add l r)
  eval_doubles sub_op l r = returns_double (doubles.sub l r)
  eval_doubles mul_op l r = returns_double (doubles.times l r)
  eval_doubles div_op l r = divides r (doubles.divide l r)
  eval_doubles mod_op l r = divides r (doubles.fmod l r)

  unfoldable pub eval_arithmetic :
      ArithmeticOperator → Value (doubles.Double) → Value (doubles.Double) → Result
  unfolding eval_ints eval_doubles
  eval_arithmetic op (int l) (int r) = eval_ints op l r
  eval_arithmetic op (int l) (double r) = eval_doubles op (doubles.of_int l) r
  eval_arithmetic op (double l) (int r) = eval_doubles op l (doubles.of_int r)
  eval_arithmetic op (double l) (double r) = eval_doubles op l r
  eval_arithmetic add_op (string l) (string r) = done (value (string (l ++ r)))
  eval_arithmetic op _ _ = unknown

  -- The case of EQ, which NE negates.
  unfoldable pub equals : Value (doubles.Double) → Value (doubles.Double) → Bool
  unfolding variant_eq almost_equal
  equals (int l) (double r) = almost_equal doubles (doubles.of_int l) r
  equals (double l) (int r) = almost_equal doubles l (doubles.of_int r)
  equals (double l) (double r) = almost_equal doubles l r
  equals l r = variant_eq doubles l r

  unfoldable pub eval_relational :
      RelationalOperator → Value (doubles.Double) → Value (doubles.Double) → Bool
  unfolding variant_lt equals
  eval_relational lt_op l r = variant_lt doubles l r
  eval_relational le_op l r = not (variant_lt doubles r l)
  eval_relational gt_op l r = variant_lt doubles r l
  eval_relational ge_op l r = not (variant_lt doubles l r)
  eval_relational eq_op l r = equals l r
  eval_relational ne_op l r = not (equals l r)

  unfoldable pub eval_logical : LogicalOperator → Bool → Bool → Bool
  eval_logical and_op l r = if not l then false else r
  eval_logical or_op l r = if l then true else r
  eval_logical xor_op l r = if l then not r else r

  -- An operand whose evaluation fails is returned as it is.
  abbrev pub with_operand : Result → (Value (doubles.Double) → Result) → Result
  with_operand r k = and_then r (λ v. elim v [ error e ↦ done (error e) | value x ↦ k x ])

  unfoldable pub eval : Option (Variables (doubles.Double)) → Expression (doubles.Double) → Result
  unfolding eval_unary eval_arithmetic eval_relational eval_logical
  eval ctx (constant v) = done (value v)
  eval none (variable name) = done (error err_bad_params)
  eval (some vars) (variable name) = done (get_var name vars)
  eval ctx (unary op e) = with_operand (eval ctx e) (eval_unary op)
  eval ctx (arithmetic l op r) =
      with_operand (eval ctx l) (λ x. with_operand (eval ctx r) (λ y. eval_arithmetic op x y))
  eval ctx (relational l op r) =
      with_operand (eval ctx l)
        (λ x. with_operand (eval ctx r) (λ y. done (value (bool (eval_relational op x y)))))
  eval ctx (logical l op r) = with_operand (eval ctx l) (λ x.
      with_operand (eval ctx r)
        (λ y. done (value (bool (eval_logical op (as_bool doubles x) (as_bool doubles y))))))
