-- ===== src/Expression/Overflow/Exact.antt =====
-- src/expression/Expressions.cpp: arithmetic on int64_t against the exact results.
use nebula_chaos.Prelude.{
  zero, suc, ◌+◌, ◌≡◌, Bool, true, false, ◌&&◌, not, if◌then◌else◌, arith, ap,
}
use native.Mathlib.Nat.{div-le_self, div-lt_self}
use nebula_chaos.Expression.Integers.{
  ℤ, pos, negsuc, min_int, is_int64, ◌+ℤ◌, ◌-ℤ◌, mul, quot, rem, lt_int, eq_int, Outcome, done,
  died, and_then, guarded,
}
use nebula_chaos.Expression.Values.{
  Doubles, value, int, ValueOrErr, ArithmeticOperator, add_op, sub_op, mul_op, div_op, mod_op,
}
use nebula_chaos.Expression.Eval.{eval_ints}
use nebula_chaos.Expression.Overflow.{
  is_add_overflow-is_int64, is_sub_overflow-is_int64, is_mul_overflow-is_int64,
}

-- The operands for which the tests of the source are defined: no divisor and no right operand of a
-- difference is the least integer, no product has -1 on the left and a positive number on the
-- right, and the least integer is not divided by -1.
abbrev pub is_tested : ArithmeticOperator → ℤ → ℤ → Bool
is_tested add_op l r = true
is_tested sub_op l r = not (eq_int r min_int)
is_tested mul_op l r = not (eq_int l (negsuc 0) && lt_int (pos 0) r)
is_tested div_op l r = not (eq_int r min_int) && not (eq_int l min_int && eq_int r (negsuc 0))
is_tested mod_op l r = not (eq_int r min_int) && not (eq_int l min_int && eq_int r (negsuc 0))

abbrev in_range : ℤ → Outcome ℤ
in_range n = if is_int64 n then done n else died

-- The exact result, where it is an int64_t.
abbrev pub exact : ArithmeticOperator → ℤ → ℤ → Outcome ℤ
exact add_op l r = in_range (l +ℤ r)
exact sub_op l r = in_range (l -ℤ r)
exact mul_op l r = in_range (mul l r)
exact div_op l r = if eq_int r (pos 0) then died else done (quot l r)
exact mod_op l r = if eq_int r (pos 0) then died else done (rem l r)

quot-is_int64 :
    (l r : ℤ)
    → is_int64 l ≡ true
    → (eq_int l min_int && eq_int r (negsuc 0)) ≡ false
    → is_int64 (quot l r) ≡ true
quot-is_int64 (pos a) (pos b) h n = let m = div-le_self a b in ground arith
quot-is_int64 (pos a) (negsuc b) h n = let m = div-le_self a (b + 1) in ground arith
quot-is_int64 (negsuc a) (pos b) h n = let m = div-le_self (a + 1) b in ground arith
quot-is_int64 (negsuc a) (negsuc zero) h n = ground arith
quot-is_int64 (negsuc a) (negsuc (suc b)) h n =
    let m = div-lt_self {n = a + 1} {k = suc b + 1} (omega arith) (omega arith) in ground arith

guarded-exact :
    (f : ℤ → ℤ → ℤ) (l r : ℤ)
    → is_int64 l ≡ true
    → (not (eq_int r min_int) && not (eq_int l min_int && eq_int r (negsuc 0))) ≡ true
    → guarded f l r ≡ (if eq_int r (pos 0) then died else done (f l r))
guarded-exact f l r h t = let q = quot-is_int64 l r h in ground arith

module _ (doubles : Doubles) where
  abbrev result_of : Outcome ℤ → Outcome (ValueOrErr (doubles.Double))
  result_of r = and_then r (λ n. done (value (int n)))

  -- On 64-bit integers for which its tests are defined, arithmetic ends with the exact result, or with
  -- LOG(FATAL) where that is no 64-bit integer or the divisor is 0; it never overflows.
  pub eval_ints-exact :
      (op : ArithmeticOperator) (l r : ℤ)
      → is_int64 l ≡ true
      → is_int64 r ≡ true
      → is_tested op l r ≡ true
      → eval_ints doubles op l r ≡ result_of (exact op l r)
  unfolding eval_ints
  eval_ints-exact add_op l r h g t = let e = is_add_overflow-is_int64 l r h g in rw e (ground arith)
  eval_ints-exact sub_op l r h g t =
      let e = is_sub_overflow-is_int64 l r h g (ground arith) in rw e (ground arith)
  eval_ints-exact mul_op l r h g t =
      let e = is_mul_overflow-is_int64 l r h g (ground arith) in rw e (ground arith)
  eval_ints-exact div_op l r h g t = ap result_of (guarded-exact quot l r h t)
  eval_ints-exact mod_op l r h g t = ap result_of (guarded-exact rem l r h t)
