-- ===== src/Tests/Expression.antt =====
-- src/expression and src/core/AssignAction.h: evaluations, with integers in the place of doubles.
use nebula_chaos.Prelude.{
  ◌≡◌, refl, true, Option, none, some, [], ◌∷◌, Text, codes, text_eq, if◌then◌else◌,
}
use nebula_chaos.Core.Action.{ok}
use nebula_chaos.Core.Assign.{assign, Assigned, assign-Assigned}
use nebula_chaos.Expression.Integers.{
  ℤ, pos, negsuc, min_int, ◌+ℤ◌, ◌-ℤ◌, mul, quot, rem, neg, lt_int, eq_int, done, undefined,
  and_then, is_add_overflow, is_sub_overflow, is_mul_overflow,
}
use nebula_chaos.Expression.Values.{
  Doubles, int, double, bool, string, value, Variables, get_var, set_var, Expression, constant,
  variable, arithmetic, add_op, sub_op, mul_op, lt_op, as_bool, variant_lt,
}
use nebula_chaos.Expression.Eval.{eval, eval_ints, eval_arithmetic, eval_relational}
use nebula_chaos.Expression.Overflow.Exact.{exact, eval_ints-exact}
use nebula_chaos.Expression.Frame.{eval-set_other}

abbrev whole : Doubles
whole = record {
  Double = ℤ;
  of_int = λ n. n;
  add = λ a b. a +ℤ b;
  sub = λ a b. a -ℤ b;
  times = mul;
  divide = quot;
  fmod = rem;
  negate = neg;
  magnitude = λ a. if◌then◌else◌ (lt_int a (pos 0)) (neg a) a;
  less = lt_int;
  same = eq_int;
  zero_double = pos 0;
  epsilon = pos 1;
}

-- The test of a product divides the least integer by -1.
product_undefined : eval_ints whole mul_op (negsuc 0) (pos 5) ≡ undefined
unfolding eval_ints is_mul_overflow
product_undefined = refl

-- The tests of a difference miss that the least integer has no negation.
difference_undefined : eval_ints whole sub_op (pos 0) min_int ≡ undefined
unfolding eval_ints is_sub_overflow
difference_undefined = refl

-- An empty string counts as true, and any other as false.
empty_string_true : as_bool whole (string []) ≡ true
unfolding as_bool
empty_string_true = refl

-- 3 < 2.0, since the types are compared first.
int_below_double : eval_relational whole lt_op (int (pos 3)) (double (pos 2)) ≡ true
unfolding eval_relational variant_lt
int_below_double = refl

eval_ints-exact_example :
    eval_ints whole mul_op (negsuc 2) (pos 4)
    ≡ and_then (exact mul_op (negsuc 2) (pos 4)) (λ n. done (value (int n)))
eval_ints-exact_example = eval_ints-exact whole mul_op (negsuc 2) (pos 4) refl refl refl

abbrev vars : Variables ℤ
vars = (codes "i", int (pos 3)) ∷ []

abbrev next : Expression ℤ
next = arithmetic (variable (codes "i")) add_op (constant (int (pos 1)))

eval_runs : eval whole (some vars) next ≡ done (value (int (pos 4)))
unfolding eval eval_arithmetic eval_ints is_add_overflow get_var
eval_runs = refl

eval-set_other_example :
    eval whole (some (set_var (codes "j") (bool true) vars)) next ≡ eval whole (some vars) next
eval-set_other_example = eval-set_other whole (codes "j") (bool true) vars next refl

abbrev parse : Text → Option (Expression ℤ)
parse t = if◌then◌else◌ (text_eq t (codes "$i+1")) (some next) none

assign_runs :
    assign whole parse (codes "i") (codes "$i+1") vars ≡ done (ok, (codes "i", int (pos 4)) ∷ [])
unfolding assign eval eval_arithmetic eval_ints is_add_overflow get_var set_var
assign_runs = refl

assign-Assigned_example :
    Assigned whole parse
      (codes "i")
      (codes "j")
      (codes "$i+1")
      vars
      ok
      ((codes "i", int (pos 4)) ∷ [])
assign-Assigned_example =
    assign-Assigned whole parse (codes "i") (codes "j") (codes "$i+1") vars
      ((codes "i", int (pos 4)) ∷ []) ok refl assign_runs
