-- ===== src/Expression/Values.antt =====
-- src/expression/ExprUtils.h and Expressions.h: values, variables and expressions.
use nebula_chaos.Prelude.{
  Bool, true, false, ◌&&◌, ◌||◌, not, List, [], ◌∷◌, Text, text_eq, is_nil, ltb, ◌==◌,
  if◌then◌else◌,
}
use nebula_chaos.Expression.Integers.{ℤ, pos, eq_int, lt_int}

-- The arithmetic of double in C++.
pub record Doubles : Type 1 where
  pub Double : Type 0
  pub of_int : ℤ → Double
  pub add : Double → Double → Double
  pub sub : Double → Double → Double
  pub times : Double → Double → Double
  pub divide : Double → Double → Double
  pub fmod : Double → Double → Double
  pub negate : Double → Double
  pub magnitude : Double → Double
  pub less : Double → Double → Bool
  pub same : Double → Double → Bool
  -- 0.0 and 1e-8
  pub zero_double : Double
  pub epsilon : Double

pub data ErrorCode : Type 0 where
  err_null : ErrorCode
  err_unknown_type : ErrorCode
  err_unknown_op : ErrorCode
  err_unsupported_op : ErrorCode
  err_bad_params : ErrorCode

pub data Value (D : Type 0) : Type 0 where
  int : ℤ → Value D
  double : D → Value D
  bool : Bool → Value D
  string : Text → Value D

-- folly::Expected<Value, ErrorCode>
pub data ValueOrErr (D : Type 0) : Type 0 where
  value : Value D → ValueOrErr D
  error : ErrorCode → ValueOrErr D

-- ExprContext
abbrev pub Variables : Type 0 → Type 0
Variables D = List (Text × Value D)

module _ {D : Type 0} where
  -- getVar
  unfoldable pub get_var : Text → Variables D → ValueOrErr D
  get_var name [] = error err_null
  get_var name ((n, v) ∷ rest) =
      let later = get_var name rest in if text_eq n name then value v else later

  -- setVar
  unfoldable pub set_var : Text → Value D → Variables D → Variables D
  set_var name val [] = (name, val) ∷ []
  set_var name val ((n, v) ∷ rest) =
      let later = set_var name val rest in
      if text_eq n name then (n, val) ∷ rest else (n, v) ∷ later

pub data UnaryOperator : Type 0 where
  plus : UnaryOperator
  negated : UnaryOperator
  not_op : UnaryOperator

pub data ArithmeticOperator : Type 0 where
  add_op : ArithmeticOperator
  sub_op : ArithmeticOperator
  mul_op : ArithmeticOperator
  div_op : ArithmeticOperator
  mod_op : ArithmeticOperator

pub data RelationalOperator : Type 0 where
  lt_op : RelationalOperator
  le_op : RelationalOperator
  gt_op : RelationalOperator
  ge_op : RelationalOperator
  eq_op : RelationalOperator
  ne_op : RelationalOperator

pub data LogicalOperator : Type 0 where
  and_op : LogicalOperator
  or_op : LogicalOperator
  xor_op : LogicalOperator

pub data Expression (D : Type 0) : Type 0 where
  constant : Value D → Expression D
  variable : Text → Expression D
  unary : UnaryOperator → Expression D → Expression D
  arithmetic : Expression D → ArithmeticOperator → Expression D → Expression D
  relational : Expression D → RelationalOperator → Expression D → Expression D
  logical : Expression D → LogicalOperator → Expression D → Expression D

-- a < b of std::string, by characters
abbrev pub text_lt : Text → Text → Bool
text_lt a [] = false
text_lt [] (y ∷ b) = true
text_lt (x ∷ a) (y ∷ b) = ltb x y || ((x == y) && text_lt a b)

abbrev xor : Bool → Bool → Bool
xor true b = not b
xor false b = b

module _ (doubles : Doubles) where
  abbrev D : Type 0
  D = doubles.Double

  -- asBool
  unfoldable pub as_bool : Value D → Bool
  as_bool (int n) = not (eq_int n (pos 0))
  as_bool (double d) = not (doubles.same d (doubles.zero_double))
  as_bool (bool b) = b
  as_bool (string s) = is_nil s

  -- almostEqual
  unfoldable pub almost_equal : D → D → Bool
  almost_equal l r = doubles.less (doubles.magnitude (doubles.sub l r)) (doubles.epsilon)

  -- l < r of boost::variant: first by the type, in its order, then by the value.
  unfoldable pub variant_lt : Value D → Value D → Bool
  variant_lt (int a) (int b) = lt_int a b
  variant_lt (int a) _ = true
  variant_lt (double a) (int b) = false
  variant_lt (double a) (double b) = doubles.less a b
  variant_lt (double a) _ = true
  variant_lt (bool a) (bool b) = not a && b
  variant_lt (bool a) (string b) = true
  variant_lt (bool a) _ = false
  variant_lt (string a) (string b) = text_lt a b
  variant_lt (string a) _ = false

  -- l == r of boost::variant
  unfoldable pub variant_eq : Value D → Value D → Bool
  variant_eq (int a) (int b) = eq_int a b
  variant_eq (double a) (double b) = doubles.same a b
  variant_eq (bool a) (bool b) = not (xor a b)
  variant_eq (string a) (string b) = text_eq a b
  variant_eq _ _ = false
