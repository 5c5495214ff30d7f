-- ===== src/Expression/Integers.antt =====
-- src/expression/Expressions.cpp: 64-bit integers, and the tests for overflow in ArithmeticExpression::eval.
use nebula_chaos.Prelude.{
  ℕ, ◌+◌, ◌-◌, ◌*◌, ◌/◌, ◌%◌, Bool, true, false, ◌&&◌, not, ltb, leb, ◌==◌, if◌then◌else◌,
}

-- `negsuc n` is -(n + 1).
pub data ℤ : Type 0 where
  pos : ℕ → ℤ
  negsuc : ℕ → ℤ

abbrev pub max_int : ℤ
max_int = pos 9223372036854775807

abbrev pub min_int : ℤ
min_int = negsuc 9223372036854775807

abbrev pub is_int64 : ℤ → Bool
is_int64 (pos n) = leb n 9223372036854775807
is_int64 (negsuc n) = leb n 9223372036854775807

-- m - n
abbrev sub_nat : ℕ → ℕ → ℤ
sub_nat m n = if leb n m then pos (m - n) else negsuc (n - m - 1)

infixl 60 ◌+ℤ◌ ◌-ℤ◌
abbrev pub ◌+ℤ◌ : ℤ → ℤ → ℤ
pos a +ℤ pos b = pos (a + b)
pos a +ℤ negsuc b = sub_nat a (b + 1)
negsuc a +ℤ pos b = sub_nat b (a + 1)
negsuc a +ℤ negsuc b = negsuc (a + b + 1)

-- -n, of a natural number
abbrev pub neg_nat : ℕ → ℤ
neg_nat n = if n == 0 then pos 0 else negsuc (n - 1)

abbrev pub neg : ℤ → ℤ
neg (pos n) = neg_nat n
neg (negsuc n) = pos (n + 1)

abbrev pub ◌-ℤ◌ : ℤ → ℤ → ℤ
a -ℤ b = a +ℤ neg b

abbrev pub mul : ℤ → ℤ → ℤ
mul (pos a) (pos b) = pos (a * b)
mul (pos a) (negsuc b) = neg_nat (a * (b + 1))
mul (negsuc a) (pos b) = neg_nat ((a + 1) * b)
mul (negsuc a) (negsuc b) = pos ((a + 1) * (b + 1))

-- `/` and `%` of C++, which round towards zero; the divisor is not zero.
abbrev pub quot : ℤ → ℤ → ℤ
quot (pos a) (pos b) = pos (a / b)
quot (pos a) (negsuc b) = neg_nat (a / (b + 1))
quot (negsuc a) (pos b) = neg_nat ((a + 1) / b)
quot (negsuc a) (negsuc b) = pos ((a + 1) / (b + 1))

abbrev pub rem : ℤ → ℤ → ℤ
rem (pos a) (pos b) = pos (a % b)
rem (pos a) (negsuc b) = pos (a % (b + 1))
rem (negsuc a) (pos b) = neg_nat ((a + 1) % b)
rem (negsuc a) (negsuc b) = neg_nat ((a + 1) % (b + 1))

abbrev pub lt_int : ℤ → ℤ → Bool
lt_int (pos a) (pos b) = ltb a b
lt_int (pos a) (negsuc b) = false
lt_int (negsuc a) (pos b) = true
lt_int (negsuc a) (negsuc b) = ltb b a

abbrev pub eq_int : ℤ → ℤ → Bool
eq_int (pos a) (pos b) = a == b
eq_int (negsuc a) (negsuc b) = a == b
eq_int _ _ = false

-- A value, a failed LOG(FATAL), or behaviour that C++ leaves undefined.
pub data Outcome {ℓ} (A : Type ℓ) : Type ℓ where
  done : A → Outcome A
  died : Outcome A
  undefined : Outcome A

abbrev pub and_then {ℓ κ} : {A : Type ℓ} {B : Type κ} → Outcome A → (A → Outcome B) → Outcome B
and_then (done a) k = k a
and_then died k = died
and_then undefined k = undefined

-- The result of an operation on int64_t.
abbrev pub int64 : ℤ → Outcome ℤ
int64 a = if is_int64 a then done a else undefined

abbrev zero_int : ℤ
zero_int = pos 0

-- isAddOverflow
unfoldable pub is_add_overflow : ℤ → ℤ → Outcome Bool
is_add_overflow lv rv =
    if not (lt_int lv zero_int) && not (lt_int rv zero_int)
    then and_then (int64 (max_int -ℤ lv)) (λ d. done (lt_int d rv))
    else if lt_int lv zero_int && lt_int rv zero_int
    then and_then (int64 (min_int -ℤ lv)) (λ d. done (lt_int rv d))
    else done false

-- isSubOverflow
unfoldable pub is_sub_overflow : ℤ → ℤ → Outcome Bool
is_sub_overflow lv rv =
    if lt_int zero_int lv && lt_int rv zero_int
    then and_then (int64 (max_int -ℤ lv)) (λ d. and_then (int64 (neg rv)) (λ n. done (lt_int d n)))
    else if lt_int lv zero_int && lt_int zero_int rv
    then and_then (int64 (min_int -ℤ lv)) (λ d. and_then (int64 (neg rv)) (λ n. done (lt_int n d)))
    else done false

-- isMulOverflow
unfoldable pub is_mul_overflow : ℤ → ℤ → Outcome Bool
is_mul_overflow lv rv =
    if lt_int zero_int lv && lt_int zero_int rv
    then and_then (int64 (quot max_int lv)) (λ q. done (lt_int q rv))
    else if lt_int lv zero_int && lt_int rv zero_int
    then and_then (int64 (quot max_int lv)) (λ q. done (lt_int rv q))
    else if lt_int zero_int lv && lt_int rv zero_int
    then and_then (int64 (quot min_int lv)) (λ q. done (lt_int rv q))
    else if lt_int lv zero_int && lt_int zero_int rv
    then and_then (int64 (quot min_int lv)) (λ q. done (lt_int q rv))
    else done false

-- lv / rv and lv % rv behind the test of the divisor with `abs`, which is undefined at min_int.
abbrev pub guarded : (ℤ → ℤ → ℤ) → ℤ → ℤ → Outcome ℤ
guarded f lv rv =
    if eq_int rv min_int
    then undefined
    else if eq_int rv zero_int
    then died
    else if is_int64 (quot lv rv)
    then done (f lv rv)
    else undefined
