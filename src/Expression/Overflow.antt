-- ===== src/Expression/Overflow.antt =====
-- src/expression/Expressions.cpp: the tests for overflow against the exact results.
pub mod Exact
use nebula_chaos.Prelude.{
  ℕ, zero, suc, ◌+◌, ◌-◌, ◌*◌, ◌/◌, ◌≡◌, true, false, ◌&&◌, not, ltb, arith, ◌<◌, Bool-cases, inl,
  inr, lt→ltb, ltb→lt, subst, sym, ◌∙◌,
}
use native.Mathlib.Nat.{div-lt_iff_lt-mul, div-le_self, div-lt_self, mul_comm}
use nebula_chaos.Expression.Integers.{
  ℤ, pos, negsuc, min_int, is_int64, ◌+ℤ◌, ◌-ℤ◌, mul, lt_int, eq_int, done, is_add_overflow,
  is_sub_overflow, is_mul_overflow,
}

pub is_add_overflow-is_int64 :
    (l r : ℤ)
    → is_int64 l ≡ true
    → is_int64 r ≡ true
    → is_add_overflow l r ≡ done (not (is_int64 (l +ℤ r)))
unfolding is_add_overflow
is_add_overflow-is_int64 (pos a) (pos b) h g = ground arith
is_add_overflow-is_int64 (pos a) (negsuc b) h g = ground arith
is_add_overflow-is_int64 (negsuc a) (pos b) h g = ground arith
is_add_overflow-is_int64 (negsuc a) (negsuc b) h g = ground arith

pub is_sub_overflow-is_int64 :
    (l r : ℤ)
    → is_int64 l ≡ true
    → is_int64 r ≡ true
    → eq_int r min_int ≡ false
    → is_sub_overflow l r ≡ done (not (is_int64 (l -ℤ r)))
unfolding is_sub_overflow
is_sub_overflow-is_int64 (pos a) (pos b) h g n = ground arith
is_sub_overflow-is_int64 (pos a) (negsuc b) h g n = ground arith
is_sub_overflow-is_int64 (negsuc a) (pos b) h g n = ground arith
is_sub_overflow-is_int64 (negsuc a) (negsuc b) h g n = ground arith

ltb-div : (n k y : ℕ) → 0 < k → ltb (n / k) y ≡ ltb n (k * y)
ltb-div n k y h =
    let (there, back) = div-lt_iff_lt-mul {k = k} {x = n} {y = y} h in
    let c = mul_comm k y in
    elim (Bool-cases (ltb n (k * y))) [
      | inl e ↦ lt→ltb (n / k) y (back (subst (λ m. n < m) c (ltb→lt n (k * y) e))) ∙ sym e
      | inr e ↦ elim (Bool-cases (ltb (n / k) y)) [
        | inl d ↦ absurd (
            let w = there (ltb→lt (n / k) y d) in
            let v = lt→ltb n (k * y) (subst (λ m. n < m) (sym c) w) in ground arith)
        | inr d ↦ d ∙ sym e
      ]
    ]

pub is_mul_overflow-is_int64 :
    (l r : ℤ)
    → is_int64 l ≡ true
    → is_int64 r ≡ true
    → (eq_int l (negsuc 0) && lt_int (pos 0) r) ≡ false
    → is_mul_overflow l r ≡ done (not (is_int64 (mul l r)))
unfolding is_mul_overflow
is_mul_overflow-is_int64 (pos zero) (pos b) h g n = ground arith
is_mul_overflow-is_int64 (pos (suc a)) (pos zero) h g n = ground arith
is_mul_overflow-is_int64 (pos (suc a)) (pos (suc b)) h g n =
    let d = ltb-div 9223372036854775807 (suc a) (suc b) (omega arith) in
    let m = div-le_self 9223372036854775807 (suc a) in ground arith
is_mul_overflow-is_int64 (pos zero) (negsuc b) h g n = ground arith
is_mul_overflow-is_int64 (pos (suc a)) (negsuc b) h g n =
    let d = ltb-div 9223372036854775808 (suc a) (b + 1) (omega arith) in
    let m = div-le_self 9223372036854775808 (suc a) in ground arith
is_mul_overflow-is_int64 (negsuc a) (pos zero) h g n = ground arith
is_mul_overflow-is_int64 (negsuc zero) (pos (suc b)) h g n = ground arith
is_mul_overflow-is_int64 (negsuc (suc a)) (pos (suc b)) h g n =
    let d = ltb-div 9223372036854775808 (suc a + 1) (suc b) (omega arith) in
    let m = div-lt_self {n = 9223372036854775808} {k = suc a + 1} (omega arith) (omega arith) in
    ground arith
is_mul_overflow-is_int64 (negsuc a) (negsuc b) h g n =
    let d = ltb-div 9223372036854775807 (a + 1) (b + 1) (omega arith) in
    let m = div-le_self 9223372036854775807 (a + 1) in ground arith
