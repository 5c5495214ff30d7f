-- ===== src/Prelude/Decimal.antt =====
-- Python's `str(n)` of a number, and how it is read back.
use Prim.Native.Nat.{ℕ, zero, suc, ◌+◌, ◌-◌, ◌*◌, ◌/◌, ◌%◌, ◌<◌}
use mathlib.Core.Path.{◌≡◌, refl, sym, ap, ◌∙◌}
use mathlib.Core.Logic.{inl, inr}
use mathlib.Core.Bool.{false}
use mathlib.Core.List.{[], ◌∷◌, ◌++◌}
use native.Mathlib.Omega.{arith}
use nebula_chaos.Prelude.Tests.{ltb, if◌then◌else◌, Bool-cases}
use nebula_chaos.Prelude.Strings.{Text}

-- The digits of `n`, the last one behind the others. Fuel above `n` is enough.
digits : ℕ → ℕ → Text
digits zero n = []
digits (suc f) n =
    let more = digits f (n / 10) ++ (48 + n % 10) ∷ [] in if ltb n 10 then (48 + n) ∷ [] else more

unfoldable pub str : ℕ → Text
unfolding digits
str n = digits (suc n) n

-- The number that a text of digits stands for.
pub value_from : ℕ → Text → ℕ
value_from acc [] = acc
value_from acc (c ∷ t) = value_from (acc * 10 + (c - 48)) t

value_from-append :
    (t u : Text) (acc : ℕ) → value_from acc (t ++ u) ≡ value_from (value_from acc t) u
unfolding value_from
value_from-append [] u acc = refl
value_from-append (c ∷ t) u acc = value_from-append t u (acc * 10 + (c - 48))

value_from-digits : (f n : ℕ) → n < f → value_from 0 (digits f n) ≡ n
unfolding digits value_from
value_from-digits zero n h = elim h [ ]
value_from-digits (suc f) n h = elim (Bool-cases (ltb n 10)) [
  | inl small ↦ rw small (omega arith)
  | inr large ↦ rw large (
      rw (value_from-append (digits f (n / 10)) _ 0)
        (rw (value_from-digits f (n / 10) (ground arith)) (omega arith)))
]

pub value_from-str : (n : ℕ) → value_from 0 (str n) ≡ n
unfolding str
value_from-str n = value_from-digits (suc n) n (omega arith)

pub str_injective : (m n : ℕ) → str m ≡ str n → m ≡ n
str_injective m n e = sym (value_from-str m) ∙ ap (value_from 0) e ∙ value_from-str n

digits_fuel : (f g n : ℕ) → n < f → n < g → digits f n ≡ digits g n
unfolding digits
digits_fuel zero g n h k = elim h [ ]
digits_fuel (suc f) zero n h k = elim k [ ]
digits_fuel (suc f) (suc g) n h k = elim (Bool-cases (ltb n 10)) [
  | inl small ↦ rw small refl
  | inr large ↦
      rw large
        (ap (λ t. t ++ (48 + n % 10) ∷ []) (digits_fuel f g (n / 10) (ground arith) (ground arith)))
]

digits_large :
    (f n : ℕ) → ltb n 10 ≡ false → digits (suc f) n ≡ digits f (n / 10) ++ (48 + n % 10) ∷ []
unfolding digits
digits_large f n h = rw h

-- A further digit behind a number that is not 0 makes the text longer by that digit.
pub str-append_digit : (n d : ℕ) → 0 < n → d < 10 → str (10 * n + d) ≡ str n ++ (48 + d) ∷ []
unfolding str
str-append_digit n d h k =
    let quotient : (10 * n + d) / 10 ≡ n = omega arith in
    let remainder : (10 * n + d) % 10 ≡ d = omega arith in
    digits_large (10 * n + d) (10 * n + d) (ground arith)
    ∙ rw (quotient, remainder)
        (ap (λ t. t ++ (48 + d) ∷ [])
          (digits_fuel (10 * n + d) (suc n) n (omega arith) (omega arith)))

pub str_digit : (d : ℕ) → d < 10 → str d ≡ (48 + d) ∷ []
unfolding str
str_digit d h = ground arith
