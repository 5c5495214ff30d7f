-- ===== src/Lint/Checks/Functions/Triggers.antt =====
-- .linters/cpp/cpplint.py: when _FunctionState.Check reports, and with which confidence.
use nebula_chaos.Prelude.{
  ℕ, zero, suc, ◌*◌, ◌/◌, ◌^◌, ◌≤◌, ◌<◌, ◌≡◌, Bool, true, ◌&&◌, arith, ltb, Text, Bool-cases, inl,
  inr, leb, ◌==◌, ◌||◌, all, ◌⊎◌, refl,
}
use mathlib.Core.Path.{subst}
use native.Mathlib.Nat.{le-div_iff_mul-le, div-lt_iff_lt-mul, mul_comm, mul-le-mul_left}
use nebula_chaos.Lint.State.{Failure}
use nebula_chaos.Lint.Checks.Functions.{
  FunctionState, log_from, error_level, base_trigger, check_function,
}

-- 2 to the whole part of the logarithm is at most the number, and more than half of it.
log_from-bounds :
    (fuel n : ℕ) → 0 < n → n ≤ fuel → (2 ^ log_from fuel n ≤ n) × (n < 2 * 2 ^ log_from fuel n)
unfolding log_from
log_from-bounds zero n p h = absurd (omega arith)
log_from-bounds (suc fuel) n p h = elim (Bool-cases (ltb n 2)) [
  | inl small ↦ rw small (ground arith)
  | inr large ↦
      let half : 0 < n / 2 = ground arith in
      let (a, b) = log_from-bounds fuel (n / 2) half (omega (arith, p, h)) in
      let double : 2 ^ suc (log_from fuel (n / 2)) ≡ 2 * 2 ^ log_from fuel (n / 2) = omega arith in
      rw (large, double) (omega (arith, a), omega (arith, b))
]

base_trigger-cases : (name : Text) → (base_trigger name ≡ 400) ⊎ (base_trigger name ≡ 250)
unfolding base_trigger
base_trigger-cases name = ground arith

error_level-cases :
    (lines base : ℕ)
    → ((error_level lines base ≡ 5) × (5 < log_from (lines / base) (lines / base)))
      ⊎ ((error_level lines base ≡ log_from (lines / base) (lines / base))
          × (log_from (lines / base) (lines / base) ≤ 5))
unfolding error_level
error_level-cases lines base = ground arith

pow_suc : (k : ℕ) → 2 ^ suc k ≡ 2 * 2 ^ k
pow_suc k = omega arith

pow_le : (a b : ℕ) → a ≤ b → 2 ^ a ≤ 2 ^ b
pow_le a zero h = let e : a ≡ 0 = omega arith in rw e (omega arith)
pow_le a (suc b) h = elim (Bool-cases (a == suc b)) [
  | inl e ↦ let same : a ≡ suc b = ground arith in rw same (omega arith)
  | inr e ↦ let more : a ≤ b = ground arith in omega (arith, pow_le a b more, pow_suc b)
]

-- The level of `lines` lines, of which one part in `base` is `quotient`.
abbrev pub fits_level : ℕ → ℕ → ℕ → Bool
fits_level base lines level =
    leb level 5
    && (leb (base * 2 ^ level) lines && ((level == 5) || ltb lines (base * 2 ^ suc level)))

fits_level-intro :
    (base lines level : ℕ)
    → level ≤ 5
    → base * 2 ^ level ≤ lines
    → (level ≡ 5) ⊎ (lines < base * 2 ^ suc level)
    → fits_level base lines level ≡ true
fits_level-intro base lines level h k o = ground arith

module _ (base lines : ℕ) (b : 0 < base) (h : base ≤ lines) where
  quotient_pos : 0 < lines / base
  quotient_pos = (le-div_iff_mul-le b).1 (omega (arith, h))

  level-fits : fits_level base lines (error_level lines base) ≡ true
  level-fits =
      let q = lines / base in
      let (lo, hi) = log_from-bounds q q quotient_pos (omega arith) in
      let below : (x : ℕ) → x ≤ q → base * x ≤ lines =
        λ x k. subst (λ y. y ≤ lines) (mul_comm x base) ((le-div_iff_mul-le b).0 k) in
      let above : (x : ℕ) → q < x → lines < base * x =
        λ x k. subst (λ y. lines < y) (mul_comm x base) ((div-lt_iff_lt-mul b).0 k) in
      elim (error_level-cases lines base) [
        | inl (e, big) ↦ rw e (
            fits_level-intro base lines 5 (omega arith)
              (below 32 (omega (arith, pow_le 5 (log_from q q) (omega (arith, big)), lo)))
              (inl refl))
        | inr (e, small) ↦ rw e (
            fits_level-intro base lines (log_from q q) small (below (2 ^ log_from q q) lo)
              (inr (above (2 ^ suc (log_from q q)) (omega (arith, hi, pow_suc (log_from q q))))))
      ]

-- At a level of 5 at most, the report passes the test of Error against the verbosity.
level-shown :
    (base lines verbose level : ℕ)
    → fits_level base lines level ≡ true
    → base * 2 ^ verbose < lines
    → (leb verbose level || ltb 5 verbose) ≡ true
level-shown base lines verbose level f h = elim (Bool-cases (leb verbose level || ltb 5 verbose)) [
  | inl e ↦ e
  | inr e ↦
      let small : level < 5 = ground arith in
      let less : lines < base * 2 ^ suc level = ground arith in
      let power : 2 ^ suc level ≤ 2 ^ verbose = pow_le (suc level) verbose (ground arith) in
      absurd (omega (arith, h, less, mul-le-mul_left base power))
]

-- What holds of a report about a function of `lines` lines at a verbosity level.
abbrev pub is_fitting : ℕ → ℕ → ℕ → Failure → Bool
is_fitting base lines verbose f =
    fits_level base lines (f.confidence) && (leb verbose (f.confidence) || ltb 5 verbose)

-- _FunctionState.Check reports with the whole logarithm of the lines by the trigger as confidence,
-- 5 at most, and the confidence reaches the verbosity level, if that is not above 5.
pub check_function-fits :
    (verbose : ℕ) (state : FunctionState) (linenum : ℕ)
    → all
        (is_fitting (base_trigger state.current_function) (state.lines_in_function) verbose)
        (check_function verbose state linenum)
      ≡ true
unfolding check_function
check_function-fits verbose state linenum =
    let base = base_trigger (state.current_function) in
    let n = state.lines_in_function in
    elim (Bool-cases (state.in_a_function && ltb (base * 2 ^ verbose) n)) [
      | inr e ↦ rw e refl
      | inl e ↦
          let pos : 0 < base = ground (arith, base_trigger-cases (state.current_function)) in
          let long : base * 2 ^ verbose < n = ground arith in
          let more : base ≤ n =
            omega (arith, long, mul-le-mul_left base (pow_le 0 verbose (omega arith))) in
          let f = level-fits base n pos more in
          rw e (ground (arith, f, level-shown base n verbose (error_level n base) f long))
    ]
