-- ===== src/Lint/Regex/Spaces.antt =====
-- Python's `re`: a match of characters of one kind in front of another character.
use nebula_chaos.Prelude.{
  ℕ, zero, suc, ◌<◌, ◌≡◌, refl, Bool, true, false, not, Option, some, List, [], ◌∷◌, arith, any,
  length, Text, Bool-cases, inl, inr, ltb,
}
use nebula_chaos.Lint.Regex.{
  one, seq, many, group, Position, first_of_two, step_over, repeat, run_pattern, match_re,
}

abbrev pub IsSome : Option Position → Type 0
IsSome o = (r : Position) × (o ≡ some r)

abbrev position : Text → Text → List (ℕ × Text) → Position
position before rest groups = record { before = before; rest = rest; groups = groups }

module _ (test : ℕ → Bool) (k : Position → Option Position)
    (stops : (q : Position) (c : ℕ) (t : Text)
      → q.rest ≡ c ∷ t
      → test c ≡ false
      → IsSome (k q)) where
  repeat-IsSome :
      (fuel : ℕ) (b t : Text) (g : List (ℕ × Text))
      → length t < fuel
      → any (λ c. not (test c)) t ≡ true
      → IsSome (repeat fuel (run_pattern (one test)) (position b t g) k)
  unfolding repeat first_of_two step_over run_pattern
  repeat-IsSome zero b t g h a = absurd (omega arith)
  repeat-IsSome (suc fuel) b [] g h a = absurd (cc)
  repeat-IsSome (suc fuel) b (c ∷ t) g h a = elim (Bool-cases (test c)) [
    | inl hit ↦
        let (r, e) = repeat-IsSome fuel (c ∷ b) t g (omega arith) (ground arith) in
        let less : ltb (length t) (suc (length t)) ≡ true = ground arith in
        (r, ground (arith, hit, less, e))
    | inr miss ↦
        let (r, e) = stops (position b (c ∷ t) g) c t refl miss in (r, ground (arith, miss, e))
  ]

pub match_re-IsSome :
    (test : ℕ → Bool) (n : ℕ) (t : Text)
    → any (λ c. not (test c)) t ≡ true
    → IsSome (match_re (seq (group n (many (one test))) (one (λ c. not (test c)))) t)
unfolding match_re run_pattern step_over
match_re-IsSome test n t a =
    repeat-IsSome test _ (λ q c u e miss. rw (e, miss) (_, refl)) (suc (length t)) [] t []
      (omega arith) a
