-- ===== src/Lint/Strings/Collapse.antt =====
-- .linters/cpp/cpplint.py: the loop of _CollapseStrings ends, and does not look into strings.
use nebula_chaos.Prelude.{
  ℕ, zero, suc, ◌+◌, ◌<◌, ◌≤◌, ◌≡◌, refl, Bool, true, false, not, Option, none, some, [], ◌∷◌, ◌++◌,
  ◌==◌, length, drop, Text, codes, find_text, arith, Bool-cases, all, starts_with, ==_self, inl,
  inr, ap, sym, ◌∙◌, length-drop, length-append,
}
use mathlib.Core.Option
use nebula_chaos.Lint.Regex.{occurs, matches, replace_all}
use nebula_chaos.Lint.Strings.{
  is_quote, put_first, split_quote, number_end, split_literal, CollapseStep, ends, goes,
  collapse_quoted, collapse_at, collapse_turn, put_before, collapse_from, collapse,
  collapse_strings, include_pattern, escapes,
}

-- A turn goes on with a shorter text.
abbrev Shrinks : ℕ → CollapseStep → Type 0
Shrinks n (ends piece) = Unit
Shrinks n (goes piece rest) = length rest < n

split_literal-le : (t : Text) → length ((split_literal t).1) ≤ length t
unfolding split_literal
split_literal-le [] = omega arith
split_literal-le (c ∷ []) = ground arith
split_literal-le (c ∷ d ∷ rest) =
    let next = split_literal-le (d ∷ rest) in let quoted = split_literal-le rest in ground arith

-- The parts of the text at its first quote.
abbrev Splits : Text → Option (Text × ℕ × Text) → Type 0
Splits t none = Unit
Splits t (some (head, quote, tail)) = length t ≡ length head + 1 + length tail

put_first-Splits :
    (c : ℕ) (t : Text) (parts : Option (Text × ℕ × Text))
    → Splits t parts
    → Splits (c ∷ t) (put_first c parts)
put_first-Splits c t none h = tt
put_first-Splits c t (some (head, quote, tail)) h = omega arith

split_quote-Splits : (t : Text) → Splits t (split_quote t)
unfolding split_quote
split_quote-Splits [] = tt
split_quote-Splits (c ∷ rest) = elim (Bool-cases (is_quote c)) [
  | inl quote ↦ rw quote (omega arith)
  | inr plain ↦ rw plain (put_first-Splits c rest (split_quote rest) (split_quote-Splits rest))
]

no_number : occurs number_end [] ≡ false
unfolding occurs
no_number = refl

quoted-Shrinks :
    (n : ℕ) (elided head quotes tail : Text) (found : Option ℕ)
    → length tail < n
    → Shrinks n (collapse_quoted elided head quotes tail found)
quoted-Shrinks n elided head quotes tail none h = tt
quoted-Shrinks n elided head quotes tail (some i) h =
    let e = length-drop (i + 1) tail in omega arith

number-length : (head : Text) → occurs number_end head ≡ true → 0 < length head
number-length [] h = absurd (let e = no_number in ground arith)
number-length (c ∷ head) h = omega arith

number-Shrinks :
    (elided head : Text) (quote : ℕ) (tail : Text)
    → length elided ≡ length head + 1 + length tail
    → Shrinks (length elided) (collapse_at elided (some (head, quote, tail)))
number-Shrinks elided head quote tail h = elim (Bool-cases (quote == b'"')) [
  | inl double ↦ rw double (
      quoted-Shrinks (length elided) elided head (codes "\"\"") tail (find_text (codes "\"") tail)
        (omega arith))
  | inr single ↦ elim (Bool-cases (occurs number_end head)) [
    | inl digits ↦
        let e = split_literal-le (b'\'' ∷ tail) in
        let n = number-length head digits in rw (single, digits) (omega arith)
    | inr other ↦
        rw (single, other)
          (quoted-Shrinks (length elided) elided head (codes "''") tail (find_text (codes "'") tail)
            (omega arith))
  ]
]

collapse_at-Shrinks :
    (elided : Text) (parts : Option (Text × ℕ × Text))
    → Splits elided parts
    → Shrinks (length elided) (collapse_at elided parts)
collapse_at-Shrinks elided none h = tt
collapse_at-Shrinks elided (some (head, quote, tail)) h = number-Shrinks elided head quote tail h

collapse_turn-Shrinks : (elided : Text) → Shrinks (length elided) (collapse_turn elided)
unfolding collapse_turn
collapse_turn-Shrinks elided =
    collapse_at-Shrinks elided (split_quote elided) (split_quote-Splits elided)

-- What is left of the loop behind a turn.
abbrev after : ℕ → CollapseStep → Option Text
after fuel (ends piece) = some piece
after fuel (goes piece rest) = put_before piece (collapse_from fuel rest)

collapse_from-after :
    (fuel : ℕ) (elided : Text) → collapse_from (suc fuel) elided ≡ after fuel (collapse_turn elided)
unfolding collapse_from
collapse_from-after fuel elided = refl

-- The loop ends with the same text on both amounts of fuel.
Agrees : ℕ → ℕ → Text → Type 0
Agrees f g elided =
    (t : Text) × (collapse_from f elided ≡ some t) × (collapse_from g elided ≡ some t)

after-Agrees :
    (f g n : ℕ) (step : CollapseStep)
    → ((rest : Text) → length rest < n → Agrees f g rest)
    → Shrinks n step
    → (t : Text) × (after f step ≡ some t) × (after g step ≡ some t)
unfolding Agrees
after-Agrees f g n (ends piece) ih h = (piece, refl, refl)
after-Agrees f g n (goes piece rest) ih h =
    let (t, e, e') = ih rest h in (piece ++ t, ap (put_before piece) e, ap (put_before piece) e')

collapse_from-Agrees :
    (f g : ℕ) (elided : Text) → length elided < f → length elided < g → Agrees f g elided
unfolding Agrees
collapse_from-Agrees zero g elided h h' = absurd (omega arith)
collapse_from-Agrees (suc f) zero elided h h' = absurd (omega arith)
collapse_from-Agrees (suc f) (suc g) elided h h' =
    let (t, e, e') =
      after-Agrees f g (length elided) (collapse_turn elided)
        (λ rest short. collapse_from-Agrees f g rest (omega arith) (omega arith))
        (collapse_turn-Shrinks elided) in
    (t, collapse_from-after f elided ∙ e, collapse_from-after g elided ∙ e')

collapse_total : (elided : Text) → (t : Text) × (collapse elided ≡ some t)
unfolding Agrees collapse
collapse_total elided =
    let n = suc (length elided) in
    let (t, e, e') = collapse_from-Agrees n n elided (omega arith) (omega arith) in (t, e)

abbrev pub plain : Text → Bool
plain head = all (λ c. not (is_quote c)) head

split_quote-plain :
    (head : Text) (quote : ℕ) (tail : Text)
    → plain head ≡ true
    → is_quote quote ≡ true
    → split_quote (head ++ quote ∷ tail) ≡ some (head, quote, tail)
unfolding split_quote
split_quote-plain [] quote tail h q = rw q refl
split_quote-plain (c ∷ head) quote tail h q =
    let ih = split_quote-plain head quote tail (ground arith) q in
    let other : is_quote c ≡ false = ground arith in rw other (ap (put_first c) ih)

abbrev pub lacks : ℕ → Text → Bool
lacks quote body = all (λ c. not (quote == c)) body

starts_with_nothing : (t : Text) → starts_with [] t ≡ true
starts_with_nothing [] = refl
starts_with_nothing (c ∷ t) = refl

find_text-quote :
    (quote : ℕ) (body rest : Text)
    → lacks quote body ≡ true
    → find_text (quote ∷ []) (body ++ quote ∷ rest) ≡ some (length body)
unfolding find_text
find_text-quote quote [] rest h = rw (==_self quote, starts_with_nothing rest) refl
find_text-quote quote (c ∷ body) rest h =
    let ih = find_text-quote quote body rest (ground arith) in
    let other : (quote == c) ≡ false = ground arith in rw other (ap (Option.map suc) ih)

drop_behind :
    (n : ℕ) (body : Text) (quote : ℕ) (rest : Text)
    → n ≡ length body + 1
    → drop n (body ++ quote ∷ rest) ≡ rest
drop_behind zero body quote rest h = absurd (omega arith)
drop_behind (suc zero) [] quote rest h = refl
drop_behind (suc (suc n)) [] quote rest h = absurd (omega arith)
drop_behind (suc n) (c ∷ body) quote rest h = drop_behind n body quote rest (omega arith)

turn-string :
    (head body rest : Text)
    → plain head ≡ true
    → lacks b'"' body ≡ true
    → collapse_turn (head ++ b'"' ∷ (body ++ b'"' ∷ rest)) ≡ goes (head ++ codes "\"\"") rest
unfolding collapse_turn
turn-string head body rest h l =
    let split = split_quote-plain head b'"' (body ++ b'"' ∷ rest) h refl in
    let found = find_text-quote b'"' body rest l in
    rw (split, found)
      (ap (goes (head ++ codes "\"\"")) (drop_behind (length body + 1) body b'"' rest refl))

-- Where no quote stands in front of a string literal, what the literal holds is dropped: the line
-- collapses to the text in front, an empty literal, and what the rest of the line collapses to.
pub collapse-string :
    (head body rest : Text)
    → plain head ≡ true
    → lacks b'"' body ≡ true
    → collapse (head ++ b'"' ∷ (body ++ b'"' ∷ rest))
      ≡ put_before (head ++ codes "\"\"") (collapse rest)
unfolding Agrees collapse
collapse-string head body rest h l =
    let line = head ++ b'"' ∷ (body ++ b'"' ∷ rest) in
    let n = length-append head (b'"' ∷ (body ++ b'"' ∷ rest)) in
    let m = length-append body (b'"' ∷ rest) in
    let (t, e, e') =
      collapse_from-Agrees (length line) (suc (length rest)) rest (omega arith) (omega arith) in
    collapse_from-after (length line) line
    ∙ ap (after (length line)) (turn-string head body rest h l)
    ∙ ap (put_before (head ++ codes "\"\"")) (e ∙ sym e')

-- The loop of _CollapseStrings ends on every line.
pub collapse_strings_total : (elided : Text) → (t : Text) × (collapse_strings elided ≡ some t)
unfolding collapse_strings
collapse_strings_total elided = elim (Bool-cases (matches include_pattern elided)) [
  | inl include ↦ (elided, rw include refl)
  | inr other ↦ let (t, e) = collapse_total (replace_all escapes [] elided) in (t, rw other e)
]
