-- ===== src/Lint/Regex/Width.antt =====
-- Python's `re`: how much of the text a match takes at least.
use nebula_chaos.Prelude.{
  ℕ, zero, suc, ◌+◌, ◌≤◌, ◌≡◌, refl, Bool, Option, none, some, [], ◌∷◌, ap, ◌∙◌, length-reverse,
  arith, ltb, leb, if◌then◌else◌, length, reverse, Text, is_nil, Bool-cases, Option-cases, inl, inr,
}
use nebula_chaos.Lint.Regex.{
  Pattern, one, empty, seq, alt, many, many_lazy, group, line_end, line_start, boundary, ahead,
  not_ahead, Position, Matcher, first_of_two, step_over, repeat, repeat_lazy, first_is_word, at_end,
  run_pattern, match_re, split_from, search_split,
}

-- The least number of characters of a match.
abbrev pub width : Pattern → ℕ
width (one test) = 1
width empty = 0
width (seq a b) = width a + width b
width (alt a b) = if leb (width a) (width b) then width a else width b
width (many a) = 0
width (many_lazy a) = 0
width (group n a) = width a
width line_end = 0
width line_start = 0
width boundary = 0
width (ahead a) = 0
width (not_ahead a) = 0

-- `q` lies at least `n` characters behind `p` in the same text.
abbrev pub IsBehind : ℕ → Position → Position → Type 0
IsBehind n p q =
    (length q.before + length q.rest ≡ length p.before + length p.rest)
    × (n + length q.rest ≤ length p.rest)

-- Where the matcher succeeds, it has gone on from a position behind.
abbrev Takes : ℕ → Matcher → Type 0
Takes n m =
    (p : Position) (k : Position → Option Position) (r : Position)
    → m p k ≡ some r
    → (q : Position) × (k q ≡ some r) × IsBehind n p q

first_of_two-Takes : (n : ℕ) (a b : Matcher) → Takes n a → Takes n b → Takes n (first_of_two a b)
unfolding first_of_two
first_of_two-Takes n a b ha hb p k r e = elim (Option-cases (a p k)) [
  | inl fails ↦ hb p k r (ground arith)
  | inr (s, hit) ↦ ha p k r (ground arith)
]

step_over-Takes :
    (test : ℕ → Bool) (t : Text) (p : Position) (k : Position → Option Position) (r : Position)
    → p.rest ≡ t
    → step_over test t p k ≡ some r
    → (q : Position) × (k q ≡ some r) × IsBehind 1 p q
unfolding step_over
step_over-Takes test [] p k r h e = absurd (cc)
step_over-Takes test (c ∷ rest) p k r h e = elim (Bool-cases (test c)) [
  | inl hit ↦
      let n : length p.rest ≡ suc (length rest) = ap length h in
      (record p { before = c ∷ p.before; rest = rest }, ground arith, (omega arith, omega arith))
  | inr miss ↦ absurd (ground arith)
]

-- A round of a repetition: it goes on only where it has taken something.
round-Takes :
    (m again : Matcher)
    → Takes 0 m
    → Takes 0 again
    → Takes 0 (λ q k. m q (λ r. if ltb (length r.rest) (length q.rest) then again r k else none))
round-Takes m again h h' p k r e =
    let (s, f, (b, c)) = h p _ r e in
    elim (Bool-cases (ltb (length s.rest) (length p.rest))) [
      | inl moved ↦
          let (t, f', (b', c')) = h' s k r (ground arith) in (t, f', (omega arith, omega arith))
      | inr stays ↦ absurd (ground arith)
    ]

stay-Takes : Takes 0 (λ q k. k q)
stay-Takes p k r e = (p, e, (refl, omega arith))

repeat-Takes : (fuel : ℕ) (m : Matcher) → Takes 0 m → Takes 0 (repeat fuel m)
unfolding repeat
repeat-Takes zero m h = stay-Takes
repeat-Takes (suc fuel) m h =
    first_of_two-Takes 0 _ _ (round-Takes m (repeat fuel m) h (repeat-Takes fuel m h)) stay-Takes

repeat_lazy-Takes : (fuel : ℕ) (m : Matcher) → Takes 0 m → Takes 0 (repeat_lazy fuel m)
unfolding repeat_lazy
repeat_lazy-Takes zero m h = stay-Takes
repeat_lazy-Takes (suc fuel) m h =
    first_of_two-Takes 0 _ _ stay-Takes
      (round-Takes m (repeat_lazy fuel m) h (repeat_lazy-Takes fuel m h))

Takes-le : (n m : ℕ) (a : Matcher) → m ≤ n → Takes n a → Takes m a
Takes-le n m a h t p k r e = let (q, f, (b, c)) = t p k r e in (q, f, (b, omega arith))

run_pattern-Takes : (a : Pattern) → Takes (width a) (run_pattern a)
unfolding run_pattern
run_pattern-Takes (one test) p k r e = step_over-Takes test p.rest p k r refl e
run_pattern-Takes empty p k r e = stay-Takes p k r e
run_pattern-Takes (seq a b) p k r e =
    let (q, f, (x, y)) = run_pattern-Takes a p _ r e in
    let (s, f', (x', y')) = run_pattern-Takes b q k r f in (s, f', (omega arith, omega arith))
run_pattern-Takes (alt a b) p k r e =
    first_of_two-Takes (width (alt a b)) (run_pattern a) (run_pattern b)
      (Takes-le (width a) (width (alt a b)) _ (ground arith) (run_pattern-Takes a))
      (Takes-le (width b) (width (alt a b)) _ (ground arith) (run_pattern-Takes b)) p k r e
run_pattern-Takes (many a) p k r e =
    repeat-Takes (suc (length p.rest)) (run_pattern a)
      (Takes-le (width a) 0 _ (omega arith) (run_pattern-Takes a)) p k r e
run_pattern-Takes (many_lazy a) p k r e =
    repeat_lazy-Takes (suc (length p.rest)) (run_pattern a)
      (Takes-le (width a) 0 _ (omega arith) (run_pattern-Takes a)) p k r e
run_pattern-Takes (group n a) p k r e =
    let (q, f, b) = run_pattern-Takes a p _ r e in (record q { groups = _ }, f, b)
run_pattern-Takes line_end p k r e = elim (Bool-cases (at_end p.rest)) [
  | inl ends ↦ (p, ground arith, (refl, omega arith))
  | inr on ↦ absurd (ground arith)
]
run_pattern-Takes line_start p k r e = elim (Bool-cases (is_nil p.before)) [
  | inl ends ↦ (p, ground arith, (refl, omega arith))
  | inr on ↦ absurd (ground arith)
]
run_pattern-Takes boundary p k r e =
    let here : k p ≡ some r = elim (Bool-cases (first_is_word p.before)) [
      | inl word ↦ elim (Bool-cases (first_is_word p.rest)) [
        | inl more ↦ absurd (ground arith)
        | inr ends ↦ ground arith
      ]
      | inr none_before ↦ elim (Bool-cases (first_is_word p.rest)) [
        | inl begins ↦ ground arith
        | inr out ↦ absurd (ground arith)
      ]
    ] in
    (p, here, (refl, omega arith))
run_pattern-Takes (ahead a) p k r e = elim (Option-cases (run_pattern a p some)) [
  | inl fails ↦ absurd (ground arith)
  | inr (q, hit) ↦ (p, ground arith, (refl, omega arith))
]
run_pattern-Takes (not_ahead a) p k r e = elim (Option-cases (run_pattern a p some)) [
  | inl fails ↦ (p, ground arith, (refl, omega arith))
  | inr (q, hit) ↦ absurd (ground arith)
]

abbrev rest_length : Option Position → ℕ
rest_length none = 0
rest_length (some p) = length p.rest

-- What a match leaves, by the least width of the pattern.
pub match_re-width :
    (a : Pattern) (s : Text) (r : Position)
    → match_re a s ≡ some r
    → width a + length r.rest ≤ length s
unfolding match_re
match_re-width a s r e =
    let (q, f, (b, c)) = run_pattern-Takes a _ some r e in
    let same : length q.rest ≡ length r.rest = ap (λ (o : Option Position). rest_length o) f in
    omega arith

abbrev before_length : Option Position → ℕ
before_length none = 0
before_length (some p) = length p.before

-- The text in front of the end of a match, and behind it, make up the text.
pub match_re-length :
    (a : Pattern) (s : Text) (r : Position)
    → match_re a s ≡ some r
    → length r.before + length r.rest ≡ length s
unfolding match_re
match_re-length a s r e =
    let (q, f, (b, c)) = run_pattern-Takes a _ some r e in
    let same : length q.rest ≡ length r.rest = ap (λ (o : Option Position). rest_length o) f in
    let same' : length q.before ≡ length r.before =
      ap (λ (o : Option Position). before_length o) f in
    omega arith

abbrev start_at : Text → Text → Position
start_at before s = record { before = before; rest = s; groups = [] }

hit-width :
    (a : Pattern) (before s front : Text) (p r : Position)
    → run_pattern a (start_at before s) some ≡ some p
    → front ≡ reverse before
    → r ≡ p
    → length front + width a + length r.rest ≤ length before + length s
hit-width a before s front p r hit f e =
    let (q, g, (b, c)) = run_pattern-Takes a (start_at before s) some p hit in
    let same : length q.rest ≡ length p.rest = ap (λ (o : Option Position). rest_length o) g in
    let here : length r.rest ≡ length p.rest = ap (λ (x : Position). length x.rest) e in
    let n : length front ≡ length before = ap length f ∙ length-reverse before in omega arith

split_from-width :
    (a : Pattern) (before s front : Text) (r : Position)
    → split_from a before s ≡ some (front, r)
    → length front + width a + length r.rest ≤ length before + length s
unfolding split_from
split_from-width a before [] front r e =
    elim (Option-cases (run_pattern a (start_at before []) some)) [
      | inl fails ↦ absurd (ground arith)
      | inr (p, hit) ↦ hit-width a before [] front p r hit (ground arith) (ground arith)
    ]
split_from-width a before (c ∷ rest) front r e =
    elim (Option-cases (run_pattern a (start_at before (c ∷ rest)) some)) [
      | inl fails ↦
          let ih = split_from-width a (c ∷ before) rest front r (ground arith) in omega arith
      | inr (p, hit) ↦ hit-width a before (c ∷ rest) front p r hit (ground arith) (ground arith)
    ]

pub search_split-width :
    (a : Pattern) (s front : Text) (r : Position)
    → search_split a s ≡ some (front, r)
    → length front + width a + length r.rest ≤ length s
unfolding search_split
search_split-width a s front r e = let h = split_from-width a [] s front r e in omega arith
