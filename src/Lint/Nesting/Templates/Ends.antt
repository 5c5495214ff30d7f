-- ===== src/Lint/Nesting/Templates/Ends.antt =====
-- .linters/cpp/cpplint.py: the loop of InTemplateArgumentList ends.
use nebula_chaos.Prelude.{
  ℕ, zero, suc, ◌+◌, ◌-◌, ◌≤◌, ◌<◌, ◌≡◌, refl, ◌⊎◌, inl, inr, Bool, false, Option, none, some, List,
  [], ◌∷◌, arith, leb, length, drop, get_elem?, Text, Bool-cases, ap, sym, ◌∙◌, length-drop,
  drop-get_elem?, Option-cases,
}
use mathlib.Core.Path.{subst}
use nebula_chaos.Lint.Regex.{match_re}
use nebula_chaos.Lint.Regex.Width.{width, match_re-length, match_re-width}
use nebula_chaos.Lint.Brackets.{Closing, found, not_found, close_expression, close_at}
use nebula_chaos.Lint.Brackets.Soundness.{close_expression-eq}
use nebula_chaos.Lint.Brackets.Bounds.{Behind, close_expression-bounds}
use nebula_chaos.Lint.Nesting.Templates.{
  next_token, token_of, TemplateTurn, answers, moves, raises, behind_closing, token_turn,
  template_turn, template_from, text_size, in_template_argument_list,
}

-- What is left of the text from a place on.
abbrev left : List Text → ℕ → ℕ
left elided n = text_size (drop n elided)

left-suc :
    (elided : List Text) (n : ℕ) (line : Text)
    → get_elem? elided n ≡ some line
    → left elided n ≡ suc (length line) + left elided (suc n)
unfolding text_size
left-suc elided n line g = ap text_size (drop-get_elem? n elided g)

left-later : (elided : List Text) (n m : ℕ) → n ≤ m → left elided m ≤ left elided n
unfolding text_size
left-later [] n zero h = ground arith
left-later [] n (suc m) h = ground arith
left-later (line ∷ lines) zero zero h = omega arith
left-later (line ∷ lines) zero (suc m) h = omega (arith, left-later lines zero m (omega arith))
left-later (line ∷ lines) (suc n) zero h = absurd (omega arith)
left-later (line ∷ lines) (suc n) (suc m) h = left-later lines n m (omega arith)

-- The loop stands in a line, and fewer than `size` characters and ends of lines are left; or it stands
-- behind the last line.
abbrev Within : List Text → ℕ → ℕ → ℕ → Type 0
Within elided n pos size =
    (get_elem? elided n ≡ none)
    ⊎ ((line : Text) × (get_elem? elided n ≡ some line)
        × (pos ≤ length line)
        × (left elided n ≤ size + pos))

-- Every turn answers, or goes on with less text.
abbrev Shortens : List Text → ℕ → TemplateTurn → Type 0
Shortens elided size (answers b) = Unit
Shortens elided size (moves n pos) = (s : ℕ) × (s < size) × Within elided n pos s
Shortens elided size raises = ⊥

abbrev line_length : Option Text → ℕ
line_length none = 0
line_length (some line) = length line

Within-start : (elided : List Text) (n size : ℕ) → left elided n ≤ size → Within elided n 0 size
Within-start elided n size h = elim (Option-cases (get_elem? elided n)) [
  | inl e ↦ inl e
  | inr (line, e) ↦ inr (line, e, omega arith, omega arith)
]

Closing-cases :
    (r : Closing)
    → ((line' : Text) × (m : ℕ) × (p : ℕ) × (r ≡ found line' m p))
      ⊎ ((line' : Text) × (r ≡ not_found line'))
Closing-cases (found line' m p) = inl (line', m, p, refl)
Closing-cases (not_found line') = inr (line', refl)

get_elem?-some : (k : ℕ) (t : Text) → k < length t → (c : ℕ) × (get_elem? t k ≡ some c)
get_elem?-some k [] i = absurd (omega arith)
get_elem?-some zero (d ∷ t) i = (d, refl)
get_elem?-some (suc k) (d ∷ t) i = get_elem?-some k t (omega arith)

module _ (elided : List Text) (n : ℕ) (line : Text) (g : get_elem? elided n ≡ some line)
    (pos size : ℕ) (h : pos ≤ length line) (l : left elided n ≤ size + pos) where
  next_line-Shortens : Shortens elided size (moves (n + 1) 0)
  next_line-Shortens =
      let k : left elided (suc n) < size = omega (arith, left-suc elided n line g, h, l) in
      let e : suc n ≡ n + 1 = omega arith in
      (
        left elided (suc n),
        k,
        subst (λ m. Within elided m 0 (left elided (suc n))) e
            (Within-start elided (suc n) (left elided (suc n)) (omega arith)),
      )

  same_line-Shortens : (p : ℕ) → pos < p → p ≤ length line → Shortens elided size (moves n p)
  same_line-Shortens p a b =
      let k = left-suc elided n line g in
      (left elided n - p, omega (arith, k, l, a, b), inr (line, g, b, omega (arith, k, b)))

  Behind-Shortens :
      (q : ℕ) (line' : Text) (m p : ℕ)
      → pos ≤ q
      → Behind elided n q line' m p
      → Shortens elided size (moves m p)
  Behind-Shortens q line' m p k (g', b, inl later) = (
    left elided m - p,
    omega (arith, left-suc elided n line g, left-later elided (suc n) m later, h, l),
    inr (line', g', b, omega arith),
  )
  Behind-Shortens q line' m p k (g', b, inr (e, a)) =
      let same : length line ≡ length line' =
        ap line_length (sym g ∙ ap (get_elem? elided) (sym e) ∙ g') in
      subst (λ x. Shortens elided size (moves x p)) (sym e)
        (same_line-Shortens p (omega arith) (omega arith))

  closing-Shortens :
      (q c : ℕ)
      → pos ≤ q
      → get_elem? line q ≡ some c
      → q ≤ length line
      → Shortens elided size (behind_closing (close_expression elided n q))
  closing-Shortens q c k g' b =
      rw (close_expression-eq elided n q line c g g')
        (elim (Closing-cases (close_at elided n q line c)) [
          | inl (line', m, p, e) ↦ rw e (
              Behind-Shortens q line' m p k (
                close_expression-bounds elided n q c line line' m p g g' b
                  (close_expression-eq elided n q line c g g' ∙ ap some e)))
          | inr (line', e) ↦ rw e tt
        ])

  -- The token ends behind position `pos`.
  token-Shortens :
      (token p : ℕ)
      → pos < p
      → p ≤ length line
      → Shortens elided size (token_turn elided n line token p)
  unfolding token_turn
  token-Shortens token p a b =
      ground (arith, next_line-Shortens, same_line-Shortens (p + 1) (omega arith), closed_here)
    where
      closed_here : Shortens elided size (behind_closing (close_expression elided n (p - 1)))
      closed_here =
          let (c, g') = get_elem?-some (p - 1) line (omega arith) in
          closing-Shortens (p - 1) c (omega arith) g' (omega arith)

  turn-Shortens : Shortens elided size (template_turn elided n line pos)
  unfolding template_turn
  turn-Shortens = elim (Option-cases (match_re next_token (drop pos line))) [
    | inl e ↦ rw e next_line-Shortens
    | inr (p, e) ↦
        let a = match_re-length next_token (drop pos line) p e in
        let b = match_re-width next_token (drop pos line) p e in
        let d = length-drop pos line in
        let w : width next_token ≡ 1 = refl in
        rw e (token-Shortens (token_of p) (pos + length p.before) (omega arith) (omega arith))
  ]

Turn-cases :
    (t : TemplateTurn)
    → ((b : Bool) × (t ≡ answers b)) ⊎ ((n : ℕ) × (pos : ℕ) × (t ≡ moves n pos)) ⊎ (t ≡ raises)
Turn-cases (answers b) = inl (b, refl)
Turn-cases (moves n pos) = inr (inl (n, pos, refl))
Turn-cases raises = inr (inr refl)

abbrev Answers : Option Bool → Type 0
Answers o = (b : Bool) × (o ≡ some b)

template_from-moves :
    (fuel : ℕ) (elided : List Text) (n pos n' pos' : ℕ) (line : Text)
    → get_elem? elided n ≡ some line
    → template_turn elided n line pos ≡ moves n' pos'
    → template_from (suc fuel) elided n pos ≡ template_from fuel elided n' pos'
unfolding template_from
template_from-moves fuel elided n pos n' pos' line g e = rw (template_from, g) (rw e refl)

template_from-Answers :
    (fuel : ℕ) (elided : List Text) (n pos size : ℕ)
    → Within elided n pos size
    → size < fuel
    → Answers (template_from fuel elided n pos)
unfolding template_from
template_from-Answers zero elided n pos size w h = absurd (omega arith)
template_from-Answers (suc fuel) elided n pos size (inl e) h = (false, rw (template_from, e) refl)
template_from-Answers (suc fuel) elided n pos size (inr (line, g, a, l)) h =
    let s = turn-Shortens elided n line g pos size a l in
    elim (Turn-cases (template_turn elided n line pos)) [
      | inl (b, e) ↦ (b, rw (template_from, g, e) refl)
      | inr (inl (n', pos', e)) ↦
          let (size', less, w) = subst (Shortens elided size) e s in
          let (b, r) = template_from-Answers fuel elided n' pos' size' w (omega arith) in
          (b, template_from-moves fuel elided n pos n' pos' line g e ∙ r)
      | inr (inr e) ↦ absurd (subst (Shortens elided size) e s)
    ]

beyond-moves :
    (elided : List Text) (n pos : ℕ) (line : Text)
    → length line < pos
    → template_turn elided n line pos ≡ moves (n + 1) 0
unfolding template_turn match_re
beyond-moves elided n pos line h =
    let e : drop pos line ≡ [] = empty_drop pos line (omega arith) in rw e refl
  where
    empty_drop : (k : ℕ) (t : Text) → length t ≤ k → drop k t ≡ []
    empty_drop zero [] i = refl
    empty_drop zero (c ∷ t) i = absurd (omega arith)
    empty_drop (suc k) [] i = refl
    empty_drop (suc k) (c ∷ t) i = empty_drop k t (omega arith)

-- InTemplateArgumentList answers: its loop ends, and no CloseExpression that it calls raises an
-- IndexError.
pub in_template_argument_list_total :
    (elided : List Text) (n pos : ℕ)
    → (b : Bool) × (in_template_argument_list elided n pos ≡ some b)
unfolding in_template_argument_list
in_template_argument_list_total elided n pos = elim (Option-cases (get_elem? elided n)) [
  | inl e ↦
      template_from-Answers (suc (text_size elided)) elided n pos (text_size elided) (inl e)
        (omega arith)
  | inr (line, g) ↦
      let l : left elided n ≤ text_size elided = left-later elided 0 n (omega arith) in
      elim (Bool-cases (leb pos (length line))) [
        | inl inside ↦
            template_from-Answers (suc (text_size elided)) elided n pos (text_size elided)
              (inr (line, g, ground arith, omega (arith, l))) (omega arith)
        | inr beyond ↦
            let less = left-suc elided n line g in
            let next : n + 1 ≡ suc n = omega arith in
            let same : left elided (n + 1) ≡ left elided (suc n) = ap (left elided) next in
            let e = beyond-moves elided n pos line (ground arith) in
            let (b, r) =
              template_from-Answers (text_size elided) elided (n + 1) 0 (left elided (n + 1))
                (Within-start elided (n + 1) (left elided (n + 1)) (omega arith))
                (omega (arith, l, less, same)) in
            (b, template_from-moves (text_size elided) elided n pos (n + 1) 0 line g e ∙ r)
      ]
]
