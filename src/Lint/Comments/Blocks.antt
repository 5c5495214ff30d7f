-- ===== src/Lint/Comments/Blocks.antt =====
-- .linters/cpp/cpplint.py: which lines RemoveMultiLineComments replaces, and which error it reports.
pub mod Pieces
pub mod Loop
use nebula_chaos.Prelude.{
  ℕ, zero, suc, ◌+◌, ◌-◌, ◌≡◌, refl, Bool, true, false, ◌&&◌, not, Option, none, some, List, [],
  ◌∷◌, ◌++◌, arith, ltb, length, Text, Bool-cases, subst, ap, ◌⊎◌, inl, inr, all,
  drop-length_append,
}
use nebula_chaos.Lint.Comments.{
  begins_comment, ends_comment, find_line_from, find_next_multi_line_comment_start,
  find_next_multi_line_comment_end, dummy_comment, remove_multi_line_comments_from_range,
  remove_comments_from,
}

abbrev pub fails : (Text → Bool) → List Text → Bool
fails test lines = all (λ line. not (test line)) lines

abbrev pub first_begins : List Text → Bool
first_begins [] = false
first_begins (line ∷ lines) = begins_comment line

abbrev pub masked : List Text → List Text
masked [] = []
masked (line ∷ lines) = dummy_comment ∷ masked lines

-- What becomes of lines that are numbered from `n` on: the new lines, and the number that the error names.
pub data Stripped : ℕ → List Text → List Text → Option ℕ → Type 0 where
  finished : {n : ℕ} → Stripped n [] [] none
  kept :
      {n : ℕ} (line : Text) {lines out : List Text} {error : Option ℕ}
      → begins_comment line ≡ false
      → Stripped (n + 1) lines out error
      → Stripped n (line ∷ lines) (line ∷ out) error
  block :
      {n : ℕ} (body : List Text) (last : Text) {lines out : List Text} {error : Option ℕ}
      → first_begins (body ++ last ∷ lines) ≡ true
      → fails ends_comment body ≡ true
      → ends_comment last ≡ true
      → Stripped (n + length body + 1) lines out error
      → Stripped n (body ++ last ∷ lines) (masked body ++ dummy_comment ∷ out) error
  unclosed :
      {n : ℕ} (lines : List Text)
      → first_begins lines ≡ true
      → fails ends_comment lines ≡ true
      → Stripped n lines lines (some (n + 1))

-- Where a search from `ix` on stops in front of the end.
abbrev pub Hit : (Text → Bool) → ℕ → List Text → Type 0
Hit test ix xs =
    (before : List Text) × (line : Text) × (after : List Text) × (xs ≡ before ++ line ∷ after)
    × (fails test before ≡ true)
    × (test line ≡ true)
    × (find_line_from test ix xs ≡ ix + length before)

pub find_line_from-cases :
    (test : Text → Bool) (ix : ℕ) (xs : List Text)
    → ((fails test xs ≡ true) × (find_line_from test ix xs ≡ ix + length xs)) ⊎ Hit test ix xs
unfolding find_line_from
find_line_from-cases test ix [] = inl (refl, omega arith)
find_line_from-cases test ix (x ∷ xs) = elim (Bool-cases (test x)) [
  | inl hit ↦ inr ([], x, xs, refl, refl, hit, ground arith)
  | inr miss ↦ elim (find_line_from-cases test (suc ix) xs) [
    | inl (h, e) ↦ inl (ground arith, ground arith)
    | inr (before, line, after, e, h, hit, at) ↦
        inr (x ∷ before, line, after, ap (λ t. x ∷ t) e, ground arith, hit, ground arith)
  ]
]

pub cleared-append :
    (front body after : List Text) (end : ℕ)
    → end ≡ length front + length body
    → remove_multi_line_comments_from_range (front ++ (body ++ after)) (length front) end
      ≡ front ++ (masked body ++ after)
unfolding remove_multi_line_comments_from_range
cleared-append [] [] after zero h = refl
cleared-append [] [] after (suc end) h = absurd (omega arith)
cleared-append [] (x ∷ body) after zero h = absurd (omega arith)
cleared-append [] (x ∷ body) after (suc end) h =
    ap (λ t. dummy_comment ∷ t) (cleared-append [] body after end (omega arith))
cleared-append (x ∷ front) body after zero h = absurd (omega arith)
cleared-append (x ∷ front) body after (suc end) h =
    ap (λ t. x ∷ t) (cleared-append front body after end (omega arith))

pub Stripped-append :
    (n : ℕ) (front : List Text) {lines out : List Text} {error : Option ℕ}
    → fails begins_comment front ≡ true
    → Stripped (n + length front) lines out error
    → Stripped n (front ++ lines) (front ++ out) error
Stripped-append n [] {lines} {out} {error} h s =
    let e : n + 0 ≡ n = omega arith in subst (λ k. Stripped k lines out error) e s
Stripped-append n (x ∷ front) {lines} {out} {error} h s =
    let e : n + suc (length front) ≡ n + 1 + length front = omega arith in
    kept x (ground arith)
      (Stripped-append (n + 1) front (ground arith) (subst (λ k. Stripped k lines out error) e s))

pub start-append :
    (front lines : List Text)
    → find_next_multi_line_comment_start (front ++ lines) (length front)
      ≡ find_line_from begins_comment (length front) lines
unfolding find_next_multi_line_comment_start
start-append front lines =
    ap (find_line_from begins_comment (length front)) (drop-length_append front lines)

pub end-append :
    (front lines : List Text)
    → find_next_multi_line_comment_end (front ++ lines) (length front)
      ≡ find_line_from ends_comment (length front) lines
unfolding find_next_multi_line_comment_end
end-append front lines =
    ap (find_line_from ends_comment (length front)) (drop-length_append front lines)

module _ (fuel : ℕ) (lines : List Text) (ix : ℕ) where
  abbrev pub begin : ℕ
  begin = find_next_multi_line_comment_start lines ix

  abbrev pub end : ℕ
  end = find_next_multi_line_comment_end lines begin

  pub remove_comments_from-stops :
      (ltb ix (length lines) && ltb begin (length lines)) ≡ false
      → remove_comments_from (suc fuel) lines ix ≡ some (lines, none)
  unfolding remove_comments_from
  remove_comments_from-stops e = rw e refl

  pub remove_comments_from-errs :
      (ltb ix (length lines) && ltb begin (length lines)) ≡ true
      → ltb end (length lines) ≡ false
      → remove_comments_from (suc fuel) lines ix ≡ some (lines, some (begin + 1))
  unfolding remove_comments_from
  remove_comments_from-errs e h = rw (e, h) refl

  pub remove_comments_from-goes :
      (ltb ix (length lines) && ltb begin (length lines)) ≡ true
      → ltb end (length lines) ≡ true
      → remove_comments_from (suc fuel) lines ix
        ≡ remove_comments_from fuel
            (remove_multi_line_comments_from_range lines begin (end + 1))
            (end + 1)
  unfolding remove_comments_from
  remove_comments_from-goes e h = rw (e, h) refl
