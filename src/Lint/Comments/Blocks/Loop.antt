-- ===== src/Lint/Comments/Blocks/Loop.antt =====
-- .linters/cpp/cpplint.py: the loop of RemoveMultiLineComments, whose fuel is enough.
use nebula_chaos.Prelude.{
  ℕ, zero, suc, ◌+◌, ◌<◌, ◌≤◌, ◌≡◌, true, false, ◌&&◌, Option, none, some, List, [], ◌∷◌, ◌++◌,
  arith, ltb, length, Text, subst, sym, ap, inl, inr, ◌∙◌, length-append, append_assoc,
}
use nebula_chaos.Lint.Comments.{
  begins_comment, ends_comment, find_line_from, dummy_comment, remove_comments_from,
  remove_multi_line_comments,
}
use nebula_chaos.Lint.Comments.Blocks.{
  fails, first_begins, masked, Stripped, block, unclosed, find_line_from-cases, Stripped-append,
  start-append, begin, remove_comments_from-stops,
}
use nebula_chaos.Lint.Comments.Blocks.Pieces.{
  untouched, first_begins-append, cleared, length-cleared, piece-goes, piece-errs,
}

-- What the loop makes of the lines behind `done`.
abbrev Strips : ℕ → List Text → List Text → Type 0
Strips fuel done rest =
    (out : List Text) × (error : Option ℕ) × (remove_comments_from fuel (done ++ rest) (length done)
      ≡ some (done ++ out, error))
    × Stripped (length done) rest out error

-- The loop has no further comment to find.
Strips-no_comment :
    (fuel : ℕ) (done rest : List Text)
    → fails begins_comment rest ≡ true
    → find_line_from begins_comment (length done) rest ≡ length done + length rest
    → Strips (suc fuel) done rest
Strips-no_comment fuel done rest h e =
    let late : (ltb (length done) (length (done ++ rest))
          && ltb (begin fuel (done ++ rest) (length done)) (length (done ++ rest)))
        ≡ false =
      rw (start-append done rest, e, length-append done rest) (ground arith) in
    (
      rest,
      none,
      remove_comments_from-stops fuel (done ++ rest) (length done) late,
      untouched (length done) rest h,
    )

Strips-unclosed :
    (fuel : ℕ) (done before rest : List Text)
    → fails begins_comment before ≡ true
    → first_begins rest ≡ true
    → 0 < length rest
    → find_line_from begins_comment (length done) (before ++ rest) ≡ length done + length before
    → fails ends_comment rest ≡ true
    → find_line_from ends_comment (length done + length before) rest
      ≡ length done + length before + length rest
    → Strips (suc fuel) done (before ++ rest)
Strips-unclosed fuel done before rest h first some_line start never e = (
  before ++ rest,
  some (length done + length before + 1),
  piece-errs fuel done before rest start some_line e,
  Stripped-append (length done) before h (unclosed rest first never),
)

Strips-block :
    (fuel : ℕ) (done before body : List Text) (last : Text) (rest : List Text)
    → fails begins_comment before ≡ true
    → first_begins (body ++ last ∷ rest) ≡ true
    → fails ends_comment body ≡ true
    → ends_comment last ≡ true
    → find_line_from begins_comment (length done) (before ++ (body ++ last ∷ rest))
      ≡ length done + length before
    → find_line_from ends_comment (length done + length before) (body ++ last ∷ rest)
      ≡ length done + length before + length body
    → Strips fuel (cleared fuel done before body last rest) rest
    → Strips (suc fuel) done (before ++ (body ++ last ∷ rest))
Strips-block fuel done before body last rest h first long closes start e
      (out, error, runs, strips) =
    (
      before ++ (masked body ++ dummy_comment ∷ out),
      error,
      piece-goes fuel done before body last rest start e
          ∙ runs
          ∙ ap (λ t. some (t, error))
              (append_assoc done (before ++ (masked body ++ dummy_comment ∷ [])) out
                ∙ ap (λ t. done ++ t)
                    (append_assoc before (masked body ++ dummy_comment ∷ []) out
                      ∙ ap (λ t. before ++ t)
                          (append_assoc (masked body) (dummy_comment ∷ []) out))),
      Stripped-append (length done) before h (
          block body last first long closes (
            subst (λ n. Stripped n rest out error) (length-cleared fuel done before body last rest)
              strips)),
    )

Strips-hit :
    (fuel : ℕ) (done before : List Text) (line : Text) (after : List Text)
    → ((front rest : List Text) → length rest < fuel → Strips fuel front rest)
    → length (before ++ line ∷ after) ≤ fuel
    → fails begins_comment before ≡ true
    → begins_comment line ≡ true
    → find_line_from begins_comment (length done) (before ++ line ∷ after)
      ≡ length done + length before
    → Strips (suc fuel) done (before ++ line ∷ after)
Strips-hit fuel done before line after ih short h begins start =
    elim (find_line_from-cases ends_comment (length done + length before) (line ∷ after)) [
      | inl (never, e) ↦
          Strips-unclosed fuel done before (line ∷ after) h begins (omega arith) start never e
      | inr (body, last, rest, e, long, closes, at) ↦
          let n = length-append before (line ∷ after) in
          let m : length (line ∷ after) ≡ length body + length (last ∷ rest) =
            ap length e ∙ length-append body (last ∷ rest) in
          subst (λ t. Strips (suc fuel) done (before ++ t)) (sym e)
            (Strips-block fuel done before body last rest h
              (first_begins-append line after body (last ∷ rest) e begins) long closes
              (subst
                (λ t.
                  find_line_from begins_comment (length done) (before ++ t)
                  ≡ length done + length before)
                e start)
              (subst
                (λ t.
                  find_line_from ends_comment (length done + length before) t
                  ≡ length done + length before + length body)
                e at)
              (ih (cleared fuel done before body last rest) rest (omega arith)))
    ]

Strips-all : (fuel : ℕ) (done rest : List Text) → length rest < fuel → Strips fuel done rest
Strips-all zero done rest h = absurd (omega arith)
Strips-all (suc fuel) done rest h = elim (find_line_from-cases begins_comment (length done) rest) [
  | inl (never, e) ↦ Strips-no_comment fuel done rest never e
  | inr (before, line, after, e, fs, begins, at) ↦ subst (Strips (suc fuel) done) (sym e) (
      Strips-hit fuel done before line after (Strips-all fuel)
        (subst (λ t. length t ≤ fuel) e (omega arith)) fs begins
        (subst (λ t. find_line_from begins_comment (length done) t ≡ length done + length before) e
          at))
]

-- RemoveMultiLineComments ends on all lines, and its new lines and its error are those that
-- Stripped describes: a line that begins no comment is kept, the lines from one that begins a
-- comment to the first that ends one become dummy comments, and where no line ends it, the lines
-- from there on are kept and the error names the first of them, counted from 1.
pub remove_multi_line_comments-Stripped :
    (lines : List Text)
    → (out : List Text) × (error : Option ℕ) × (remove_multi_line_comments lines
        ≡ some (out, error))
      × Stripped 0 lines out error
unfolding remove_multi_line_comments
remove_multi_line_comments-Stripped lines = Strips-all (suc (length lines)) [] lines (omega arith)
