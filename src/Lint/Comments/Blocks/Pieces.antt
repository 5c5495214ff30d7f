-- ===== src/Lint/Comments/Blocks/Pieces.antt =====
-- .linters/cpp/cpplint.py: one round of RemoveMultiLineComments on the pieces of the lines.
use nebula_chaos.Prelude.{
  ℕ, suc, ◌+◌, ◌<◌, ◌≡◌, refl, true, false, ◌&&◌, none, some, List, [], ◌∷◌, ◌++◌, arith, ltb,
  length, Text, subst, sym, ap, ◌∙◌, length-append, append_assoc,
}
use nebula_chaos.Lint.Comments.{
  begins_comment, ends_comment, find_line_from, dummy_comment,
  remove_multi_line_comments_from_range, remove_comments_from,
}
use nebula_chaos.Lint.Comments.Blocks.{
  fails, first_begins, masked, Stripped, finished, kept, cleared-append, start-append, end-append,
  begin, end, remove_comments_from-errs, remove_comments_from-goes,
}

pub untouched :
    (n : ℕ) (lines : List Text) → fails begins_comment lines ≡ true → Stripped n lines lines none
untouched n [] h = finished
untouched n (x ∷ lines) h = kept x (ground arith) (untouched (n + 1) lines (ground arith))

length-masked : (lines : List Text) → length (masked lines) ≡ length lines
length-masked [] = refl
length-masked (x ∷ lines) = ap suc (length-masked lines)

pub first_begins-append :
    (line : Text) (after body rest : List Text)
    → line ∷ after ≡ body ++ rest
    → begins_comment line ≡ true
    → first_begins (body ++ rest) ≡ true
first_begins-append line after body rest e h = subst (λ t. first_begins t ≡ true) e h

-- The pieces of the lines around the next comment: those behind the loop, those in front of the
-- comment, and the rest from the comment on.
module _ (fuel : ℕ) (done before rest : List Text) where
  abbrev all_lines : List Text
  all_lines = done ++ (before ++ rest)

  length-all_lines : length all_lines ≡ length done + length before + length rest
  length-all_lines = omega (arith, length-append done (before ++ rest), length-append before rest)

  module _
      (start : find_line_from begins_comment (length done) (before ++ rest)
        ≡ length done + length before) where
    begin_eq : begin fuel all_lines (length done) ≡ length done + length before
    begin_eq = start-append done (before ++ rest) ∙ start

    end_eq :
        end fuel all_lines (length done)
        ≡ find_line_from ends_comment (length done + length before) rest
    end_eq =
        let e = length-append done before in
        rw (begin_eq, sym e, sym (append_assoc done before rest)) (end-append (done ++ before) rest)

    inside :
        0 < length rest
        → (ltb (length done) (length all_lines)
            && ltb (begin fuel all_lines (length done)) (length all_lines))
          ≡ true
    inside h = rw (begin_eq, length-all_lines) (ground arith)

    pub piece-errs :
        0 < length rest
        → find_line_from ends_comment (length done + length before) rest
          ≡ length done + length before + length rest
        → remove_comments_from (suc fuel) all_lines (length done)
          ≡ some (all_lines, some (length done + length before + 1))
    piece-errs h e =
        let late : ltb (end fuel all_lines (length done)) (length all_lines) ≡ false =
          rw (end_eq, e, length-all_lines) (ground arith) in
        rw (remove_comments_from-errs fuel all_lines (length done) (inside h) late, begin_eq) refl

module _ (fuel : ℕ) (done before body : List Text) (last : Text) (rest : List Text) where
  abbrev pub cleared : List Text
  cleared = done ++ (before ++ (masked body ++ dummy_comment ∷ []))

  pub length-cleared : length cleared ≡ length done + length before + length body + 1
  length-cleared = omega (
    arith,
    length-append done (before ++ (masked body ++ dummy_comment ∷ [])),
    length-append before (masked body ++ dummy_comment ∷ []),
    length-append (masked body) (dummy_comment ∷ []),
    length-masked body,
  )

  masked-snoc :
      (lines : List Text) → masked (lines ++ last ∷ []) ≡ masked lines ++ dummy_comment ∷ []
  masked-snoc [] = refl
  masked-snoc (x ∷ lines) = ap (λ t. dummy_comment ∷ t) (masked-snoc lines)

  -- The old lines cleared in place.
  remove-cleared :
      remove_multi_line_comments_from_range
        (done ++ (before ++ (body ++ last ∷ rest)))
        (length done + length before)
        (length done + length before + length body + 1)
      ≡ cleared ++ rest
  remove-cleared =
      let n = length-append done before in
      let m = length-append body (last ∷ []) in
      let e =
        cleared-append (done ++ before) (body ++ last ∷ []) rest
          (length done + length before + length body + 1) (omega arith) in
      rw
        (
          append_assoc done (before ++ (masked body ++ dummy_comment ∷ [])) rest,
          append_assoc before (masked body ++ dummy_comment ∷ []) rest,
          sym (masked-snoc body),
        )
        (subst
          (λ k.
            remove_multi_line_comments_from_range (done ++ (before ++ (body ++ last ∷ rest))) k
              (length done + length before + length body + 1)
            ≡ done ++ (before ++ (masked (body ++ last ∷ []) ++ rest)))
          n
          (subst
            (λ t.
              remove_multi_line_comments_from_range t (length (done ++ before))
                (length done + length before + length body + 1)
              ≡ done ++ (before ++ (masked (body ++ last ∷ []) ++ rest)))
            (append_assoc done before ((body ++ last ∷ []) ++ rest)
              ∙ ap (λ t. done ++ (before ++ t)) (append_assoc body (last ∷ []) rest))
            (e ∙ append_assoc done before (masked (body ++ last ∷ []) ++ rest))))

  pub piece-goes :
      find_line_from begins_comment (length done) (before ++ (body ++ last ∷ rest))
        ≡ length done + length before
      → find_line_from ends_comment (length done + length before) (body ++ last ∷ rest)
        ≡ length done + length before + length body
      → remove_comments_from (suc fuel) (done ++ (before ++ (body ++ last ∷ rest))) (length done)
        ≡ remove_comments_from fuel (cleared ++ rest) (length cleared)
  piece-goes start e =
      let lines = done ++ (before ++ (body ++ last ∷ rest)) in
      let some_line : 0 < length (body ++ last ∷ rest) =
        omega (arith, length-append body (last ∷ rest)) in
      let begins = begin_eq fuel done before (body ++ last ∷ rest) start in
      let ends = end_eq fuel done before (body ++ last ∷ rest) start ∙ e in
      let n = length-all_lines fuel done before (body ++ last ∷ rest) in
      let m = length-append body (last ∷ rest) in
      let early : ltb (end fuel lines (length done)) (length lines) ≡ true =
        rw (ends, n) (ground arith) in
      rw
        (
          remove_comments_from-goes fuel lines (length done)
              (inside fuel done before (body ++ last ∷ rest) start some_line) early,
          ends,
          begins,
          remove-cleared,
          length-cleared,
        )
        refl
