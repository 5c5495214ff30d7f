-- ===== src/Lint/Checks/Whole/Newline.antt =====
-- .linters/cpp/cpplint.py: CheckForNewlineAtEOF, on the lines that ProcessFile reads.
use nebula_chaos.Prelude.{
  ℕ, suc, ◌-◌, ◌≡◌, ◌↔◌, refl, true, false, ◌||◌, List, [], ◌∷◌, ◌++◌, arith, ltb, is_nil, length,
  get_or, Text, codes, split_text, last_from, ends_in, is_nil-last_split, last_from-split,
  ends_with, ap, sym, ◌∙◌, Bool-cases, inl, inr, length-append, length-split, ◌<◌,
}
use nebula_chaos.Lint.Checks.Whole.{
  FileLines, read_lines, trim_lines, add_line, mark_lines, first_marker, last_marker,
  check_for_newline_at_eof,
}

get_or-last :
    (t : Text) (ts us : List Text) → get_or (t ∷ (ts ++ us)) (length ts) [] ≡ last_from t ts
get_or-last t [] us = refl
get_or-last t (u ∷ ts) us = get_or-last u ts us

-- Only the last line keeps its end.
last_from-trim :
    (ts : List Text) (n : ℕ) (t : Text) → last_from t ((trim_lines ts n).lines) ≡ last_from t ts
unfolding trim_lines
last_from-trim [] n t = refl
last_from-trim (u ∷ []) n t = refl
last_from-trim (u ∷ v ∷ rest) n t = elim (Bool-cases (ends_with (codes "\r") u)) [
  | inl e ↦ rw e (last_from-trim (v ∷ rest) (suc n) _)
  | inr e ↦ rw e (last_from-trim (v ∷ rest) (suc n) _)
]

is_nil-read_lines :
    (content t : Text)
    → is_nil (last_from t ((read_lines content).lines)) ≡ is_nil content || ends_in 10 content
unfolding read_lines
is_nil-read_lines content t =
    ap is_nil (last_from-trim (split_text 10 content) 0 t ∙ last_from-split 10 content t)
    ∙ is_nil-last_split 10 content

add_line-length :
    (u : Text) (n : ℕ) (r : FileLines) → length (add_line u n r).lines ≡ suc (length r.lines)
unfolding add_line
add_line-length u n r = elim (Bool-cases (ends_with (codes "\r") u)) [
  | inl e ↦ rw e refl
  | inr e ↦ rw e refl
]

length-trim : (ts : List Text) (n : ℕ) → length (trim_lines ts n).lines ≡ length ts
unfolding trim_lines
length-trim [] n = refl
length-trim (u ∷ []) n = refl
length-trim (u ∷ v ∷ rest) n = add_line-length u n _ ∙ ap suc (length-trim (v ∷ rest) (suc n))

length-read_lines : (content : Text) → 0 < length (read_lines content).lines
unfolding read_lines
length-read_lines content =
    omega (arith, length-trim (split_text 10 content) 0, length-split 10 content)

check-marked :
    (ls : List Text)
    → 0 < length ls
    → (check_for_newline_at_eof (mark_lines ls) ≡ []) ↔ (is_nil (last_from first_marker ls) ≡ true)
unfolding check_for_newline_at_eof mark_lines
check-marked ls h =
    let m = last_marker in
    let n : suc (length (ls ++ m ∷ [])) - 2 ≡ length ls =
      omega (arith, length-append ls (m ∷ [])) in
    let long : ltb (suc (length (ls ++ m ∷ []))) 3 ≡ false =
      ground (arith, length-append ls (m ∷ []), h) in
    rw (n, long, get_or-last first_marker ls (m ∷ [])) (ground arith)

-- CheckForNewlineAtEOF reports nothing exactly where the content of the file, which ProcessFile
-- splits into lines and ProcessFileData puts between two markers, is empty or ends in a line feed.
pub check_for_newline_at_eof-read_lines :
    (content : Text)
    → (check_for_newline_at_eof (mark_lines (read_lines content).lines) ≡ [])
      ↔ (is_nil content || ends_in 10 content ≡ true)
check_for_newline_at_eof-read_lines content =
    let e = is_nil-read_lines content first_marker in
    let (f, g) = check-marked ((read_lines content).lines) (length-read_lines content) in
    (λ h. sym e ∙ f h, λ h. g (e ∙ h))
