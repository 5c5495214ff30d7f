-- ===== src/Lint/Cleansed/Lines.antt =====
-- .linters/cpp/cpplint.py: the constructor of CleansedLines ends, with four lists of one length.
use nebula_chaos.Prelude.{
  any, not, true, ◌==◌, subst, ℕ, zero, suc, ◌+◌, ◌<◌, ◌≤◌, ◌≡◌, refl, Option, none, some, List, [],
  ◌∷◌, ◌++◌, arith, length, drop, Text, codes, find_text, length-append, length-drop, Option-cases,
  Bool-cases, inl, inr, ap, ◌∙◌, map,
}
use nebula_chaos.Lint.Regex.{Position, search_split, matches, is_space}
use nebula_chaos.Lint.Regex.Spaces.{match_re-IsSome}
use nebula_chaos.Lint.Regex.Width.{search_split-width}
use nebula_chaos.Lint.Strings.{cleanse_comments}
use nebula_chaos.Lint.Strings.Collapse.{collapse_strings_total}
use nebula_chaos.Lint.Cleansed.{
  raw_string_start, line_comment, delimiter_of, RawTurn, breaks, opens, goes, after_delimiter,
  raw_found, raw_turn, cleanse_raw, leading_space, resumed, resume_raw, cleanse_raw_line,
  cleanse_raw_lines, cleanse_raw_strings, CleansedLines, elide_lines, cleansed_lines,
}

-- The text that ends a raw string begins with a parenthesis.
abbrev IsDelimiter : Text → Type 0
IsDelimiter delimiter = (t : Text) × (delimiter ≡ b')' ∷ t)

-- A turn goes on with a shorter line, or leaves a delimiter.
abbrev Shrinks : ℕ → RawTurn → Type 0
Shrinks n (goes line) = length line < n
Shrinks n (opens line delimiter) = IsDelimiter delimiter
Shrinks n _ = Unit

after_delimiter-Shrinks :
    (n : ℕ) (front delimiter rest : Text) (end : Option ℕ)
    → length front + 2 + length rest < n
    → IsDelimiter delimiter
    → Shrinks n (after_delimiter front delimiter rest end)
after_delimiter-Shrinks n front delimiter rest none h d = d
after_delimiter-Shrinks n front delimiter rest (some end) h is =
    let a = length-append front (codes "\"\"" ++ drop (end + length delimiter) rest) in
    let d = length-drop (end + length delimiter) rest in omega arith

found-Shrinks :
    (n : ℕ) (front : Text) (p : Position)
    → length front + 3 + length p.rest ≤ n
    → Shrinks n (raw_found (some (front, p)))
found-Shrinks n front p h = elim (Bool-cases (matches line_comment front)) [
  | inl comment ↦ rw comment tt
  | inr code ↦ rw code (
      after_delimiter-Shrinks n front (delimiter_of p) p.rest (find_text (delimiter_of p) p.rest)
        (omega arith) (_, refl))
]

raw_turn-Shrinks : (line : Text) → Shrinks (length line) (raw_turn line)
unfolding raw_turn
raw_turn-Shrinks line = elim (Option-cases (search_split raw_string_start line)) [
  | inl nowhere ↦ rw nowhere tt
  | inr ((front, p), hit) ↦
      rw hit
        (found-Shrinks (length line) front p (search_split-width raw_string_start line front p hit))
]

Shrinks-le : (n m : ℕ) (turn : RawTurn) → n ≤ m → Shrinks n turn → Shrinks m turn
Shrinks-le n m breaks h s = tt
Shrinks-le n m (opens line delimiter) h s = s
Shrinks-le n m (goes line) h s = omega arith

abbrev after : ℕ → Text → RawTurn → Option (Text × Option Text)
after fuel line breaks = some (line, none)
after fuel line (opens line' delimiter) = some (line', some delimiter)
after fuel line (goes line') = cleanse_raw fuel line'

cleanse_raw-after :
    (fuel : ℕ) (line : Text) → cleanse_raw (suc fuel) line ≡ after fuel line (raw_turn line)
unfolding cleanse_raw
cleanse_raw-after fuel line = refl

abbrev IsOpen : Option Text → Type 0
IsOpen none = Unit
IsOpen (some delimiter) = IsDelimiter delimiter

Ends : Option (Text × Option Text) → Type 0
Ends o = (line : Text) × (next : Option Text) × (o ≡ some (line, next)) × IsOpen next

after-Ends :
    (fuel : ℕ) (line : Text) (turn : RawTurn)
    → ((line' : Text) → length line' < fuel → Ends (cleanse_raw fuel line'))
    → Shrinks fuel turn
    → Ends (after fuel line turn)
unfolding Ends
after-Ends fuel line breaks ih h = (line, none, refl, tt)
after-Ends fuel line (opens line' delimiter) ih h = (line', some delimiter, refl, h)
after-Ends fuel line (goes line') ih h = ih line' h

cleanse_raw-Ends : (fuel : ℕ) (line : Text) → length line < fuel → Ends (cleanse_raw fuel line)
unfolding Ends
cleanse_raw-Ends zero line h = absurd (omega arith)
cleanse_raw-Ends (suc fuel) line h =
    let (line', next, e, unclosed) =
      after-Ends fuel line (raw_turn line) (cleanse_raw-Ends fuel)
        (Shrinks-le (length line) fuel (raw_turn line) (omega arith) (raw_turn-Shrinks line)) in
    (line', next, cleanse_raw-after fuel line ∙ e, unclosed)

found-any :
    (u t : Text) (n : ℕ) → find_text (b')' ∷ u) t ≡ some n → any (λ c. not (is_space c)) t ≡ true
unfolding find_text
found-any u [] n e = absurd (cc)
found-any u (c ∷ t) n e = elim (Bool-cases (c == b')')) [
  | inl closing ↦ ground arith
  | inr other ↦ elim (Option-cases (find_text (b')' ∷ u) t)) [
    | inl nowhere ↦ absurd (ground arith)
    | inr (m, later) ↦ let rest = found-any u t m later in ground arith
  ]
]

find_text-any :
    (delimiter t : Text) (n : ℕ)
    → IsDelimiter delimiter
    → find_text delimiter t ≡ some n
    → any (λ c. not (is_space c)) t ≡ true
find_text-any delimiter t n (u, d) e = found-any u t n (subst (λ s. find_text s t ≡ some n) d e)

-- A line that holds a delimiter has a character that is no space.
leading_space-some :
    (line : Text)
    → any (λ c. not (is_space c)) line ≡ true
    → (space : Text) × (leading_space line ≡ some space)
unfolding leading_space
leading_space-some line h =
    let (p, e) = match_re-IsSome is_space 1 line h in rw (e, leading_space) (_, refl)

resumed-Ends :
    (line delimiter : Text) (end : ℕ) (o : Option Text) (space : Text)
    → o ≡ some space
    → Ends (resumed line delimiter end o)
unfolding Ends
resumed-Ends line delimiter end o space e =
    let line' = space ++ (codes "\"\"" ++ drop (end + length delimiter) line) in
    rw e (cleanse_raw-Ends (suc (length line')) line' (omega arith))

resume_raw-Ends :
    (line delimiter : Text) (end : Option ℕ)
    → IsDelimiter delimiter
    → find_text delimiter line ≡ end
    → Ends (resume_raw line delimiter end)
unfolding resume_raw Ends
resume_raw-Ends line delimiter none d e = (_, _, refl, d)
resume_raw-Ends line delimiter (some end) d e =
    let (space, s) = leading_space-some line (find_text-any delimiter line end d e) in
    resumed-Ends line delimiter end (leading_space line) space s

cleanse_raw_line-Ends :
    (delimiter : Option Text) (line : Text)
    → IsOpen delimiter
    → Ends (cleanse_raw_line delimiter line)
unfolding cleanse_raw_line
cleanse_raw_line-Ends none line d = cleanse_raw-Ends (suc (length line)) line (omega arith)
cleanse_raw_line-Ends (some delimiter) line d =
    resume_raw-Ends line delimiter (find_text delimiter line) d refl

-- A result with one line for each of `n` lines.
abbrev HasLines : ℕ → Option (List Text) → Type 0
HasLines n o = (out : List Text) × (o ≡ some out) × (length out ≡ n)

cleanse_raw_lines-HasLines :
    (delimiter : Option Text) (lines : List Text)
    → IsOpen delimiter
    → HasLines (length lines) (cleanse_raw_lines delimiter lines)
unfolding cleanse_raw_lines Ends
cleanse_raw_lines-HasLines delimiter [] d = ([], refl, refl)
cleanse_raw_lines-HasLines delimiter (line ∷ lines) d =
    let (line', next, e, unclosed) = cleanse_raw_line-Ends delimiter line d in
    let (out, e', n) = cleanse_raw_lines-HasLines next lines unclosed in
    (line' ∷ out, ground arith, ap suc n)

elide_lines-HasLines : (lines : List Text) → HasLines (length lines) (elide_lines lines)
unfolding elide_lines
elide_lines-HasLines [] = ([], refl, refl)
elide_lines-HasLines (line ∷ rest) =
    let (t, e) = collapse_strings_total line in
    let (out, e', n) = elide_lines-HasLines rest in
    (cleanse_comments t ∷ out, ground arith, ap suc n)

length-map : (lines : List Text) → length (map cleanse_comments lines) ≡ length lines
length-map [] = refl
length-map (x ∷ lines) = ap suc (length-map lines)

-- The constructor of CleansedLines ends on all lines: no loop of CleanseRawStrings or _CollapseStrings
-- runs for ever. Its raw lines are those lines, and its other three lists have as many.
pub cleansed_lines_total :
    (raw : List Text)
    → (c : CleansedLines) × (cleansed_lines raw ≡ some c)
      × (c.raw_lines ≡ raw)
      × (c.num_lines ≡ length raw)
      × (length c.elided ≡ length raw)
      × (length c.lines ≡ length raw)
      × (length c.lines_without_raw_strings ≡ length raw)
unfolding cleansed_lines cleanse_raw_strings
cleansed_lines_total raw =
    let (without, e, n) = cleanse_raw_lines-HasLines none raw tt in
    let (elided, e', m) = elide_lines-HasLines without in
    (_, ground arith, refl, refl, m ∙ n, length-map without ∙ n, n)
