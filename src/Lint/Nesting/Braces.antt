-- ===== src/Lint/Nesting/Braces.antt =====
-- .linters/cpp/cpplint.py: the loop of NestingState.Update over the braces and semicolons of a line.
use nebula_chaos.Prelude.{
  ℕ, ◌≡◌, refl, true, false, ◌||◌, List, [], ◌∷◌, ◌++◌, ◌==◌, if◌then◌else◌, Text, codes,
  append_assoc, append-nil, Bool-cases, inl, inr, ap, ◌∙◌, arith, sym,
}
use nebula_chaos.Lint.Regex.{Pattern, one, many, is_space, all_of, text, none_of, matches}
use nebula_chaos.Lint.Cleansed.{CleansedLines}
use nebula_chaos.Lint.State.{Failure}
use nebula_chaos.Lint.Nesting.{
  Block, block, block_info, extern_c_info, no_asm, block_asm, is_seen, match_asm,
}
use nebula_chaos.Lint.Nesting.Checks.{check_end}

-- ^extern\s*"[^"]*"\s*\{
abbrev extern_c : Pattern
extern_c = all_of (
    text (codes "extern")
    ∷ many (one is_space)
    ∷ text (codes "\"")
    ∷ many (none_of (codes "\""))
    ∷ text (codes "\"")
    ∷ many (one is_space)
    ∷ text (codes "{")
    ∷ [])

-- The block that an opening brace starts in the text `line` behind the brace before it.
unfoldable pub opened_block : ℕ → Text → Block
unfolding matches
opened_block linenum line =
    if matches extern_c line
    then block extern_c_info linenum true no_asm
    else block block_info linenum true (if matches match_asm line then block_asm else no_asm)

abbrev mark_seen : List Block → List Block
mark_seen [] = []
mark_seen (top ∷ below) = record top { seen_open_brace = true } ∷ below

abbrev pop : List Block → List Block
pop [] = []
pop (top ∷ below) = below

abbrev checks : CleansedLines → ℕ → List Block → List Failure
checks lines linenum [] = []
checks lines linenum (top ∷ below) = check_end lines linenum top

-- One character: the text that the next token is matched against, the stack, and the errors.
unfoldable pub brace_turn :
    CleansedLines → ℕ → Text → ℕ → Text → List Block → Text × List Block × List Failure
unfolding opened_block
brace_turn lines linenum line c rest stack =
    if c == b'{'
    then (rest, (if is_seen stack then opened_block linenum line ∷ stack else mark_seen stack), [])
    else if (c == b';') || (c == b')')
    then (rest, (if is_seen stack then stack else pop stack), [])
    else if c == b'}'
    then (rest, pop stack, checks lines linenum stack)
    else (line, stack, [])

-- The regular expression finds the first brace, semicolon or closed parenthesis of `line`, and goes
-- on behind it; a line has no line feed, so `(.*)$` takes the rest.
unfoldable pub consume_braces :
    CleansedLines → ℕ → Text → Text → List Block → List Block × List Failure
consume_braces lines linenum line [] stack = (stack, [])
consume_braces lines linenum line (c ∷ rest) stack =
    let (line', stack', here) = brace_turn lines linenum line c rest stack in
    let (end, later) = consume_braces lines linenum line' rest stack' in (end, here ++ later)

-- Every brace of the text has its partner.
pub data IsNested : Text → Type 0 where
  nothing : IsNested []
  other :
      (c : ℕ) (t : Text) → (c == b'{') ≡ false → (c == b'}') ≡ false → IsNested t → IsNested (c ∷ t)
  braces : (inner t : Text) → IsNested inner → IsNested t → IsNested (b'{' ∷ inner ++ b'}' ∷ t)

module _ (lines : CleansedLines) (linenum : ℕ) where
  consume_braces-step :
      (line : Text) (c : ℕ) (rest line' : Text) (stack stack' : List Block)
      → brace_turn lines linenum line c rest stack ≡ (line', stack', [])
      → consume_braces lines linenum line (c ∷ rest) stack
        ≡ consume_braces lines linenum line' rest stack'
  unfolding consume_braces
  consume_braces-step line c rest line' stack stack' e = rw (e, consume_braces) refl

  seen-opened_block : (line : Text) → (opened_block linenum line).seen_open_brace ≡ true
  unfolding opened_block
  seen-opened_block line = ground arith

  check_end-opened_block :
      (line : Text) (n : ℕ) → check_end lines n (opened_block linenum line) ≡ []
  unfolding opened_block check_end
  check_end-opened_block line n = elim (Bool-cases (matches extern_c line)) [
    | inl ext ↦ rw ext refl
    | inr plain ↦ rw plain refl
  ]

  -- From inside the text: what is read of the stack and of the errors.
  Skips : Text → Text → List Block → Text → Type 0
  unfolding consume_braces
  Skips line t stack rest =
      (line' : Text) × (consume_braces lines linenum line (t ++ rest) stack
        ≡ consume_braces lines linenum line' rest stack)

  turn-other :
      (line : Text) (c : ℕ) (rest : Text) (stack : List Block)
      → (c == b'{') ≡ false
      → (c == b'}') ≡ false
      → is_seen stack ≡ true
      → (line' : Text) × (brace_turn lines linenum line c rest stack ≡ (line', stack, []))
  unfolding brace_turn
  turn-other line c rest stack e h seen = elim (Bool-cases ((c == b';') || (c == b')'))) [
    | inl ends ↦ (rest, rw (e, ends, seen) refl)
    | inr on ↦ (line, rw (e, on, h) refl)
  ]

  turn-open :
      (line rest : Text) (stack : List Block)
      → is_seen stack ≡ true
      → brace_turn lines linenum line b'{' rest stack
        ≡ (rest, opened_block linenum line ∷ stack, [])
  unfolding brace_turn
  turn-open line rest stack seen = rw seen refl

  turn-close :
      (line line' rest : Text) (stack : List Block)
      → brace_turn lines linenum line b'}' rest (opened_block linenum line' ∷ stack)
        ≡ (rest, stack, [])
  unfolding brace_turn
  turn-close line line' rest stack =
      ap (λ r. (rest, stack, r)) (check_end-opened_block line' linenum)

  skips :
      {t : Text}
      → IsNested t
      → (line : Text) (stack : List Block) (rest : Text) → is_seen stack ≡ true
      → Skips line t stack rest
  unfolding Skips
  skips nothing line stack rest seen = (line, refl)
  skips (other c t e h p) line stack rest seen =
      let (next, turn) = turn-other line c (t ++ rest) stack e h seen in
      let (line', same) = skips p next stack rest seen in
      (line', consume_braces-step line c (t ++ rest) next stack stack turn ∙ same)
  skips (braces inner t p q) line stack rest seen =
      let behind = t ++ rest in
      let here = inner ++ b'}' ∷ behind in
      let (mid, first) =
        skips p here (opened_block linenum line ∷ stack) (b'}' ∷ behind) (seen-opened_block line) in
      let (line', second) = skips q behind stack rest seen in
      (
        line',
        ap (λ u. consume_braces lines linenum line (b'{' ∷ u) stack)
              (append_assoc inner (b'}' ∷ t) rest)
            ∙ consume_braces-step line b'{' here here stack (opened_block linenum line ∷ stack)
                (turn-open line here stack seen)
            ∙ first
            ∙ consume_braces-step mid b'}' behind behind (opened_block linenum line ∷ stack) stack
                (turn-close mid line behind stack)
            ∙ second,
      )

  -- A line whose braces all have their partners leaves the stack as it is and reports no error, when
  -- the innermost block has seen its opening brace.
  pub consume_braces-IsNested :
      {t : Text} (stack : List Block)
      → IsNested t
      → is_seen stack ≡ true
      → consume_braces lines linenum t t stack ≡ (stack, [])
  unfolding Skips consume_braces
  consume_braces-IsNested {t} stack p seen =
      let (line', same) = skips p t stack [] seen in
      ap (λ u. consume_braces lines linenum t u stack) (sym (append-nil t)) ∙ same
