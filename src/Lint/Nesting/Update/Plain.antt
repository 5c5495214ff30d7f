-- ===== src/Lint/Nesting/Update/Plain.antt =====
-- .linters/cpp/cpplint.py: NestingState.Update on a line without declarations.
use nebula_chaos.Prelude.{
  count_char, count_text, codes, Bool, not, ◌==◌, count_text-char, ◌+◌, get_elem?, ℕ, suc, ◌≡◌,
  refl, true, false, none, some, List, [], ◌∷◌, arith, length, Text, ap, ◌∙◌,
}
use nebula_chaos.Lint.Regex.{match_re, matches}
use nebula_chaos.Lint.Cleansed.{CleansedLines}
use nebula_chaos.Lint.Nesting.{
  Block, NestingState, no_directive, directive_of, update_directive, update_preprocessor, is_seen,
  in_class_declaration, Asm, no_asm, match_asm,
}
use nebula_chaos.Lint.Nesting.Braces.{IsNested, consume_braces-IsNested}
use nebula_chaos.Lint.Nesting.Update.{
  namespace_decl, consume_namespaces, class_decl, consume_class, count_parentheses, next_asm,
  run_check_begin, update_access, finish_line, updated, top_of, update,
}

count_parentheses-seen :
    (line : Text) (stack : List Block) → is_seen (count_parentheses line stack) ≡ is_seen stack
unfolding count_parentheses
count_parentheses-seen line [] = refl
count_parentheses-seen line (top ∷ below) = refl

count_parentheses-class :
    (line : Text) (stack : List Block)
    → in_class_declaration (count_parentheses line stack) ≡ in_class_declaration stack
unfolding count_parentheses in_class_declaration
count_parentheses-class line [] = refl
count_parentheses-class line (top ∷ below) = refl

run_check_begin-seen :
    (lines : CleansedLines) (n : ℕ) (stack : List Block)
    → is_seen stack ≡ true
    → run_check_begin lines n stack ≡ stack
unfolding run_check_begin
run_check_begin-seen lines n [] h = refl
run_check_begin-seen lines n (top ∷ below) h = rw h refl

update_access-plain :
    (n : ℕ) (line : Text) (stack : List Block)
    → in_class_declaration stack ≡ false
    → update_access n line stack ≡ (stack, [])
unfolding update_access in_class_declaration
update_access-plain n line [] h = refl
update_access-plain n line (top ∷ below) h = ground arith

finish_line-plain :
    (lines : CleansedLines) (n : ℕ) (line : Text) (stack : List Block)
    → IsNested line
    → is_seen stack ≡ true
    → in_class_declaration stack ≡ false
    → finish_line lines n line stack ≡ (stack, [])
unfolding finish_line
finish_line-plain lines n line stack p seen plain =
    rw (run_check_begin-seen lines n stack seen, update_access-plain n line stack plain)
      (rw (consume_braces-IsNested lines n stack p seen) refl)

consume_namespaces-none :
    (fuel n : ℕ) (line : Text) (stack : List Block)
    → match_re namespace_decl line ≡ none
    → consume_namespaces (suc fuel) n line stack ≡ some (line, stack)
unfolding consume_namespaces
consume_namespaces-none fuel n line stack e = rw (consume_namespaces, e) refl

consume_class-none :
    (lines : CleansedLines) (n : ℕ) (line : Text) (stack : List Block)
    → match_re class_decl line ≡ none
    → consume_class lines n line stack ≡ some (line, stack)
unfolding consume_class
consume_class-none lines n line stack e = rw e refl

preprocessor-none :
    (line : Text) (s : NestingState)
    → directive_of line ≡ no_directive
    → update_preprocessor line s ≡ s
unfolding update_preprocessor update_directive
preprocessor-none line s e = rw e refl

unfoldable pub asm_of : List Block → Asm
asm_of [] = no_asm
asm_of (top ∷ below) = top.inline_asm

-- The stack with the parentheses of the line counted in the innermost block.
unfoldable pub counted : Text → List Block → List Block
counted line [] = []
counted line (top ∷ below) =
    record top {
      opened = top.opened + count_char b'(' line;
      closed = top.closed + count_char b')' line;
    }
    ∷ below

-- A line that begins no assembly leaves the asm state of a block outside of it.
next_asm-outside :
    (asm : Asm) (opened closed : ℕ) (is_changed : Bool) (line : Text)
    → asm ≡ no_asm
    → matches match_asm line ≡ false
    → next_asm asm opened closed is_changed line ≡ asm
unfolding next_asm
next_asm-outside asm opened closed is_changed line a m = rw (a, m) (ground arith)

count_parentheses-counted :
    (line : Text) (stack : List Block)
    → asm_of stack ≡ no_asm
    → matches match_asm line ≡ false
    → count_parentheses line stack ≡ counted line stack
unfolding count_parentheses next_asm counted asm_of
count_parentheses-counted line [] a m = refl
count_parentheses-counted line (top ∷ below) a m =
    let o = count_text (codes "(") line in
    let c = count_text (codes ")") line in
    ap
      (λ asm.
        record top { opened = top.opened + o; closed = top.closed + c; inline_asm = asm } ∷ below)
      (next_asm-outside top.inline_asm (top.opened + o) (top.closed + c) (not (o == c)) line a m)
    ∙ rw (count_text-char b'(' line, count_text-char b')' line) refl

-- On a line without a directive, a namespace or a class, that begins no assembly and whose braces have
-- their partners, outside of classes and assembly and with no opening brace due, Update adds the
-- numbers of the characters "(" and ")" of the line to those of the innermost block, and changes
-- nothing else: not the other blocks, not the kind, the number of the line or the asm state of the
-- innermost block, and not the stack of conditionals; and it reports no error.
pub update-plain :
    (lines : CleansedLines) (n : ℕ) (old : NestingState) (line : Text)
    → get_elem? lines.elided n ≡ some line
    → directive_of line ≡ no_directive
    → match_re namespace_decl line ≡ none
    → match_re class_decl line ≡ none
    → matches match_asm line ≡ false
    → IsNested line
    → is_seen old.stack ≡ true
    → in_class_declaration old.stack ≡ false
    → asm_of old.stack ≡ no_asm
    → update lines n old
      ≡ some (record {
        state = record old { stack = counted line old.stack };
        previous_stack_top = top_of old.stack;
        failures = [];
      })
unfolding update
update-plain lines n old line l d ns c m p seen plain a =
    let stack = count_parentheses line old.stack in
    let seen' : is_seen stack ≡ true = count_parentheses-seen line old.stack ∙ seen in
    let plain' : in_class_declaration stack ≡ false =
      count_parentheses-class line old.stack ∙ plain in
    rw (l, preprocessor-none line old d)
      (rw (consume_namespaces-none (length line) n line stack ns) (
        rw (consume_class-none lines n line stack c) (
          ap (λ r. some (updated old old r)) (finish_line-plain lines n line stack p seen' plain')
          ∙ ap (λ st. some (updated old old (st, [])))
              (count_parentheses-counted line old.stack a m))))
