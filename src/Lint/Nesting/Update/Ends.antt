-- ===== src/Lint/Nesting/Update/Ends.antt =====
-- .linters/cpp/cpplint.py: the loops and the indices of NestingState.Update.
use nebula_chaos.Prelude.{
  ℕ, zero, suc, ◌+◌, ◌≤◌, ◌<◌, ◌≡◌, refl, inl, inr, Bool, true, false, Option, none, some, List,
  ◌∷◌, arith, length, get_elem?, get_elem?-some, Text, codes, find_text, Bool-cases, Option-cases,
  length-drop,
}
use nebula_chaos.Lint.Regex.{Position, match_re, group_of}
use nebula_chaos.Lint.Regex.Width.{width, match_re-width}
use nebula_chaos.Lint.Cleansed.{CleansedLines}
use nebula_chaos.Lint.Nesting.{Block, NestingState, update_preprocessor}
use nebula_chaos.Lint.Nesting.Templates.Ends.{in_template_argument_list_total}
use nebula_chaos.Lint.Nesting.Update.{
  namespace_decl, after_name, name_of, consume_namespaces, class_decl, is_outside, given,
  count_parentheses, consume_class, new_class, add_class, push_class, class_found, Updated, update,
}

after_name-length :
    (name : Text) (linenum : ℕ) (rest : Text) (brace : Option ℕ)
    → length (after_name name linenum rest brace).0 ≤ length rest
after_name-length name linenum rest none = omega arith
after_name-length name linenum rest (some brace) = omega (arith, length-drop (brace + 1) rest)

consume_namespaces_total :
    (fuel linenum : ℕ) (line : Text) (stack : List Block)
    → length line < fuel
    → (line' : Text) × (stack' : List Block) × (consume_namespaces fuel linenum line stack
        ≡ some (line', stack'))
unfolding consume_namespaces
consume_namespaces_total zero linenum line stack h = absurd (omega arith)
consume_namespaces_total (suc fuel) linenum line stack h =
    elim (Option-cases (match_re namespace_decl line)) [
      | inl e ↦ (line, stack, rw (e, consume_namespaces) refl)
      | inr (p, e) ↦
          let w : width namespace_decl ≡ 9 = refl in
          let shorter = match_re-width namespace_decl line p e in
          let next = after_name (name_of p) linenum p.rest (find_text (codes "{") p.rest) in
          let (line', stack', r) = consume_namespaces_total fuel linenum (next.0) (next.1 ∷ stack) (
            omega (
              arith,
              shorter,
              w,
              h,
              after_name-length (name_of p) linenum (p.rest) (find_text (codes "{") p.rest),
            )) in
          (line', stack', rw (e, consume_namespaces) r)
    ]

abbrev Goes : Option (Text × List Block) → Type 0
Goes o = (line' : Text) × (stack' : List Block) × (o ≡ some (line', stack'))

new_class-some :
    (name class_or_struct : Text) (lines : CleansedLines) (linenum : ℕ) (raw_line : Text)
    → get_elem? lines.raw_lines linenum ≡ some raw_line
    → (new : Block) × (new_class name class_or_struct lines linenum ≡ some new)
unfolding new_class
new_class-some name class_or_struct lines linenum raw_line e = rw e (_, refl)

add_class-Goes :
    (rest : Text) (stack : List Block) (o : Option Block) (new : Block)
    → o ≡ some new
    → Goes (add_class rest stack o)
add_class-Goes rest stack o new e = rw e (_, _, refl)

module _ (lines : CleansedLines) (linenum : ℕ) (raw_line : Text)
    (raw : get_elem? lines.raw_lines linenum ≡ some raw_line) where
  push_class-Goes :
      (line : Text) (stack : List Block) (p : Position) (o : Option Bool) (b : Bool)
      → o ≡ some b
      → Goes (push_class lines linenum line stack p o)
  push_class-Goes line stack p o true e = rw e (_, _, refl)
  push_class-Goes line stack p o false e =
      let (new, made) =
        new_class-some (given (group_of p 3)) (given (group_of p 2)) lines linenum raw_line raw in
      rw e (add_class-Goes p.rest stack _ new made)

  class_found-Goes :
      (line : Text) (stack : List Block) (o : Option Position)
      → Goes (class_found lines linenum line stack o)
  class_found-Goes line stack none = (line, stack, refl)
  class_found-Goes line stack (some p) = elim (Bool-cases (is_outside stack)) [
    | inr inside ↦ (line, stack, rw inside refl)
    | inl outside ↦
        let (b, t) =
          in_template_argument_list_total (lines.elided) linenum (length (given (group_of p 1))) in
        rw outside (push_class-Goes line stack p _ b t)
  ]

  consume_class_total :
      (line : Text) (stack : List Block) → Goes (consume_class lines linenum line stack)
  unfolding consume_class
  consume_class_total line stack = class_found-Goes line stack (match_re class_decl line)

  update-after :
      (old : NestingState) (first line' line'' : Text) (stack stack' : List Block)
      → get_elem? lines.elided linenum ≡ some first
      → consume_namespaces
          (suc (length first))
          linenum
          first
          (count_parentheses first (update_preprocessor first old).stack)
        ≡ some (line', stack)
      → consume_class lines linenum line' stack ≡ some (line'', stack')
      → (u : Updated) × (update lines linenum old ≡ some u)
  unfolding update
  update-after old first line' line'' stack stack' g e f = rw g (rw e (rw f (_, refl)))

-- Update ends on every line that the elided and the raw lines have: elided[linenum], raw_lines[linenum]
-- in _ClassInfo and CloseExpression raise no IndexError, and the loops end.
pub update_total :
    (lines : CleansedLines) (linenum : ℕ) (old : NestingState)
    → linenum < length lines.elided
    → linenum < length lines.raw_lines
    → (u : Updated) × (update lines linenum old ≡ some u)
update_total lines linenum old h h' =
    let (first, g) = get_elem?-some (lines.elided) linenum h in
    let (raw_line, raw) = get_elem?-some (lines.raw_lines) linenum h' in
    let (line', stack, e) =
      consume_namespaces_total (suc (length first)) linenum first
        (count_parentheses first (update_preprocessor first old).stack) (omega arith) in
    let (line'', stack', f) = consume_class_total lines linenum raw_line raw line' stack in
    update-after lines linenum raw_line raw old first line' line'' stack stack' g e f
