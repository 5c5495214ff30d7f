-- ===== src/Lint/Nesting/Preprocessor.antt =====
-- .linters/cpp/cpplint.py: what UpdatePreprocessor does over a whole conditional, from #if to #endif.
use nebula_chaos.Prelude.{◌≡◌, refl, false, List, [], ◌∷◌, Text, ap, ◌∙◌}
use nebula_chaos.Lint.Nesting.{
  Block, PreprocessorInfo, NestingState, starts_if, starts_else, ends_if, no_directive,
  directive_of, on_else, on_endif, update_directive, update_preprocessor,
}

-- A part of a file: lines between which every #if has its #endif, or the #else and #elif of one
-- conditional with the lines behind each.
pub data Part : Type 0 where
  region : Part
  alternatives : Part

-- The states around a part. Lines without a directive may do anything to the stack.
pub data Passes : Part → NestingState → NestingState → Type 0 where
  nothing : {s : NestingState} → Passes region s s
  changes :
      {s t : NestingState} (blocks : List Block)
      → Passes region (record s { stack = blocks }) t
      → Passes region s t
  plain :
      {s t : NestingState} (line : Text)
      → directive_of line ≡ no_directive
      → Passes region (update_preprocessor line s) t
      → Passes region s t
  conditional :
      {s t u v : NestingState} (begin end : Text)
      → directive_of begin ≡ starts_if
      → Passes region (update_preprocessor begin s) t
      → Passes alternatives t u
      → directive_of end ≡ ends_if
      → Passes region (update_preprocessor end u) v
      → Passes region s v
  no_other : {s : NestingState} → Passes alternatives s s
  other :
      {s t u : NestingState} (line : Text)
      → directive_of line ≡ starts_else
      → Passes region (update_preprocessor line s) t
      → Passes alternatives t u
      → Passes alternatives s u

-- Behind the alternatives the #endif finds what it would have found in front of them.
abbrev IsKept : Part → NestingState → NestingState → Type 0
IsKept region s t = t.pp_stack ≡ s.pp_stack
IsKept alternatives s t =
    (info : PreprocessorInfo) (below : List PreprocessorInfo)
    → s.pp_stack ≡ info ∷ below
    → (info' : PreprocessorInfo) × (t.pp_stack ≡ info' ∷ below)
      × (on_endif info' (t.stack) ≡ on_endif info (s.stack))

module _ (line : Text) (s : NestingState) where
  pp_stack-plain :
      directive_of line ≡ no_directive → (update_preprocessor line s).pp_stack ≡ s.pp_stack
  unfolding update_preprocessor update_directive
  pp_stack-plain e = rw (e, update_directive) refl

  pp_stack-if :
      directive_of line ≡ starts_if
      → (update_preprocessor line s).pp_stack
        ≡ record { stack_before_if = s.stack; stack_before_else = []; seen_else = false }
          ∷ s.pp_stack
  unfolding update_preprocessor update_directive
  pp_stack-if e = rw (e, update_directive) refl

  module _ (info : PreprocessorInfo) (below : List PreprocessorInfo)
      (h : s.pp_stack ≡ info ∷ below) where
    update-else :
        directive_of line ≡ starts_else
        → update_preprocessor line s
          ≡ record { stack = info.stack_before_if; pp_stack = on_else info (s.stack) ∷ below }
    unfolding update_preprocessor update_directive
    update-else e = rw (e, update_directive, h) refl

    update-endif :
        directive_of line ≡ ends_if
        → update_preprocessor line s ≡ record { stack = on_endif info (s.stack); pp_stack = below }
    unfolding update_preprocessor update_directive
    update-endif e = rw (e, update_directive, h) refl

on_endif-on_else :
    (info : PreprocessorInfo) (stack later : List Block)
    → on_endif (on_else info stack) later ≡ on_endif info stack
on_endif-on_else info stack later = refl

keeps : {part : Part} {s t : NestingState} → Passes part s t → IsKept part s t
unfolding update_preprocessor update_directive
keeps nothing = refl
keeps (changes blocks p) = keeps p
keeps (plain {s} line e p) = keeps p ∙ pp_stack-plain line s e
keeps (conditional {s} {t} {u} {v} begin end e p a e' q) =
    let (info', h, same) = keeps a _ _ (keeps p ∙ pp_stack-if begin s e) in
    keeps q ∙ ap (λ r. r.pp_stack) (update-endif end u info' (s.pp_stack) h e')
keeps no_other = λ info below h. (info, h, refl)
keeps (other {s} {t} {u} line e p a) = λ info below h.
    let step = update-else line s info below h e in
    let (info', h', same) = keeps a _ below (keeps p ∙ ap (λ r. r.pp_stack) step) in
    (info', h', same ∙ on_endif-on_else info (s.stack) (t.stack))

-- Behind the #endif of a conditional, whatever lines and conditionals it holds, the stack is the one
-- at the end of the lines behind the #if, as if the lines behind each #else and #elif were absent,
-- and the stack of conditionals is the one in front of the #if.
pub update_preprocessor-conditional :
    (s t u : NestingState) (begin end : Text)
    → directive_of begin ≡ starts_if
    → Passes region (update_preprocessor begin s) t
    → Passes alternatives t u
    → directive_of end ≡ ends_if
    → update_preprocessor end u ≡ record { stack = t.stack; pp_stack = s.pp_stack }
update_preprocessor-conditional s t u begin end e p a e' =
    let (info', h, same) = keeps a _ (s.pp_stack) (keeps p ∙ pp_stack-if begin s e) in
    update-endif end u info' (s.pp_stack) h e'
    ∙ ap (λ stack. record { stack = stack; pp_stack = s.pp_stack }) same

-- The lines behind an #else or #elif start from the stack in front of the #if, when lines with
-- complete conditionals lie between the two.
pub update_preprocessor-else :
    (s t : NestingState) (begin line : Text)
    → directive_of begin ≡ starts_if
    → Passes region (update_preprocessor begin s) t
    → directive_of line ≡ starts_else
    → (update_preprocessor line t).stack ≡ s.stack
update_preprocessor-else s t begin line e p e' =
    ap (λ r. r.stack) (update-else line t _ (s.pp_stack) (keeps p ∙ pp_stack-if begin s e) e')
