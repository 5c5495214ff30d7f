-- ===== src/Tests/Update.antt =====
-- .linters/cpp/cpplint.py: NestingState.Update on small inputs.
use nebula_chaos.Prelude.{
  arith, ◌≡◌, refl, true, false, Bool, Option, none, some, List, [], ◌∷◌, codes, Text, map,
}
use nebula_chaos.Lint.Regex.{match_re, matches}
use nebula_chaos.Lint.Cleansed.{CleansedLines}
use nebula_chaos.Lint.Nesting.{
  block, no_asm, no_directive, directive_of, match_asm, in_class_declaration, Block, block_info,
  extern_c_info, class_info, namespace_info, NestingState, update_directive,
}
use nebula_chaos.Lint.Nesting.Braces.{IsNested, other, nothing, brace_turn}
use nebula_chaos.Lint.Nesting.Templates.{in_template_argument_list, template_turn}
use nebula_chaos.Lint.Nesting.Templates.Ends.{in_template_argument_list_total}
use nebula_chaos.Lint.Nesting.Update.{namespace_decl, class_decl, Updated, update}
use nebula_chaos.Lint.Nesting.Update.Plain.{asm_of, counted, update-plain}
use nebula_chaos.Lint.Nesting.Update.Ends.{update_total}

abbrev one_line : Text → CleansedLines
one_line t = record {
  elided = t ∷ [];
  lines = t ∷ [];
  raw_lines = t ∷ [];
  num_lines = 1;
  lines_without_raw_strings = t ∷ [];
}

abbrev start : NestingState
start = record { stack = []; pp_stack = [] }

abbrev kind_name : Block → Text
kind_name b = elim (b.kind) [
  | block_info ↦ codes "block"
  | extern_c_info ↦ codes "extern"
  | class_info c ↦ c.name
  | namespace_info n ↦ n
]

abbrev kinds : Option Updated → List Text
kinds none = codes "none" ∷ []
kinds (some u) = map kind_name (u.state.stack)

class_behind_template :
    kinds (update (one_line (codes "template <class T> class B {")) 0 start) ≡ codes "B" ∷ []
unfolding update match_re update_directive directive_of template_turn brace_turn
class_behind_template = refl

-- Behind a namespace on the same line the position of the class name is taken in the whole line,
-- where it lies inside the template parameters, so the class is no class to the linter.
class_behind_namespace :
    kinds (update (one_line (codes "namespace x { template <class T> class B {")) 0 start)
    ≡ codes "block" ∷ codes "x" ∷ []
unfolding update match_re update_directive directive_of template_turn brace_turn
class_behind_namespace = refl

update_total_example :
    (u : Updated) × (update (one_line (codes "class A : public B<int> {")) 0 start ≡ some u)
update_total_example =
    update_total (one_line (codes "class A : public B<int> {")) 0 start (omega arith) (omega arith)

in_template_argument_list_total_example :
    (b : Bool) × (in_template_argument_list
        (codes "template <class A<B> = C," ∷ codes " class D>" ∷ [])
        1
        8
      ≡ some b)
in_template_argument_list_total_example =
    in_template_argument_list_total (codes "template <class A<B> = C," ∷ codes " class D>" ∷ []) 1 8

abbrev inside : NestingState
inside = record { stack = block block_info 3 true no_asm ∷ []; pp_stack = [] }

call-IsNested : IsNested (codes "f(a);")
call-IsNested =
    other _ _ refl refl (
      other _ _ refl refl (other _ _ refl refl (other _ _ refl refl (other _ _ refl refl nothing))))

call_directive : directive_of (codes "f(a);") ≡ no_directive
unfolding directive_of matches
call_directive = refl

call_namespace : match_re namespace_decl (codes "f(a);") ≡ none
unfolding match_re
call_namespace = refl

call_class : match_re class_decl (codes "f(a);") ≡ none
unfolding match_re
call_class = refl

call_outside : in_class_declaration (inside.stack) ≡ false
unfolding in_class_declaration
call_outside = refl

call_asm : matches match_asm (codes "f(a);") ≡ false
unfolding matches
call_asm = refl

call_outside_asm : asm_of (inside.stack) ≡ no_asm
unfolding asm_of
call_outside_asm = refl

update-plain_example :
    update (one_line (codes "f(a);")) 0 inside
    ≡ some (record {
      state = record inside { stack = counted (codes "f(a);") (inside.stack) };
      previous_stack_top = some (block block_info 3 true no_asm);
      failures = [];
    })
update-plain_example =
    update-plain (one_line (codes "f(a);")) 0 inside (codes "f(a);") refl call_directive
      call_namespace call_class call_asm call-IsNested refl call_outside call_outside_asm
