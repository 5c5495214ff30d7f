-- ===== src/Tests/Nesting.antt =====
-- .linters/cpp/cpplint.py: conditionals and braces on small inputs.
use nebula_chaos.Prelude.{ℕ, ◌≡◌, refl, true, List, [], ◌∷◌, codes}
use nebula_chaos.Lint.Regex.{matches}
use nebula_chaos.Lint.Nesting.{
  Block, block, block_info, no_asm, NestingState, directive_of, update_preprocessor, starts_if,
  starts_else, ends_if, no_directive,
}
use nebula_chaos.Lint.Cleansed.{CleansedLines}
use nebula_chaos.Lint.Nesting.Checks.{check_end, check_namespace_end}
use nebula_chaos.Lint.Nesting.Preprocessor.{
  nothing, changes, no_other, other, update_preprocessor-conditional, update_preprocessor-else,
}
use nebula_chaos.Lint.Nesting.Braces.{
  IsNested, braces, consume_braces, consume_braces-IsNested, brace_turn, opened_block,
}

abbrev at_line : ℕ → Block
at_line n = block block_info n true no_asm

abbrev before : NestingState
before = record { stack = at_line 1 ∷ []; pp_stack = [] }

abbrev taken : List Block
taken = at_line 3 ∷ at_line 1 ∷ []

abbrev first_end : NestingState
first_end = record (update_preprocessor (codes "#ifdef A") before) { stack = taken }

abbrev other_end : NestingState
other_end = record (update_preprocessor (codes "# else") first_end) { stack = [] }

if_line : directive_of (codes "#ifdef A") ≡ starts_if
unfolding directive_of matches
if_line = refl

else_line : directive_of (codes "# else") ≡ starts_else
unfolding directive_of matches
else_line = refl

end_line : directive_of (codes "  #endif") ≡ ends_if
unfolding directive_of matches
end_line = refl

plain_line : directive_of (codes "#define if") ≡ no_directive
unfolding directive_of matches
plain_line = refl

update_preprocessor-conditional_example :
    update_preprocessor (codes "  #endif") other_end ≡ record { stack = taken; pp_stack = [] }
update_preprocessor-conditional_example =
    update_preprocessor-conditional before first_end other_end (codes "#ifdef A") (codes "  #endif")
      if_line (changes taken nothing)
      (other (codes "# else") else_line (changes [] nothing) no_other) end_line

update_preprocessor-else_example :
    (update_preprocessor (codes "# else") first_end).stack ≡ at_line 1 ∷ []
update_preprocessor-else_example =
    update_preprocessor-else before first_end (codes "#ifdef A") (codes "# else") if_line
      (changes taken nothing) else_line

abbrev no_lines : CleansedLines
no_lines = record {
  elided = [];
  lines = [];
  raw_lines = [];
  num_lines = 0;
  lines_without_raw_strings = [];
}

consume_runs : consume_braces no_lines 4 (codes "{ a; }") (codes "{ a; }") taken ≡ (taken, [])
unfolding consume_braces brace_turn opened_block matches check_end
consume_runs = refl

consume_braces-IsNested_example :
    consume_braces no_lines 4 (codes "{{}}") (codes "{{}}") taken ≡ (taken, [])
consume_braces-IsNested_example =
    consume_braces-IsNested no_lines 4 taken
      (braces (codes "{}") [] (braces [] [] IsNested.nothing IsNested.nothing) IsNested.nothing)
      refl

namespace_runs : check_namespace_end (codes "a") 0 (codes "}  // namespace a" ∷ []) 0 ≡ []
unfolding check_namespace_end matches
namespace_runs = refl
