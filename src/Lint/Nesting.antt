-- ===== src/Lint/Nesting.antt =====
-- .linters/cpp/cpplint.py: class NestingState and the blocks on its stack.
pub mod Checks
pub mod Preprocessor
pub mod Braces
pub mod Templates
pub mod Update
use nebula_chaos.Prelude.{
  ℕ, Bool, true, false, Option, none, some, List, [], ◌∷◌, Text, codes, if◌then◌else◌,
}
use nebula_chaos.Lint.Regex.{
  Pattern, one, seq, alt, many, group, boundary, is_space, all_of, any_of, text, one_of, optional,
  some_of, matches,
}

pub data Asm : Type 0 where
  no_asm : Asm
  inside_asm : Asm
  end_asm : Asm
  block_asm : Asm

pub record ClassInfo : Type 0 where
  pub name : Text
  pub is_derived : Bool
  pub access : Text
  pub is_struct : Bool
  pub class_indent : ℕ
  pub last_line : ℕ

-- The class of a block: _BlockInfo itself, or one of the classes that extend it.
pub data Kind : Type 0 where
  block_info : Kind
  extern_c_info : Kind
  class_info : ClassInfo → Kind
  namespace_info : (name : Text) → Kind

-- open_parentheses, which may be negative, is `opened` less `closed`.
pub record Block : Type 0 where
  pub kind : Kind
  pub starting_linenum : ℕ
  pub seen_open_brace : Bool
  pub opened : ℕ
  pub closed : ℕ
  pub inline_asm : Asm

abbrev pub block : Kind → ℕ → Bool → Asm → Block
block k linenum seen asm = record {
  kind = k;
  starting_linenum = linenum;
  seen_open_brace = seen;
  opened = 0;
  closed = 0;
  inline_asm = asm;
}

-- The stacks, whose top stands first.
pub record PreprocessorInfo : Type 0 where
  pub stack_before_if : List Block
  pub stack_before_else : List Block
  pub seen_else : Bool

pub record NestingState : Type 0 where
  pub stack : List Block
  pub pp_stack : List PreprocessorInfo

-- SeenOpenBrace
abbrev pub is_seen : List Block → Bool
is_seen [] = true
is_seen (top ∷ below) = top.seen_open_brace

-- InNamespaceBody, InExternC, InClassDeclaration and InAsmBlock
unfoldable pub in_namespace_body : List Block → Bool
in_namespace_body [] = false
in_namespace_body (top ∷ below) = elim (top.kind) [ namespace_info n ↦ true | _ ↦ false ]

unfoldable pub in_extern_c : List Block → Bool
in_extern_c [] = false
in_extern_c (top ∷ below) = elim (top.kind) [ extern_c_info ↦ true | _ ↦ false ]

unfoldable pub in_class_declaration : List Block → Bool
in_class_declaration [] = false
in_class_declaration (top ∷ below) = elim (top.kind) [ class_info c ↦ true | _ ↦ false ]

unfoldable pub in_asm_block : List Block → Bool
in_asm_block [] = false
in_asm_block (top ∷ below) = elim (top.inline_asm) [ no_asm ↦ false | _ ↦ true ]

-- InnermostClass
unfoldable pub innermost_class : List Block → Option ClassInfo
innermost_class [] = none
innermost_class (top ∷ below) = elim (top.kind) [
  | class_info c ↦ some c
  | _ ↦ innermost_class below
]

-- _MATCH_ASM
abbrev pub match_asm : Pattern
match_asm = all_of (
    many (one is_space)
    ∷ any_of (text (codes "asm"))
        (text (codes "_asm") ∷ text (codes "__asm") ∷ text (codes "__asm__") ∷ [])
    ∷ optional (
        seq (some_of (one is_space))
          (group 1 (alt (text (codes "volatile")) (text (codes "__volatile__")))))
    ∷ many (one is_space)
    ∷ one_of (codes "{(")
    ∷ [])

-- A directive of the preprocessor with one of the names.
abbrev directive : Text → List Text → Pattern
directive name names = all_of (
    many (one is_space)
    ∷ text (codes "#")
    ∷ many (one is_space)
    ∷ any_of (text name) (texts names)
    ∷ boundary
    ∷ [])
  where
    texts : List Text → List Pattern
    texts [] = []
    texts (t ∷ ts) = text t ∷ texts ts

-- What UpdatePreprocessor sees in the line.
pub data Directive : Type 0 where
  starts_if : Directive
  starts_else : Directive
  ends_if : Directive
  no_directive : Directive

unfoldable pub directive_of : Text → Directive
unfolding matches
directive_of line =
    elim (matches (directive (codes "if") (codes "ifdef" ∷ codes "ifndef" ∷ [])) line) [
      | true ↦ starts_if
      | false ↦ elim (matches (directive (codes "else") (codes "elif" ∷ [])) line) [
        | true ↦ starts_else
        | false ↦ elim (matches (directive (codes "endif") []) line) [
          | true ↦ ends_if
          | false ↦ no_directive
        ]
      ]
    ]

abbrev pub on_else : PreprocessorInfo → List Block → PreprocessorInfo
on_else info stack = record {
  stack_before_if = info.stack_before_if;
  stack_before_else = (if info.seen_else then info.stack_before_else else stack);
  seen_else = true;
}

abbrev pub on_endif : PreprocessorInfo → List Block → List Block
on_endif info stack = if info.seen_else then info.stack_before_else else stack

unfoldable pub update_directive : Directive → NestingState → NestingState
update_directive starts_if state = record state {
  pp_stack =
      record { stack_before_if = state.stack; stack_before_else = []; seen_else = false }
      ∷ state.pp_stack;
}
update_directive starts_else state = elim (state.pp_stack) [
  | [] ↦ state
  | info ∷ below ↦ record {
    stack = info.stack_before_if;
    pp_stack = on_else info (state.stack) ∷ below;
  }
]
update_directive ends_if state = elim (state.pp_stack) [
  | [] ↦ state
  | info ∷ below ↦ record { stack = on_endif info (state.stack); pp_stack = below }
]
update_directive no_directive state = state

-- UpdatePreprocessor
unfoldable pub update_preprocessor : Text → NestingState → NestingState
update_preprocessor line state = update_directive (directive_of line) state
