-- ===== src/Lint/Nesting/Update.antt =====
-- .linters/cpp/cpplint.py: NestingState.Update.
pub mod Ends
pub mod Plain
use nebula_chaos.Prelude.{
  ℕ, zero, suc, ◌+◌, Bool, true, false, ◌&&◌, ◌||◌, not, Option, none, some, List, [], ◌∷◌, ◌++◌,
  ◌==◌, if◌then◌else◌, length, drop, get_elem?, Text, codes, text_eq, find_text, count_text, leb,
}
use nebula_chaos.Lint.Regex.{
  Pattern, Position, one, seq, alt, many, group, boundary, line_end, is_space, is_word, all_of,
  any_of, text, one_of, none_of, any_char, optional, some_of, matches, match_re, group_of,
}
use nebula_chaos.Lint.Cleansed.{CleansedLines}
use nebula_chaos.Lint.State.{Failure}
use nebula_chaos.Lint.Nesting.{
  Block, Asm, block, class_info, namespace_info, ClassInfo, no_asm, inside_asm, end_asm, block_asm,
  NestingState, match_asm, update_preprocessor,
}
use nebula_chaos.Lint.Nesting.Checks.{check_begin}
use nebula_chaos.Lint.Nesting.Braces.{consume_braces}
use nebula_chaos.Lint.Nesting.Templates.{in_template_argument_list}

abbrev spaces : Pattern
spaces = many (one is_space)

abbrev pub given : Option Text → Text
given none = []
given (some t) = t

-- GetIndentLevel
unfoldable pub get_indent_level : Text → ℕ
unfolding match_re group_of
get_indent_level line =
    elim (match_re (seq (group 1 (many (one_of (codes " ")))) (one (λ c. not (is_space c)))) line) [
      | none ↦ 0
      | some p ↦ length (given (group_of p 1))
    ]

-- The asm state of a block with `opened` and `closed` parentheses behind a line.
unfoldable pub next_asm : Asm → ℕ → ℕ → Bool → Text → Asm
unfolding matches
next_asm asm opened closed is_changed line =
    let idle =
      if is_changed && ((opened == closed + 1) && matches match_asm line)
      then inside_asm
      else no_asm in
    elim asm [
      | no_asm ↦ idle
      | end_asm ↦ idle
      | inside_asm ↦ if opened == closed then end_asm else inside_asm
      | block_asm ↦ block_asm
    ]

unfoldable pub count_parentheses : Text → List Block → List Block
unfolding count_text next_asm
count_parentheses line [] = []
count_parentheses line (top ∷ below) =
    let o = count_text (codes "(") line in
    let c = count_text (codes ")") line in
    record top {
      opened = top.opened + o;
      closed = top.closed + c;
      inline_asm = next_asm (top.inline_asm) (top.opened + o) (top.closed + c) (not (o == c)) line;
    }
    ∷ below

-- ^\s*namespace\b\s*([:\w]+)?
abbrev pub namespace_decl : Pattern
namespace_decl = all_of (
    spaces
    ∷ text (codes "namespace")
    ∷ boundary
    ∷ spaces
    ∷ optional (group 1 (some_of (one (λ c. is_word c || (c == 58)))))
    ∷ [])

-- The line behind a name of a namespace, and its block.
abbrev pub after_name : Text → ℕ → Text → Option ℕ → Text × Block
after_name name linenum rest none = (rest, block (namespace_info name) linenum false no_asm)
after_name name linenum rest (some brace) =
    (drop (brace + 1) rest, block (namespace_info name) linenum true no_asm)

abbrev pub name_of : Position → Text
name_of p = given (group_of p 1)

-- The loop over the namespaces at the beginning of the line; `none` means that the fuel ran out.
unfoldable pub consume_namespaces : ℕ → ℕ → Text → List Block → Option (Text × List Block)
unfolding match_re group_of find_text
consume_namespaces zero linenum line stack = none
consume_namespaces (suc fuel) linenum line stack = elim (match_re namespace_decl line) [
  | none ↦ some (line, stack)
  | some p ↦
      let (line', new_namespace) =
        after_name (name_of p) linenum p.rest (find_text (codes "{") p.rest) in
      consume_namespaces fuel linenum line' (new_namespace ∷ stack)
]

-- The loop of _ClassInfo.__init__ from line `i` on, with the braces so far.
unfoldable pub find_last_line : List Text → ℕ → ℕ → ℕ → ℕ
unfolding count_text
find_last_line [] i o c = 0
find_last_line (line ∷ lines) i o c =
    let o' = o + count_text (codes "{") line in
    let c' = c + count_text (codes "}") line in
    let later = find_last_line lines (suc i) o' c' in if o' == c' then i else later

-- _ClassInfo.__init__ on raw_lines[linenum], where `none` is an IndexError
abbrev pub class_of : Text → Text → CleansedLines → ℕ → Option Text → Option Block
class_of name class_or_struct lines linenum none = none
class_of name class_or_struct lines linenum (some raw_line) =
    let is_struct' = text_eq class_or_struct (codes "struct") in
    some (
      block
        (class_info (record {
          name = name;
          is_derived = false;
          access = (if is_struct' then codes "public" else codes "private");
          is_struct = is_struct';
          class_indent = get_indent_level raw_line;
          last_line = find_last_line (drop linenum (lines.elided)) linenum 0 0;
        }))
        linenum false no_asm)

unfoldable pub new_class : Text → Text → CleansedLines → ℕ → Option Block
unfolding get_indent_level find_last_line
new_class name class_or_struct lines linenum =
    class_of name class_or_struct lines linenum (get_elem? (lines.raw_lines) linenum)

-- ^(\s*(?:template\s*<[\w\s<>,:=]*>\s*)?(class|struct)\s+(?:[A-Z_]+\s+)*(\w+(?:::\w+)*))
abbrev pub class_decl : Pattern
class_decl = group 1 (
    all_of (
      spaces
      ∷ optional (
          all_of (
            text (codes "template")
            ∷ spaces
            ∷ text (codes "<")
            ∷ many (alt (one is_word) (alt (one is_space) (one_of (codes "<>,:="))))
            ∷ text (codes ">")
            ∷ spaces
            ∷ []))
      ∷ group 2 (alt (text (codes "class")) (text (codes "struct")))
      ∷ some_of (one is_space)
      ∷ many
          (seq (some_of (one (λ c. (leb 65 c && leb c 90) || (c == 95)))) (some_of (one is_space)))
      ∷ group 3
          (seq (some_of (one is_word)) (many (seq (text (codes "::")) (some_of (one is_word)))))
      ∷ []))

-- No parenthesis is open in the innermost block.
abbrev pub is_outside : List Block → Bool
is_outside [] = true
is_outside (top ∷ below) = top.opened == top.closed

abbrev pub add_class : Text → List Block → Option Block → Option (Text × List Block)
add_class rest stack none = none
add_class rest stack (some new) = some (rest, new ∷ stack)

abbrev pub push_class :
    CleansedLines → ℕ → Text → List Block → Position → Option Bool → Option (Text × List Block)
push_class lines linenum line stack p none = none
push_class lines linenum line stack p (some true) = some (line, stack)
push_class lines linenum line stack p (some false) =
    add_class p.rest stack (new_class (given (group_of p 3)) (given (group_of p 2)) lines linenum)

abbrev pub class_found :
    CleansedLines → ℕ → Text → List Block → Option Position → Option (Text × List Block)
class_found lines linenum line stack none = some (line, stack)
class_found lines linenum line stack (some p) =
    if is_outside stack
    then push_class lines linenum line stack p
        (in_template_argument_list (lines.elided) linenum (length (given (group_of p 1))))
    else some (line, stack)

-- The class declaration in what is left of the line.
unfoldable pub consume_class : CleansedLines → ℕ → Text → List Block → Option (Text × List Block)
unfolding match_re group_of in_template_argument_list new_class
consume_class lines linenum line stack =
    class_found lines linenum line stack (match_re class_decl line)

unfoldable pub run_check_begin : CleansedLines → ℕ → List Block → List Block
unfolding check_begin
run_check_begin lines linenum [] = []
run_check_begin lines linenum (top ∷ below) =
    (if top.seen_open_brace then top else check_begin lines linenum top) ∷ below

-- ^(.*)\b(public|private|protected|signals)(\s+(?:slots\s*)?)?:(?:[^:]|$)
abbrev access_specifier : Pattern
access_specifier = all_of (
    group 1 (many any_char)
    ∷ boundary
    ∷ group 2 (
        any_of (text (codes "public"))
          (text (codes "private") ∷ text (codes "protected") ∷ text (codes "signals") ∷ []))
    ∷ optional
        (group 3 (seq (some_of (one is_space)) (optional (seq (text (codes "slots")) spaces))))
    ∷ text (codes ":")
    ∷ alt (none_of (codes ":")) line_end
    ∷ [])

abbrev parent_of : ClassInfo → Text
parent_of c = (if c.is_struct then codes "struct " else codes "class ") ++ c.name

abbrev check_specifier : ℕ → ClassInfo → Position → List Failure
check_specifier linenum c p =
    let indent = given (group_of p 1) in
    if not (length indent == c.class_indent + 1) && matches (seq spaces line_end) indent
    then record {
      linenum = linenum;
      category = codes "whitespace/indent";
      confidence = 3;
      message =
          given (group_of p 2)
          ++ (given (group_of p 3)
              ++ (codes ": should be indented +1 space inside " ++ parent_of c));
    }
      ∷ []
    else []

abbrev specifier_found :
    ℕ → Block → List Block → ClassInfo → Option Position → List Block × List Failure
specifier_found linenum top below c none = (top ∷ below, [])
specifier_found linenum top below c (some p) = (
  record top { kind = class_info (record c { access = given (group_of p 2) }) } ∷ below,
  check_specifier linenum c p,
)

-- The access specifiers of the innermost block, if that is a class.
unfoldable pub update_access : ℕ → Text → List Block → List Block × List Failure
unfolding match_re group_of matches
update_access linenum line [] = ([], [])
update_access linenum line (top ∷ below) = elim (top.kind) [
  | class_info c ↦ specifier_found linenum top below c (match_re access_specifier line)
  | _ ↦ (top ∷ below, [])
]

-- The last two parts of Update, behind the declarations.
unfoldable pub finish_line : CleansedLines → ℕ → Text → List Block → List Block × List Failure
unfolding run_check_begin update_access consume_braces
finish_line lines linenum line stack =
    let (inside, here) = update_access linenum line (run_check_begin lines linenum stack) in
    let (end, later) = consume_braces lines linenum line line inside in (end, here ++ later)

-- What Update leaves: the state, the top of the stack in front of the line, and the errors.
pub record Updated : Type 0 where
  pub state : NestingState
  pub previous_stack_top : Option Block
  pub failures : List Failure

abbrev pub top_of : List Block → Option Block
top_of [] = none
top_of (top ∷ below) = some top

abbrev pub updated : NestingState → NestingState → List Block × List Failure → Updated
updated old new (stack, failures) = record {
  state = record new { stack = stack };
  previous_stack_top = top_of (old.stack);
  failures = failures;
}

-- The rest of Update behind the loop over namespaces, and behind the class declaration.
abbrev pub behind_class :
    CleansedLines → ℕ → NestingState → NestingState → Option (Text × List Block) → Option Updated
behind_class lines linenum old new none = none
behind_class lines linenum old new (some (line, stack)) =
    some (updated old new (finish_line lines linenum line stack))

abbrev pub behind_namespaces :
    CleansedLines → ℕ → NestingState → NestingState → Option (Text × List Block) → Option Updated
behind_namespaces lines linenum old new none = none
behind_namespaces lines linenum old new (some (line, stack)) =
    behind_class lines linenum old new (consume_class lines linenum line stack)

abbrev pub update_line : CleansedLines → ℕ → NestingState → Option Text → Option Updated
update_line lines linenum old none = none
update_line lines linenum old (some line) =
    let new = update_preprocessor line old in
    behind_namespaces lines linenum old new
      (consume_namespaces (suc (length line)) linenum line (count_parentheses line (new.stack)))

-- Update; `none` is an IndexError of elided[linenum], of raw_lines[linenum] in _ClassInfo or of
-- CloseExpression, or that the fuel ran out.
unfoldable pub update : CleansedLines → ℕ → NestingState → Option Updated
unfolding update_preprocessor count_parentheses consume_namespaces consume_class finish_line
update lines linenum old = update_line lines linenum old (get_elem? (lines.elided) linenum)
