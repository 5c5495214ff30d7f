-- ===== src/Lint/Nesting/Checks.antt =====
-- .linters/cpp/cpplint.py: the checks at the beginning and the end of a block, and behind the last line.
-- A line out of range is read as an empty one: Update has read elided[linenum] before.
use nebula_chaos.Prelude.{
  ℕ, zero, suc, ◌+◌, ◌-◌, Bool, true, false, ◌&&◌, ◌||◌, not, none, some, List, [], ◌∷◌, ◌++◌, ltb,
  ◌==◌, if◌then◌else◌, length, get_or, Text, codes, is_nil,
}
use nebula_chaos.Lint.Regex.{
  Pattern, Position, one, seq, alt, many, group, boundary, line_end, line_start, is_space, all_of,
  text, one_of, none_of, any_char, some_of, matches, occurs, match_re, search_re, group_of,
}
use nebula_chaos.Lint.Cleansed.{CleansedLines}
use nebula_chaos.Lint.State.{Failure}
use nebula_chaos.Lint.Nesting.{ClassInfo, Block, class_info, namespace_info}

abbrev spaces : Pattern
spaces = many (one is_space)

-- '(^|[^:]):($|[^:])'
abbrev bare_colon : Pattern
bare_colon = all_of (
    group 1 (alt line_start (none_of (codes ":")))
    ∷ text (codes ":")
    ∷ group 2 (alt line_end (none_of (codes ":")))
    ∷ [])

-- CheckBegin: only a class has one of its own.
unfoldable pub check_begin : CleansedLines → ℕ → Block → Block
unfolding occurs
check_begin lines linenum block = elim (block.kind) [
  | class_info c ↦
      if occurs bare_colon (get_or (lines.elided) linenum [])
      then record block { kind = class_info (record c { is_derived = true }) }
      else block
  | _ ↦ block
]

-- r'\b(DISALLOW_COPY_AND_ASSIGN|DISALLOW_IMPLICIT_CONSTRUCTORS)\(' + self.name + r'\)'; the names of
-- classes hold letters, digits, underscores and colons only.
abbrev disallow : Text → Pattern
disallow name = all_of (
    boundary
    ∷ group 1 (
        alt (text (codes "DISALLOW_COPY_AND_ASSIGN"))
          (text (codes "DISALLOW_IMPLICIT_CONSTRUCTORS")))
    ∷ text (codes "(")
    ∷ text name
    ∷ text (codes ")")
    ∷ [])

abbrev group_text : Position → ℕ → Text
group_text p n = elim (group_of p n) [ none ↦ [] | some t ↦ t ]

-- The loop of _ClassInfo.CheckEnd, on `count` lines up to line `start + count`.
unfoldable pub check_disallow : Text → List Text → ℕ → ℕ → Bool → List Failure
unfolding search_re matches
check_disallow name elided start zero seen = []
check_disallow name elided start (suc count) seen =
    let line = get_or elided (start + suc count) [] in
    let rest =
      check_disallow name elided start count (seen || not (matches (seq spaces line_end) line)) in
    elim (search_re (disallow name) line) [
      | some p ↦
          if seen
          then record {
            linenum = start + suc count;
            category = codes "readability/constructors";
            confidence = 3;
            message = group_text p 1 ++ codes " should be the last thing in the class";
          }
            ∷ []
          else []
      | none ↦ rest
    ]

abbrev parent_of : ClassInfo → Text
parent_of c = (if c.is_struct then codes "struct " else codes "class ") ++ c.name

-- ^( *)\}
abbrev closing_brace : Pattern
closing_brace = all_of (group 1 (many (one_of (codes " "))) ∷ text (codes "}") ∷ [])

-- The check of the closing brace in _ClassInfo.CheckEnd
unfoldable pub check_alignment : ClassInfo → List Text → ℕ → List Failure
unfolding match_re
check_alignment c elided linenum = elim (match_re closing_brace (get_or elided linenum [])) [
  | none ↦ []
  | some p ↦
      if length (group_text p 1) == c.class_indent
      then []
      else record {
        linenum = linenum;
        category = codes "whitespace/indent";
        confidence = 3;
        message = codes "Closing brace should be aligned with beginning of " ++ parent_of c;
      }
        ∷ []
]

-- ^\s*};*\s*(//|/\*).*\bnamespace
abbrev namespace_comment : Pattern
namespace_comment = all_of (
    spaces
    ∷ text (codes "}")
    ∷ many (one_of (codes ";"))
    ∷ spaces
    ∷ group 1 (alt (text (codes "//")) (text (codes "/*")))
    ∷ many any_char
    ∷ boundary
    ∷ text (codes "namespace")
    ∷ [])

-- [\*/\.\\\s]*$
abbrev comment_tail : Pattern
comment_tail = seq (many (alt (one_of (codes "*/.\\")) (one is_space))) line_end

-- ^\s*}.*\b(namespace anonymous|anonymous namespace)\b
abbrev anonymous_comment : Pattern
anonymous_comment = all_of (
    spaces
    ∷ text (codes "}")
    ∷ many any_char
    ∷ boundary
    ∷ group 1 (alt (text (codes "namespace anonymous")) (text (codes "anonymous namespace")))
    ∷ boundary
    ∷ [])

abbrev namespace_failure : ℕ → Text → List Failure
namespace_failure linenum text =
    record {
      linenum = linenum;
      category = codes "readability/namespace";
      confidence = 5;
      message = text;
    }
    ∷ []

-- _NamespaceInfo.CheckEnd
unfoldable pub check_namespace_end : Text → ℕ → List Text → ℕ → List Failure
unfolding matches
check_namespace_end name starting raw_lines linenum =
    let line = get_or raw_lines linenum [] in
    if ltb linenum (starting + 10) && not (matches (seq namespace_comment boundary) line)
    then []
    else if not (is_nil name)
    then (if matches
          (all_of (namespace_comment ∷ some_of (one is_space) ∷ text name ∷ comment_tail ∷ [])) line
        then []
        else namespace_failure linenum
            (codes "Namespace should be terminated with \"// namespace " ++ (name ++ codes "\"")))
    else if matches (seq namespace_comment comment_tail) line
    then []
    else if matches anonymous_comment line
    then namespace_failure linenum (
        codes
          "Anonymous namespace should be terminated with \"// namespace\" or \"// anonymous namespace\"")
    else namespace_failure linenum
        (codes "Anonymous namespace should be terminated with \"// namespace\"")

-- CheckEnd
unfoldable pub check_end : CleansedLines → ℕ → Block → List Failure
unfolding check_disallow check_alignment check_namespace_end
check_end lines linenum block = elim (block.kind) [
  | class_info c ↦
      check_disallow (c.name) (lines.elided) (block.starting_linenum)
        (linenum - 1 - block.starting_linenum) false
      ++ check_alignment c (lines.elided) linenum
  | namespace_info name ↦
      check_namespace_end name (block.starting_linenum) (lines.raw_lines) linenum
  | _ ↦ []
]

-- CheckCompletedBlocks, from the bottom of the stack, which stands last, to its top.
abbrev unfinished : Block → List Failure
unfinished block = elim (block.kind) [
  | class_info c ↦
      record {
        linenum = block.starting_linenum;
        category = codes "build/class";
        confidence = 5;
        message = codes "Failed to find complete declaration of class " ++ c.name;
      }
      ∷ []
  | namespace_info name ↦
      record {
        linenum = block.starting_linenum;
        category = codes "build/namespaces";
        confidence = 5;
        message = codes "Failed to find complete declaration of namespace " ++ name;
      }
      ∷ []
  | _ ↦ []
]

unfoldable pub check_completed_blocks : List Block → List Failure
check_completed_blocks [] = []
check_completed_blocks (top ∷ below) = check_completed_blocks below ++ unfinished top
