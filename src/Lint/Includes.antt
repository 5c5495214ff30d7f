-- ===== src/Lint/Includes.antt =====
-- .linters/cpp/cpplint.py: class _IncludeState, the order in which a file includes headers.
pub mod Sections
use nebula_chaos.Prelude.{
  ℕ, zero, suc, ◌+◌, ◌-◌, Bool, true, false, ◌&&◌, ◌||◌, not, Option, none, some, List, [], ◌∷◌,
  ◌++◌, ltb, leb, ◌==◌, if◌then◌else◌, get_or, Text, codes, text_eq, map, replace_text,
}
use nebula_chaos.Lint.Regex.{Pattern, one, many, boundary, is_space, all_of, text, matches}

pub data HeaderType : Type 0 where
  c_sys_header : HeaderType
  cpp_sys_header : HeaderType
  likely_my_header : HeaderType
  possible_my_header : HeaderType
  other_header : HeaderType

abbrev pub initial_section : ℕ
initial_section = 0

abbrev pub my_h_section : ℕ
my_h_section = 1

abbrev pub c_section : ℕ
c_section = 2

abbrev pub cpp_section : ℕ
cpp_section = 3

abbrev pub other_h_section : ℕ
other_h_section = 4

-- _TYPE_NAMES
abbrev pub type_name : HeaderType → Text
type_name c_sys_header = codes "C system header"
type_name cpp_sys_header = codes "C++ system header"
type_name likely_my_header = codes "header this file implements"
type_name possible_my_header = codes "header this file may implement"
type_name other_header = codes "other header"

-- _SECTION_NAMES, which has no section but these five.
abbrev pub section_name : ℕ → Text
section_name section =
    if section == initial_section
    then codes "... nothing. (This can't be an error.)"
    else if section == my_h_section
    then codes "a header this file implements"
    else if section == c_section
    then codes "C system header"
    else if section == cpp_section
    then codes "C++ system header"
    else codes "other header"

pub record IncludeState : Type 0 where
  pub include_list : List (List (Text × ℕ))
  pub section : ℕ
  pub last_header : Text

-- self.include_list[-1] = []
abbrev clear_last : List (List (Text × ℕ)) → List (List (Text × ℕ))
clear_last [] = []
clear_last (x ∷ []) = [] ∷ []
clear_last (x ∷ y ∷ rest) = x ∷ clear_last (y ∷ rest)

-- ResetSection
unfoldable pub reset_section : Text → IncludeState → IncludeState
reset_section directive state = record {
  include_list =
      (if text_eq directive (codes "if")
          || (text_eq directive (codes "ifdef") || text_eq directive (codes "ifndef"))
        then state.include_list ++ [] ∷ []
        else (if text_eq directive (codes "else") || text_eq directive (codes "elif")
            then clear_last (state.include_list)
            else state.include_list));
  section = initial_section;
  last_header = [];
}

unfoldable pub initial : IncludeState
unfolding reset_section
initial =
    reset_section []
      (record { include_list = [] ∷ []; section = initial_section; last_header = [] })

abbrev find_in : Text → List (Text × ℕ) → Option ℕ
find_in header [] = none
find_in header ((name, line) ∷ rest) =
    if text_eq name header then some line else find_in header rest

abbrev or_else : Option ℕ → Option ℕ → Option ℕ
or_else none later = later
or_else (some line) later = some line

-- FindHeader; `none` stands for -1.
unfoldable pub find_header : Text → List (List (Text × ℕ)) → Option ℕ
find_header header [] = none
find_header header (sections ∷ rest) = or_else (find_in header sections) (find_header header rest)

-- `lower`, on ASCII.
abbrev lower : ℕ → ℕ
lower c = if leb b'A' c && leb c b'Z' then c + 32 else c

-- CanonicalizeAlphabeticalOrder
unfoldable pub canonicalize_alphabetical_order : Text → Text
unfolding replace_text
canonicalize_alphabetical_order path =
    map lower
      (replace_text (codes "-") (codes "_") (replace_text (codes "-inl.h") (codes ".h") path))

-- a > b
abbrev pub text_gt : Text → Text → Bool
text_gt [] b = false
text_gt (x ∷ a) [] = true
text_gt (x ∷ a) (y ∷ b) = ltb y x || ((x == y) && text_gt a b)

-- ^\s*#\s*include\b
abbrev include_line : Pattern
include_line = all_of (
    many (one is_space)
    ∷ text (codes "#")
    ∷ many (one is_space)
    ∷ text (codes "include")
    ∷ boundary
    ∷ [])

-- clean_lines.elided[linenum - 1], where line -1 is the last one.
abbrev line_before : List Text → ℕ → Text
line_before elided zero = last_line elided
  where
    last_line : List Text → Text
    last_line [] = []
    last_line (x ∷ []) = x
    last_line (x ∷ y ∷ rest) = last_line (y ∷ rest)
line_before elided (suc linenum) = get_or elided linenum []

-- IsInAlphabeticalOrder
unfoldable pub is_in_alphabetical_order : List Text → ℕ → Text → IncludeState → Bool
unfolding matches
is_in_alphabetical_order elided linenum path state =
    not (text_gt (state.last_header) path && matches include_line (line_before elided linenum))

-- The state in the next section, whose last header is forgotten where the section changes.
abbrev enter : ℕ → IncludeState → IncludeState
enter next state = record {
  include_list = state.include_list;
  section = next;
  last_header = (if state.section == next then state.last_header else []);
}

abbrev error_message : HeaderType → IncludeState → Text
error_message header state =
    codes "Found " ++ (type_name header ++ (codes " after " ++ section_name (state.section)))

abbrev forget_last : IncludeState → IncludeState
forget_last state = record {
  include_list = state.include_list;
  section = state.section;
  last_header = [];
}

-- A system header, whose section must not lie behind.
abbrev enter_system : HeaderType → ℕ → IncludeState → Text × IncludeState
enter_system header next state =
    if leb (state.section) next
    then ([], enter next state)
    else (error_message header state, forget_last state)

abbrev enter_mine : IncludeState → Text × IncludeState
enter_mine state =
    ([], enter (if leb (state.section) my_h_section then my_h_section else other_h_section) state)

-- CheckNextIncludeOrder
unfoldable pub check_next_include_order : HeaderType → IncludeState → Text × IncludeState
check_next_include_order c_sys_header state = enter_system c_sys_header c_section state
check_next_include_order cpp_sys_header state = enter_system cpp_sys_header cpp_section state
check_next_include_order likely_my_header state = enter_mine state
check_next_include_order possible_my_header state = enter_mine state
check_next_include_order other_header state = ([], enter other_h_section state)
