-- ===== src/Lint/Includes/Sections.antt =====
-- .linters/cpp/cpplint.py: when CheckNextIncludeOrder reports an error, in terms of the headers before.
use nebula_chaos.Prelude.{
  ℕ, ◌≡◌, refl, Bool, true, false, ◌&&◌, ◌||◌, not, List, [], ◌∷◌, if◌then◌else◌, arith, Text,
  is_nil, any,
}
use nebula_chaos.Lint.Includes.{
  HeaderType, c_sys_header, cpp_sys_header, likely_my_header, possible_my_header, other_header,
  IncludeState, reset_section, check_next_include_order,
}

-- The state behind the headers, the last of which stands first, since the reset by `directive`.
unfoldable pub state_after : Text → IncludeState → List HeaderType → IncludeState
state_after directive start [] = reset_section directive start
state_after directive start (header ∷ before) =
    (check_next_include_order header (state_after directive start before)).1

abbrev pub is_mine : HeaderType → Bool
is_mine likely_my_header = true
is_mine possible_my_header = true
is_mine _ = false

abbrev pub is_c : HeaderType → Bool
is_c c_sys_header = true
is_c _ = false

abbrev pub is_cpp : HeaderType → Bool
is_cpp cpp_sys_header = true
is_cpp _ = false

abbrev pub is_other : HeaderType → Bool
is_other other_header = true
is_other _ = false

-- Some header is one of the file's own that follows a system header.
abbrev pub mine_after_system : List HeaderType → Bool
mine_after_system [] = false
mine_after_system (header ∷ before) =
    (is_mine header && (any is_c before || any is_cpp before)) || mine_after_system before

-- Some header counts as one of the others.
abbrev pub has_other : List HeaderType → Bool
has_other before = any is_other before || mine_after_system before

-- The header is out of order behind those `before`.
abbrev pub is_late : HeaderType → List HeaderType → Bool
is_late c_sys_header before = any is_cpp before || has_other before
is_late cpp_sys_header before = has_other before
is_late _ before = false

abbrev expected_section : List HeaderType → ℕ
expected_section before =
    if has_other before
    then 4
    else if any is_cpp before
    then 3
    else if any is_c before
    then 2
    else if any is_mine before
    then 1
    else 0

module _ (directive : Text) (start : IncludeState) where
  section-state_after :
      (before : List HeaderType)
      → (state_after directive start before).section ≡ expected_section before
  unfolding state_after check_next_include_order reset_section
  section-state_after [] = refl
  section-state_after (c_sys_header ∷ before) = let ih = section-state_after before in ground arith
  section-state_after (cpp_sys_header ∷ before) =
      let ih = section-state_after before in ground arith
  section-state_after (likely_my_header ∷ before) =
      let ih = section-state_after before in ground arith
  section-state_after (possible_my_header ∷ before) =
      let ih = section-state_after before in ground arith
  section-state_after (other_header ∷ before) = let ih = section-state_after before in ground arith

  -- Since a reset, CheckNextIncludeOrder has no message for a header exactly if it is in order:
  -- a C system header is late behind a C++ system header or one of the others, a C++ system header
  -- behind one of the others, and a header of the file's own that follows a system header counts as
  -- one of the others; no other header is ever late.
  pub check_next_include_order-is_late :
      (header : HeaderType) (before : List HeaderType)
      → is_nil ((check_next_include_order header (state_after directive start before)).0)
        ≡ not (is_late header before)
  unfolding check_next_include_order
  check_next_include_order-is_late c_sys_header before =
      let e = section-state_after before in ground arith
  check_next_include_order-is_late cpp_sys_header before =
      let e = section-state_after before in ground arith
  check_next_include_order-is_late likely_my_header before = refl
  check_next_include_order-is_late possible_my_header before = refl
  check_next_include_order-is_late other_header before = refl
