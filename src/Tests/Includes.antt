-- ===== src/Tests/Includes.antt =====
-- .linters/cpp/cpplint.py: the order of a few includes.
use nebula_chaos.Prelude.{◌≡◌, refl, not, List, [], ◌∷◌, codes, is_nil, replace_text}
use nebula_chaos.Lint.Includes.{
  HeaderType, cpp_sys_header, likely_my_header, initial, reset_section,
  canonicalize_alphabetical_order, check_next_include_order,
}
use nebula_chaos.Lint.Includes.Sections.{is_late, state_after, check_next_include_order-is_late}

abbrev before : List HeaderType
before = likely_my_header ∷ cpp_sys_header ∷ []

check_runs :
    (check_next_include_order cpp_sys_header (state_after [] initial before)).0
    ≡ codes "Found C++ system header after other header"
unfolding check_next_include_order state_after reset_section initial
check_runs = refl

canonical_runs : canonicalize_alphabetical_order (codes "A-b-inl.h") ≡ codes "a_b.h"
unfolding canonicalize_alphabetical_order replace_text
canonical_runs = refl

check_next_include_order-is_late_example :
    is_nil ((check_next_include_order cpp_sys_header (state_after [] initial before)).0)
    ≡ not (is_late cpp_sys_header before)
check_next_include_order-is_late_example =
    check_next_include_order-is_late [] initial cpp_sys_header before
