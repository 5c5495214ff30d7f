-- ===== src/Tests/Inside.antt =====
-- .linters/cpp/cpplint.py: _GetTextInside on small inputs.
use nebula_chaos.Prelude.{◌≡◌, ◌↔◌, refl, some, [], ◌∷◌, ◌++◌, Text, codes}
use nebula_chaos.Lint.Regex.{text, search_re}
use nebula_chaos.Lint.Checks.Inside.{inside, no_text, inside_from, inside_turn, get_text_inside}
use nebula_chaos.Lint.Checks.Inside.Matched.{IsMatched}
use nebula_chaos.Lint.Checks.Inside.Found.{inside_from-matched}

get_text_inside_list :
    get_text_inside (codes "x = printf(a(), b[1]);") (text (codes "printf("))
    ≡ inside (codes "a(), b[1]")
unfolding get_text_inside inside_from inside_turn search_re
get_text_inside_list = refl

text_crossed : get_text_inside (codes "f(a[)]") (text (codes "f(")) ≡ no_text
unfolding get_text_inside inside_from inside_turn search_re
text_crossed = refl

inside_from-matched_example :
    (inside_from b')' [] (codes "a[0]) + 1") ≡ some (codes "a[0]"))
    ↔ ((rest : Text) × IsMatched (codes "a[0]") × (codes "a[0]) + 1" ≡ codes "a[0]" ++ b')' ∷ rest))
inside_from-matched_example = inside_from-matched b')' (codes "a[0]) + 1") (codes "a[0]") refl
