-- ===== src/Tests/Brackets.antt =====
-- .linters/cpp/cpplint.py: brackets over two lines.
use nebula_chaos.Prelude.{
  ℕ, ◌+◌, ◌<◌, ◌≡◌, refl, ◌⊎◌, true, some, List, [], ◌∷◌, Text, codes, get_elem?, length,
}
use nebula_chaos.Lint.Regex.{occurs, matches}
use nebula_chaos.Lint.Brackets.{
  found, ends_with_operator, end_turn, scan_end, find_end_of_expression_in_line, close_lines,
  close_at, close_expression,
}
use nebula_chaos.Lint.Brackets.Lines.{closes}
use nebula_chaos.Lint.Brackets.Soundness.{close_expression-closes}
use nebula_chaos.Lint.Brackets.Balance.{nothing, plain, nested, close_expression-IsBalanced}
use nebula_chaos.Lint.Brackets.Reverse.{
  is_at_least, start_turn, scan_start, find_start_of_expression_in_line, reverse_lines,
  reverse_close_expression,
}
use nebula_chaos.Lint.Brackets.Reverse.Soundness.{reverse_close_expression-opens}

abbrev lines : List Text
lines = codes "f(a < b, g[i]," ∷ codes "  vector<int>()) + 1;" ∷ codes "x << (y)" ∷ []

program : Unit {0}
unfolding close_expression close_at close_lines find_end_of_expression_in_line scan_end end_turn
    ends_with_operator occurs matches reverse_close_expression reverse_lines
    find_start_of_expression_in_line scan_start start_turn is_at_least
program = tt

close_runs : close_expression lines 0 1 ≡ some (found (codes "  vector<int>()) + 1;") 1 16)
unfolding program
close_runs = refl

close_template_runs : close_expression lines 1 8 ≡ some (found (codes "  vector<int>()) + 1;") 1 13)
unfolding program
close_template_runs = refl

-- The second "<" of a shift is taken to open an expression that the bracket behind it closes.
close_shift_runs : close_expression lines 2 3 ≡ some (found (codes "x << (y)") 2 8)
unfolding program
close_shift_runs = refl

reverse_runs : reverse_close_expression lines 1 15 ≡ some (found (codes "f(a < b, g[i],") 0 1)
unfolding program
reverse_runs = refl

close_expression-closes_example :
    (get_elem? lines 1 ≡ some (codes "  vector<int>()) + 1;"))
    × ((0 < 1) ⊎ ◌≡◌ {A = ℕ} 1 0 × (1 + 1 < 16))
    × ((k : ℕ) × (d : ℕ) × (16 ≡ k + 1)
        × (get_elem? (codes "  vector<int>()) + 1;") k ≡ some d)
        × (closes b'(' d ≡ true))
close_expression-closes_example =
    close_expression-closes lines 0 1 b'(' (codes "f(a < b, g[i],") (codes "  vector<int>()) + 1;")
      1 16 refl refl refl close_runs

close_expression-IsBalanced_example :
    close_expression (codes "f(a[i])" ∷ []) 0 (length (codes "f"))
    ≡ some (found (codes "f(a[i])") 0 (1 + 4 + 2))
close_expression-IsBalanced_example =
    close_expression-IsBalanced (codes "f(a[i])" ∷ []) 0 (codes "f") b'(' (codes "a[i]") b')' []
      refl refl refl
      (plain b'a' (codes "[i]") refl refl refl refl (
        nested b'[' b']' (codes "i") [] refl refl (plain b'i' [] refl refl refl refl nothing)
          nothing))

reverse_close_expression-opens_example :
    (get_elem? lines 0 ≡ some (codes "f(a < b, g[i],"))
    × ((0 < 1) ⊎ ◌≡◌ {A = ℕ} 0 1 × (1 < 15))
    × ((d : ℕ) × (get_elem? (codes "f(a < b, g[i],") 1 ≡ some d) × (closes d b')' ≡ true))
reverse_close_expression-opens_example =
    reverse_close_expression-opens lines 1 15 b')' (codes "  vector<int>()) + 1;")
      (codes "f(a < b, g[i],") 0 1 refl refl refl reverse_runs
