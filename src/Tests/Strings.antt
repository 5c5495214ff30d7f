-- ===== src/Tests/Strings.antt =====
-- .linters/cpp/cpplint.py: a line without its comments and the contents of its strings.
use nebula_chaos.Prelude.{
  ◌≡◌, refl, some, [], ◌∷◌, ◌++◌, Text, codes, rstrip, find_text, replace_text, count_text, length,
}
use nebula_chaos.Lint.Comments.{is_cpp_string}
use nebula_chaos.Lint.Regex.{matches, occurs, replace_all, match_re, group_of, search_split}
use nebula_chaos.Lint.Cleansed.{
  CleansedLines, cleansed_lines, cleanse_raw_strings, cleanse_raw_lines, cleanse_raw_line,
  resume_raw, cleanse_raw, raw_turn,
}
use nebula_chaos.Lint.Cleansed.Lines.{cleansed_lines_total}
use nebula_chaos.Lint.Strings.{
  cleanse_comments, collapse_strings, collapse, collapse_from, collapse_turn, split_quote,
  split_literal, put_before,
}
use nebula_chaos.Lint.Strings.Collapse.{collapse-string, collapse_strings_total}

collapse_runs : collapse_strings (codes "f(\"a'b\", 'c', 1'000)") ≡ some (codes "f(\"\", '', 1000)")
unfolding collapse_strings collapse collapse_from collapse_turn split_quote split_literal occurs
    matches replace_all find_text
collapse_runs = refl

cleanse_runs : cleanse_comments (codes "a /* b */ = \"//\"; // c") ≡ codes "a = \"//\"; // c"
unfolding cleanse_comments replace_all is_cpp_string rstrip find_text replace_text count_text
cleanse_runs = refl

collapse-string_example :
    collapse (codes "f(" ++ b'"' ∷ (codes "a'b" ++ b'"' ∷ codes ")"))
    ≡ put_before (codes "f(" ++ codes "\"\"") (collapse (codes ")"))
collapse-string_example = collapse-string (codes "f(") (codes "a'b") (codes ")") refl refl

collapse_strings_total_example : (t : Text) × (collapse_strings (codes "f('a')") ≡ some t)
collapse_strings_total_example = collapse_strings_total (codes "f('a')")

raw_runs :
    cleanse_raw_strings (codes "a = R\"x(\\d" ∷ codes "  e)y\"" ∷ codes " )x\"; // R\"(" ∷ [])
    ≡ some (codes "a = \"\"" ∷ codes "\"\"" ∷ codes " \"\"; // R\"(" ∷ [])
unfolding cleanse_raw_strings cleanse_raw_lines cleanse_raw_line resume_raw cleanse_raw raw_turn
    search_split matches match_re group_of find_text
raw_runs = refl

cleansed_lines_total_example :
    (c : CleansedLines) × (cleansed_lines (codes "a = R\"(b)\";" ∷ []) ≡ some c)
    × (c.raw_lines ≡ codes "a = R\"(b)\";" ∷ [])
    × (c.num_lines ≡ 1)
    × (length c.elided ≡ 1)
    × (length c.lines ≡ 1)
    × (length c.lines_without_raw_strings ≡ 1)
cleansed_lines_total_example = cleansed_lines_total (codes "a = R\"(b)\";" ∷ [])
