-- ===== src/Tests/Comments.antt =====
-- .linters/cpp/cpplint.py: comments over several lines.
use nebula_chaos.Prelude.{
  ℕ, ◌≡◌, refl, Option, none, some, List, [], ◌∷◌, Text, codes, strip, find_text, ends_with,
}
use nebula_chaos.Lint.Comments.{
  begins_comment, ends_comment, find_line_from, find_next_multi_line_comment_start,
  find_next_multi_line_comment_end, dummy_comment, remove_multi_line_comments_from_range,
  remove_comments_from, remove_multi_line_comments,
}
use nebula_chaos.Lint.Comments.Blocks.{Stripped}
use nebula_chaos.Lint.Comments.Blocks.Loop.{remove_multi_line_comments-Stripped}

abbrev lines : List Text
lines = codes "int a;" ∷ codes "  /* one" ∷ codes "two */" ∷ codes "/* three */ b" ∷ []

remove_runs :
    remove_multi_line_comments lines
    ≡ some (codes "int a;" ∷ dummy_comment ∷ dummy_comment ∷ codes "/* three */ b" ∷ [], none)
unfolding remove_multi_line_comments remove_comments_from find_next_multi_line_comment_start
    find_next_multi_line_comment_end find_line_from begins_comment ends_comment
    remove_multi_line_comments_from_range strip find_text ends_with
remove_runs = refl

open_runs :
    remove_multi_line_comments (codes "a" ∷ codes "/* b" ∷ [])
    ≡ some (codes "a" ∷ codes "/* b" ∷ [], some 2)
unfolding remove_multi_line_comments remove_comments_from find_next_multi_line_comment_start
    find_next_multi_line_comment_end find_line_from begins_comment ends_comment
    remove_multi_line_comments_from_range strip find_text ends_with
open_runs = refl

remove_multi_line_comments-Stripped_example :
    (out : List Text) × (error : Option ℕ) × (remove_multi_line_comments lines ≡ some (out, error))
    × Stripped 0 lines out error
remove_multi_line_comments-Stripped_example = remove_multi_line_comments-Stripped lines
