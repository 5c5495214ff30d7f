-- ===== src/Lint/Checks/Whole.antt =====
-- .linters/cpp/cpplint.py: the checks of all lines of a file, whose first and last are markers.
pub mod Newline
use nebula_chaos.Prelude.{
  ℕ, suc, ◌-◌, ◌&&◌, ◌||◌, ◌==◌, not, List, [], ◌∷◌, ◌++◌, ltb, if◌then◌else◌, is_nil, length, take,
  drop, get_or, any, Text, codes, has_char, reverse, ends_with, split_text,
}
use nebula_chaos.Lint.Regex.{Pattern, all_of, one_of, occurs}
use nebula_chaos.Lint.State.{Failure}
use nebula_chaos.Lint.Checks.{report, report_if}

-- 'Copyright' in letters of either case
abbrev copyright : Pattern
copyright = all_of (
    one_of (codes "Cc")
    ∷ one_of (codes "Oo")
    ∷ one_of (codes "Pp")
    ∷ one_of (codes "Yy")
    ∷ one_of (codes "Rr")
    ∷ one_of (codes "Ii")
    ∷ one_of (codes "Gg")
    ∷ one_of (codes "Hh")
    ∷ one_of (codes "Tt")
    ∷ [])

-- CheckForCopyright: lines 1 to 10
unfoldable pub check_for_copyright : List Text → List Failure
unfolding occurs
check_for_copyright lines = report_if (not (any (occurs copyright) (take 10 (drop 1 lines)))) (
    report 0 "legal/copyright" 5 (
      codes
        "No copyright message found.  You should have a line: \"Copyright [year] <Copyright Owner>\""))

-- The loop of CheckForBadCharacters, from line `linenum` on.
unfoldable pub check_characters : List Text → ℕ → List Failure
check_characters [] linenum = []
check_characters (line ∷ lines) linenum =
    report_if (has_char 65533 line) (
      report linenum "readability/utf8" 5
        (codes "Line contains invalid UTF-8 (or Unicode replacement character)."))
    ++ (report_if (has_char 0 line)
          (report linenum "readability/nul" 5 (codes "Line contains NUL byte."))
        ++ check_characters lines (suc linenum))

-- CheckForBadCharacters
unfoldable pub check_for_bad_characters : List Text → List Failure
unfolding check_characters
check_for_bad_characters lines = check_characters lines 0

-- CheckForNewlineAtEOF: with the markers there are two lines at least.
unfoldable pub check_for_newline_at_eof : List Text → List Failure
check_for_newline_at_eof lines =
    report_if (ltb (length lines) 3 || not (is_nil (get_or lines (length lines - 2) []))) (
      report (length lines - 2) "whitespace/ending_newline" 5
        (codes "Could not find a newline character at the end of the file."))

abbrev pub first_marker : Text
first_marker = codes "// marker so line numbers and indices both start at 1"

abbrev pub last_marker : Text
last_marker = codes "// marker so line numbers end in a known way"

-- The lines that ProcessFileData checks.
unfoldable pub mark_lines : List Text → List Text
mark_lines lines = first_marker ∷ (lines ++ last_marker ∷ [])

-- The lines of a file as ProcessFile reads them, and the numbers of those that ended in LF alone
-- and of those that ended in CR LF.
pub record FileLines : Type 0 where
  pub lines : List Text
  pub lf_lines : List ℕ
  pub crlf_lines : List ℕ

-- line.rstrip('\r'), of the reversed line
unfoldable pub strip_returns : Text → Text
strip_returns [] = []
strip_returns (c ∷ t) = let rest = strip_returns t in if c == 13 then rest else c ∷ t

unfoldable pub add_line : Text → ℕ → FileLines → FileLines
unfolding strip_returns ends_with
add_line line linenum r =
    if ends_with (codes "\r") line
    then record {
      lines = reverse (strip_returns (reverse line)) ∷ r.lines;
      lf_lines = r.lf_lines;
      crlf_lines = suc linenum ∷ r.crlf_lines;
    }
    else record {
      lines = line ∷ r.lines;
      lf_lines = suc linenum ∷ r.lf_lines;
      crlf_lines = r.crlf_lines;
    }

-- The loop over the lines but the last, from line `linenum` on.
unfoldable pub trim_lines : List Text → ℕ → FileLines
unfolding add_line
trim_lines [] linenum = record { lines = []; lf_lines = []; crlf_lines = [] }
trim_lines (line ∷ []) linenum = record { lines = line ∷ []; lf_lines = []; crlf_lines = [] }
trim_lines (line ∷ next ∷ rest) linenum =
    add_line line linenum (trim_lines (next ∷ rest) (suc linenum))

unfoldable pub read_lines : Text → FileLines
unfolding trim_lines split_text
read_lines content = trim_lines (split_text 10 content) 0

abbrev pub unexpected_return : ℕ → List Failure
unexpected_return linenum =
    report linenum "whitespace/newline" 1
      (codes "Unexpected \\r (^M) found; better to use only \\n")

unfoldable pub report_returns : List ℕ → List Failure
report_returns [] = []
report_returns (linenum ∷ more) = unexpected_return linenum ++ report_returns more

-- The end of ProcessFile, where the ends of the lines are mixed.
unfoldable pub check_line_endings : FileLines → List Failure
unfolding report_returns
check_line_endings r =
    report_if (not (is_nil (r.lf_lines)) && not (is_nil (r.crlf_lines)))
      (report_returns (r.crlf_lines))
