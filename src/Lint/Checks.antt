-- ===== src/Lint/Checks.antt =====
-- .linters/cpp/cpplint.py: the checks of lines, and the words that their patterns share.
pub mod Constructs
pub mod Explicit
pub mod Calls
pub mod Remarks
pub mod Whole
pub mod Functions
pub mod Spacing
pub mod Operators
pub mod Punctuation
pub mod Proper
pub mod Guard
pub mod Inside
pub mod Language
pub mod Features
pub mod Operands
pub mod Macros
pub mod Braces
use nebula_chaos.Prelude.{ℕ, Bool, not, List, [], ◌∷◌, String, Text, codes, if◌then◌else◌, map}
use nebula_chaos.Lint.Regex.{Pattern, one, many, text, any_of, is_space, is_word, is_digit, some_of}
use nebula_chaos.Lint.State.{Failure}

-- error(filename, linenum, category, confidence, message)
abbrev pub report : ℕ → String → ℕ → Text → List Failure
report linenum category confidence message =
    record {
      linenum = linenum;
      category = codes category;
      confidence = confidence;
      message = message;
    }
    ∷ []

-- What is reported under a condition.
abbrev pub report_if : Bool → List Failure → List Failure
report_if condition failures = if condition then failures else []

-- The literal text, and one of the texts.
abbrev pub lit : String → Pattern
lit s = text (codes s)

abbrev pub word_of : String → List String → Pattern
word_of s others = any_of (lit s) (map lit others)

-- \s*, \s+, \w, \w*, \w+, \d* and a character that is no space
abbrev pub spaces : Pattern
spaces = many (one is_space)

abbrev pub some_spaces : Pattern
some_spaces = some_of (one is_space)

abbrev pub word : Pattern
word = one is_word

abbrev pub words : Pattern
words = many (one is_word)

abbrev pub some_words : Pattern
some_words = some_of (one is_word)

abbrev pub digits : Pattern
digits = many (one is_digit)

abbrev pub no_space : Pattern
no_space = one (λ c. not (is_space c))
