-- ===== src/Lint.antt =====
-- .linters/cpp/cpplint.py: the linter that the commit hook runs over the C++ sources.
pub mod Regex
pub mod Brackets
pub mod Comments
pub mod Includes
pub mod State
pub mod Nesting
pub mod Strings
pub mod Cleansed
pub mod Checks
