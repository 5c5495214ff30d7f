-- ===== src/Lint/Checks/Operands.antt =====
-- .linters/cpp/cpplint.py: the loop of CheckCheck over the expression of a macro. Where the source keeps
-- `(.*)$` of a match as a group, the rest of the position is taken: the texts are of one line.
use nebula_chaos.Prelude.{
  ℕ, zero, suc, Bool, false, ◌||◌, Option, none, some, List, [], ◌∷◌, ◌++◌, if◌then◌else◌, is_nil,
  take, drop, String, Text, codes, text_eq,
}
use nebula_chaos.Lint.Regex.{Pattern, Position, seq, group, none_of, some_of, match_re, group_of}
use nebula_chaos.Lint.Brackets.{Scan, closed, unbalanced, pending, find_end_of_expression_in_line}
use nebula_chaos.Lint.Checks.{word_of, spaces, no_space}

abbrev group_text : ℕ → Position → Text
group_text n p = elim (group_of p n) [ none ↦ [] | some t ↦ t ]

-- What a turn of the loop over the expression does: it goes on with a longer left operand and the
-- rest, it leaves the loop with the parts of the expression, or it returns from CheckCheck.
pub data ExpressionTurn : Type 0 where
  goes : (lhs expression : Text) → ExpressionTurn
  ends : (lhs operator rhs : Text) → ExpressionTurn
  returns : ExpressionTurn

abbrev pub operator_token : Pattern
operator_token = seq spaces (
    group 1 (
      word_of "<<" (
        "<<=" ∷ ">>" ∷ ">>=" ∷ "->*" ∷ "->" ∷ "&&" ∷ "||" ∷ "==" ∷ "!=" ∷ ">=" ∷ ">" ∷ "<=" ∷ "<"
        ∷ "(" ∷ [])))

-- [^-=!<>()&|]+ and \s*\S
abbrev pub operand : Pattern
operand = group 1 (some_of (none_of (codes "-=!<>()&|")))

abbrev pub operand_char : Pattern
operand_char = group 1 (seq spaces no_space)

abbrev pub parenthesis_closed : Text → Text → Scan → ExpressionTurn
parenthesis_closed lhs expression (closed end) =
    goes (lhs ++ b'(' ∷ take end expression) (drop end expression)
parenthesis_closed lhs expression unbalanced = returns
parenthesis_closed lhs expression (pending stack) = returns

abbrev is_token : List String → Text → Bool
is_token [] token = false
is_token (s ∷ more) token = text_eq token (codes s) || is_token more token

-- The turn at the token, with the rest of the expression behind it.
unfoldable pub operator_turn : Text → Text → Text → ExpressionTurn
unfolding find_end_of_expression_in_line
operator_turn lhs token rest =
    if text_eq token (codes "(")
    then parenthesis_closed lhs rest (find_end_of_expression_in_line rest 0 (b'(' ∷ []))
    else if is_token ("&&" ∷ "||" ∷ []) token
    then returns
    else if is_token ("<<" ∷ "<<=" ∷ ">>" ∷ ">>=" ∷ "->*" ∷ "->" ∷ []) token
    then goes (lhs ++ token) rest
    else ends lhs token rest

abbrev pub char_turn : Text → Option Position → ExpressionTurn
char_turn lhs none = ends lhs [] []
char_turn lhs (some p) = goes (lhs ++ group_text 1 p) p.rest

abbrev pub operand_turn : Text → Text → Option Position → ExpressionTurn
operand_turn lhs expression none = char_turn lhs (match_re operand_char expression)
operand_turn lhs expression (some p) = goes (lhs ++ group_text 1 p) p.rest

abbrev pub any_turn : Text → Text → Option Position → ExpressionTurn
any_turn lhs expression none = operand_turn lhs expression (match_re operand expression)
any_turn lhs expression (some p) = operator_turn lhs (group_text 1 p) p.rest

unfoldable pub expression_turn : Text → Text → ExpressionTurn
unfolding match_re group_of operator_turn
expression_turn lhs expression =
    if is_nil expression
    then ends lhs [] []
    else any_turn lhs expression (match_re operator_token expression)

-- The loop; `none` is that the fuel ran out, and no operator is the empty text.
unfoldable pub parse_operands : ℕ → Text → Text → Option ExpressionTurn
parse_operands zero lhs expression = none
parse_operands (suc fuel) lhs expression = elim (expression_turn lhs expression) [
  | goes lhs' expression' ↦ parse_operands fuel lhs' expression'
  | ends lhs' operator rhs ↦ some (ends lhs' operator rhs)
  | returns ↦ some returns
]
