-- ===== src/Lint/Checks/Macros/Ends.antt =====
-- .linters/cpp/cpplint.py: the loop of CheckCheck ends.
use nebula_chaos.Prelude.{
  ℕ, zero, suc, ◌≤◌, ◌<◌, ◌≡◌, refl, Bool, true, false, Option, none, some, List, [], ◌∷◌,
  if◌then◌else◌, length, Text, subst, arith, length-drop,
}
use nebula_chaos.Lint.Regex.{Position, match_re}
use nebula_chaos.Lint.Regex.Width.{width, match_re-width}
use nebula_chaos.Lint.State.{Failure}
use nebula_chaos.Lint.Brackets.{Scan, closed, unbalanced, pending, Closing, found, not_found}
use nebula_chaos.Lint.Checks.Macros.{CheckMacro, operands_parsed, macro_closed, macro_expression}
use nebula_chaos.Lint.Checks.Operands.{
  ExpressionTurn, goes, ends, returns, operator_token, operand, operand_char, parenthesis_closed,
  operator_turn, char_turn, operand_turn, any_turn, expression_turn, parse_operands,
}

-- A turn that goes on leaves a text of `n` characters at most.
abbrev Leaves : ℕ → ExpressionTurn → Type 0
Leaves n (goes lhs expression) = length expression ≤ n
Leaves n (ends lhs operator rhs) = 0 ≤ n
Leaves n returns = 0 ≤ n

if-Leaves :
    (n : ℕ) (b : Bool) (x y : ExpressionTurn)
    → Leaves n x
    → Leaves n y
    → Leaves n (if b then x else y)
if-Leaves n true x y p q = p
if-Leaves n false x y p q = q

parenthesis_closed-Leaves :
    (lhs rest : Text) (s : Scan) → Leaves (length rest) (parenthesis_closed lhs rest s)
parenthesis_closed-Leaves lhs rest (closed end) = omega (arith, length-drop end rest)
parenthesis_closed-Leaves lhs rest unbalanced = omega arith
parenthesis_closed-Leaves lhs rest (pending stack) = omega arith

operator_turn-Leaves : (lhs token rest : Text) → Leaves (length rest) (operator_turn lhs token rest)
unfolding operator_turn
operator_turn-Leaves lhs token rest = search (if-Leaves, parenthesis_closed-Leaves, arith)

at_most-Leaves : (m n : ℕ) (t : ExpressionTurn) → m ≤ n → Leaves m t → Leaves n t
at_most-Leaves m n (goes lhs expression) h p = omega arith
at_most-Leaves m n (ends lhs operator rhs) h p = omega arith
at_most-Leaves m n returns h p = omega arith

module _ (lhs expression : Text) (n : ℕ) (h : length expression ≡ suc n) where
  char_turn-Leaves :
      (o : Option Position) → match_re operand_char expression ≡ o → Leaves n (char_turn lhs o)
  char_turn-Leaves none e = omega arith
  char_turn-Leaves (some p) e =
      let w : width operand_char ≡ 1 = refl in
      let shorter = match_re-width operand_char expression p e in omega (arith, w, shorter, h)

  operand_turn-Leaves :
      (o : Option Position)
      → match_re operand expression ≡ o
      → Leaves n (operand_turn lhs expression o)
  operand_turn-Leaves none e = char_turn-Leaves (match_re operand_char expression) refl
  operand_turn-Leaves (some p) e =
      let w : width operand ≡ 1 = refl in
      let shorter = match_re-width operand expression p e in omega (arith, w, shorter, h)

  any_turn-Leaves :
      (o : Option Position)
      → match_re operator_token expression ≡ o
      → Leaves n (any_turn lhs expression o)
  any_turn-Leaves none e = operand_turn-Leaves (match_re operand expression) refl
  any_turn-Leaves (some p) e =
      let w : width operator_token ≡ 1 = refl in
      let shorter = match_re-width operator_token expression p e in
      at_most-Leaves (length p.rest) n _ (omega (arith, w, shorter, h))
        (operator_turn-Leaves lhs _ p.rest)

expression_turn-Leaves :
    (lhs expression : Text) (n : ℕ)
    → length expression ≤ suc n
    → Leaves n (expression_turn lhs expression)
unfolding expression_turn
expression_turn-Leaves lhs [] n h = omega arith
expression_turn-Leaves lhs (c ∷ t) n h =
    at_most-Leaves (length t) n _ (omega arith)
      (any_turn-Leaves lhs (c ∷ t) (length t) (omega arith) (match_re operator_token (c ∷ t)) refl)

parse_operands-nil :
    (fuel : ℕ) (lhs : Text) → parse_operands (suc fuel) lhs [] ≡ some (ends lhs [] [])
unfolding parse_operands expression_turn
parse_operands-nil fuel lhs = refl

abbrev Ends : Option ExpressionTurn → Type 0
Ends o = (turn : ExpressionTurn) × (o ≡ some turn)

-- A round of the loop ends if the loop ends on every shorter text.
round-Ends :
    (fuel : ℕ) (lhs : Text) (c : ℕ) (t : Text) (turn : ExpressionTurn)
    → expression_turn lhs (c ∷ t) ≡ turn
    → ((lhs' rest : Text) → length rest ≤ length t → Ends (parse_operands fuel lhs' rest))
    → Ends (parse_operands (suc fuel) lhs (c ∷ t))
unfolding parse_operands
round-Ends fuel lhs c t returns e more = (returns, rw (e, parse_operands) refl)
round-Ends fuel lhs c t (ends lhs' operator rhs) e more =
    (ends lhs' operator rhs, rw (e, parse_operands) refl)
round-Ends fuel lhs c t (goes lhs' rest) e more =
    let shorter =
      subst (Leaves (length t)) e (expression_turn-Leaves lhs (c ∷ t) (length t) (omega arith)) in
    let (turn, r) = more lhs' rest shorter in (turn, rw (e, parse_operands) r)

-- The loop over an expression ends, with one more than its length as fuel.
pub parse_operands_total :
    (fuel : ℕ) (lhs expression : Text)
    → length expression < fuel
    → (turn : ExpressionTurn) × (parse_operands fuel lhs expression ≡ some turn)
parse_operands_total zero lhs expression h = absurd (omega arith)
parse_operands_total (suc fuel) lhs [] h = (ends lhs [] [], parse_operands-nil fuel lhs)
parse_operands_total (suc fuel) lhs (c ∷ t) h =
    round-Ends fuel lhs c t (expression_turn lhs (c ∷ t)) refl
      (λ lhs' rest k. parse_operands_total fuel lhs' rest (omega arith))

operands_parsed-some :
    (m : CheckMacro) (linenum : ℕ) (b : Bool) (o : Option ExpressionTurn)
    → Ends o
    → (failures : List Failure) × ((if b then operands_parsed m linenum o else some [])
        ≡ some failures)
operands_parsed-some m linenum false o (turn, e) = ([], refl)
operands_parsed-some m linenum true o (turn, e) = rw e (_, refl)

-- Behind CloseExpression the check ends.
pub macro_closed_total :
    (lines : List Text) (linenum : ℕ) (m : CheckMacro) (start_pos : ℕ) (closing : Closing)
    → (failures : List Failure) × (macro_closed lines linenum m start_pos closing ≡ some failures)
unfolding macro_closed
macro_closed_total lines linenum m start_pos (not_found line) = ([], refl)
macro_closed_total lines linenum m start_pos (found last_line end_line end_pos) =
    let expression = macro_expression lines linenum start_pos last_line end_line end_pos in
    operands_parsed-some m linenum _ _
      (parse_operands_total (suc (length expression)) [] expression (omega arith))
