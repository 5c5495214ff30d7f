-- ===== src/Core/Assign.antt =====
-- src/core/AssignAction.h: an action that sets a variable to the value of an expression.
use nebula_chaos.Prelude.{
  ◌≡◌, refl, false, Option, none, some, Text, text_eq, ◌⊎◌, inl, inr, sym, arith, subst,
}
use nebula_chaos.Core.Action.{ResultCode, ok, err_failed}
use nebula_chaos.Expression.Integers.{Outcome, done, died, undefined, and_then}
use nebula_chaos.Expression.Values.{
  Doubles, Value, ValueOrErr, value, error, Variables, get_var, set_var, Expression,
}
use nebula_chaos.Expression.Eval.{eval, Result}
use nebula_chaos.Expression.Frame.{get_var-set_var, get_var-set_other}

-- `parse` is ParserHelper::parse, which bison and flex generate; `none` is its null pointer.
module _ (doubles : Doubles) (parse : Text → Option (Expression (doubles.Double))) where
  abbrev Context : Type 0
  Context = Variables (doubles.Double)

  abbrev store : Text → Context → ValueOrErr (doubles.Double) → Outcome (ResultCode × Context)
  store var vars (error e) = done (err_failed, vars)
  store var vars (value v) = done (ok, set_var var v vars)

  abbrev assign_parsed :
      Text → Context → Option (Expression (doubles.Double)) → Outcome (ResultCode × Context)
  assign_parsed var vars none = done (err_failed, vars)
  assign_parsed var vars (some expr) = and_then (eval doubles (some vars) expr) (store var vars)

  -- AssignAction::doRun
  unfoldable pub assign : Text → Text → Context → Outcome (ResultCode × Context)
  assign var expr_str vars = assign_parsed var vars (parse expr_str)

  -- What a run of the action has done.
  abbrev pub Assigned : Text → Text → Text → Context → ResultCode → Context → Type 0
  Assigned var other expr_str vars rc vars' =
      ((rc ≡ ok)
        × (expr : Expression (doubles.Double)) × (v : Value (doubles.Double)) × (parse expr_str
            ≡ some expr)
        × (eval doubles (some vars) expr ≡ done (value v))
        × (get_var var vars' ≡ value v)
        × (get_var other vars' ≡ get_var other vars))
      ⊎ ((rc ≡ err_failed) × (vars' ≡ vars))

  stored :
      (var other expr_str : Text) (vars vars' : Context) (rc : ResultCode)
      (expr : Expression (doubles.Double)) (r : Result doubles)
      → text_eq var other ≡ false
      → parse expr_str ≡ some expr
      → eval doubles (some vars) expr ≡ r
      → and_then r (store var vars) ≡ done (rc, vars')
      → Assigned var other expr_str vars rc vars'
  stored var other expr_str vars vars' rc expr (done (error e)) n p q h =
      inr (ground arith, ground arith)
  stored var other expr_str vars vars' rc expr (done (value v)) n p q h =
      let set : vars' ≡ set_var var v vars = ground arith in
      inl (
        ground arith,
        expr,
        v,
        p,
        q,
        subst (λ c. get_var var c ≡ value v) (sym set) (get_var-set_var var v vars),
        subst (λ c. get_var other c ≡ get_var other vars) (sym set)
            (get_var-set_other var other v vars n),
      )
  stored var other expr_str vars vars' rc expr died n p q h = absurd (cc)
  stored var other expr_str vars vars' rc expr undefined n p q h = absurd (cc)

  parsed :
      (var other expr_str : Text) (vars vars' : Context) (rc : ResultCode)
      (expr : Option (Expression (doubles.Double)))
      → text_eq var other ≡ false
      → parse expr_str ≡ expr
      → assign_parsed var vars expr ≡ done (rc, vars')
      → Assigned var other expr_str vars rc vars'
  parsed var other expr_str vars vars' rc none n p h = inr (ground arith, ground arith)
  parsed var other expr_str vars vars' rc (some expr) n p h =
      stored var other expr_str vars vars' rc expr (eval doubles (some vars) expr) n p refl h

  -- Where the run of the action ends, it has either succeeded, the variable then has the value that
  -- the parsed expression had before the run, and every other variable has the value it had; or it
  -- has failed, and all variables are as they were.
  pub assign-Assigned :
      (var other expr_str : Text) (vars vars' : Context) (rc : ResultCode)
      → text_eq var other ≡ false
      → assign var expr_str vars ≡ done (rc, vars')
      → Assigned var other expr_str vars rc vars'
  unfolding assign
  assign-Assigned var other expr_str vars vars' rc n h =
      parsed var other expr_str vars vars' rc (parse expr_str) n refl h
