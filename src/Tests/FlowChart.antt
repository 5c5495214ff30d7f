-- ===== src/Tests/FlowChart.antt =====
-- src/tools/FlowChart.py: a plan with a loop.
use nebula_chaos.Prelude.{
  ℕ, zero, suc, Text, ◌++◌, ◌≢◌, ◌+◌, ◌*◌, ◌≡◌, refl, ◌&&◌, Option, none, some, List, [], ◌∷◌,
  arith, codes, str,
}
use nebula_chaos.FlowChart.{
  key_error, returned, raised, Instance, Action, action, absent, present, Actions, nil, cons, Graph,
  node, edge, subgraph, end, ◌⨾◌, Attempt, parse_actions, parse_json,
}
use nebula_chaos.FlowChart.Calls.{marks, node_marks, edge_marks, cluster_name, parse_actions-marks}
use nebula_chaos.FlowChart.Names.{own_names, AreDistinct, AreNamed, parse_actions-AreDistinct}
use nebula_chaos.FlowChart.Shared.{action_at, loop, HasNode, parse_actions-shared}
use nebula_chaos.FlowChart.WellFormed.{
  is_returned, all_drawable, all_depend, is_returned-parse_actions,
}

abbrev instances : List Instance
instances = record { type = some (codes "storaged") } ∷ []

abbrev wait : Option (List ℕ) → Action
wait depends = action (some (codes "WaitAction")) absent none depends

abbrev actions : Actions
actions = cons (action (some (codes "StartAction")) absent (some 0) (some [])) (
    cons
      (action (some (codes "LoopAction")) (present (cons (wait (some [])) nil)) none
        (some (0 ∷ [])))
      nil)

abbrev graph : Graph
graph =
    node (codes "main0") (codes "0: StartAction(storaged)")
    ⨾ subgraph (codes "cluster1") (codes "1: LoopAction")
        (node (codes "10") (codes "0: WaitAction") ⨾ end)
    ⨾ node (codes "main1") (codes "1: LoopAction")
    ⨾ edge (codes "main0") (codes "main1")
    ⨾ end

parse_json_runs : parse_json instances actions ≡ returned graph
unfolding parse_json str
parse_json_runs = refl

parse_actions_runs : parse_actions instances actions (codes "main") ≡ returned graph
unfolding parse_actions str
parse_actions_runs = refl

no_depends : parse_json instances (cons (wait none) nil) ≡ raised (key_error (codes "depends"))
unfolding parse_json str
no_depends = refl

parse_actions-marks_example :
    marks [] graph
    ≡ node_marks instances [] (codes "main") 0 actions ++ edge_marks [] (codes "main") 0 actions
parse_actions-marks_example =
    parse_actions-marks instances actions (codes "main") graph parse_actions_runs

is_returned-parse_actions_example :
    is_returned (parse_actions instances actions (codes "main"))
    ≡ all_drawable instances actions && all_depend actions
is_returned-parse_actions_example = is_returned-parse_actions instances actions (codes "main")

parse_actions-AreDistinct_example : AreDistinct (own_names graph) × AreNamed graph
parse_actions-AreDistinct_example =
    parse_actions-AreDistinct instances actions (codes "main") graph parse_actions_runs

-- A plan with the loop actions 1 and 11, of which the first has 11 actions in its sub-plan.
abbrev waits : ℕ → Actions → Actions
waits zero actions = actions
waits (suc n) actions = cons (wait (some [])) (waits n actions)

abbrev two_loops : Actions
two_loops = cons (wait (some [])) (
    cons (loop (waits 11 nil) none (some []))
      (waits 9 (cons (loop (waits 1 nil) none (some [])) nil)))

abbrev graph_of : Attempt Graph → Graph
graph_of (returned g) = g
graph_of (raised e) = end

two_loops_run :
    parse_actions [] two_loops (codes "main")
    ≡ returned (graph_of (parse_actions [] two_loops (codes "main")))
unfolding parse_actions str
two_loops_run = refl

two_loops_at :
    (action_at two_loops (10 * 1 + 1) ≡ some (loop (waits 1 nil) none (some [])))
    × (action_at (waits 11 nil) (10 * 1 + 0) ≡ some (wait (some [])))
    × (action_at two_loops 1 ≡ some (loop (waits 11 nil) none (some [])))
    × (action_at (waits 1 nil) 0 ≡ some (wait (some [])))
unfolding action_at
two_loops_at = (refl, refl, refl, refl)

parse_actions-shared_example :
    (name : Text) × HasNode
      (marks [] (graph_of (parse_actions [] two_loops (codes "main"))))
      (cluster_name 1 ∷ [])
      name
    × HasNode
        (marks [] (graph_of (parse_actions [] two_loops (codes "main"))))
        (cluster_name (10 * 1 + 1) ∷ [])
        name
    × (cluster_name 1 ≢ cluster_name (10 * 1 + 1))
parse_actions-shared_example =
    parse_actions-shared [] two_loops (codes "main")
      (graph_of (parse_actions [] two_loops (codes "main"))) 1 1 0 (waits 11 nil) (waits 1 nil) none
      none (some []) (some []) (wait (some [])) (wait (some [])) two_loops_run (omega arith)
      (omega arith) (omega arith) (omega arith) (two_loops_at.2) (two_loops_at.0) (two_loops_at.1)
      (two_loops_at.3)
