-- ===== src/FlowChart/Shared.antt =====
-- src/tools/FlowChart.py: two sub-plans of one plan whose actions share a node name.
use nebula_chaos.Prelude.{
  ℕ, zero, suc, ◌+◌, ◌*◌, ◌<◌, ◌≡◌, ◌≢◌, ◌⊎◌, inl, inr, refl, sym, subst, Option, none, some, List,
  [], ◌∷◌, ◌++◌, append_assoc, arith, Text, codes, str, str_injective, str-append_digit, str_digit,
}
use mathlib.Core.List.{append_cancel_left}
use nebula_chaos.FlowChart.{
  Instance, Action, action, present, Actions, nil, cons, Graph, returned, parse_actions,
  loop_action,
}
use nebula_chaos.FlowChart.Calls.{
  Mark, node_at, given, full_label, marks, cluster_name, node_marks, action_marks, sub_plan_marks,
  edge_marks, parse_actions-marks,
}

-- The action of a number.
unfoldable pub action_at : Actions → ℕ → Option Action
action_at nil i = none
action_at (cons a actions) zero = some a
action_at (cons a actions) (suc i) = action_at actions i

-- A loop action with a sub-plan.
abbrev pub loop : Actions → Option ℕ → Option (List ℕ) → Action
loop sub_plan inst_index depends = action (some loop_action) (present sub_plan) inst_index depends

-- The graph shows the mark.
pub Shows : List Mark → Mark → Type 0
Shows [] m = ⊥
Shows (x ∷ xs) m = (x ≡ m) ⊎ Shows xs m

Shows-front : (xs ys : List Mark) (m : Mark) → Shows xs m → Shows (xs ++ ys) m
unfolding Shows
Shows-front [] ys m p = absurd p
Shows-front (x ∷ xs) ys m (inl e) = inl e
Shows-front (x ∷ xs) ys m (inr p) = inr (Shows-front xs ys m p)

Shows-behind : (xs ys : List Mark) (m : Mark) → Shows ys m → Shows (xs ++ ys) m
unfolding Shows
Shows-behind [] ys m p = p
Shows-behind (x ∷ xs) ys m p = inr (Shows-behind xs ys m p)

-- A node of some label.
abbrev pub HasNode : List Mark → List Text → Text → Type 0
HasNode xs clusters name = (label : Text) × Shows xs (node_at clusters name label)

HasNode-front :
    (xs ys : List Mark) (clusters : List Text) (name : Text)
    → HasNode xs clusters name
    → HasNode (xs ++ ys) clusters name
HasNode-front xs ys clusters name (label, p) = (label, Shows-front xs ys _ p)

HasNode-behind :
    (xs ys : List Mark) (clusters : List Text) (name : Text)
    → HasNode ys clusters name
    → HasNode (xs ++ ys) clusters name
HasNode-behind xs ys clusters name (label, p) = (label, Shows-behind xs ys _ p)

action_marks-HasNode :
    (instances : List Instance) (clusters : List Text) (prefix : Text) (i : ℕ) (a : Action)
    → HasNode (action_marks instances clusters prefix i a) clusters (prefix ++ str i)
unfolding node_marks Shows
action_marks-HasNode instances clusters prefix i (action t s inst depends) =
    HasNode-behind (sub_plan_marks instances clusters i (given t) s) _ clusters (prefix ++ str i)
      (full_label instances i (given t) inst, inl refl)

-- The node of an action of a list.
node_marks-HasNode :
    (instances : List Instance) (clusters : List Text) (prefix : Text) (i : ℕ) (actions : Actions)
    (k n : ℕ) (a : Action)
    → i + k ≡ n
    → action_at actions k ≡ some a
    → HasNode (node_marks instances clusters prefix i actions) clusters (prefix ++ str n)
unfolding node_marks action_at
node_marks-HasNode instances clusters prefix i nil k n a s e = absurd (cc)
node_marks-HasNode instances clusters prefix i (cons b actions) zero n a s e =
    subst
      (λ m.
        HasNode (node_marks instances clusters prefix i (cons b actions)) clusters
          (prefix ++ str m))
      (omega (arith, s))
      (HasNode-front _ _ clusters (prefix ++ str i)
        (action_marks-HasNode instances clusters prefix i b))
node_marks-HasNode instances clusters prefix i (cons b actions) (suc k) n a s e =
    HasNode-behind _ _ clusters (prefix ++ str n)
      (node_marks-HasNode instances clusters prefix (i + 1) actions k n a (omega (arith, s)) e)

-- What a loop action shows of an action of its sub-plan.
loop-HasNode :
    (instances : List Instance) (clusters : List Text) (prefix : Text) (i : ℕ) (sub : Actions)
    (inst : Option ℕ) (depends : Option (List ℕ)) (k : ℕ) (a : Action)
    → action_at sub k ≡ some a
    → HasNode
        (action_marks instances clusters prefix i (loop sub inst depends))
        (clusters ++ cluster_name i ∷ [])
        (str i ++ str k)
unfolding node_marks Shows
loop-HasNode instances clusters prefix i sub inst depends k a e =
    let inner = clusters ++ cluster_name i ∷ [] in
    let (label, p) =
      HasNode-front _ (edge_marks inner (str i) 0 sub) inner (str i ++ str k)
        (node_marks-HasNode instances inner (str i) 0 sub k k a (omega arith) e) in
    HasNode-front (sub_plan_marks instances clusters i loop_action (present sub)) _ inner
      (str i ++ str k) (label, inr p)

sub_plan-HasNode :
    (instances : List Instance) (clusters : List Text) (prefix : Text) (i : ℕ) (actions : Actions)
    (j n : ℕ) (sub : Actions) (inst : Option ℕ) (depends : Option (List ℕ)) (k : ℕ) (a : Action)
    → i + j ≡ n
    → action_at actions j ≡ some (loop sub inst depends)
    → action_at sub k ≡ some a
    → HasNode
        (node_marks instances clusters prefix i actions)
        (clusters ++ cluster_name n ∷ [])
        (str n ++ str k)
unfolding node_marks action_at
sub_plan-HasNode instances clusters prefix i nil j n sub inst depends k a s e f = absurd (cc)
sub_plan-HasNode instances clusters prefix i (cons b actions) zero n sub inst depends k a s e f =
    let same : loop sub inst depends ≡ b = cc (e) in
    subst
      (λ m.
        HasNode (node_marks instances clusters prefix i (cons b actions))
          (clusters ++ cluster_name m ∷ []) (str m ++ str k))
      (omega (arith, s))
      (HasNode-front _ _ (clusters ++ cluster_name i ∷ []) (str i ++ str k) (
        subst
          (λ c.
            HasNode (action_marks instances clusters prefix i c) (clusters ++ cluster_name i ∷ [])
              (str i ++ str k))
          same (loop-HasNode instances clusters prefix i sub inst depends k a f)))
sub_plan-HasNode instances clusters prefix i (cons b actions) (suc j) n sub inst depends k a s e f =
    HasNode-behind _ _ (clusters ++ cluster_name n ∷ []) (str n ++ str k) (
      sub_plan-HasNode instances clusters prefix (i + 1) actions j n sub inst depends k a
        (omega (arith, s)) e f)

-- The names of two actions in two sub-plans, whose prefixes are the bare indices of the loop actions.
shared_name :
    (i k d : ℕ)
    → 0 < i
    → 0 < k
    → k < 10
    → d < 10
    → str i ++ str (10 * k + d) ≡ str (10 * i + k) ++ str d
shared_name i k d hi hk hk' hd =
    rw (str-append_digit k d hk hd, str-append_digit i k hi hk', str_digit k hk', str_digit d hd)
      (sym (append_assoc (str i) ((48 + k) ∷ []) ((48 + d) ∷ [])))

cluster_name-ne : (i k : ℕ) → 0 < i → cluster_name i ≢ cluster_name (10 * i + k)
cluster_name-ne i k h e =
    let same = str_injective i (10 * i + k) (append_cancel_left (codes "cluster") _ _ e) in
    absurd (omega (arith, h, same))

-- Where `parse_actions` draws a plan whose actions `i` and `10 * i + k` are loop actions, the first with
-- an action `10 * k + d` and the second with an action `d` in its sub-plan, where `i` is not 0, `k` is a
-- digit that is not 0 and `d` is a digit, the graph shows two nodes of one name in two different
-- clusters.
pub parse_actions-shared :
    (instances : List Instance) (actions : Actions) (prefix : Text) (g : Graph) (i k d : ℕ)
    (sub sub' : Actions) (inst inst' : Option ℕ) (depends depends' : Option (List ℕ)) (a b : Action)
    → parse_actions instances actions prefix ≡ returned g
    → 0 < i
    → 0 < k
    → k < 10
    → d < 10
    → action_at actions i ≡ some (loop sub inst depends)
    → action_at actions (10 * i + k) ≡ some (loop sub' inst' depends')
    → action_at sub (10 * k + d) ≡ some a
    → action_at sub' d ≡ some b
    → (name : Text) × HasNode (marks [] g) (cluster_name i ∷ []) name
      × HasNode (marks [] g) (cluster_name (10 * i + k) ∷ []) name
      × (cluster_name i ≢ cluster_name (10 * i + k))
parse_actions-shared instances actions prefix g i k d sub sub' inst inst' depends depends' a b drawn
      hi hk hk' hd e e' f f' =
    let here : Text → Type 0 = HasNode (marks [] g) (cluster_name (10 * i + k) ∷ []) in
    let all = parse_actions-marks instances actions prefix g drawn in
    let first =
      sub_plan-HasNode instances [] prefix 0 actions i i sub inst depends (10 * k + d) a
        (omega arith) e f in
    let second =
      sub_plan-HasNode instances [] prefix 0 actions (10 * i + k) (10 * i + k) sub' inst' depends' d
        b (omega arith) e' f' in
    (
      str i ++ str (10 * k + d),
      subst (λ xs. HasNode xs (cluster_name i ∷ []) (str i ++ str (10 * k + d))) (sym all)
          (HasNode-front _ _ _ _ first),
      subst here (sym (shared_name i k d hi hk hk' hd)) (
          subst (λ xs. HasNode xs (cluster_name (10 * i + k) ∷ []) (str (10 * i + k) ++ str d))
            (sym all) (HasNode-front _ _ _ _ second)),
      cluster_name-ne i k hi,
    )
