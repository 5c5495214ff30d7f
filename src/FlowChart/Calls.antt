-- ===== src/FlowChart/Calls.antt =====
-- src/tools/FlowChart.py: all that `parseActions` draws, in order and at every depth.
use nebula_chaos.Prelude.{
  ℕ, zero, suc, ◌+◌, ◌≡◌, refl, Bool, true, false, Option, none, some, List, [], ◌∷◌, ◌++◌, arith,
  Text, ap, ◌∙◌, sym, append_assoc, append-nil, text_eq, codes, str, if◌then◌else◌,
}
use nebula_chaos.FlowChart.{
  Attempt, returned, raised, ◌>>=◌, member, element, Instance, Action, action, SubPlan, absent,
  present, Actions, nil, cons, node, edge, subgraph, Graph, end, ◌⨾◌, ◌⧺◌, node_name, label_of,
  instance_label, depends_of, depend_edges, draw_edges, draw_nodes, draw_action, draw_sub_plan,
  parse_actions, loop_action,
}

-- What a graph shows, with the names of the subgraphs around it, the outermost first.
pub data Mark : Type 0 where
  node_at : (clusters : List Text) (name label : Text) → Mark
  edge_at : (clusters : List Text) (tail head : Text) → Mark
  cluster_at : (clusters : List Text) (name label : Text) → Mark

unfoldable pub marks : List Text → Graph → List Mark
marks clusters end = []
marks clusters (node name label ⨾ g) = node_at clusters name label ∷ marks clusters g
marks clusters (edge tail head ⨾ g) = edge_at clusters tail head ∷ marks clusters g
marks clusters (subgraph name label body ⨾ g) =
    cluster_at clusters name label ∷ marks (clusters ++ name ∷ []) body ++ marks clusters g

abbrev pub given : Option Text → Text
given none = []
given (some t) = t

-- The type of the instance of a number, and the label of an action.
abbrev pub type_at : List Instance → ℕ → Text
type_at [] index = []
type_at (x ∷ xs) (suc index) = type_at xs index
type_at (x ∷ xs) zero = given x.type

abbrev pub plain_label : ℕ → Text → Text
plain_label i type = str i ++ codes ": " ++ type

abbrev pub full_label : List Instance → ℕ → Text → Option ℕ → Text
full_label instances i type none = plain_label i type
full_label instances i type (some index) =
    plain_label i type ++ codes "(" ++ type_at instances index ++ codes ")"

abbrev pub cluster_name : ℕ → Text
cluster_name i = codes "cluster" ++ str i

-- The edges of a list of actions: one for each number in each "depends".
unfoldable pub edges_to : List Text → Text → ℕ → Option (List ℕ) → List Mark
edges_to clusters prefix i none = []
edges_to clusters prefix i (some []) = []
edges_to clusters prefix i (some (d ∷ ds)) =
    edge_at clusters (prefix ++ str d) (prefix ++ str i) ∷ edges_to clusters prefix i (some ds)

unfoldable pub edge_marks : List Text → Text → ℕ → Actions → List Mark
unfolding edges_to
edge_marks clusters prefix i nil = []
edge_marks clusters prefix i (cons a actions) =
    edges_to clusters prefix i (depends_of a) ++ edge_marks clusters prefix (i + 1) actions

-- The nodes of a list of actions, each behind its cluster if it is a loop action.
unfoldable mutual
  unfolding edge_marks

  pub node_marks : List Instance → List Text → Text → ℕ → Actions → List Mark
  node_marks instances clusters prefix i nil = []
  node_marks instances clusters prefix i (cons a actions) =
      action_marks instances clusters prefix i a
      ++ node_marks instances clusters prefix (i + 1) actions

  pub action_marks : List Instance → List Text → Text → ℕ → Action → List Mark
  action_marks instances clusters prefix i (action type sub_plan inst_index depends) =
      sub_plan_marks instances clusters i (given type) sub_plan
      ++ node_at clusters (prefix ++ str i) (full_label instances i (given type) inst_index) ∷ []

  pub sub_plan_marks : List Instance → List Text → ℕ → Text → SubPlan → List Mark
  sub_plan_marks instances clusters i type absent = []
  sub_plan_marks instances clusters i type (present actions) =
      let inner = clusters ++ cluster_name i ∷ [] in
      let drawn =
        cluster_at clusters (cluster_name i) (plain_label i type)
          ∷ node_marks instances inner (str i) 0 actions
        ++ edge_marks inner (str i) 0 actions in
      if text_eq type loop_action then drawn else []

pub >>=-eq-returned {ℓ κ} :
    {A : Type ℓ} {B : Type κ} (m : Attempt A) (f : A → Attempt B) {b : B}
    → (m >>= f) ≡ returned b
    → (a : A) × (m ≡ returned a) × (f a ≡ returned b)
>>=-eq-returned (returned a) f h = (a, refl, h)
>>=-eq-returned (raised e) f h = cc

pub returned-injective {ℓ} : {A : Type ℓ} {g h : A} → returned g ≡ returned h → g ≡ h
returned-injective e = cc

marks-append :
    (clusters : List Text) (g h : Graph)
    → marks clusters (g ⧺ h) ≡ marks clusters g ++ marks clusters h
unfolding marks ◌⧺◌
marks-append clusters end h = refl
marks-append clusters (node name label ⨾ g) h =
    ap (λ t. node_at clusters name label ∷ t) (marks-append clusters g h)
marks-append clusters (edge tail head ⨾ g) h =
    ap (λ t. edge_at clusters tail head ∷ t) (marks-append clusters g h)
marks-append clusters (subgraph name label body ⨾ g) h =
    ap (λ t. cluster_at clusters name label ∷ t)
      (ap (λ t. marks (clusters ++ name ∷ []) body ++ t) (marks-append clusters g h)
        ∙ sym (
            append_assoc (marks (clusters ++ name ∷ []) body) (marks clusters g)
              (marks clusters h)))

-- The graphs of two parts, one behind the other.
joined :
    (clusters : List Text) (g h k : Graph) (xs ys : List Mark)
    → marks clusters g ≡ xs
    → marks clusters h ≡ ys
    → g ⧺ h ≡ k
    → marks clusters k ≡ xs ++ ys
joined clusters g h k xs ys p q e = cc (marks-append clusters g h)

member-given : (key : Text) (o : Option Text) (t : Text) → member key o ≡ returned t → given o ≡ t
member-given key none t e = absurd (cc)
member-given key (some u) t e = returned-injective e

element-type_at :
    (instances : List Instance) (index : ℕ) (x : Instance) (t : Text)
    → element instances index ≡ returned x
    → given x.type ≡ t
    → type_at instances index ≡ t
element-type_at [] index x t e f = absurd (cc)
element-type_at (y ∷ ys) zero x t e f =
    ap (λ (z : Instance). given z.type) (returned-injective e) ∙ f
element-type_at (y ∷ ys) (suc index) x t e f = element-type_at ys index x t e f

instance_label-full_label :
    (instances : List Instance) (i : ℕ) (type : Text) (inst_index : Option ℕ) (label : Text)
    → instance_label instances inst_index (label_of i type) ≡ returned label
    → label ≡ full_label instances i type inst_index
unfolding instance_label label_of
instance_label-full_label instances i type none label h = sym (returned-injective h)
instance_label-full_label instances i type (some index) label h =
    let (x, found, h') = >>=-eq-returned (element instances index) _ h in
    let (t, typed, h'') = >>=-eq-returned (member (codes "type") x.type) _ h' in
    let same =
      element-type_at instances index x t found (member-given (codes "type") x.type t typed) in
    sym (returned-injective h'')
    ∙ ap (λ u. plain_label i type ++ codes "(" ++ u ++ codes ")") (sym same)

depend_edges-marks :
    (clusters : List Text) (prefix : Text) (i : ℕ) (depends : List ℕ)
    → marks clusters (depend_edges prefix i depends) ≡ edges_to clusters prefix i (some depends)
unfolding depend_edges marks edges_to node_name
depend_edges-marks clusters prefix i [] = refl
depend_edges-marks clusters prefix i (d ∷ ds) =
    ap (λ t. edge_at clusters (prefix ++ str d) (prefix ++ str i) ∷ t)
      (depend_edges-marks clusters prefix i ds)

draw_edges-marks :
    (clusters : List Text) (prefix : Text) (i : ℕ) (actions : Actions) (g : Graph)
    → draw_edges prefix i actions ≡ returned g
    → marks clusters g ≡ edge_marks clusters prefix i actions
unfolding draw_edges marks edge_marks
draw_edges-marks clusters prefix i nil g h = ground arith
draw_edges-marks clusters prefix i (cons (action t s inst none) actions) g h = absurd (cc)
draw_edges-marks clusters prefix i (cons (action t s inst (some depends)) actions) g h =
    let (rest, others, h') = >>=-eq-returned (draw_edges prefix (i + 1) actions) _ h in
    joined clusters (depend_edges prefix i depends) rest g _ _
      (depend_edges-marks clusters prefix i depends)
      (draw_edges-marks clusters prefix (i + 1) actions rest others) (returned-injective h')

mutual
  unfolding draw_nodes marks node_marks node_name label_of

  draw_nodes-marks :
      (instances : List Instance) (clusters : List Text) (prefix : Text) (i : ℕ) (actions : Actions)
      (g : Graph)
      → draw_nodes instances prefix i actions ≡ returned g
      → marks clusters g ≡ node_marks instances clusters prefix i actions
  draw_nodes-marks instances clusters prefix i nil g h = ground arith
  draw_nodes-marks instances clusters prefix i (cons a actions) g h =
      let (calls, first, h') = >>=-eq-returned (draw_action instances prefix i a) _ h in
      let (rest, others, h'') =
        >>=-eq-returned (draw_nodes instances prefix (i + 1) actions) _ h' in
      joined clusters calls rest g _ _ (draw_action-marks instances clusters prefix i a calls first)
        (draw_nodes-marks instances clusters prefix (i + 1) actions rest others)
        (returned-injective h'')

  draw_action-marks :
      (instances : List Instance) (clusters : List Text) (prefix : Text) (i : ℕ) (a : Action)
      (g : Graph)
      → draw_action instances prefix i a ≡ returned g
      → marks clusters g ≡ action_marks instances clusters prefix i a
  draw_action-marks instances clusters prefix i (action none s inst depends) g h = absurd (cc)
  draw_action-marks instances clusters prefix i (action (some t) s inst depends) g h =
      let (sub, drawn, h') =
        >>=-eq-returned (draw_sub_plan instances i (label_of i t) (text_eq t loop_action) s) _ h in
      let (full, labelled, h'') =
        >>=-eq-returned (instance_label instances inst (label_of i t)) _ h' in
      let named = instance_label-full_label instances i t inst full labelled in
      joined clusters sub (node (node_name prefix i) full ⨾ end) g _ _
        (draw_sub_plan-marks instances clusters i t s (text_eq t loop_action) refl sub drawn)
        (ap (λ l. node_at clusters (prefix ++ str i) l ∷ []) named) (returned-injective h'')

  draw_sub_plan-marks :
      (instances : List Instance) (clusters : List Text) (i : ℕ) (t : Text) (s : SubPlan)
      (is_loop : Bool)
      → text_eq t loop_action ≡ is_loop
      → (g : Graph) → draw_sub_plan instances i (label_of i t) is_loop s ≡ returned g
      → marks clusters g ≡ sub_plan_marks instances clusters i t s
  draw_sub_plan-marks instances clusters i t absent true e g h = absurd (cc)
  draw_sub_plan-marks instances clusters i t absent false e g h = ground arith
  draw_sub_plan-marks instances clusters i t (present actions) false e g h =
      rw e (ap (marks clusters) (sym (returned-injective h)))
  draw_sub_plan-marks instances clusters i t (present actions) true e g h =
      let (nodes, drawn, h') = >>=-eq-returned (draw_nodes instances (str i) 0 actions) _ h in
      let (pairs, linked, h'') = >>=-eq-returned (draw_edges (str i) 0 actions) _ h' in
      let inner = clusters ++ cluster_name i ∷ [] in
      let body =
        joined inner nodes pairs (nodes ⧺ pairs) _ _
          (draw_nodes-marks instances inner (str i) 0 actions nodes drawn)
          (draw_edges-marks inner (str i) 0 actions pairs linked) refl in
      rw e (
        ap (marks clusters) (sym (returned-injective h''))
        ∙ ap (λ xs. cluster_at clusters (cluster_name i) (plain_label i t) ∷ xs)
            (append-nil (marks inner (nodes ⧺ pairs)) ∙ body))

-- Where `parse_actions` returns a graph, the graph shows, in this order and at every depth: for each
-- action of type "LoopAction" a cluster "cluster" with the index of the action, with the label of
-- index and type and inside it all that its sub-plan shows under the prefix of the bare index; behind
-- it the node of the action, whose name is the prefix and the index, and whose label is the index, the
-- type and, where "inst_index" is given, the type of that instance in brackets; and behind all nodes,
-- action by action and in the order of "depends", an edge from the node depended on to the node of the
-- action.
pub parse_actions-marks :
    (instances : List Instance) (actions : Actions) (prefix : Text) (g : Graph)
    → parse_actions instances actions prefix ≡ returned g
    → marks [] g ≡ node_marks instances [] prefix 0 actions ++ edge_marks [] prefix 0 actions
unfolding parse_actions
parse_actions-marks instances actions prefix g h =
    let (nodes, drawn, h') = >>=-eq-returned (draw_nodes instances prefix 0 actions) _ h in
    let (pairs, linked, h'') = >>=-eq-returned (draw_edges prefix 0 actions) _ h' in
    joined [] nodes pairs g _ _ (draw_nodes-marks instances [] prefix 0 actions nodes drawn)
      (draw_edges-marks [] prefix 0 actions pairs linked) (returned-injective h'')
