-- ===== src/FlowChart.antt =====
-- src/tools/FlowChart.py: the Graphviz chart of a plan. The json values that it reads are data
-- types in which a missing key is `none` or `absent`; the graph is the list of calls that are
-- made on it, with the body of each subgraph inside the subgraph.
pub mod Calls
pub mod WellFormed
pub mod Names
pub mod Shared
use nebula_chaos.Prelude.{
  ℕ, zero, suc, ◌+◌, Bool, Option, none, some, List, [], ◌∷◌, ◌++◌, if◌then◌else◌, Text, codes,
  text_eq, str,
}

-- What Python raises on a missing key and on an index out of range.
pub data Error : Type 0 where
  key_error : Text → Error
  index_error : Error

pub data Attempt {ℓ} (A : Type ℓ) : Type ℓ where
  raised : Error → Attempt A
  returned : A → Attempt A

infixl 5 ◌>>=◌
abbrev pub ◌>>=◌ {ℓ κ} : {A : Type ℓ} {B : Type κ} → Attempt A → (A → Attempt B) → Attempt B
raised why >>= go = raised why
returned val >>= go = go val

-- action[key], where `none` is a missing key
abbrev pub member {ℓ} : {A : Type ℓ} → Text → Option A → Attempt A
member key none = raised (key_error key)
member key (some a) = returned a

-- instances[index]
abbrev pub element {ℓ} : {A : Type ℓ} → List A → ℕ → Attempt A
element [] i = raised index_error
element (x ∷ xs) zero = returned x
element (x ∷ xs) (suc i) = element xs i

-- One json object of "instances"; of its fields the chart reads "type".
pub record Instance : Type 0 where
  pub type : Option Text

-- One json object of "actions", with the fields that the chart reads.
mutual
  pub data Action : Type 0 where
    action :
        (type : Option Text) (sub_plan : SubPlan) (inst_index : Option ℕ)
        (depends : Option (List ℕ))
        → Action

  pub data SubPlan : Type 0 where
    absent : SubPlan
    present : Actions → SubPlan

  pub data Actions : Type 0 where
    nil : Actions
    cons : Action → Actions → Actions

-- A call on a graph: node(name, label), edge(tail, head), and a subgraph with its own calls.
infixr 67 ◌⨾◌
mutual
  pub data Call : Type 0 where
    node : (name label : Text) → Call
    edge : (tail head : Text) → Call
    subgraph : (name label : Text) → Graph → Call

  pub data Graph : Type 0 where
    end : Graph
    ◌⨾◌ : Call → Graph → Graph

infixr 65 ◌⧺◌
unfoldable pub ◌⧺◌ : Graph → Graph → Graph
end ⧺ h = h
(c ⨾ g) ⧺ h = c ⨾ (g ⧺ h)

-- The keys, and the texts that the labels are made of.
abbrev pub loop_action : Text
loop_action = codes "LoopAction"

unfoldable pub node_name : Text → ℕ → Text
node_name prefix i = prefix ++ str i

-- The label of an action before the type of its instance is added to it.
unfoldable pub label_of : ℕ → Text → Text
label_of i action_type = str i ++ codes ": " ++ action_type

-- "if "inst_index" in action": the type of the instance, in brackets, behind the label.
unfoldable pub instance_label : List Instance → Option ℕ → Text → Attempt Text
instance_label instances none label = returned label
instance_label instances (some index) label = do
  instance' ← element instances index
  type ← member (codes "type") instance'.type
  returned (label ++ codes "(" ++ type ++ codes ")")

-- The inner loop over "depends".
unfoldable pub depend_edges : Text → ℕ → List ℕ → Graph
depend_edges prefix i [] = end
depend_edges prefix i (depend ∷ depends) =
    edge (node_name prefix depend) (node_name prefix i) ⨾ depend_edges prefix i depends

abbrev pub depends_of : Action → Option (List ℕ)
depends_of (action type sub_plan inst_index depends) = depends

-- The second loop of `parseActions`, from the action of number `i` on.
unfoldable pub draw_edges : Text → ℕ → Actions → Attempt Graph
unfolding depend_edges node_name ◌⧺◌
draw_edges prefix i nil = returned end
draw_edges prefix i (cons a actions) = do
  depends ← member (codes "depends") (depends_of a)
  rest ← draw_edges prefix (i + 1) actions
  returned (depend_edges prefix i depends ⧺ rest)

-- The first loop of `parseActions`, from the action of number `i` on. A subgraph is drawn by
-- `parseActions` itself, whose two loops stand in `draw_sub_plan`.
unfoldable mutual
  unfolding label_of instance_label node_name ◌⧺◌ draw_edges

  pub draw_nodes : List Instance → Text → ℕ → Actions → Attempt Graph
  draw_nodes instances prefix i nil = returned end
  draw_nodes instances prefix i (cons a actions) = do
    calls ← draw_action instances prefix i a
    rest ← draw_nodes instances prefix (i + 1) actions
    returned (calls ⧺ rest)

  pub draw_action : List Instance → Text → ℕ → Action → Attempt Graph
  draw_action instances prefix i (action type sub_plan inst_index depends) = do
    action_type ← member (codes "type") type
    let label = label_of i action_type
    sub ← draw_sub_plan instances i label (text_eq action_type loop_action) sub_plan
    full_label ← instance_label instances inst_index label
    returned (sub ⧺ node (node_name prefix i) full_label ⨾ end)

  pub draw_sub_plan : List Instance → ℕ → Text → Bool → SubPlan → Attempt Graph
  draw_sub_plan instances i label is_loop absent =
      if is_loop then raised (key_error (codes "sub_plan")) else returned end
  draw_sub_plan instances i label is_loop (present actions) =
      let drawn : Attempt Graph = (do
        nodes ← draw_nodes instances (str i) 0 actions
        edges ← draw_edges (str i) 0 actions
        returned (subgraph (codes "cluster" ++ str i) label (nodes ⧺ edges) ⨾ end)) in
      if is_loop then drawn else returned end

unfoldable pub parse_actions : List Instance → Actions → Text → Attempt Graph
unfolding draw_edges draw_nodes ◌⧺◌
parse_actions instances actions prefix = do
  nodes ← draw_nodes instances prefix 0 actions
  edges ← draw_edges prefix 0 actions
  returned (nodes ⧺ edges)

-- `parseJson` draws the whole plan under the prefix "main".
unfoldable pub parse_json : List Instance → Actions → Attempt Graph
unfolding parse_actions
parse_json instances actions = parse_actions instances actions (codes "main")
