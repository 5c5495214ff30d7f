-- ===== src/FlowChart/Names.antt =====
-- src/tools/FlowChart.py: the names of the nodes, which Graphviz tells nodes apart by.
use mathlib.Core.List.{append_cancel_left}
use nebula_chaos.Prelude.{
  ℕ, zero, suc, ◌+◌, ◌≡◌, refl, sym, ap, ◌∙◌, subst, Bool, true, false, none, some, List, [], ◌∷◌,
  ◌++◌, append-nil, arith, Text, str, str_injective, text_eq, get_elem?,
}
use nebula_chaos.FlowChart.{
  returned, Instance, Action, action, SubPlan, absent, present, Actions, nil, cons, node, edge,
  subgraph, Graph, end, ◌⨾◌, ◌⧺◌, node_name, label_of, instance_label, depend_edges, draw_edges,
  draw_nodes, draw_action, draw_sub_plan, parse_actions, loop_action,
}
use nebula_chaos.FlowChart.Calls.{>>=-eq-returned, returned-injective}

-- The names of the nodes of a graph itself, those of its subgraphs left out.
unfoldable pub own_names : Graph → List Text
own_names end = []
own_names (node name label ⨾ g) = name ∷ own_names g
own_names (edge tail head ⨾ g) = own_names g
own_names (subgraph name label body ⨾ g) = own_names g

-- No two of the texts are the same.
pub AreDistinct : List Text → Type 0
AreDistinct names =
    (i j : ℕ) (name : Text) → get_elem? names i ≡ some name → get_elem? names j ≡ some name → i ≡ j

-- In every subgraph, at every depth, the nodes have different names.
unfoldable pub AreNamed : Graph → Type 0
unfolding own_names AreDistinct
AreNamed end = Unit
AreNamed (node name label ⨾ g) = AreNamed g
AreNamed (edge tail head ⨾ g) = AreNamed g
AreNamed (subgraph name label body ⨾ g) = AreDistinct (own_names body) × AreNamed body × AreNamed g

names_from : Text → ℕ → Actions → List Text
names_from prefix i nil = []
names_from prefix i (cons a actions) = (prefix ++ str i) ∷ names_from prefix (i + 1) actions

names_from-at :
    (prefix : Text) (i : ℕ) (actions : Actions) (k : ℕ) (name : Text)
    → get_elem? (names_from prefix i actions) k ≡ some name
    → name ≡ prefix ++ str (i + k)
unfolding names_from
names_from-at prefix i nil k name e = absurd (cc)
names_from-at prefix i (cons a actions) zero name e =
    let same : prefix ++ str i ≡ name = cc (e) in sym same ∙ ap (λ n. prefix ++ str n) (omega arith)
names_from-at prefix i (cons a actions) (suc k) name e =
    names_from-at prefix (i + 1) actions k name e ∙ ap (λ n. prefix ++ str n) (omega arith)

names_from-AreDistinct :
    (prefix : Text) (i : ℕ) (actions : Actions) → AreDistinct (names_from prefix i actions)
unfolding AreDistinct
names_from-AreDistinct prefix i actions j k name e f =
    let same : prefix ++ str (i + j) ≡ prefix ++ str (i + k) =
      sym (names_from-at prefix i actions j name e) ∙ names_from-at prefix i actions k name f in
    let sum = str_injective (i + j) (i + k) (append_cancel_left prefix _ _ same) in omega arith

-- A part of the drawing with its own names, in which all subgraphs have different names.
record Names (g : Graph) (names : List Text) : Type 0 where
  own : own_names g ≡ names
  inside : AreNamed g

own_names-append : (g h : Graph) → own_names (g ⧺ h) ≡ own_names g ++ own_names h
unfolding own_names ◌⧺◌
own_names-append end h = refl
own_names-append (node name label ⨾ g) h = ap (λ t. name ∷ t) (own_names-append g h)
own_names-append (edge tail head ⨾ g) h = own_names-append g h
own_names-append (subgraph name label body ⨾ g) h = own_names-append g h

AreNamed-append : (g h : Graph) → AreNamed g → AreNamed h → AreNamed (g ⧺ h)
unfolding AreNamed ◌⧺◌
AreNamed-append end h p q = q
AreNamed-append (node name label ⨾ g) h p q = AreNamed-append g h p q
AreNamed-append (edge tail head ⨾ g) h p q = AreNamed-append g h p q
AreNamed-append (subgraph name label body ⨾ g) h (d, b, p) q = (d, b, AreNamed-append g h p q)

Names-append :
    (g h k : Graph) (xs ys : List Text) → Names g xs → Names h ys → g ⧺ h ≡ k → Names k (xs ++ ys)
Names-append g h k xs ys p q e =
    subst (λ x. Names x (xs ++ ys)) e
      (record {
        own = cc (own_names-append g h, p.own, q.own);
        inside = AreNamed-append g h p.inside q.inside;
      })

depend_edges-Names :
    (prefix : Text) (i : ℕ) (depends : List ℕ) → Names (depend_edges prefix i depends) []
unfolding depend_edges own_names AreNamed
depend_edges-Names prefix i [] = record { own = refl; inside = tt }
depend_edges-Names prefix i (d ∷ ds) =
    let rest = depend_edges-Names prefix i ds in record { own = rest.own; inside = rest.inside }

draw_edges-Names :
    (prefix : Text) (i : ℕ) (actions : Actions) (g : Graph)
    → draw_edges prefix i actions ≡ returned g
    → Names g []
unfolding draw_edges own_names AreNamed
draw_edges-Names prefix i nil g h =
    subst (λ x. Names x []) (returned-injective h) (record { own = refl; inside = tt })
draw_edges-Names prefix i (cons (action t s inst none) actions) g h = absurd (cc)
draw_edges-Names prefix i (cons (action t s inst (some depends)) actions) g h =
    let (rest, others, h') = >>=-eq-returned (draw_edges prefix (i + 1) actions) _ h in
    Names-append (depend_edges prefix i depends) rest g [] [] (depend_edges-Names prefix i depends)
      (draw_edges-Names prefix (i + 1) actions rest others) (returned-injective h')

-- The nodes and edges of one list of actions.
list-Names :
    (prefix : Text) (actions : Actions) (nodes pairs g : Graph)
    → nodes ⧺ pairs ≡ g
    → Names nodes (names_from prefix 0 actions)
    → Names pairs []
    → AreDistinct (own_names g) × AreNamed g
list-Names prefix actions nodes pairs g e p q =
    let all = Names-append nodes pairs g _ _ p q e in
    (
      subst AreDistinct (sym (all.own ∙ append-nil (names_from prefix 0 actions)))
          (names_from-AreDistinct prefix 0 actions),
      all.inside,
    )

mutual
  unfolding draw_nodes own_names AreNamed names_from node_name

  draw_nodes-Names :
      (instances : List Instance) (prefix : Text) (i : ℕ) (actions : Actions) (g : Graph)
      → draw_nodes instances prefix i actions ≡ returned g
      → Names g (names_from prefix i actions)
  draw_nodes-Names instances prefix i nil g h =
      subst (λ x. Names x []) (returned-injective h) (record { own = refl; inside = tt })
  draw_nodes-Names instances prefix i (cons a actions) g h =
      let (calls, first, h') = >>=-eq-returned (draw_action instances prefix i a) _ h in
      let (rest, others, h'') =
        >>=-eq-returned (draw_nodes instances prefix (i + 1) actions) _ h' in
      Names-append calls rest g _ _ (draw_action-Names instances prefix i a calls first)
        (draw_nodes-Names instances prefix (i + 1) actions rest others) (returned-injective h'')

  draw_action-Names :
      (instances : List Instance) (prefix : Text) (i : ℕ) (a : Action) (g : Graph)
      → draw_action instances prefix i a ≡ returned g
      → Names g ((prefix ++ str i) ∷ [])
  draw_action-Names instances prefix i (action none s inst depends) g h = absurd (cc)
  draw_action-Names instances prefix i (action (some t) s inst depends) g h =
      let (sub, drawn, h') =
        >>=-eq-returned (draw_sub_plan instances i (label_of i t) (text_eq t loop_action) s) _ h in
      let (full, labelled, h'') =
        >>=-eq-returned (instance_label instances inst (label_of i t)) _ h' in
      Names-append sub (node (node_name prefix i) full ⨾ end) g _ _
        (draw_sub_plan-Names instances i (label_of i t) (text_eq t loop_action) s sub drawn)
        (record { own = refl; inside = tt }) (returned-injective h'')

  draw_sub_plan-Names :
      (instances : List Instance) (i : ℕ) (label : Text) (is_loop : Bool) (s : SubPlan) (g : Graph)
      → draw_sub_plan instances i label is_loop s ≡ returned g
      → Names g []
  draw_sub_plan-Names instances i label true absent g h = absurd (cc)
  draw_sub_plan-Names instances i label false absent g h =
      subst (λ x. Names x []) (returned-injective h) (record { own = refl; inside = tt })
  draw_sub_plan-Names instances i label false (present actions) g h =
      subst (λ x. Names x []) (returned-injective h) (record { own = refl; inside = tt })
  draw_sub_plan-Names instances i label true (present actions) g h =
      let (nodes, drawn, h') = >>=-eq-returned (draw_nodes instances (str i) 0 actions) _ h in
      let (pairs, linked, h'') = >>=-eq-returned (draw_edges (str i) 0 actions) _ h' in
      let body =
        list-Names (str i) actions nodes pairs _ refl
          (draw_nodes-Names instances (str i) 0 actions nodes drawn)
          (draw_edges-Names (str i) 0 actions pairs linked) in
      subst (λ x. Names x []) (returned-injective h'')
        (record { own = refl; inside = (body.0, body.1, tt) })

-- Where `parse_actions` returns a graph, the nodes of the graph itself have different names, and so
-- have the nodes of each subgraph, at every depth.
pub parse_actions-AreDistinct :
    (instances : List Instance) (actions : Actions) (prefix : Text) (g : Graph)
    → parse_actions instances actions prefix ≡ returned g
    → AreDistinct (own_names g) × AreNamed g
unfolding parse_actions
parse_actions-AreDistinct instances actions prefix g h =
    let (nodes, drawn, h') = >>=-eq-returned (draw_nodes instances prefix 0 actions) _ h in
    let (pairs, linked, h'') = >>=-eq-returned (draw_edges prefix 0 actions) _ h' in
    list-Names prefix actions nodes pairs g (returned-injective h'')
      (draw_nodes-Names instances prefix 0 actions nodes drawn)
      (draw_edges-Names prefix 0 actions pairs linked)
