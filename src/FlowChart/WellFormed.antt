-- ===== src/FlowChart/WellFormed.antt =====
-- src/tools/FlowChart.py: on which inputs `parseActions` raises no exception.
use mathlib.Core.Path.{ap₂}
use nebula_chaos.Prelude.{
  ℕ, zero, suc, ◌+◌, ◌≡◌, refl, Bool, true, false, ◌&&◌, Option, none, some, List, [], ◌∷◌, arith,
  Text, text_eq, str, ap, ◌∙◌,
}
use nebula_chaos.FlowChart.{
  Attempt, returned, raised, ◌>>=◌, Instance, Action, action, SubPlan, absent, present, Actions,
  nil, cons, label_of, instance_label, depends_of, draw_edges, draw_nodes, draw_action,
  draw_sub_plan, parse_actions, loop_action,
}

abbrev pub is_returned {ℓ} : {A : Type ℓ} → Attempt A → Bool
is_returned (returned a) = true
is_returned (raised e) = false

abbrev pub is_some {ℓ} : {A : Type ℓ} → Option A → Bool
is_some none = false
is_some (some a) = true

-- "inst_index" is missing, or the number of an instance that has a "type".
pub has_instance : List Instance → Option ℕ → Bool
has_instance instances none = true
has_instance [] (some index) = false
has_instance (x ∷ xs) (some zero) = is_some x.type
has_instance (x ∷ xs) (some (suc index)) = has_instance xs (some index)

pub all_depend : Actions → Bool
all_depend nil = true
all_depend (cons a actions) = is_some (depends_of a) && all_depend actions

-- Every action has a "type", every loop action a sub-plan that can be drawn, and every
-- "inst_index" an instance.
mutual
  unfolding has_instance all_depend

  pub all_drawable : List Instance → Actions → Bool
  all_drawable instances nil = true
  all_drawable instances (cons a actions) = drawable instances a && all_drawable instances actions

  pub drawable : List Instance → Action → Bool
  drawable instances (action none s inst depends) = false
  drawable instances (action (some t) s inst depends) =
      sub_drawable instances (text_eq t loop_action) s && has_instance instances inst

  pub sub_drawable : List Instance → Bool → SubPlan → Bool
  sub_drawable instances false s = true
  sub_drawable instances true absent = false
  sub_drawable instances true (present actions) =
      all_drawable instances actions && all_depend actions

is_returned-bind {ℓ κ} :
    {A : Type ℓ} {B : Type κ} (m : Attempt A) (f : A → Attempt B) (b : Bool)
    → ((a : A) → is_returned (f a) ≡ b)
    → is_returned (m >>= f) ≡ is_returned m && b
is_returned-bind (returned a) f b h = h a
is_returned-bind (raised e) f b h = refl

is_returned-both {ℓ κ μ} :
    {A : Type ℓ} {B : Type κ} {C : Type μ} (m : Attempt A) (n : Attempt B) (f : A → B → C)
    → is_returned (m >>= λ a. n >>= λ b. returned (f a b)) ≡ is_returned m && is_returned n
is_returned-both (returned a) (returned b) f = refl
is_returned-both (returned a) (raised e) f = refl
is_returned-both (raised e) n f = refl

is_returned-map {ℓ κ} :
    {A : Type ℓ} {B : Type κ} (m : Attempt A) (f : A → B)
    → is_returned (m >>= λ a. returned (f a)) ≡ is_returned m
is_returned-map (returned a) f = refl
is_returned-map (raised e) f = refl

is_returned-element_type :
    (instances : List Instance) (index : ℕ) (label : Text)
    → is_returned (instance_label instances (some index) label)
      ≡ has_instance instances (some index)
unfolding instance_label has_instance
is_returned-element_type [] index label = refl
is_returned-element_type (x ∷ xs) zero label = ground arith
is_returned-element_type (x ∷ xs) (suc index) label = is_returned-element_type xs index label

is_returned-instance_label :
    (instances : List Instance) (inst : Option ℕ) (label : Text)
    → is_returned (instance_label instances inst label) ≡ has_instance instances inst
unfolding instance_label has_instance
is_returned-instance_label instances none label = refl
is_returned-instance_label instances (some index) label =
    is_returned-element_type instances index label

is_returned-draw_edges :
    (prefix : Text) (i : ℕ) (actions : Actions)
    → is_returned (draw_edges prefix i actions) ≡ all_depend actions
unfolding draw_edges all_depend
is_returned-draw_edges prefix i nil = refl
is_returned-draw_edges prefix i (cons a actions) =
    ground (arith, is_returned-draw_edges prefix (i + 1) actions)

mutual
  unfolding draw_nodes all_drawable

  is_returned-draw_nodes :
      (instances : List Instance) (prefix : Text) (i : ℕ) (actions : Actions)
      → is_returned (draw_nodes instances prefix i actions) ≡ all_drawable instances actions
  is_returned-draw_nodes instances prefix i nil = refl
  is_returned-draw_nodes instances prefix i (cons a actions) = ground (
    arith,
    is_returned-draw_action instances prefix i a,
    is_returned-draw_nodes instances prefix (i + 1) actions,
  )

  is_returned-draw_action :
      (instances : List Instance) (prefix : Text) (i : ℕ) (a : Action)
      → is_returned (draw_action instances prefix i a) ≡ drawable instances a
  is_returned-draw_action instances prefix i (action none s inst depends) = refl
  is_returned-draw_action instances prefix i (action (some t) s inst depends) =
      is_returned-bind (draw_sub_plan instances i (label_of i t) (text_eq t loop_action) s) _
        (has_instance instances inst)
        (λ sub.
          is_returned-map (instance_label instances inst (label_of i t)) _
          ∙ is_returned-instance_label instances inst (label_of i t))
      ∙ ap (λ b. b && has_instance instances inst)
          (is_returned-draw_sub_plan instances i (label_of i t) (text_eq t loop_action) s)

  is_returned-draw_sub_plan :
      (instances : List Instance) (i : ℕ) (label : Text) (is_loop : Bool) (s : SubPlan)
      → is_returned (draw_sub_plan instances i label is_loop s) ≡ sub_drawable instances is_loop s
  is_returned-draw_sub_plan instances i label false absent = refl
  is_returned-draw_sub_plan instances i label true absent = refl
  is_returned-draw_sub_plan instances i label false (present actions) = refl
  is_returned-draw_sub_plan instances i label true (present actions) =
      is_returned-both (draw_nodes instances (str i) 0 actions) (draw_edges (str i) 0 actions) _
      ∙ ap₂ ◌&&◌ (is_returned-draw_nodes instances (str i) 0 actions)
          (is_returned-draw_edges (str i) 0 actions)

-- `parse_actions` returns a graph exactly when every action has "type" and "depends", every
-- "inst_index" is the number of an instance with a "type", and every action of type "LoopAction"
-- has a "sub_plan" whose actions meet the same conditions. Otherwise it raises an exception.
pub is_returned-parse_actions :
    (instances : List Instance) (actions : Actions) (prefix : Text)
    → is_returned (parse_actions instances actions prefix)
      ≡ all_drawable instances actions && all_depend actions
unfolding parse_actions
is_returned-parse_actions instances actions prefix =
    is_returned-both (draw_nodes instances prefix 0 actions) (draw_edges prefix 0 actions) _
    ∙ ap₂ ◌&&◌ (is_returned-draw_nodes instances prefix 0 actions)
        (is_returned-draw_edges prefix 0 actions)
