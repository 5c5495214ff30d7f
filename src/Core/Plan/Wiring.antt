-- ===== src/Core/Plan/Wiring.antt =====
-- src/core/ChaosPlan.cpp: the source and the sink that `schedule` adds to the graph.
pub mod Sink
use nebula_chaos.Prelude.{
  ℕ, zero, suc, ◌+◌, ◌-◌, ◌<◌, ◌≡◌, inl, inr, refl, Bool, true, false, ◌&&◌, ◌||◌, List, [], ◌∷◌,
  ◌++◌, arith, ltb, lt→ltb, ◌==◌, if◌then◌else◌, subst, ◌∙◌, Bool-cases, ==_iff, append-nil,
  append_assoc,
}
use nebula_chaos.Core.Action.{Action}
use nebula_chaos.Core.Plan.{
  Plan, numbered, update, add_dependency, select, is_root, is_leaf, link_leaves, link_roots, wire,
}
use nebula_chaos.Core.Plan.Order.{elem}

elem-append : (d : ℕ) (xs ys : List ℕ) → elem d (xs ++ ys) ≡ elem d xs || elem d ys
elem-append d [] ys = refl
elem-append d (x ∷ xs) ys = ground (arith, elem-append d xs ys)

elem-select : (test : ℕ → Bool) (n d : ℕ) → elem d (select test n) ≡ ltb d n && test d
unfolding select
elem-select test zero d = ground arith
elem-select test (suc n) d =
    elem-append d (select test n) _ ∙ rw (elem-select test n d) (select_last (test n) refl)
  where
    select_last :
        (b : Bool)
        → test n ≡ b
        → (ltb d n && test d) || elem d (if b then n ∷ [] else []) ≡ ltb d (suc n) && test d
    select_last true e = elim (Bool-cases (n == d)) [
      | inl same ↦
          let q : test d ≡ true = subst (λ k. test k ≡ true) ((==_iff n d).0 same) e in ground arith
      | inr other ↦ ground arith
    ]
    select_last false e = elim (Bool-cases (n == d)) [
      | inl same ↦
          let q : test d ≡ false = subst (λ k. test k ≡ false) ((==_iff n d).0 same) e in
          ground arith
      | inr other ↦ ground arith
    ]

add_dependency-dependees :
    (x y : ℕ) (f : ℕ → Action) (j : ℕ)
    → (add_dependency x y f j).dependees
      ≡ (if y == j then (f j).dependees ++ x ∷ [] else (f j).dependees)
unfolding add_dependency
add_dependency-dependees x y f j = ground arith

link_leaves-dependees :
    (xs : List ℕ) (sink : ℕ) (f : ℕ → Action) (j : ℕ)
    → (link_leaves xs sink f j).dependees
      ≡ (if sink == j then (f j).dependees ++ xs else (f j).dependees)
unfolding link_leaves
link_leaves-dependees [] sink f j = ground (arith, append-nil (f j).dependees)
link_leaves-dependees (x ∷ xs) sink f j = ground (
  arith,
  link_leaves-dependees xs sink (add_dependency x sink f) j,
  add_dependency-dependees x sink f j,
  append_assoc (f j).dependees (x ∷ []) xs,
)

link_roots-dependees :
    (xs : List ℕ) (source : ℕ) (f : ℕ → Action) (d j : ℕ)
    → elem d (link_roots xs source f j).dependees
      ≡ elem d (f j).dependees || (elem j xs && source == d)
unfolding link_roots
link_roots-dependees [] source f d j = ground arith
link_roots-dependees (x ∷ xs) source f d j = ground (
  arith,
  link_roots-dependees xs source (add_dependency source x f) d j,
  add_dependency-dependees source x f j,
  elem-append d (f j).dependees (source ∷ []),
)

module _ (a b : Action) (p : Plan) where
  -- The graph with the sink and the source in it, before the roots are linked.
  abbrev pub with_sink : ℕ → Action
  with_sink =
      update
        (link_leaves (select (is_leaf p.action) p.size) p.size
          (update p.action p.size (numbered p.size a)))
        (suc p.size) (numbered (suc p.size) b)

  pub wire-action :
      (wire a b p).action ≡ link_roots (select (is_root p.action) p.size) (suc p.size) with_sink
  unfolding wire
  wire-action = refl

  pub wire-size : (wire a b p).size ≡ suc (suc p.size)
  unfolding wire
  wire-size = refl

  with_sink-dependees : (i : ℕ) → i < p.size → (with_sink i).dependees ≡ (p.action i).dependees
  with_sink-dependees i h = ground (
    arith,
    link_leaves-dependees (select (is_leaf p.action) p.size) p.size
        (update p.action p.size (numbered p.size a)) i,
  )

  with_sink-sink_dependees :
      a.dependees ≡ [] → (with_sink p.size).dependees ≡ select (is_leaf p.action) p.size
  with_sink-sink_dependees h = ground (
    arith,
    link_leaves-dependees (select (is_leaf p.action) p.size) p.size
        (update p.action p.size (numbered p.size a)) p.size,
  )

  -- What the actions of the plan wait for: what they waited for, and a root for the source too.
  pub wire-dependees :
      (d i : ℕ)
      → i < p.size
      → elem d ((wire a b p).action i).dependees
        ≡ elem d (p.action i).dependees || (is_root p.action i && suc p.size == d)
  wire-dependees d i h = rw wire-action (
      link_roots-dependees (select (is_root p.action) p.size) (suc p.size) with_sink d i
      ∙ rw (elem-select (is_root p.action) p.size i, with_sink-dependees i h, lt→ltb i p.size h))

  -- What the sink waits for, where it was new.
  pub wire-sink-dependees :
      (d : ℕ)
      → a.dependees ≡ []
      → elem d ((wire a b p).action p.size).dependees ≡ ltb d p.size && is_leaf p.action d
  wire-sink-dependees d h = rw wire-action (
      link_roots-dependees (select (is_root p.action) p.size) (suc p.size) with_sink d p.size
      ∙ rw
          (
            elem-select (is_root p.action) p.size p.size,
            with_sink-sink_dependees h,
            elem-select (is_leaf p.action) p.size d,
          )
          (ground arith))

  -- The source waits for nothing, where it was new.
  pub wire-source-dependees :
      (d : ℕ) → b.dependees ≡ [] → elem d ((wire a b p).action (suc p.size)).dependees ≡ false
  wire-source-dependees d h = rw wire-action (
      link_roots-dependees (select (is_root p.action) p.size) (suc p.size) with_sink d (suc p.size)
      ∙ rw (elem-select (is_root p.action) p.size (suc p.size)) (ground arith))
