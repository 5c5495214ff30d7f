-- ===== src/Core/Plan/Wiring/Sink.antt =====
-- src/core/ChaosPlan.cpp: what the run of the sink, which sends the email, says of the plan.
use nebula_chaos.Prelude.{
  ℕ, zero, suc, ◌+◌, ◌*◌, ◌<◌, ◌≤◌, ◌≡◌, ◌⊎◌, inl, inr, refl, true, List, [], ◌∷◌, arith, ltb,
  lt→ltb, ltb→lt, ◌==◌, if◌then◌else◌, subst, sym, ◌∙◌, Bool-cases, ==_iff, ==_self, length, is_nil,
}
use nebula_chaos.Core.Action.{Status, pending, Action}
use nebula_chaos.Core.Plan.{
  Plan, State, Event, next, run_events, launch, update, add_dependency, numbered, is_leaf,
  link_leaves, link_roots, wire,
}
use nebula_chaos.Core.Plan.Invariant.{IsFresh}
use nebula_chaos.Core.Plan.Order.{elem, Upstream, direct, through, WasRun, run-Upstream-succeeded}
use nebula_chaos.Core.Plan.Progress.{IsRanked, CanGoOn, IsOpen}
use nebula_chaos.Core.Plan.Progress.Ending.{schedule_ends}
use nebula_chaos.Core.Plan.Wiring.{
  with_sink, wire-action, wire-size, wire-dependees, wire-sink-dependees, wire-source-dependees,
}

Upstream-trans : (p : Plan) (j k i : ℕ) → Upstream p j k → Upstream p k i → Upstream p j i
Upstream-trans p j k i u (direct _ m) = through i k m u
Upstream-trans p j k i u (through _ l m v) = through i l m (Upstream-trans p j k l u v)

-- An acyclic graph whose two kinds of links agree: `rank` falls from an action to what it waits
-- for and is at most `bound`, and the actions that wait for `i` have `i` among their dependees.
pub record IsGraph (rank : ℕ → ℕ) (bound : ℕ) (p : Plan) : Type 0 where
  pub ranked : IsRanked rank p
  pub bounded : (i : ℕ) → i < p.size → rank i ≤ bound
  pub mirrored :
      (i x : ℕ)
      → i < p.size
      → elem x (p.action i).dependers ≡ true
      → (x < p.size) × (elem i (p.action x).dependees ≡ true)

nil_or_elem : (l : List ℕ) → (is_nil l ≡ true) ⊎ ((x : ℕ) × (elem x l ≡ true))
nil_or_elem [] = inl refl
nil_or_elem (x ∷ l) = inr (x, ground (arith, ==_self x))

module _ (a b : Action) (rank : ℕ → ℕ) (bound : ℕ) (p : Plan) (graph : IsGraph rank bound p)
    (new : a.dependees ≡ []) where
  leaf-Upstream : (i : ℕ) → i < p.size → is_leaf p.action i ≡ true → Upstream (wire a b p) i p.size
  leaf-Upstream i h leaf =
      direct p.size (wire-sink-dependees a b p i new ∙ rw (lt→ltb i p.size h, leaf))

  wire-Upstream : (fuel i : ℕ) → bound < fuel + rank i → i < p.size → Upstream (wire a b p) i p.size
  wire-Upstream zero i f h = absurd (omega (arith, graph.bounded i h))
  wire-Upstream (suc fuel) i f h = elim (nil_or_elem (p.action i).dependers) [
    | inl leaf ↦ leaf-Upstream i h leaf
    | inr (x, m) ↦
        let (in_plan, back) = graph.mirrored i x h m in
        let (_, above) = graph.ranked x i in_plan back in
        let linked : elem i ((wire a b p).action x).dependees ≡ true =
          wire-dependees a b p i x in_plan ∙ rw back in
        Upstream-trans (wire a b p) i x p.size (direct x linked)
          (wire-Upstream fuel x (omega arith) in_plan)
  ]

-- Linking changes neither a status nor a promise.
add_dependency_keeps :
    (x y : ℕ) (f : ℕ → Action) (j : ℕ)
    → ((add_dependency x y f j).status ≡ (f j).status)
      × ((add_dependency x y f j).promise ≡ (f j).promise)
unfolding add_dependency
add_dependency_keeps x y f j = ground arith

IsFreshAt : (ℕ → Action) → Type 0
IsFreshAt f = (i : ℕ) → (f i).status ≡ Status.init × ((f i).promise ≡ pending)

add_dependency-IsFreshAt :
    (x y : ℕ) (f : ℕ → Action) → IsFreshAt f → IsFreshAt (add_dependency x y f)
unfolding IsFreshAt
add_dependency-IsFreshAt x y f h i = ground (arith, h i, add_dependency_keeps x y f i)

link_leaves-IsFreshAt :
    (xs : List ℕ) (y : ℕ) (f : ℕ → Action) → IsFreshAt f → IsFreshAt (link_leaves xs y f)
unfolding link_leaves
link_leaves-IsFreshAt [] y f h = h
link_leaves-IsFreshAt (x ∷ xs) y f h =
    link_leaves-IsFreshAt xs y _ (add_dependency-IsFreshAt x y f h)

link_roots-IsFreshAt :
    (xs : List ℕ) (y : ℕ) (f : ℕ → Action) → IsFreshAt f → IsFreshAt (link_roots xs y f)
unfolding link_roots
link_roots-IsFreshAt [] y f h = h
link_roots-IsFreshAt (x ∷ xs) y f h = link_roots-IsFreshAt xs y _ (add_dependency-IsFreshAt y x f h)

update-IsFreshAt :
    (f : ℕ → Action) (n : ℕ) (a : Action)
    → IsFreshAt f
    → (a.status ≡ Status.init) × (a.promise ≡ pending)
    → IsFreshAt (update f n a)
unfolding IsFreshAt
update-IsFreshAt f n a h k i = ground (arith, h i)

-- An action that has just been made.
abbrev pub IsNew : Action → Type 0
IsNew a = (a.status ≡ Status.init) × (a.promise ≡ pending) × (a.dependees ≡ [])

pub wire-IsFresh : (a b : Action) (p : Plan) → IsNew a → IsNew b → IsFresh p → IsFresh (wire a b p)
unfolding IsFreshAt
wire-IsFresh a b p (sa, qa, _) (sb, qb, _) h = rw (wire-action a b p) (
    link_roots-IsFreshAt _ (suc p.size) (with_sink a b p) (
      update-IsFreshAt _ (suc p.size) (numbered (suc p.size) b)
        (link_leaves-IsFreshAt _ p.size _
          (update-IsFreshAt p.action p.size (numbered p.size a) h (sa, qa)))
        (sb, qb)))

-- `schedule` makes the action that sends the email wait for the whole plan: in every state that
-- the callbacks can reach, if its `run` has been called, every action of the plan has succeeded.
-- The graph of the plan is acyclic.
pub sink-ran-succeeded :
    (send_email begin : Action) (rank : ℕ → ℕ) (bound : ℕ) (p : Plan) (es : List Event) (t : State)
    → IsNew send_email
    → IsNew begin
    → IsFresh p
    → IsGraph rank bound p
    → run_events es (launch (wire send_email begin p) p.size) ≡ next t
    → WasRun (t.phase p.size)
    → (i : ℕ) → i < p.size
    → (t.plan.action i).status ≡ Status.succeeded
sink-ran-succeeded send_email begin rank bound p es t new new' fresh graph e ran i h =
    (run-Upstream-succeeded (wire send_email begin p) p.size es t p.size i
      (wire-IsFresh send_email begin p new new' fresh) e
      (wire-Upstream send_email begin rank bound p graph new.2 (suc bound) i (omega arith) h) ran).1

-- The source lies below the actions of the plan, and the sink above them.
abbrev pub ranks : (ℕ → ℕ) → ℕ → ℕ → ℕ → ℕ
ranks rank bound size i = if i == suc size then 0 else if i == size then bound + 2 else rank i + 1

module _ (a b : Action) (rank : ℕ → ℕ) (bound : ℕ) (p : Plan) (graph : IsGraph rank bound p)
    (new : a.dependees ≡ []) (new' : b.dependees ≡ []) where
  inner_ranked :
      (i d : ℕ)
      → i < p.size
      → elem d ((wire a b p).action i).dependees ≡ true
      → (d < suc (suc p.size)) × (ranks rank bound p.size d < ranks rank bound p.size i)
  inner_ranked i d h m =
      let m' = rw (wire-dependees a b p d i h) at m in
      elim (Bool-cases (elem d (p.action i).dependees)) [
        | inl old ↦ ground (arith, graph.ranked i d h old)
        | inr added ↦ ground arith
      ]

  sink_ranked :
      (d : ℕ)
      → elem d ((wire a b p).action p.size).dependees ≡ true
      → (d < suc (suc p.size)) × (ranks rank bound p.size d < ranks rank bound p.size p.size)
  sink_ranked d m =
      let m' = rw (wire-sink-dependees a b p d new) at m in ground (arith, graph.bounded d)

  -- What `IsRanked` wants of the action `i`.
  abbrev RankedAt : ℕ → Type 0
  RankedAt i =
      (d : ℕ)
      → elem d ((wire a b p).action i).dependees ≡ true
      → (d < suc (suc p.size)) × (ranks rank bound p.size d < ranks rank bound p.size i)

  source_ranked : RankedAt (suc p.size)
  source_ranked d m = absurd (cc (wire-source-dependees a b p d new'))

  all_ranked : (i : ℕ) → i < suc (suc p.size) → RankedAt i
  all_ranked i h d m = elim (Bool-cases (ltb i p.size)) [
    | inl inner ↦ inner_ranked i d (ltb→lt i p.size inner) m
    | inr outer ↦ elim (Bool-cases (i == p.size)) [
      | inl sink ↦ subst RankedAt (sym ((==_iff i p.size).0 sink)) sink_ranked d m
      | inr source ↦ subst RankedAt (let e : suc p.size ≡ i = ground arith in e) source_ranked d m
    ]
  ]

  pub wire-IsRanked : IsRanked (ranks rank bound p.size) (wire a b p)
  wire-IsRanked i d h m = rw (wire-size a b p) (all_ranked i (rw (wire-size a b p) at h) d m)

-- `schedule` comes to its end on every acyclic plan whose actions have not been run: its callbacks
-- take at most three steps for each action, the source and the sink included, and one more for
-- `schedule`; and they can stop only when every callback has ended and `schedule` has returned.
pub schedule_total :
    (send_email begin : Action) (rank : ℕ → ℕ) (bound : ℕ) (p : Plan) (es : List Event) (t : State)
    → IsNew send_email
    → IsNew begin
    → IsFresh p
    → IsGraph rank bound p
    → run_events es (launch (wire send_email begin p) p.size) ≡ next t
    → (length es ≤ 3 * (p.size + 2) + 1)
      × (¬ CanGoOn t → ((i : ℕ) → i < p.size + 2 → ¬ IsOpen (t.phase i)) × (t.returned ≡ true))
schedule_total send_email begin rank bound p es t new new' fresh graph e =
    let size : (wire send_email begin p).size ≡ p.size + 2 =
      wire-size send_email begin p ∙ (let q : suc (suc p.size) ≡ p.size + 2 = omega arith in q) in
    let (few, final) =
      schedule_ends (ranks rank bound p.size) (wire send_email begin p) p.size es t
        (wire-IsRanked send_email begin rank bound p graph new.2 new'.2) (rw size (omega arith))
        (wire-IsFresh send_email begin p new new' fresh) e in
    (
      omega (arith, few, size),
      λ stuck. let (closed, returned) = final stuck in (λ i h. closed i (rw size h), returned),
    )
