-- ===== src/Core/Plan/Progress/Ending.antt =====
-- src/core/ChaosPlan.cpp: how many steps the callbacks of a plan take, and where they end.
use nebula_chaos.Prelude.{
  ℕ, zero, suc, ◌+◌, ◌*◌, ◌<◌, ◌≤◌, ◌≡◌, ◌≢◌, ◌⊎◌, inl, inr, refl, true, false, List, [], ◌∷◌,
  arith, ◌==◌, if◌then◌else◌, subst, ◌∙◌, ap, Bool-cases, ==_iff, length,
}
use nebula_chaos.Core.Action.{ResultCode, Status, Promise, begin_run, finish_run, mark_failed}
use nebula_chaos.Core.Plan.{
  Plan, State, Phase, waiting, running, ran, marked, threw, skipped, Event, start, finish, throw,
  mark, settle, resume, disabled, next, step, start_step, finish_step, throw_step, mark_step,
  settle_step, resume_step, run_events, is_set, promise_of, launch, update,
}
use nebula_chaos.Core.Plan.Invariant.{Fits, IsConsistent, IsFresh, Outcome-cases, run_events-keeps}
use nebula_chaos.Core.Plan.Order.{run_events-IsReached}
use nebula_chaos.Core.Plan.Progress.{CanGoOn, IsOpen, IsRanked, next_of_not-disabled, go_on}

weight : Phase → ℕ
weight waiting = 3
weight running = 2
weight marked = 1
weight threw = 1
weight ran = 0
weight skipped = 0

-- What is left to do of the actions below `n`.
work : (ℕ → Phase) → ℕ → ℕ
unfolding weight
work f zero = 0
work f (suc n) = work f n + weight (f n)

work-update_outside :
    (f : ℕ → Phase) (i : ℕ) (v : Phase) (n : ℕ) → n ≤ i → work (update f i v) n ≡ work f n
unfolding work
work-update_outside f i v zero h = refl
work-update_outside f i v (suc n) h = ground (arith, work-update_outside f i v n)

work-update :
    (f : ℕ → Phase) (i : ℕ) (v : Phase) (n : ℕ)
    → i < n
    → work (update f i v) n + weight (f i) ≡ work f n + weight v
unfolding work
work-update f i v zero h = absurd (omega arith)
work-update f i v (suc n) h = elim (Bool-cases (i == n)) [
  | inl same ↦
      let e = (==_iff i n).0 same in
      rw (same, work-update_outside f i v n (omega arith)) (omega (arith, ap (λ k. weight (f k)) e))
  | inr other ↦ ground (arith, work-update f i v n)
]

-- An event moves the callback of one action of the plan on, or makes `schedule` return.
data Moves (s t : State) : Type 0 where
  moves :
      (i : ℕ) (f : Phase)
      → i < s.plan.size
      → t.phase ≡ update s.phase i f
      → weight f < weight (s.phase i)
      → t.returned ≡ s.returned
      → Moves s t
  returns : t.phase ≡ s.phase → s.returned ≡ false → t.returned ≡ true → Moves s t

-- Only actions of the plan have callbacks.
abbrev IsWithin : State → Type 0
IsWithin s = (i : ℕ) → (s.phase i ≡ waiting) ⊎ (i < s.plan.size)

module _ (i : ℕ) (s t : State) (within : (s.phase i ≡ waiting) ⊎ (i < s.plan.size)) where
  start-Moves : start_step i s ≡ next t → Moves s t
  unfolding start_step begin_run weight
  start-Moves e = moves i running (ground arith) (ground arith) (ground arith) (ground arith)

  finish-Moves : (rc : ResultCode) → finish_step i rc s ≡ next t → Moves s t
  unfolding finish_step finish_run weight
  finish-Moves rc e = moves i ran (ground arith) (ground arith) (ground arith) (ground arith)

  throw-Moves : throw_step i s ≡ next t → Moves s t
  unfolding throw_step mark_failed weight
  throw-Moves e = moves i threw (ground arith) (ground arith) (ground arith) (ground arith)

  mark-Moves : mark_step i s ≡ next t → Moves s t
  unfolding mark_step mark_failed weight
  mark-Moves e = moves i marked (ground arith) (ground arith) (ground arith) (ground arith)

  settle_cases :
      settle_step i s ≡ next t
      → (s.phase i ≡ marked) × (t.phase ≡ update s.phase i skipped) × (t.returned ≡ s.returned)
        ⊎ (s.phase i ≡ threw) × (t.phase ≡ update s.phase i ran) × (t.returned ≡ s.returned)
  unfolding settle_step
  settle_cases e = ground arith

  settle-Moves : settle_step i s ≡ next t → Moves s t
  unfolding settle_step weight
  settle-Moves e = elim (settle_cases e) [
    | inl (h, h', r) ↦ moves i skipped (ground arith) h' (ground arith) r
    | inr (h, h', r) ↦ moves i ran (ground arith) h' (ground arith) r
  ]

resume-Moves : (s t : State) → resume_step s ≡ next t → Moves s t
unfolding resume_step
resume-Moves s t e = returns (ground arith) (ground arith) (ground arith)

step-Moves : (ev : Event) (s t : State) → IsWithin s → step ev s ≡ next t → Moves s t
unfolding step
step-Moves (start i) s t h e = start-Moves i s t (h i) e
step-Moves (finish i rc) s t h e = finish-Moves i s t (h i) rc e
step-Moves (throw i) s t h e = throw-Moves i s t (h i) e
step-Moves (mark i) s t h e = mark-Moves i s t (h i) e
step-Moves (settle i) s t h e = settle-Moves i s t (h i) e
step-Moves resume s t h e = resume-Moves s t e

step_same :
    (ev : Event) (s t : State)
    → step ev s ≡ next t
    → (t.plan.size ≡ s.plan.size) × (t.sink ≡ s.sink)
unfolding step begin_run finish_run mark_failed
step_same (start i) s t e = ground arith
step_same (finish i rc) s t e = ground arith
step_same (throw i) s t e = ground arith
step_same (mark i) s t e = ground arith
step_same (settle i) s t e = ground arith
step_same resume s t e = ground arith

Moves-IsWithin : (s t : State) → IsWithin s → t.plan.size ≡ s.plan.size → Moves s t → IsWithin t
Moves-IsWithin s t h size (moves i f b p l r) j = ground (arith, h j, ap (λ g. g j) p)
Moves-IsWithin s t h size (returns p a b) j = ground (arith, h j, ap (λ g. g j) p)

abbrev left : State → ℕ
left s = work s.phase s.plan.size + (if s.returned then 0 else 1)

Moves-left : (s t : State) → t.plan.size ≡ s.plan.size → Moves s t → left t < left s
Moves-left s t size (moves i f b p l r) =
    rw (p, size, r) (omega (arith, work-update s.phase i f s.plan.size b))
Moves-left s t size (returns p a b) = rw (p, size, a, b) (omega arith)

record IsGoing (size sink : ℕ) (s : State) : Type 0 where
  within : IsWithin s
  same_size : s.plan.size ≡ size
  same_sink : s.sink ≡ sink

step-IsGoing :
    (size sink : ℕ) (ev : Event) (s t : State)
    → IsGoing size sink s
    → step ev s ≡ next t
    → IsGoing size sink t
step-IsGoing size sink ev s t g e =
    let (size', sink') = step_same ev s t e in
    record {
      within = Moves-IsWithin s t g.within size' (step-Moves ev s t g.within e);
      same_size = size' ∙ g.same_size;
      same_sink = sink' ∙ g.same_sink;
    }

run_events-left :
    (es : List Event) (s t : State)
    → IsWithin s
    → run_events es s ≡ next t
    → length es + left t ≤ left s
unfolding run_events
run_events-left [] s t h e =
    let same : s ≡ t = cc in subst (λ u. 0 + left u ≤ left s) same (omega arith)
run_events-left (ev ∷ es) s t h e = elim (Outcome-cases (step ev s)) [
  | inl d ↦ absurd (cc)
  | inr (inl a) ↦ absurd (cc)
  | inr (inr (u, q)) ↦
      let (size, _) = step_same ev s u q in
      let m = step-Moves ev s u h q in
      omega (
        arith,
        Moves-left s u size m,
        run_events-left es u t (Moves-IsWithin s u h size m) (rw q at e),
      )
]

work_waiting : (n : ℕ) → work (λ i. waiting) n ≡ 3 * n
unfolding work
work_waiting zero = refl
work_waiting (suc n) = omega (arith, work_waiting n)

launch-left : (p : Plan) (sink : ℕ) → left (launch p sink) ≡ 3 * p.size + 1
unfolding launch
launch-left p sink = omega (arith, work_waiting p.size)

launch-IsGoing : (p : Plan) (sink : ℕ) → IsGoing p.size sink (launch p sink)
unfolding launch
launch-IsGoing p sink = record { within = λ i. inl refl; same_size = refl; same_sink = refl }

is_set_of_closed :
    (f : Phase) (st : Status) (q : Promise) → Fits f st q → ¬ IsOpen f → is_set q ≡ true
is_set_of_closed waiting st q h c = absurd (c tt)
is_set_of_closed running st q h c = absurd (c tt)
is_set_of_closed marked st q h c = absurd (c tt)
is_set_of_closed threw st q h c = absurd (c tt)
is_set_of_closed ran st q h c = ground arith
is_set_of_closed skipped st q h c = ground arith

resume-ne-disabled :
    (t : State)
    → t.returned ≡ false
    → is_set (promise_of t t.sink) ≡ true
    → step resume t ≢ disabled
unfolding step
resume-ne-disabled t r h e = ground arith

returned_of_stuck :
    (t : State)
    → IsConsistent t
    → is_set (promise_of t t.sink) ≡ true
    → ¬ CanGoOn t
    → t.returned ≡ true
returned_of_stuck t c h stuck = elim (Bool-cases t.returned) [
  | inl yet ↦ yet
  | inr not_yet ↦ absurd (stuck (next_of_not-disabled resume t c (resume-ne-disabled t not_yet h)))
]

-- Whatever the actions do, the callbacks of a plan take at most three steps for each action, and
-- one more for `schedule`; and where `rank` falls along the dependencies, they can stop only when
-- every action has ended and `schedule` has returned.
pub schedule_ends :
    (rank : ℕ → ℕ) (p : Plan) (sink : ℕ) (es : List Event) (t : State)
    → IsRanked rank p
    → sink < p.size
    → IsFresh p
    → run_events es (launch p sink) ≡ next t
    → (length es ≤ 3 * p.size + 1)
      × (¬ CanGoOn t → ((i : ℕ) → i < p.size → ¬ IsOpen (t.phase i)) × (t.returned ≡ true))
schedule_ends rank p sink es t ranked b h e =
    let r = run_events-IsReached p sink es t h e in
    let going =
      run_events-keeps (IsGoing p.size sink) (step-IsGoing p.size sink) es _ t
        (launch-IsGoing p sink) e in
    let start_within = (launch-IsGoing p sink).within in
    let closed = λ (stuck : ¬ CanGoOn t) (i : ℕ) (in_plan : i < p.size) (o : IsOpen (t.phase i)).
      stuck (go_on rank p t ranked r going.same_size (suc (rank i)) i (omega arith) in_plan o) in
    (
      omega (arith, launch-left p sink, run_events-left es _ t start_within e),
      λ stuck. (
        closed stuck,
        returned_of_stuck t r.consistent
            (is_set_of_closed (t.phase t.sink) _ _ (r.consistent t.sink)
              (closed stuck t.sink (rw going.same_sink b)))
            stuck,
      ),
    )
