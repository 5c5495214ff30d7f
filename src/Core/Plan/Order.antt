-- ===== src/Core/Plan/Order.antt =====
-- src/core/ChaosPlan.cpp: the order that the dependencies impose on the actions, in every state
-- that the callbacks can reach.
use mathlib.Core.Bool.{and-eq-true_iff}
use nebula_chaos.Prelude.{
  ℕ, ◌≡◌, ◌≢◌, inl, inr, refl, Bool, true, List, [], ◌∷◌, arith, ◌==◌, all, any, subst, ◌∙◌,
  Bool-cases, ==_iff,
}
use nebula_chaos.Core.Action.{ResultCode, Status, Promise, begin_run, finish_run, mark_failed}
use nebula_chaos.Core.Plan.{
  Plan, State, Phase, waiting, running, ran, marked, threw, skipped, Event, start, finish, throw,
  mark, settle, resume, next, step, start_step, finish_step, throw_step, mark_step, settle_step,
  resume_step, run_events, is_set, is_value, is_exception, promise_of, dependees_of, launch,
}
use nebula_chaos.Core.Plan.Invariant.{
  Fits, FitsAt, IsConsistent, IsFresh, step-IsConsistent, run_events-keeps,
}

-- What an event leaves of action `j`: its dependencies, and its promise where that was set.
abbrev KeepsAt : State → State → ℕ → Type 0
KeepsAt s t j =
    (dependees_of t j ≡ dependees_of s j)
    × (is_set (promise_of s j) ≡ true → promise_of t j ≡ promise_of s j)

module _ (i j : ℕ) (s t : State) (hi : FitsAt s i) where
  start-KeepsAt : start_step i s ≡ next t → KeepsAt s t j
  unfolding start_step begin_run
  start-KeepsAt e = (ground arith, λ h. ground arith)

  finish-KeepsAt : (rc : ResultCode) → finish_step i rc s ≡ next t → KeepsAt s t j
  unfolding finish_step finish_run
  finish-KeepsAt rc e = (ground arith, λ h. ground arith)

  throw-KeepsAt : throw_step i s ≡ next t → KeepsAt s t j
  unfolding throw_step mark_failed
  throw-KeepsAt e = (ground arith, λ h. ground arith)

  mark-KeepsAt : mark_step i s ≡ next t → KeepsAt s t j
  unfolding mark_step mark_failed
  mark-KeepsAt e = (ground arith, λ h. ground arith)

  settle-KeepsAt : settle_step i s ≡ next t → KeepsAt s t j
  unfolding settle_step
  settle-KeepsAt e = (ground arith, λ h. ground arith)

resume-KeepsAt : (j : ℕ) (s t : State) → resume_step s ≡ next t → KeepsAt s t j
unfolding resume_step
resume-KeepsAt j s t e = (ground arith, λ h. ground arith)

step-KeepsAt :
    (ev : Event) (s t : State) → IsConsistent s → step ev s ≡ next t → (j : ℕ) → KeepsAt s t j
unfolding step
step-KeepsAt (start i) s t h e j = start-KeepsAt i j s t (h i) e
step-KeepsAt (finish i rc) s t h e j = finish-KeepsAt i j s t (h i) rc e
step-KeepsAt (throw i) s t h e j = throw-KeepsAt i j s t (h i) e
step-KeepsAt (mark i) s t h e j = mark-KeepsAt i j s t (h i) e
step-KeepsAt (settle i) s t h e j = settle-KeepsAt i j s t (h i) e
step-KeepsAt resume s t h e j = resume-KeepsAt j s t e

-- An action whose `run` has been called has no dependee that failed or has not ended; one that
-- was marked as failed by its callback has a dependee that failed.
abbrev pub Backs : Phase → List ℕ → State → Type 0
Backs waiting ds s = Unit
Backs running ds s = all (λ d. is_value (promise_of s d)) ds ≡ true
Backs ran ds s = all (λ d. is_value (promise_of s d)) ds ≡ true
Backs threw ds s = all (λ d. is_value (promise_of s d)) ds ≡ true
Backs marked ds s = any (λ d. is_exception (promise_of s d)) ds ≡ true
Backs skipped ds s = any (λ d. is_exception (promise_of s d)) ds ≡ true

abbrev pub IsBacked : State → Type 0
IsBacked s = (i : ℕ) → Backs (s.phase i) (dependees_of s i) s

module _ (s t : State) (keeps : (j : ℕ) → KeepsAt s t j) where
  all-keeps :
      (ds : List ℕ)
      → all (λ d. is_value (promise_of s d)) ds ≡ true
      → all (λ d. is_value (promise_of t d)) ds ≡ true
  all-keeps [] h = refl
  all-keeps (d ∷ ds) h = ground (arith, keeps d, all-keeps ds)

  any-keeps :
      (ds : List ℕ)
      → any (λ d. is_exception (promise_of s d)) ds ≡ true
      → any (λ d. is_exception (promise_of t d)) ds ≡ true
  any-keeps [] h = h
  any-keeps (d ∷ ds) h = ground (arith, keeps d, any-keeps ds)

  Backs-keeps : (f : Phase) (ds : List ℕ) → Backs f ds s → Backs f ds t
  Backs-keeps waiting ds h = tt
  Backs-keeps running ds h = all-keeps ds h
  Backs-keeps ran ds h = all-keeps ds h
  Backs-keeps threw ds h = all-keeps ds h
  Backs-keeps marked ds h = any-keeps ds h
  Backs-keeps skipped ds h = any-keeps ds h

-- The phase that an event puts action `j` in is backed by the state before it.
module _ (i j : ℕ) (s t : State) (hj : Backs (s.phase j) (dependees_of s j) s) where
  start-Backs : start_step i s ≡ next t → Backs (t.phase j) (dependees_of s j) s
  unfolding start_step begin_run
  start-Backs e = ground arith

  finish-Backs :
      (rc : ResultCode) → finish_step i rc s ≡ next t → Backs (t.phase j) (dependees_of s j) s
  unfolding finish_step finish_run
  finish-Backs rc e = ground arith

  throw-Backs : throw_step i s ≡ next t → Backs (t.phase j) (dependees_of s j) s
  unfolding throw_step mark_failed
  throw-Backs e = ground arith

  mark-Backs : mark_step i s ≡ next t → Backs (t.phase j) (dependees_of s j) s
  unfolding mark_step mark_failed
  mark-Backs e = ground arith

  settle-Backs : settle_step i s ≡ next t → Backs (t.phase j) (dependees_of s j) s
  unfolding settle_step
  settle-Backs e = ground arith

  resume-Backs : resume_step s ≡ next t → Backs (t.phase j) (dependees_of s j) s
  unfolding resume_step
  resume-Backs e = ground arith

step-Backs :
    (ev : Event) (s t : State) (j : ℕ)
    → Backs (s.phase j) (dependees_of s j) s
    → step ev s ≡ next t
    → Backs (t.phase j) (dependees_of s j) s
unfolding step
step-Backs (start i) s t j h e = start-Backs i j s t h e
step-Backs (finish i rc) s t j h e = finish-Backs i j s t h rc e
step-Backs (throw i) s t j h e = throw-Backs i j s t h e
step-Backs (mark i) s t j h e = mark-Backs i j s t h e
step-Backs (settle i) s t j h e = settle-Backs i j s t h e
step-Backs resume s t j h e = resume-Backs j j s t h e

-- What holds in every reachable state of the plan `p`.
pub record IsReached (p : Plan) (s : State) : Type 0 where
  pub consistent : IsConsistent s
  pub backed : IsBacked s
  pub same_dependees : (i : ℕ) → dependees_of s i ≡ (p.action i).dependees

step-IsReached :
    (p : Plan) (ev : Event) (s t : State) → IsReached p s → step ev s ≡ next t → IsReached p t
step-IsReached p ev s t r e =
    let keeps = step-KeepsAt ev s t r.consistent e in
    record {
      consistent = step-IsConsistent ev s t r.consistent e;
      backed = λ j. rw ((keeps j).0) (
          Backs-keeps s t keeps (t.phase j) (dependees_of s j)
            (step-Backs ev s t j (r.backed j) e));
      same_dependees = λ j. (keeps j).0 ∙ r.same_dependees j;
    }

launch-IsReached : (p : Plan) (sink : ℕ) → IsFresh p → IsReached p (launch p sink)
unfolding launch
launch-IsReached p sink h = record { consistent = h; backed = λ i. tt; same_dependees = λ i. refl }

pub run_events-IsReached :
    (p : Plan) (sink : ℕ) (es : List Event) (t : State)
    → IsFresh p
    → run_events es (launch p sink) ≡ next t
    → IsReached p t
run_events-IsReached p sink es t h =
    run_events-keeps (IsReached p) (step-IsReached p) es _ t (launch-IsReached p sink h)

abbrev pub elem : ℕ → List ℕ → Bool
elem d ds = any (λ x. x == d) ds

-- `Upstream p j i`: the action `i` waits for `j`, directly or through others.
pub data Upstream (p : Plan) (j : ℕ) : ℕ → Type 0 where
  direct : (i : ℕ) → elem j (p.action i).dependees ≡ true → Upstream p j i
  through : (i k : ℕ) → elem k (p.action i).dependees ≡ true → Upstream p j k → Upstream p j i

-- The phases of an action whose `run` has been called.
abbrev pub WasRun : Phase → Type 0
WasRun running = Unit
WasRun ran = Unit
WasRun threw = Unit
WasRun _ = ⊥

all-elem :
    (test : ℕ → Bool) (ds : List ℕ) (d : ℕ) → all test ds ≡ true → elem d ds ≡ true → test d ≡ true
all-elem test [] d h m = absurd (cc)
all-elem test (x ∷ ds) d h m = elim (Bool-cases (x == d)) [
  | inl same ↦ subst (λ y. test y ≡ true) ((==_iff x d).0 same) ((and-eq-true_iff _ _).0 h).0
  | inr other ↦ all-elem test ds d ((and-eq-true_iff _ _).0 h).1 (rw other at m)
]

WasRun-of_value :
    (f : Phase) (st : Status) (q : Promise)
    → Fits f st q
    → is_value q ≡ true
    → WasRun f × (st ≡ Status.succeeded)
WasRun-of_value waiting st q h v = absurd (ground arith)
WasRun-of_value running st q h v = absurd (ground arith)
WasRun-of_value ran st q h v = (tt, ground arith)
WasRun-of_value threw st q h v = absurd (ground arith)
WasRun-of_value marked st q h v = absurd (ground arith)
WasRun-of_value skipped st q h v = absurd (ground arith)

all_of_WasRun :
    (f : Phase) (ds : List ℕ) (s : State)
    → Backs f ds s
    → WasRun f
    → all (λ d. is_value (promise_of s d)) ds ≡ true
all_of_WasRun waiting ds s h w = absurd w
all_of_WasRun running ds s h w = h
all_of_WasRun ran ds s h w = h
all_of_WasRun threw ds s h w = h
all_of_WasRun marked ds s h w = absurd w
all_of_WasRun skipped ds s h w = absurd w

failed_of_not-WasRun :
    (f : Phase) (st : Status) (q : Promise)
    → Fits f st q
    → ¬ WasRun f
    → f ≢ waiting
    → st ≡ Status.failed
failed_of_not-WasRun waiting st q h w n = absurd (n refl)
failed_of_not-WasRun marked st q h w n = h.0
failed_of_not-WasRun skipped st q h w n = h.0
failed_of_not-WasRun running st q h w n = absurd (w tt)
failed_of_not-WasRun ran st q h w n = absurd (w tt)
failed_of_not-WasRun threw st q h w n = absurd (w tt)

module _ (p : Plan) (s : State) (r : IsReached p s) where
  dependee-succeeded :
      (j i : ℕ)
      → WasRun (s.phase i)
      → elem j (p.action i).dependees ≡ true
      → WasRun (s.phase j) × ((s.plan.action j).status ≡ Status.succeeded)
  dependee-succeeded j i w m = WasRun-of_value (s.phase j) _ _ (r.consistent j) (
      all-elem (λ d. is_value (promise_of s d)) (dependees_of s i) j
        (all_of_WasRun (s.phase i) _ s (r.backed i) w) (rw (r.same_dependees i) m))

  Upstream-succeeded :
      (j i : ℕ)
      → Upstream p j i
      → WasRun (s.phase i)
      → WasRun (s.phase j) × ((s.plan.action j).status ≡ Status.succeeded)
  Upstream-succeeded j i (direct _ m) w = dependee-succeeded j i w m
  Upstream-succeeded j i (through _ k m u) w =
      Upstream-succeeded j k u (dependee-succeeded k i w m).0

-- Whatever order the callbacks go on in, and whatever the actions return or throw: an action is
-- run only after every action that it waits for, directly or through others, has been run and has
-- succeeded.
pub run-Upstream-succeeded :
    (p : Plan) (sink : ℕ) (es : List Event) (t : State) (i j : ℕ)
    → IsFresh p
    → run_events es (launch p sink) ≡ next t
    → Upstream p j i
    → WasRun (t.phase i)
    → WasRun (t.phase j) × ((t.plan.action j).status ≡ Status.succeeded)
run-Upstream-succeeded p sink es t i j h e u w =
    Upstream-succeeded p t (run_events-IsReached p sink es t h e) j i u w

-- A failure reaches every action behind it: where an action has failed, no action that waits for
-- it, directly or through others, is ever run, and those whose callback has gone on have failed.
pub failed-Upstream :
    (p : Plan) (sink : ℕ) (es : List Event) (t : State) (i j : ℕ)
    → IsFresh p
    → run_events es (launch p sink) ≡ next t
    → Upstream p j i
    → (t.plan.action j).status ≡ Status.failed
    → (¬ WasRun (t.phase i)) × (t.phase i ≢ waiting → (t.plan.action i).status ≡ Status.failed)
failed-Upstream p sink es t i j h e u f =
    let r = run_events-IsReached p sink es t h e in
    let never : ¬ WasRun (t.phase i) = λ w. cc ((Upstream-succeeded p t r j i u w).1) in
    (never, failed_of_not-WasRun (t.phase i) _ _ (r.consistent i) never)
