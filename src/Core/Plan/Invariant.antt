-- ===== src/Core/Plan/Invariant.antt =====
-- src/core/ChaosPlan.cpp, Action.h: what holds of every action whatever order the callbacks go on
-- in, and that no CHECK fails.
use nebula_chaos.Prelude.{ℕ, ◌≡◌, ◌≢◌, ◌⊎◌, inl, inr, refl, List, [], ◌∷◌, arith, subst}
use nebula_chaos.Core.Action.{
  ResultCode, Status, Promise, pending, value, exception, begin_run, finish_run, mark_failed,
}
use nebula_chaos.Core.Plan.{
  Plan, State, Phase, waiting, running, ran, Event, start, finish, throw, mark, settle, resume,
  Outcome, disabled, aborted, next, step, start_step, finish_step, throw_step, mark_step,
  settle_step, resume_step, run_events, launch,
}

-- The status and the promise of an action fit the phase of its callback.
abbrev pub Fits : Phase → Status → Promise → Type 0
Fits waiting s p = (s ≡ Status.init) × (p ≡ pending)
Fits running s p = (s ≡ Status.running) × (p ≡ pending)
Fits ran s p = (s ≡ Status.succeeded) × (p ≡ value) ⊎ (s ≡ Status.failed) × (p ≡ exception)
Fits _ s p = (s ≡ Status.failed) × (p ≡ exception)

abbrev pub FitsAt : State → ℕ → Type 0
FitsAt s i = Fits (s.phase i) (s.plan.action i).status (s.plan.action i).promise

abbrev pub IsConsistent : State → Type 0
IsConsistent s = (i : ℕ) → FitsAt s i

module _ (i j : ℕ) (s t : State) (hi : FitsAt s i) (hj : FitsAt s j) where
  start-FitsAt : start_step i s ≡ next t → FitsAt t j
  unfolding start_step begin_run
  start-FitsAt e = ground arith

  finish-FitsAt : (rc : ResultCode) → finish_step i rc s ≡ next t → FitsAt t j
  unfolding finish_step finish_run
  finish-FitsAt rc e = ground arith

  throw-FitsAt : throw_step i s ≡ next t → FitsAt t j
  unfolding throw_step mark_failed
  throw-FitsAt e = ground arith

  mark-FitsAt : mark_step i s ≡ next t → FitsAt t j
  unfolding mark_step mark_failed
  mark-FitsAt e = ground arith

  settle-FitsAt : settle_step i s ≡ next t → FitsAt t j
  unfolding settle_step
  settle-FitsAt e = ground arith

resume-FitsAt : (j : ℕ) (s t : State) → FitsAt s j → resume_step s ≡ next t → FitsAt t j
unfolding resume_step
resume-FitsAt j s t hj e = ground arith

-- No event aborts.
module _ (i : ℕ) (s : State) (hi : FitsAt s i) where
  start-ne-aborted : start_step i s ≢ aborted
  unfolding start_step begin_run
  start-ne-aborted e = ground arith

  finish-ne-aborted : (rc : ResultCode) → finish_step i rc s ≢ aborted
  unfolding finish_step finish_run
  finish-ne-aborted rc e = ground arith

  throw-ne-aborted : throw_step i s ≢ aborted
  unfolding throw_step mark_failed
  throw-ne-aborted e = ground arith

  mark-ne-aborted : mark_step i s ≢ aborted
  unfolding mark_step mark_failed
  mark-ne-aborted e = ground arith

  settle-ne-aborted : settle_step i s ≢ aborted
  unfolding settle_step
  settle-ne-aborted e = ground arith

pub step-ne-aborted : (ev : Event) (s : State) → IsConsistent s → step ev s ≢ aborted
unfolding step
step-ne-aborted (start i) s h = start-ne-aborted i s (h i)
step-ne-aborted (finish i rc) s h = finish-ne-aborted i s (h i) rc
step-ne-aborted (throw i) s h = throw-ne-aborted i s (h i)
step-ne-aborted (mark i) s h = mark-ne-aborted i s (h i)
step-ne-aborted (settle i) s h = settle-ne-aborted i s (h i)
step-ne-aborted resume s h = λ e. resume-ne-aborted s e
  where
    resume-ne-aborted : (s : State) → resume_step s ≢ aborted
    resume-ne-aborted s e = ground arith

pub step-IsConsistent :
    (ev : Event) (s t : State) → IsConsistent s → step ev s ≡ next t → IsConsistent t
unfolding step
step-IsConsistent (start i) s t h e j = start-FitsAt i j s t (h i) (h j) e
step-IsConsistent (finish i rc) s t h e j = finish-FitsAt i j s t (h i) (h j) rc e
step-IsConsistent (throw i) s t h e j = throw-FitsAt i j s t (h i) (h j) e
step-IsConsistent (mark i) s t h e j = mark-FitsAt i j s t (h i) (h j) e
step-IsConsistent (settle i) s t h e j = settle-FitsAt i j s t (h i) (h j) e
step-IsConsistent resume s t h e j = resume-FitsAt j s t (h j) e

pub Outcome-cases : (o : Outcome) → (o ≡ disabled) ⊎ (o ≡ aborted) ⊎ ((t : State) × (o ≡ next t))
Outcome-cases disabled = inl refl
Outcome-cases aborted = inr (inl refl)
Outcome-cases (next t) = inr (inr (t, refl))

-- What every event keeps holds after any events that are possible one after the other.
pub run_events-keeps {ℓ} :
    (P : State → Type ℓ)
    → ((ev : Event) (s t : State) → P s → step ev s ≡ next t → P t)
    → (es : List Event) (s t : State) → P s
    → run_events es s ≡ next t
    → P t
unfolding run_events
run_events-keeps P keep [] s t h e = subst P (cc) h
run_events-keeps P keep (ev ∷ es) s t h e = elim (Outcome-cases (step ev s)) [
  | inl d ↦ absurd (cc)
  | inr (inl a) ↦ absurd (cc)
  | inr (inr (u, q)) ↦ run_events-keeps P keep es u t (keep ev s u h q) (rw q at e)
]

-- A plan whose actions have not been run yet.
abbrev pub IsFresh : Plan → Type 0
IsFresh p = (i : ℕ) → (p.action i).status ≡ Status.init × ((p.action i).promise ≡ pending)

pub launch-IsConsistent : (p : Plan) (sink : ℕ) → IsFresh p → IsConsistent (launch p sink)
unfolding launch
launch-IsConsistent p sink h i = h i

run_events-ne-aborted : (es : List Event) (s : State) → IsConsistent s → run_events es s ≢ aborted
unfolding run_events
run_events-ne-aborted [] s h e = cc
run_events-ne-aborted (ev ∷ es) s h e = elim (Outcome-cases (step ev s)) [
  | inl d ↦ cc
  | inr (inl a) ↦ step-ne-aborted ev s h a
  | inr (inr (u, q)) ↦ run_events-ne-aborted es u (step-IsConsistent ev s u h q) (rw q at e)
]

-- From a plan whose actions have not been run yet, no order of callbacks fails a CHECK of `run` or
-- sets a promise twice, whatever the actions return or throw.
pub schedule-ne-aborted :
    (p : Plan) (sink : ℕ) (es : List Event) → IsFresh p → run_events es (launch p sink) ≢ aborted
schedule-ne-aborted p sink es h = run_events-ne-aborted es _ (launch-IsConsistent p sink h)
