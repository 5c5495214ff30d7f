-- ===== src/Core/Plan.antt =====
-- src/core/ChaosPlan.h and ChaosPlan.cpp: the plan, how `schedule` completes its graph, and the
-- callbacks that `schedule` leaves to the thread pool. The vector of actions is a function from
-- positions and its size. What the threads do is a list of events: each names a callback that
-- goes on, and its action; any list of events that are enabled is a possible order.
pub mod Invariant
pub mod Order
pub mod Wiring
pub mod Progress
use nebula_chaos.Prelude.{
  ℕ, zero, suc, Bool, true, false, ◌&&◌, not, Option, none, some, List, [], ◌∷◌, ◌++◌, ltb, ◌==◌,
  if◌then◌else◌, all, any, is_nil,
}
use nebula_chaos.Core.Action.{
  ResultCode, Status, Promise, pending, value, exception, Action, begin_run, finish_run,
  mark_failed,
}

-- The status of a plan.
pub data Verdict : Type 0 where
  succeeded failed : Verdict

pub record Plan : Type 0 where
  pub action : ℕ → Action
  pub size : ℕ
  pub status : Verdict
  -- whether `emailTo_` is not empty
  pub has_email : Bool

abbrev pub update {ℓ} : {A : Type ℓ} → (ℕ → A) → ℕ → A → ℕ → A
update f i v j = if i == j then v else f j

-- `if (action->id() < 0) action->setId(actions_.size());`
abbrev pub numbered : ℕ → Action → Action
numbered n a = record a { id = elim a.id [ none ↦ some n | some m ↦ some m ] }

unfoldable pub add_action : Action → Plan → Plan
add_action a p = record p { action = update p.action p.size (numbered p.size a); size = suc p.size }

unfoldable pub add_actions : List Action → Plan → Plan
unfolding add_action
add_actions [] p = p
add_actions (a ∷ as') p = add_actions as' (add_action a p)

-- x->addDependency(y): y waits for x.
unfoldable pub add_dependency : ℕ → ℕ → (ℕ → Action) → ℕ → Action
add_dependency x y f =
    let g = update f x (record (f x) { dependers = (f x).dependers ++ y ∷ [] }) in
    update g y (record (g y) { dependees = (g y).dependees ++ x ∷ [] })

-- The actions below `n` that pass the test, in order.
unfoldable pub select : (ℕ → Bool) → ℕ → List ℕ
select test zero = []
select test (suc n) = select test n ++ (if test n then n ∷ [] else [])

abbrev pub is_root : (ℕ → Action) → ℕ → Bool
is_root f i = is_nil (f i).dependees

abbrev pub is_leaf : (ℕ → Action) → ℕ → Bool
is_leaf f i = is_nil (f i).dependers

-- for (auto* action : leafActions) action->addDependency(sinkAction);
unfoldable pub link_leaves : List ℕ → ℕ → (ℕ → Action) → ℕ → Action
unfolding add_dependency
link_leaves [] sink f = f
link_leaves (x ∷ xs) sink f = link_leaves xs sink (add_dependency x sink f)

-- for (auto* action : rootActions) sourceAction->addDependency(action);
unfoldable pub link_roots : List ℕ → ℕ → (ℕ → Action) → ℕ → Action
unfolding add_dependency
link_roots [] source f = f
link_roots (x ∷ xs) source f = link_roots xs source (add_dependency source x f)

-- The part of `schedule` in front of the futures. The sink's position is the number of actions
-- that the plan had; the source stands behind it.
unfoldable pub wire : Action → Action → Plan → Plan
unfolding add_action select link_leaves link_roots
wire send_email begin p =
    let roots = select (is_root p.action) p.size in
    let leaves = select (is_leaf p.action) p.size in
    let q = add_action send_email p in
    let q' = record q { action = link_leaves leaves p.size q.action } in
    let r = add_action begin q' in record r { action = link_roots roots (suc p.size) r.action }

-- How far the callback of an action is. `collectAll` makes it wait for the dependees; it runs the
-- action, or marks it as failed; where it has marked the action or `doRun` has thrown, it still
-- has to set the status of the plan.
pub data Phase : Type 0 where
  waiting running ran marked threw skipped : Phase

pub record State : Type 0 where
  pub plan : Plan
  pub phase : ℕ → Phase
  pub sink : ℕ
  -- whether `schedule` has returned, and the plan's status in each email, the last one first
  pub returned : Bool
  pub emails : List Verdict

pub data Event : Type 0 where
  -- all dependees succeeded: `run` is called
  start : ℕ → Event
  -- `doRun` returns, and `run` returns
  finish : ℕ → ResultCode → Event
  -- `doRun` throws, and `thenError` calls `markFailed`
  throw : ℕ → Event
  -- a dependee failed: `markFailed`
  mark : ℕ → Event
  -- `status_ = Status::FAILED`
  settle : ℕ → Event
  -- `schedule` goes on behind the `wait`
  resume : Event

-- An event that cannot happen now; a failed CHECK or a promise that is set twice; the next state.
pub data Outcome : Type 0 where
  disabled aborted : Outcome
  next : State → Outcome

abbrev pub is_value : Promise → Bool
is_value value = true
is_value _ = false

abbrev pub is_exception : Promise → Bool
is_exception exception = true
is_exception _ = false

abbrev pub is_set : Promise → Bool
is_set pending = false
is_set _ = true

abbrev pub phase_is_waiting : Phase → Bool
phase_is_waiting waiting = true
phase_is_waiting _ = false

abbrev pub phase_is_running : Phase → Bool
phase_is_running running = true
phase_is_running _ = false

abbrev pub is_failed : Status → Bool
is_failed Status.failed = true
is_failed _ = false

-- The new action takes its place, and its callback goes on; `none` aborts.
abbrev pub advance : State → ℕ → Phase → Option Action → Outcome
advance s i f none = aborted
advance s i f (some a) = next (record s {
  plan = record s.plan { action = update s.plan.action i a };
  phase = update s.phase i f;
})

abbrev pub promise_of : State → ℕ → Promise
promise_of s i = (s.plan.action i).promise

abbrev pub dependees_of : State → ℕ → List ℕ
dependees_of s i = (s.plan.action i).dependees

abbrev pub guard : Bool → Outcome → Outcome
guard true o = o
guard false o = disabled

-- The sink's task sends an email, if there is an address to send it to, and returns OK if not.
abbrev pub send_email : State → State
send_email s = if s.plan.has_email then record s { emails = s.plan.status ∷ s.emails } else s

abbrev pub code_of : State → ℕ → ResultCode → ResultCode
code_of s i rc = if (i == s.sink) && not s.plan.has_email then ResultCode.ok else rc

unfoldable pub start_step : ℕ → State → Outcome
start_step i s =
    guard
      (ltb i s.plan.size
        && phase_is_waiting (s.phase i)
        && all (λ d. is_value (promise_of s d)) (dependees_of s i))
      (advance s i running (begin_run (s.plan.action i)))

unfoldable pub finish_step : ℕ → ResultCode → State → Outcome
finish_step i rc s =
    let sent = if i == s.sink then send_email s else s in
    guard (phase_is_running (s.phase i))
      (advance sent i ran (finish_run (code_of s i rc) (s.plan.action i)))

unfoldable pub throw_step : ℕ → State → Outcome
throw_step i s =
    guard (phase_is_running (s.phase i)) (advance s i threw (mark_failed (s.plan.action i)))

unfoldable pub mark_step : ℕ → State → Outcome
mark_step i s =
    guard
      (ltb i s.plan.size
        && phase_is_waiting (s.phase i)
        && all (λ d. is_set (promise_of s d)) (dependees_of s i)
        && any (λ d. is_exception (promise_of s d)) (dependees_of s i))
      (advance s i marked (mark_failed (s.plan.action i)))

-- `if (status_ == Status::SUCCEEDED) status_ = Status::FAILED;`
unfoldable pub settle_step : ℕ → State → Outcome
settle_step i s =
    let fail = λ (f : Phase).
      next (record s { plan = record s.plan { status = failed }; phase = update s.phase i f }) in
    elim (s.phase i) [ marked ↦ fail skipped | threw ↦ fail ran | _ ↦ disabled ]

-- The main thread: where the sink has failed it is run once more, whatever that returns.
unfoldable pub resume_step : State → Outcome
resume_step s = guard (not s.returned && is_set (promise_of s s.sink)) (
    next (record (if is_failed (s.plan.action s.sink).status then send_email s else s) {
      returned = true;
    }))

unfoldable pub step : Event → State → Outcome
unfolding start_step finish_step throw_step mark_step settle_step resume_step
step (start i) s = start_step i s
step (finish i rc) s = finish_step i rc s
step (throw i) s = throw_step i s
step (mark i) s = mark_step i s
step (settle i) s = settle_step i s
step resume s = resume_step s

abbrev pub and_then : Outcome → (State → Outcome) → Outcome
and_then disabled k = disabled
and_then aborted k = aborted
and_then (next s) k = k s

unfoldable pub run_events : List Event → State → Outcome
unfolding step
run_events [] s = next s
run_events (e ∷ es) s = and_then (step e s) (run_events es)

-- The state when `schedule` has made the futures.
unfoldable pub launch : Plan → ℕ → State
launch p sink = record {
  plan = p;
  phase = λ i. waiting;
  sink = sink;
  returned = false;
  emails = [];
}
