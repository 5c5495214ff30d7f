-- ===== src/Tests/Plan.antt =====
-- src/core: a plan of two actions, of which the second waits for the first.
use nebula_chaos.Prelude.{
  ℕ, zero, suc, ◌+◌, ◌*◌, ◌<◌, ◌≤◌, ◌≡◌, ◌≢◌, refl, true, false, none, some, List, [], ◌∷◌, arith,
  length,
}
use nebula_chaos.Core.Action.{
  ResultCode, Status, Action, fresh, begin_run, finish_run, mark_failed, run, reset, is_ok,
  IsSettled, run-reset,
}
use nebula_chaos.Core.Plan.{
  Plan, succeeded, failed, State, Phase, waiting, Event, start, finish, mark, settle, resume,
  Outcome, aborted, next, run_events, launch, wire,
}
use nebula_chaos.Core.Plan.Invariant.{IsFresh, schedule-ne-aborted}
use nebula_chaos.Core.Plan.Order.{direct, through, WasRun, run-Upstream-succeeded, failed-Upstream}
use nebula_chaos.Core.Plan.Progress.{CanGoOn, IsOpen}
use nebula_chaos.Core.Plan.Wiring.Sink.{
  IsGraph, IsNew, wire-IsFresh, sink-ran-succeeded, schedule_total,
}

abbrev empty_plan : Plan
empty_plan = record { action = λ i. fresh; size = 0; status = succeeded; has_email = true }

-- Action 0, and action 1, which waits for it.
abbrev plan : Plan
plan = record empty_plan {
  action = λ i. elim i [
    | zero ↦ record fresh { dependers = 1 ∷ []; id = some 0 }
    | suc n ↦ elim n [ zero ↦ record fresh { dependees = 0 ∷ []; id = some 1 } | suc m ↦ fresh ]
  ];
  size = 2;
}

-- The plan of `schedule`, with the sink at 2 and the source at 3.
abbrev wired : Plan
wired = wire fresh fresh plan

abbrev all_pass : List Event
all_pass =
    start 3
    ∷ finish 3 ResultCode.ok
    ∷ start 0
    ∷ finish 0 ResultCode.ok
    ∷ start 1
    ∷ finish 1 ResultCode.ok
    ∷ start 2
    ∷ finish 2 ResultCode.ok
    ∷ resume
    ∷ []

-- Action 0 fails, and the callbacks of the others mark theirs as failed. The main thread goes on
-- before the callback of the sink has set the plan's status, and so on behind it.
abbrev first_fails : List Event
first_fails =
    start 3
    ∷ finish 3 ResultCode.ok
    ∷ start 0
    ∷ finish 0 ResultCode.err_failed
    ∷ mark 1
    ∷ settle 1
    ∷ mark 2
    ∷ settle 2
    ∷ resume
    ∷ []

abbrev last_fails : List Event
last_fails =
    start 3
    ∷ finish 3 ResultCode.ok
    ∷ start 0
    ∷ finish 0 ResultCode.ok
    ∷ start 1
    ∷ finish 1 ResultCode.err_failed
    ∷ mark 2
    ∷ resume
    ∷ []

abbrev state_of : Outcome → State
state_of (next s) = s
state_of _ = launch empty_plan 0

program : Unit {0}
unfolding run_events wire launch begin_run finish_run mark_failed
program = tt

all_pass_runs : (state_of (run_events all_pass (launch wired 2))).emails ≡ succeeded ∷ []
unfolding program
all_pass_runs = refl

first_fails_runs : (state_of (run_events first_fails (launch wired 2))).emails ≡ failed ∷ []
unfolding program
first_fails_runs = refl

-- An email that says "passed!" although action 1 has failed.
last_fails_runs :
    ((state_of (run_events last_fails (launch wired 2))).emails ≡ succeeded ∷ [])
    × (((state_of (run_events last_fails (launch wired 2))).plan.action 1).status ≡ Status.failed)
unfolding program
last_fails_runs = (refl, refl)

plan-IsFresh : IsFresh plan
plan-IsFresh i = ground arith

fresh-IsNew : IsNew fresh
fresh-IsNew = (refl, refl, refl)

wired-IsFresh : IsFresh wired
wired-IsFresh = wire-IsFresh fresh fresh plan fresh-IsNew fresh-IsNew plan-IsFresh

plan-IsGraph : IsGraph (λ i. i) 1 plan
plan-IsGraph = record {
  ranked = λ i d h m. ground arith;
  bounded = λ i h. omega arith;
  mirrored = λ i x h m. ground arith;
}

all_pass_reaches :
    run_events all_pass (launch wired 2) ≡ next (state_of (run_events all_pass (launch wired 2)))
unfolding program
all_pass_reaches = refl

first_fails_reaches :
    run_events first_fails (launch wired 2)
    ≡ next (state_of (run_events first_fails (launch wired 2)))
unfolding program
first_fails_reaches = refl

schedule-ne-aborted_example : run_events first_fails (launch wired 2) ≢ aborted
schedule-ne-aborted_example = schedule-ne-aborted wired 2 first_fails wired-IsFresh

sink-ran-succeeded_example :
    ((state_of (run_events all_pass (launch wired 2))).plan.action 1).status ≡ Status.succeeded
unfolding program
sink-ran-succeeded_example =
    sink-ran-succeeded fresh fresh (λ i. i) 1 plan all_pass
      (state_of (run_events all_pass (launch wired 2))) fresh-IsNew fresh-IsNew plan-IsFresh
      plan-IsGraph all_pass_reaches tt 1 (omega arith)

run-Upstream-succeeded_example :
    WasRun Phase.ran
    × (((state_of (run_events all_pass (launch wired 2))).plan.action 0).status ≡ Status.succeeded)
unfolding program
run-Upstream-succeeded_example =
    run-Upstream-succeeded wired 2 all_pass (state_of (run_events all_pass (launch wired 2))) 1 0
      wired-IsFresh all_pass_reaches (direct 1 refl) tt

failed-Upstream_example :
    (¬ WasRun Phase.skipped)
    × (Phase.skipped ≢ waiting
        → ((state_of (run_events first_fails (launch wired 2))).plan.action 2).status
          ≡ Status.failed)
unfolding program
failed-Upstream_example =
    failed-Upstream wired 2 first_fails (state_of (run_events first_fails (launch wired 2))) 2 0
      wired-IsFresh first_fails_reaches (through 2 1 refl (direct 1 refl)) refl

schedule_total_example :
    (length all_pass ≤ 3 * (2 + 2) + 1)
    × (¬ CanGoOn (state_of (run_events all_pass (launch wired 2)))
        → ((i : ℕ)
            → i < 2 + 2
            → ¬ IsOpen ((state_of (run_events all_pass (launch wired 2))).phase i))
          × ((state_of (run_events all_pass (launch wired 2))).returned ≡ true))
schedule_total_example =
    schedule_total fresh fresh (λ i. i) 1 plan all_pass
      (state_of (run_events all_pass (launch wired 2))) fresh-IsNew fresh-IsNew plan-IsFresh
      plan-IsGraph all_pass_reaches

run-reset_example :
    (b : Action) × (run ResultCode.err_timeout (reset fresh) ≡ some b)
    × IsSettled b.status b.promise
    × (is_ok ResultCode.err_timeout ≡ true → b.status ≡ Status.succeeded)
    × (is_ok ResultCode.err_timeout ≡ false → b.status ≡ Status.failed)
    × (b.dependees ≡ [])
    × (b.dependers ≡ [])
    × (b.id ≡ none)
run-reset_example = run-reset ResultCode.err_timeout fresh refl
