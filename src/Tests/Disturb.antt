-- ===== src/Tests/Disturb.antt =====
-- src/core/Action.h: class DisturbAction with methods that succeed in the first round only.
use nebula_chaos.Prelude.{ℕ, zero, suc, ◌*◌, ◌≡◌, ◌==◌, refl, true, false, [], ◌∷◌}
use nebula_chaos.Core.Action.{ResultCode, is_ok}
use nebula_chaos.Core.Disturb.{
  DisturbAction, sleeps, disturbs, recovers, disturb_from, run_disturb, is_recovered, count_ok,
  run_disturb-recovers,
}

abbrev kills : DisturbAction
kills = record { loop_times = 3; time_to_disturb = 5; time_to_recover = 2 }

abbrev works : ℕ → ResultCode
works i = ResultCode.ok

abbrev works_once : ℕ → ResultCode
works_once zero = ResultCode.ok
works_once (suc i) = ResultCode.err_failed

disturb_runs : run_disturb works_once works kills ≡ (
  ResultCode.err_failed,
  sleeps 5
      ∷ disturbs ResultCode.ok
      ∷ sleeps 2
      ∷ recovers ResultCode.ok
      ∷ sleeps 5
      ∷ disturbs ResultCode.err_failed
      ∷ [],
)
unfolding run_disturb disturb_from
disturb_runs = refl

run_disturb-recovers_example :
    (is_recovered false (run_disturb works works_once kills).1 ≡ true)
    × (is_ok (run_disturb works works_once kills).0
        ≡ (count_ok (run_disturb works works_once kills).1 == 2 * 3))
run_disturb-recovers_example = run_disturb-recovers works works_once kills
