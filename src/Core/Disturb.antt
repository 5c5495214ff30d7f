-- ===== src/Core/Disturb.antt =====
-- src/core/Action.h: class DisturbAction, whose virtual methods and clock are parameters.
use nebula_chaos.Prelude.{
  ◌==◌, ℕ, zero, suc, ◌+◌, ◌*◌, ◌≤◌, ◌≡◌, refl, Bool, true, false, List, [], ◌∷◌, ◌++◌, arith,
  if◌then◌else◌, Bool-cases, inl, inr, subst, sym,
}
use nebula_chaos.Core.Action.{ResultCode, is_ok}

-- What doRun does, in order: it sleeps for a number of seconds, and calls the two virtual methods,
-- with what they return.
pub data Deed : Type 0 where
  sleeps : ℕ → Deed
  disturbs recovers : ResultCode → Deed

pub record DisturbAction : Type 0 where
  -- the rounds; a negative number of rounds counts as none
  pub loop_times : ℕ
  pub time_to_disturb : ℕ
  pub time_to_recover : ℕ

abbrev put_deeds : List Deed → ResultCode × List Deed → ResultCode × List Deed
put_deeds deeds (rc, more) = (rc, deeds ++ more)

module _ (disturb recover : ℕ → ResultCode) (a : DisturbAction) where
  -- The loop with `count` rounds to go, of which the next one has number `i`.
  unfoldable pub disturb_from : ℕ → ℕ → ResultCode × List Deed
  disturb_from i zero = (ResultCode.ok, [])
  disturb_from i (suc count) = elim (is_ok (disturb i)) [
    | false ↦ (disturb i, sleeps (a.time_to_disturb) ∷ disturbs (disturb i) ∷ [])
    | true ↦ elim (is_ok (recover i)) [
      | false ↦ (
        recover i,
        sleeps (a.time_to_disturb)
            ∷ disturbs (disturb i)
            ∷ sleeps (a.time_to_recover)
            ∷ recovers (recover i)
            ∷ [],
      )
      | true ↦
          put_deeds
            (sleeps (a.time_to_disturb)
              ∷ disturbs (disturb i)
              ∷ sleeps (a.time_to_recover)
              ∷ recovers (recover i)
              ∷ [])
            (disturb_from (suc i) count)
    ]
  ]

  -- DisturbAction::doRun
  unfoldable pub run_disturb : ResultCode × List Deed
  unfolding disturb_from
  run_disturb = disturb_from 0 (a.loop_times)

-- Between two disturbances there is a recovery that succeeded, and a disturbance that succeeded is
-- followed by a recovery; `disturbed` says that one is due.
abbrev pub is_recovered : Bool → List Deed → Bool
is_recovered disturbed [] = if disturbed then false else true
is_recovered disturbed (sleeps n ∷ deeds) = is_recovered disturbed deeds
is_recovered true (disturbs rc ∷ deeds) = false
is_recovered false (disturbs rc ∷ deeds) = is_recovered (is_ok rc) deeds
is_recovered true (recovers rc ∷ deeds) = is_recovered false deeds
is_recovered false (recovers rc ∷ deeds) = false

-- The calls of the methods that succeed.
abbrev pub count_ok : List Deed → ℕ
count_ok [] = 0
count_ok (sleeps n ∷ deeds) = count_ok deeds
count_ok (disturbs rc ∷ deeds) = (if is_ok rc then 1 else 0) + count_ok deeds
count_ok (recovers rc ∷ deeds) = (if is_ok rc then 1 else 0) + count_ok deeds

module _ (disturb recover : ℕ → ResultCode) (a : DisturbAction) where
  disturb_from-failed :
      (i count : ℕ)
      → is_ok (disturb i) ≡ false
      → disturb_from disturb recover a i (suc count)
        ≡ (disturb i, sleeps a.time_to_disturb ∷ disturbs (disturb i) ∷ [])
  unfolding disturb_from
  disturb_from-failed i count e = rw (disturb_from, e) refl

  disturb_from-stuck :
      (i count : ℕ)
      → is_ok (disturb i) ≡ true
      → is_ok (recover i) ≡ false
      → disturb_from disturb recover a i (suc count) ≡ (
        recover i,
        sleeps a.time_to_disturb
            ∷ disturbs (disturb i)
            ∷ sleeps a.time_to_recover
            ∷ recovers (recover i)
            ∷ [],
      )
  unfolding disturb_from
  disturb_from-stuck i count e f = rw (disturb_from, e) (rw f refl)

  disturb_from-goes :
      (i count : ℕ)
      → is_ok (disturb i) ≡ true
      → is_ok (recover i) ≡ true
      → disturb_from disturb recover a i (suc count)
        ≡ put_deeds
            (sleeps a.time_to_disturb
              ∷ disturbs (disturb i)
              ∷ sleeps a.time_to_recover
              ∷ recovers (recover i)
              ∷ [])
            (disturb_from disturb recover a (suc i) count)
  unfolding disturb_from
  disturb_from-goes i count e f = rw (disturb_from, e) (rw f refl)

  Facts : ℕ → ResultCode × List Deed → Type 0
  Facts count r =
      (is_recovered false r.1 ≡ true)
      × (is_ok r.0 ≡ (count_ok r.1 == 2 * count))
      × (count_ok r.1 ≤ 2 * count)

  round-Facts :
      (i count : ℕ) (r : ResultCode × List Deed)
      → is_ok (disturb i) ≡ true
      → is_ok (recover i) ≡ true
      → Facts count r
      → Facts (suc count) (
          put_deeds
            (sleeps a.time_to_disturb
              ∷ disturbs (disturb i)
              ∷ sleeps a.time_to_recover
              ∷ recovers (recover i)
              ∷ [])
            r)
  unfolding Facts
  round-Facts i count (rc, deeds) e f (x, y, z) = (ground arith, ground arith, ground arith)

  disturb_from-Facts : (i count : ℕ) → Facts count (disturb_from disturb recover a i count)
  unfolding Facts disturb_from
  disturb_from-Facts i zero = (refl, refl, omega arith)
  disturb_from-Facts i (suc count) = elim (Bool-cases (is_ok (disturb i))) [
    | inr failed ↦
        subst (Facts (suc count)) (sym (disturb_from-failed i count failed))
          (ground arith, ground arith, ground arith)
    | inl done ↦ elim (Bool-cases (is_ok (recover i))) [
      | inr failed ↦
          subst (Facts (suc count)) (sym (disturb_from-stuck i count done failed))
            (ground arith, ground arith, ground arith)
      | inl back ↦ subst (Facts (suc count)) (sym (disturb_from-goes i count done back)) (
          round-Facts i count (disturb_from disturb recover a (suc i) count) done back
            (disturb_from-Facts (suc i) count))
    ]
  ]

-- Whatever the two methods return, doRun ends; it calls disturb and recover in turn, with a call of
-- recover behind every call of disturb that succeeded; and it returns OK exactly where as many calls
-- have succeeded as there are methods in all rounds.
pub run_disturb-recovers :
    (disturb recover : ℕ → ResultCode) (a : DisturbAction)
    → (is_recovered false (run_disturb disturb recover a).1 ≡ true)
      × (is_ok (run_disturb disturb recover a).0
          ≡ (count_ok (run_disturb disturb recover a).1 == 2 * a.loop_times))
unfolding run_disturb Facts
run_disturb-recovers disturb recover a =
    let (x, y, z) = disturb_from-Facts disturb recover a 0 (a.loop_times) in (x, y)
