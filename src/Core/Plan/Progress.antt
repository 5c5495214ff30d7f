-- ===== src/Core/Plan/Progress.antt =====
-- src/core/ChaosPlan.cpp: on an acyclic graph the callbacks never block one another, and
-- `schedule` comes to its end.
pub mod Ending
use nebula_chaos.Prelude.{
  ℕ, zero, suc, ◌-◌, ◌<◌, ◌≡◌, ◌≢◌, ◌⊎◌, inl, inr, refl, true, false, List, [], ◌∷◌, arith, all,
  any, Bool-cases,
}
use nebula_chaos.Core.Action.{ResultCode, Status, Promise, begin_run, finish_run, mark_failed}
use nebula_chaos.Core.Plan.{
  Plan, State, Phase, waiting, running, ran, marked, threw, skipped, Event, start, finish, mark,
  settle, disabled, next, step, is_set, is_value, is_exception, promise_of, dependees_of,
}
use nebula_chaos.Core.Plan.Invariant.{Fits, IsConsistent, step-ne-aborted, Outcome-cases}
use nebula_chaos.Core.Plan.Order.{IsReached, elem}

-- Some event is possible.
abbrev pub CanGoOn : State → Type 0
CanGoOn s = (ev : Event) × (t : State) × (step ev s ≡ next t)

pub next_of_not-disabled :
    (ev : Event) (s : State) → IsConsistent s → step ev s ≢ disabled → CanGoOn s
next_of_not-disabled ev s h n = elim (Outcome-cases (step ev s)) [
  | inl d ↦ absurd (n d)
  | inr (inl a) ↦ absurd (step-ne-aborted ev s h a)
  | inr (inr (t, e)) ↦ (ev, t, e)
]

module _ (i : ℕ) (s : State) where
  finish-ne-disabled : s.phase i ≡ running → step (finish i ResultCode.ok) s ≢ disabled
  unfolding step finish_run
  finish-ne-disabled h e = ground arith

  settle-ne-disabled : (s.phase i ≡ marked) ⊎ (s.phase i ≡ threw) → step (settle i) s ≢ disabled
  unfolding step
  settle-ne-disabled h e = ground arith

  start-ne-disabled :
      i < s.plan.size
      → s.phase i ≡ waiting
      → all (λ d. is_value (promise_of s d)) (dependees_of s i) ≡ true
      → step (start i) s ≢ disabled
  unfolding step begin_run
  start-ne-disabled b h v e = ground arith

  mark-ne-disabled :
      i < s.plan.size
      → s.phase i ≡ waiting
      → all (λ d. is_set (promise_of s d)) (dependees_of s i) ≡ true
      → any (λ d. is_exception (promise_of s d)) (dependees_of s i) ≡ true
      → step (mark i) s ≢ disabled
  unfolding step mark_failed
  mark-ne-disabled b h v x e = ground arith

-- Of promises that are all set, one holds an exception or all hold a value.
all_value_of_all_set :
    (s : State) (ds : List ℕ)
    → all (λ d. is_set (promise_of s d)) ds ≡ true
    → any (λ d. is_exception (promise_of s d)) ds ≡ false
    → all (λ d. is_value (promise_of s d)) ds ≡ true
all_value_of_all_set s [] h n = refl
all_value_of_all_set s (d ∷ ds) h n = ground (arith, all_value_of_all_set s ds)

unset_of_not-all_set :
    (s : State) (ds : List ℕ)
    → all (λ d. is_set (promise_of s d)) ds ≡ false
    → (d : ℕ) × (elem d ds ≡ true) × (is_set (promise_of s d) ≡ false)
unset_of_not-all_set s [] h = absurd (cc)
unset_of_not-all_set s (d ∷ ds) h = elim (Bool-cases (is_set (promise_of s d))) [
  | inl set ↦ let (x, m, u) = unset_of_not-all_set s ds (rw set at h) in (x, ground arith, u)
  | inr unset ↦ (d, ground arith, unset)
]

-- `rank` falls from an action to what it waits for, which is in the plan.
abbrev pub IsRanked : (ℕ → ℕ) → Plan → Type 0
IsRanked rank p =
    (i d : ℕ) → i < p.size → elem d (p.action i).dependees ≡ true → (d < p.size) × (rank d < rank i)

-- The callback of the action still has something to do.
abbrev pub IsOpen : Phase → Type 0
IsOpen ran = ⊥
IsOpen skipped = ⊥
IsOpen _ = Unit

IsOpen-of_unset :
    (f : Phase) (st : Status) (q : Promise) → Fits f st q → is_set q ≡ false → IsOpen f
IsOpen-of_unset waiting st q h u = tt
IsOpen-of_unset running st q h u = tt
IsOpen-of_unset marked st q h u = tt
IsOpen-of_unset threw st q h u = tt
IsOpen-of_unset ran st q h u = absurd (ground arith)
IsOpen-of_unset skipped st q h u = absurd (ground arith)

Phase-cases : (f : Phase) → IsOpen f → (f ≡ waiting) ⊎ (f ≡ running) ⊎ ((f ≡ marked) ⊎ (f ≡ threw))
Phase-cases waiting o = inl refl
Phase-cases running o = inr (inl refl)
Phase-cases marked o = inr (inr (inl refl))
Phase-cases threw o = inr (inr (inr refl))
Phase-cases ran o = absurd o
Phase-cases skipped o = absurd o

module _ (rank : ℕ → ℕ) (p : Plan) (s : State) (ranked : IsRanked rank p) (r : IsReached p s)
    (same_size : s.plan.size ≡ p.size) where
  waiting_ready :
      (i : ℕ)
      → i < p.size
      → s.phase i ≡ waiting
      → all (λ d. is_set (promise_of s d)) (dependees_of s i) ≡ true
      → CanGoOn s
  waiting_ready i b h v =
      let b' : i < s.plan.size = rw same_size b in
      elim (Bool-cases (any (λ d. is_exception (promise_of s d)) (dependees_of s i))) [
        | inl x ↦ next_of_not-disabled (mark i) s r.consistent (mark-ne-disabled i s b' h v x)
        | inr n ↦
            next_of_not-disabled (start i) s r.consistent
              (start-ne-disabled i s b' h (all_value_of_all_set s (dependees_of s i) v n))
      ]

  pub go_on : (fuel i : ℕ) → rank i < fuel → i < p.size → IsOpen (s.phase i) → CanGoOn s
  go_on zero i f b o = absurd (omega arith)
  go_on (suc fuel) i f b o = elim (Phase-cases (s.phase i) o) [
    | inl w ↦ elim (Bool-cases (all (λ d. is_set (promise_of s d)) (dependees_of s i))) [
      | inl v ↦ waiting_ready i b w v
      | inr n ↦
          let (d, m, u) = unset_of_not-all_set s (dependees_of s i) n in
          let (in_plan, below) = ranked i d b (rw (r.same_dependees i) at m) in
          go_on fuel d (omega arith) in_plan (IsOpen-of_unset (s.phase d) _ _ (r.consistent d) u)
    ]
    | inr (inl g) ↦
        next_of_not-disabled (finish i ResultCode.ok) s r.consistent (finish-ne-disabled i s g)
    | inr (inr g) ↦ next_of_not-disabled (settle i) s r.consistent (settle-ne-disabled i s g)
  ]
