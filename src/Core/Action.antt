-- ===== src/Core/Action.antt =====
-- src/core/Action.h: the base class of all actions. An action that another one names by pointer
-- is named by its position in the plan's vector. `none` is a failed CHECK, or a promise that is
-- set twice.
use nebula_chaos.Prelude.{ℕ, ◌≡◌, Bool, true, false, Option, none, some, List, [], arith}

pub data ResultCode : Type 0 where
  ok err_timeout err_not_found err_bad_argument err_failed err_failed_no_retry : ResultCode
  err_not_finished : ResultCode

pub data Status : Type 0 where
  init running succeeded failed : Status

-- folly::SharedPromise<folly::Unit>: not set, set to a value, or set to an exception.
pub data Promise : Type 0 where
  pending value exception : Promise

pub record Action : Type 0 where
  pub dependers : List ℕ
  pub dependees : List ℕ
  pub status : Status
  pub promise : Promise
  -- `none` for a negative number
  pub id : Option ℕ

-- A new action: `explicit Action(ActionContext* ctx = nullptr)`.
abbrev pub fresh : Action
fresh = record {
  dependers = [];
  dependees = [];
  status = Status.init;
  promise = pending;
  id = none;
}

infixl 5 ◌>>=◌
abbrev pub ◌>>=◌ {ℓ κ} : {A : Type ℓ} {B : Type κ} → Option A → (A → Option B) → Option B
none >>= f = none
some a >>= f = f a

-- setTry, setException: a promise is set once.
abbrev pub fulfil : Promise → Promise → Option Promise
fulfil p pending = some p
fulfil p value = none
fulfil p exception = none

abbrev pub is_ok : ResultCode → Bool
is_ok ResultCode.ok = true
is_ok _ = false

-- `run` up to the call of `doRun`.
unfoldable pub begin_run : Action → Option Action
begin_run a = elim a.status [ Status.init ↦ some (record a { status = Status.running }) | _ ↦ none ]

-- `run` from the return of `doRun` with `rc`.
finish_with : Bool → Action → Option Action
finish_with true a = do
  p ← fulfil value a.promise
  some (record a { status = Status.succeeded; promise = p })
finish_with false a = do
  p ← fulfil exception a.promise
  some (record a { status = Status.failed; promise = p })

unfoldable pub finish_run : ResultCode → Action → Option Action
unfolding finish_with
finish_run rc a = elim a.status [ Status.running ↦ finish_with (is_ok rc) a | _ ↦ none ]

unfoldable pub run : ResultCode → Action → Option Action
unfolding begin_run finish_run
run rc a = do a' ← begin_run a; finish_run rc a'

unfoldable pub mark_failed : Action → Option Action
mark_failed a = do
  p ← fulfil exception a.promise
  some (record a { status = Status.failed; promise = p })

-- An action that has not ended is left as it is.
unfoldable pub reset : Action → Action
reset a = elim a.status [
  | Status.init ↦ a
  | Status.running ↦ a
  | _ ↦ record a { status = Status.init; promise = pending }
]

-- The status and the promise of an action between two calls of its methods.
abbrev pub IsSettled : Status → Promise → Type 0
IsSettled Status.init p = p ≡ pending
IsSettled Status.running p = ⊥
IsSettled Status.succeeded p = p ≡ value
IsSettled Status.failed p = p ≡ exception

ended : Bool → Action → Action
ended true a = record a { status = Status.succeeded; promise = value }
ended false a = record a { status = Status.failed; promise = exception }

module _ (rc : ResultCode) (a : Action) (h : IsSettled a.status a.promise) where
  run-reset-eq : run rc (reset a) ≡ some (ended (is_ok rc) a)
  unfolding run reset ended
  run-reset-eq = ground arith

-- `run` on an action that is `reset` passes its CHECKs and sets the promise, whatever state the
-- action was settled in, and `reset` and `run` leave the dependencies and the number as they are.
pub run-reset :
    (rc : ResultCode) (a : Action)
    → IsSettled a.status a.promise
    → (b : Action) × (run rc (reset a) ≡ some b)
      × IsSettled b.status b.promise
      × (is_ok rc ≡ true → b.status ≡ Status.succeeded)
      × (is_ok rc ≡ false → b.status ≡ Status.failed)
      × (b.dependees ≡ a.dependees)
      × (b.dependers ≡ a.dependers)
      × (b.id ≡ a.id)
unfolding ended
run-reset rc a h = (
  ended (is_ok rc) a,
  run-reset-eq rc a h,
  ground arith,
  ground arith,
  ground arith,
  ground arith,
  ground arith,
  ground arith,
)
