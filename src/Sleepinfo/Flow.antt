-- ===== src/Sleepinfo/Flow.antt =====
-- The body of a `Reconcile`: each step goes on with a value or returns from the whole function.
use kube_green.Base.{Bool, true, false, Option, none, some, Error, Result, ok, err}
use kube_green.Base.Int.{ℤ, pos}
use kube_green.Base.Exec.{Exec}

-- `ctrl.Result` with the error.
pub record Outcome : Type 0 where
  pub requeue : Bool
  pub requeue_after : ℤ
  pub error : Option Error

abbrev pub finished : Outcome
finished = record { requeue = false; requeue_after = pos 0; error = none }

-- `ctrl.Result{}, err`
abbrev pub failed : Error → Outcome
failed e = record finished { error = some e }

-- `ctrl.Result{Requeue: true}, nil`
abbrev pub again : Outcome
again = record finished { requeue = true }

-- `ctrl.Result{RequeueAfter: d}, nil`
abbrev pub after : ℤ → Outcome
after d = record finished { requeue_after = d }

pub data Step (A : Type 0) : Type 0 where
  next : A → Step A
  return : Outcome → Step A

abbrev pub Flow : Type 0 → Type 0 → Type 0
Flow W A = W → Step A × W

module _ {W A B : Type 0} where
  abbrev pub proceed : Step A → (A → Flow W B) → Flow W B
  proceed (next a) f w = f a w
  proceed (return o) f w = (return o, w)

  infixl 5 ◌>>=◌ ◌>>◌
  abbrev pub ◌>>=◌ : Flow W A → (A → Flow W B) → Flow W B
  ◌>>=◌ m f w = let (s, w') = m w in proceed s f w'

  abbrev pub ◌>>◌ : Flow W A → Flow W B → Flow W B
  m >> n = m >>= λ _. n

abbrev pub step_of : {A : Type 0} → (Error → Outcome) → Result A → Step A
step_of handler (ok a) = next a
step_of handler (err e) = return (handler e)

abbrev pub ended : Result (Unit {0}) → Outcome
ended (ok u) = finished
ended (err e) = failed e

module _ {W A : Type 0} where
  -- `if err != nil { return handler }`
  abbrev pub or_return : (Error → Outcome) → Exec W A → Flow W A
  or_return handler m w = let (r, w') = m w in (step_of handler r, w')

  abbrev pub stop : Outcome → Flow W A
  stop o w = (return o, w)

  abbrev pub continue_with : A → Flow W A
  continue_with a w = (next a, w)

  -- `return ctrl.Result{}, call`
  abbrev pub stop_with : Exec W (Unit {0}) → Flow W A
  stop_with call w = let (r, w') = call w in (return (ended r), w')

abbrev pub outcome_of : Step Outcome → Outcome
outcome_of (next o) = o
outcome_of (return o) = o

abbrev pub run : {W : Type 0} → Flow W Outcome → W → Outcome × W
run m w = let (s, w') = m w in (outcome_of s, w')
