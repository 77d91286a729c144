-- ===== src/Sleepinfo/Runs.antt =====
-- sleepinfo_controller.go and sleepinfoexecution_controller.go: the runs of both controllers on one
-- cluster, one after the other in any order.
pub mod Keeps
pub mod Scheduled
pub mod Guarded
pub mod OnDemand
pub mod Reachable
pub mod Finished
pub mod Final
use kube_green.Base.{◌≡◌, some, String, ok}
use kube_green.Base.Clock.{Time}
use kube_green.Libraries.{Codec}
use kube_green.Api.{SleepInfo, SleepInfoExecutionStatus}
use kube_green.Sleepinfo.Execution.Outcomes.{Reported}
use kube_green.Cluster.{Secret, Platform}
use kube_green.JsonPatch.{ManagedResources}
use kube_green.Sleepinfo.{Settings, SleepInfoData}
use kube_green.Sleepinfo.Secrets.{new_secret}
use kube_green.Sleepinfo.Reconcile
use kube_green.Sleepinfo.Execution

-- A secret that `upsertSecret` sends.
pub record IsSent (Object W : Type 0) (codec : Codec) (sent : Secret) : Type 0 where
  pub settings : Settings
  pub at : Time
  pub name : String
  pub namespace : String
  pub sleep_info : SleepInfo
  pub info : SleepInfoData
  pub resources : ManagedResources Object W
  pub made : new_secret codec settings at name namespace sleep_info info resources ≡ ok sent

-- The status of an execution that is over: the phase is one of the final three, and both instants are
-- there.
abbrev pub IsFinished : SleepInfoExecutionStatus → Type 0
IsFinished status =
    Reported status.phase
    × ((started : Time) × (status.start_time ≡ some started))
    × ((completed : Time) × (status.completion_time ≡ some completed))

module _ {Object Value Operations Schedule W : Type 0}
    (p : Platform Object Value Operations Schedule W) where
  -- One run, of one controller for one request, at some instant and with some settings.
  pub data Step (w : W) : W → Type 0 where
    scheduled :
        (r : Settings) (now : Time) (namespace name : String)
        → Step w (Reconcile.reconcile p r now namespace name w).1
    on_demand :
        (r : Settings) (now : Time) (namespace name : String)
        → Step w (Execution.reconcile p r now namespace name w).1

  pub data Reach (start : W) : W → Type 0 where
    here : Reach start start
    later : {w w' : W} → Reach start w → Step w w' → Reach start w'
