-- ===== src/Lib.antt =====
-- Verification of kube-green, an operator that puts the workloads of a namespace to sleep and wakes
-- them up: on the schedules of a SleepInfo, and on demand by a SleepInfoExecution.
--
-- How the program works. The admission webhook checks a SleepInfo. The SleepInfo controller reads the
-- SleepInfo and the secret that keeps its state, decides by the cron schedules whether an operation
-- is due, lists the resources that the patches are for, applies the sleep patches (recording merge
-- patches back) or the recorded patches, and writes the secret. The SleepInfoExecution controller
-- runs the same operations on demand, behind guards on the state that the secret holds.
--
-- Which file models what (paths from the root of the repository):
--   Base: Booleans, lists, maps, text, Go errors, `int64`, instants, and code with a state.
--   Libraries: robfig/cron, json-patch with yaml, and the encodings, as records of operations.
--   Cluster: unstructured objects, the client, the gauge, and all of these as one Platform.
--   Api: api/v1alpha1. Api.Schedule is GetSleepSchedule and GetWakeUpSchedule, Api.Patches the
--     default patches and GetPatches, Api.Validate Validate, Api.Execution IsProcessed.
--   Patcher: internal/patcher/patcher.go (New, Exec, IsResourceChanged).
--   Resource: internal/controller/sleepinfo/resource/resource.go (Patch, SSAPatch, IsClientValid).
--   JsonPatch: internal/controller/sleepinfo/jsonpatch. Selectors and Listing are
--     genericresources.go; Resources (NewResources, HasResource), Refresh, Sleep, WakeUp and Saved
--     (GetOriginalInfoToSave, GetOriginalInfoToRestore) are jsonpatch.go. Server is what a patch
--     does on an API server, RoundTrip what documents say and the resources that sleep; Restored is a sleep and a wake up on it, of one
--     target and (Namespace, AfterSleep) of all of them.
--   Sleepinfo: internal/controller/sleepinfo. Schedule is schedule.go, Data sleepinfodata.go, Secrets
--     secrets.go, OldSecret the packages deployments and cronjobs, Reconcile sleepinfo_controller.go,
--     Execution sleepinfoexecution_controller.go; Flow is the early return of a Reconcile. Runs is any
--     sequence of runs of the two controllers on one cluster, as a step relation. Restored follows what
--     a sleep has changed through the secret to the wake up.
--   Webhook: internal/webhook/v1alpha1/sleepinfo_webhook.go.
--   Registration: the gauge of internal/controller/sleepinfo/metrics/metrics.go, SetupWithManager of
--     both controllers with their clock, and SetupWebhookWithManager.
--   Manager: cmd/main.go, from the parsed flags on. Tls is the configuration of its servers, Started
--     the state in which it starts the manager.
--   FakeClient: internal/testutil/fakeclient.go, the client of the tests, as a client.
--   Tests: the theorems at concrete inputs, on a small cluster that can be run.
--
-- How code is modelled. A call that changes the cluster takes its state and returns the state after
-- it beside its result or error, so that what an error leaves behind is in the model. A loop is
-- structural recursion on its list, and a loop over a map is one over the list of its entries in the
-- order in which the range visits them: what is stated for every list holds for every order. A nil
-- pointer, map or slice of bytes is `none`. A type switch that fails is `none` as well.
--
-- Bounds. Durations are 64-bit numbers of nanoseconds and wrap around as Go's do; the theorems about
-- the schedule take a delta of at most 10^9 seconds, for which nothing overflows. An instant is the
-- number of nanoseconds since the earliest that `time.Time` represents. The fuel of `decimal` is
-- the number that is shown, which has no more digits than that.
--
-- Not modelled: logging; the parsing of flags; generated deep copies and the scheme; the set-up of
-- clusters and the literal objects that only the tests use; what other clients change during one run;
-- the sharing of one map by two targets that print alike. `r.Now()` is read once
-- for a run. The parsers of selectors, the encodings and the server are parameters, and what a
-- theorem needs of them is among its hypotheses.
pub mod Base
pub mod Libraries
pub mod Patcher
pub mod Api
pub mod Cluster
pub mod Resource
pub mod JsonPatch
pub mod Sleepinfo
pub mod Webhook
pub mod Registration
pub mod FakeClient
pub mod Manager
pub mod Tests
