-- ===== src/Sleepinfo/OldSecret/Entries.antt =====
-- What the old formats of a secret give as restore patches.
use kube_green.Base.{
  ◌≡◌, ◌≢◌, refl, ◌∙◌, String, ◌==◌, Option, none, some, List, [], ◌∷◌, arith, eq_iff, or_else, inl,
  inr,
}
use kube_green.Base.{ok, Result-cases, if◌then◌else◌}
use kube_green.Base.Dict.{Dict, lookup, insert, lookup-insert, lookup-insert_self}
use kube_green.Libraries.{Codec, RestorePatches, OriginalReplicas}
use kube_green.Sleepinfo.{replicas_before_sleep_key, original_cronjob_status_key}
use kube_green.Sleepinfo.OldSecret.{
  replicas_patch, replicas_patches, or_empty, convert_deployments, convert_cron_jobs,
  deployments_to_restore, cron_jobs_to_restore, convert_old_secret_data_to_new_format,
}

-- The restore patch of the last entry of a name.
abbrev pub last_replicas : String → List OriginalReplicas → Option String
last_replicas name [] = none
last_replicas name (info ∷ rest) =
    or_else (last_replicas name rest)
      (if info.name == name then some (replicas_patch info) else none)

-- Of the stored replicas of a Deployment the last entry of its name counts, and a patch that was
-- there already counts where there is none. The name is not empty.
pub lookup-replicas_patches :
    (name : String) (infos : List OriginalReplicas) (patches : RestorePatches)
    → name ≢ ""
    → lookup name (replicas_patches patches infos)
      ≡ or_else (last_replicas name infos) (lookup name patches)
unfolding replicas_patches
lookup-replicas_patches name [] patches h = refl
lookup-replicas_patches name (info ∷ rest) patches h = ground (
  arith,
  lookup-replicas_patches name rest patches h,
  lookup-replicas_patches name rest (insert info.name (replicas_patch info) patches) h,
  lookup-insert info.name name (replicas_patch info) patches,
  eq_iff info.name "",
  eq_iff info.name name,
)

other_target : ◌≢◌ {A = String} "Deployment.apps" "CronJob.batch"
other_target e = absurd (ground (arith, e, eq_iff "Deployment.apps" "CronJob.batch"))

module _ (codec : Codec) where
  lookup-convert_deployments :
      (info out : Dict RestorePatches) (replicas : Option String) (shown : String)
      → shown ≢ "Deployment.apps"
      → convert_deployments codec info replicas ≡ ok out
      → lookup shown out ≡ lookup shown info
  unfolding convert_deployments
  lookup-convert_deployments info out none shown h k = ground arith
  lookup-convert_deployments info out (some replicas) shown h k =
      elim (Result-cases (deployments_to_restore codec (some replicas))) [
        | inr (e, failed) ↦ absurd (ground arith)
        | inl (restored, read) ↦ ground (
          arith,
          lookup-insert "Deployment.apps" shown restored info,
          eq_iff "Deployment.apps" shown,
        )
      ]

  convert_deployments-eq-ok :
      (info out : Dict RestorePatches) (replicas : String)
      → convert_deployments codec info (some replicas) ≡ ok out
      → (restored : RestorePatches) × (deployments_to_restore codec (some replicas) ≡ ok restored)
        × (lookup "Deployment.apps" out ≡ some restored)
  unfolding convert_deployments
  convert_deployments-eq-ok info out replicas h =
      elim (Result-cases (deployments_to_restore codec (some replicas))) [
        | inr (e, failed) ↦ absurd (ground arith)
        | inl (restored, read) ↦
            (restored, read, ground (arith, lookup-insert_self "Deployment.apps" restored info))
      ]

  lookup-convert_cron_jobs :
      (info out : Dict RestorePatches) (status : Option String) (shown : String)
      → shown ≢ "CronJob.batch"
      → convert_cron_jobs codec info status ≡ ok out
      → lookup shown out ≡ lookup shown info
  unfolding convert_cron_jobs
  lookup-convert_cron_jobs info out none shown h k = ground arith
  lookup-convert_cron_jobs info out (some status) shown h k =
      elim (Result-cases (cron_jobs_to_restore codec (some status))) [
        | inr (e, failed) ↦ absurd (ground arith)
        | inl (restored, read) ↦
            ground (
              arith,
              lookup-insert "CronJob.batch" shown restored info,
              eq_iff "CronJob.batch" shown,
            )
      ]

  -- The conversion of an old secret leaves the patches of every target but Deployments and CronJobs
  -- as they were, and takes those of the Deployments from the old key, if the secret has it.
  pub lookup-convert_old_secret_data_to_new_format :
      (original : Option (Dict RestorePatches)) (secret_data : Dict String)
      (out : Dict RestorePatches)
      → convert_old_secret_data_to_new_format codec original secret_data ≡ ok out
      → ((shown : String)
          → shown ≢ "Deployment.apps"
          → shown ≢ "CronJob.batch"
          → lookup shown out ≡ lookup shown (or_empty codec original))
        × ((replicas : String)
            → lookup replicas_before_sleep_key secret_data ≡ some replicas
            → (restored : RestorePatches) × (deployments_to_restore codec (some replicas)
                ≡ ok restored)
              × (lookup "Deployment.apps" out ≡ some restored))
  unfolding convert_old_secret_data_to_new_format
  lookup-convert_old_secret_data_to_new_format original secret_data out h =
      elim (Result-cases (
        convert_deployments codec (or_empty codec original)
          (lookup replicas_before_sleep_key secret_data))) [
            | inr (e, failed) ↦ absurd (ground arith)
            | inl (info, converted) ↦
                let second : convert_cron_jobs codec info
                      (lookup original_cronjob_status_key secret_data)
                    ≡ ok out =
                  ground arith in
                (
                  λ shown a b.
                      lookup-convert_cron_jobs info out
                        (lookup original_cronjob_status_key secret_data) shown b second
                      ∙ lookup-convert_deployments (or_empty codec original) info
                          (lookup replicas_before_sleep_key secret_data) shown a converted,
                  λ replicas stored.
                      let (restored, read, kept) =
                        convert_deployments-eq-ok (or_empty codec original) info replicas
                          (rw stored at converted) in
                      (
                        restored,
                        read,
                        lookup-convert_cron_jobs info out
                              (lookup original_cronjob_status_key secret_data) "Deployment.apps"
                              other_target second
                            ∙ kept,
                      ),
                )
          ]
