-- ===== src/Libraries.antt =====
-- The libraries that the program calls and does not implement, as records of their operations:
-- robfig/cron, evanphx/json-patch with sigs.k8s.io/yaml, and the encodings of the standard library
-- that stored secrets go through. The laws that a theorem needs are its named hypotheses.
use kube_green.Base.{Bool, String, List, ◌≡◌, ◌<◌, ◌⊎◌, Result}
use kube_green.Base.Int.{ℤ}
use kube_green.Base.Dict.{Dict}
use kube_green.Base.Clock.{Time, zero_time}

-- github.com/robfig/cron/v3
pub record Cron (Schedule : Type 0) : Type 0 where
  pub parse_standard : String → Result Schedule
  pub next : Schedule → Time → Time

-- `Next` gives the zero time, if no activation is found, or a later instant.
pub record NextIsLater {Schedule : Type 0} (cron : Cron Schedule) : Type 0 where
  pub later : (s : Schedule) (t : Time) → (cron.next s t ≡ zero_time) ⊎ (t < cron.next s t)

-- jsonpatch.ApplyOptions, the two fields that the program sets
pub record ApplyOptions : Type 0 where
  pub ensure_path_exists_on_add : Bool
  pub allow_missing_path_on_remove : Bool

-- github.com/evanphx/json-patch/v5 and sigs.k8s.io/yaml, over the bytes of documents
pub record JsonLib (Operations : Type 0) : Type 0 where
  pub yaml_to_json : String → Result String
  pub decode_patch : String → Result Operations
  pub apply_with_options : Operations → ApplyOptions → String → Result String
  pub equal : String → String → Bool
  pub create_merge_patch : String → String → Result String
  pub merge_patch : String → String → Result String

-- `map[string]string`
abbrev pub RestorePatches : Type 0
RestorePatches = Dict String

-- `OriginalReplicas` of deployments.go, and `OriginalCronJobStatus` of cronjobs.go
pub record OriginalReplicas : Type 0 where
  pub name : String
  pub replicas : ℤ

pub record OriginalCronJobStatus : Type 0 where
  pub name : String
  pub suspend : Bool

-- encoding/json at the types that secrets hold, and `time.RFC3339`.
pub record Codec : Type 0 where
  pub format_rfc3339 : Time → String
  pub parse_rfc3339 : String → Result Time
  pub marshal_patches : Dict RestorePatches → Result String
  pub unmarshal_patches : String → Result (Dict RestorePatches)
  pub unmarshal_replicas : String → Result (List OriginalReplicas)
  pub unmarshal_cron_jobs : String → Result (List OriginalCronJobStatus)
