-- ===== src/Sleepinfo/Secrets/Readable.antt =====
-- Every secret that `upsertSecret` sends can be read.
use kube_green.Base.{
  ap, ◌∙◌, ◌≡◌, ◌⊎◌, inl, inr, refl, String, ◌==◌, none, some, [], ◌∷◌, true, false, arith,
  Bool-cases,
}
use kube_green.Base.{ok, is_ok, is_ok-eq-ok, non_empty, Result-cases}
use kube_green.Base.Dict.{Dict, lookup, insert}
use kube_green.Base.Clock.{Time}
use kube_green.Libraries.{Codec, RestorePatches}
use kube_green.Api.{SleepInfo}
use kube_green.Api.Schedule.{get_sleep_schedule, get_wake_up_schedule}
use kube_green.Cluster.{Secret}
use kube_green.JsonPatch.{ManagedResources}
use kube_green.JsonPatch.Resources.{has_resource}
use kube_green.JsonPatch.Saved.{
  data_to_save, get_original_info_to_save, save_mapping, get_original_info_to_restore,
}
use kube_green.JsonPatch.Saved.RoundTrip.{KeepsPatches, save_mapping-non_empty}
use kube_green.Sleepinfo.{
  Settings, SleepInfoData, is_sleep_operation, last_schedule_key, last_operation_key,
  original_json_patch_data_key, replicas_before_sleep_key, original_cronjob_status_key,
}
use kube_green.Sleepinfo.OldSecret.{convert_old_secret_data_to_new_format}
use kube_green.Sleepinfo.Data.{get_sleep_info_data, read_secret, read_secret_data, text_at}
use kube_green.Sleepinfo.Secrets.{new_secret}
use kube_green.Sleepinfo.Secrets.RoundTrip.{IsStored, ReadsBack, entries_of, any-non_empty}

-- The restore patches of a secret: none, or some that were marshalled.
abbrev pub IsMarshalled : Codec → Dict String → Type 0
IsMarshalled codec entries =
    (entries ≡ [])
    ⊎ ((saved : Dict RestorePatches) × (text : String) × (codec.marshal_patches saved ≡ ok text)
        × (entries ≡ (original_json_patch_data_key, text) ∷ []))

-- Its texts: the instant, and perhaps the operation.
abbrev IsStamped : Codec → Time → Dict String → Type 0
IsStamped codec now strings =
    (strings ≡ (last_schedule_key, codec.format_rfc3339 now) ∷ [])
    ⊎ ((operation : String) × (strings
          ≡ (last_schedule_key, codec.format_rfc3339 now) ∷ (last_operation_key, operation) ∷ []))

-- What the stored secret answers to the reader.
stored-last_schedule :
    (codec : Codec) (now : Time) (sent stored : Secret) (kept : IsStored sent stored)
    → IsStamped codec now sent.string_data
    → text_at last_schedule_key kept.entries ≡ codec.format_rfc3339 now
unfolding lookup
stored-last_schedule codec now sent stored kept (inl e) =
    ground (arith, kept.merged last_schedule_key, ap (lookup last_schedule_key) e)
stored-last_schedule codec now sent stored kept (inr (operation, e)) =
    ground (arith, kept.merged last_schedule_key, ap (lookup last_schedule_key) e)

stored-other :
    (codec : Codec) (now : Time) (sent stored : Secret) (kept : IsStored sent stored)
    (entries : Dict String) (key : String)
    → IsStamped codec now sent.string_data
    → sent.data_map ≡ some entries
    → (last_schedule_key == key) ≡ false
    → (last_operation_key == key) ≡ false
    → lookup key kept.entries ≡ lookup key entries
unfolding lookup
stored-other codec now sent stored kept entries key (inl e) same a b =
    ground (arith, kept.merged key, ap (lookup key) e, ap (λ m. lookup key (entries_of m)) same)
stored-other codec now sent stored kept entries key (inr (operation, e)) same a b =
    ground (arith, kept.merged key, ap (lookup key) e, ap (λ m. lookup key (entries_of m)) same)

IsMarshalled-lookup :
    (codec : Codec) (law : KeepsPatches codec) (entries : Dict String)
    → IsMarshalled codec entries
    → (lookup replicas_before_sleep_key entries ≡ none)
      × (lookup original_cronjob_status_key entries ≡ none)
      × (is_ok (get_original_info_to_restore codec (lookup original_json_patch_data_key entries))
          ≡ true)
unfolding lookup get_original_info_to_restore
IsMarshalled-lookup codec law entries (inl e) = rw e (refl, refl, refl)
IsMarshalled-lookup codec law entries (inr (saved, text, marshalled, e)) =
    let (restored, read, _) = law.unmarshal-marshal saved text marshalled in
    rw (e, read) (refl, refl, refl)

is_ok-read_secret_data :
    (codec : Codec) (s : SleepInfo) (a b : String) (stamp : Time) (entries : Dict String)
    → codec.parse_rfc3339 (text_at last_schedule_key entries) ≡ ok stamp
    → lookup replicas_before_sleep_key entries ≡ none
    → lookup original_cronjob_status_key entries ≡ none
    → is_ok (get_original_info_to_restore codec (lookup original_json_patch_data_key entries))
      ≡ true
    → is_ok (read_secret_data codec s a b entries) ≡ true
unfolding read_secret_data convert_old_secret_data_to_new_format
is_ok-read_secret_data codec s a b stamp entries parsed no_replicas no_status restored =
    ground arith

module _ {Object W : Type 0} (codec : Codec) where
  new_secret-IsStamped :
      (r : Settings) (now : Time) (name namespace : String) (s : SleepInfo) (info : SleepInfoData)
      (g : ManagedResources Object W) (sent : Secret)
      → new_secret codec r now name namespace s info g ≡ ok sent
      → IsStamped codec now sent.string_data
  unfolding new_secret insert
  new_secret-IsStamped r now name namespace s info g sent made =
      elim (Bool-cases (has_resource g)) [
        | inr e ↦ inl (ground arith)
        | inl e ↦ inr (info.current_operation_type, ground arith)
      ]

  pub new_secret-IsMarshalled :
      (r : Settings) (now : Time) (name namespace : String) (s : SleepInfo) (info : SleepInfoData)
      (g : ManagedResources Object W) (sent : Secret)
      → new_secret codec r now name namespace s info g ≡ ok sent
      → (entries : Dict String) × (sent.data_map ≡ some entries) × IsMarshalled codec entries
  unfolding new_secret get_original_info_to_save has_resource
  new_secret-IsMarshalled r now name namespace s info g sent made =
      elim (Bool-cases (has_resource g)) [
        | inr e ↦ ([], ground arith, inl refl)
        | inl e ↦ elim (Bool-cases (is_sleep_operation info)) [
          | inr k ↦ ([], ground arith, inl refl)
          | inl k ↦ elim (Result-cases (save_mapping codec g.res_mapping)) [
            | inr (m, failed) ↦ absurd (ground arith)
            | inl (saved, done) ↦
                let (text, same, marshalled) =
                  save_mapping-non_empty codec g.res_mapping saved
                    (any-non_empty (λ entry. non_empty entry.1.items) g.res_mapping e) done in
                (
                  (original_json_patch_data_key, text) ∷ [],
                  ground arith,
                  inr (data_to_save [] g.res_mapping, text, marshalled, refl),
                )
          ]
        ]
      ]

  -- What was sent, and stored, is read without an error: for a SleepInfo whose schedules can be built,
  -- whatever the settings, the instant, the operation and the resources were.
  pub is_ok-get_sleep_info_data :
      (law : ReadsBack codec) (r : Settings) (now : Time) (name namespace : String)
      (written : SleepInfo) (info : SleepInfoData) (g : ManagedResources Object W)
      (sent stored : Secret) (s : SleepInfo)
      → new_secret codec r now name namespace written info g ≡ ok sent
      → IsStored sent stored
      → is_ok (get_sleep_schedule s) ≡ true
      → is_ok (get_wake_up_schedule s) ≡ true
      → is_ok (get_sleep_info_data codec (some stored) s) ≡ true
  unfolding get_sleep_info_data read_secret
  is_ok-get_sleep_info_data law r now name namespace written info g sent stored s made kept sleeps
        wakes =
      let stamped = new_secret-IsStamped r now name namespace written info g sent made in
      let (entries, same, marshalled) =
        new_secret-IsMarshalled r now name namespace written info g sent made in
      let (no_replicas, no_status, restored) =
        IsMarshalled-lookup codec law.patches entries marshalled in
      let other =
        λ (key : String). stored-other codec now sent stored kept entries key stamped same in
      let (a, sleeps_at) = is_ok-eq-ok (get_sleep_schedule s) sleeps in
      let (b, wakes_at) = is_ok-eq-ok (get_wake_up_schedule s) wakes in
      let read =
        is_ok-read_secret_data codec s a b (law.truncated now) kept.entries
          (ap codec.parse_rfc3339 (stored-last_schedule codec now sent stored kept stamped)
            ∙ law.parse-format now)
          (other replicas_before_sleep_key refl refl ∙ no_replicas)
          (other original_cronjob_status_key refl refl ∙ no_status)
          (rw (other original_json_patch_data_key refl refl) restored) in
      rw (sleeps_at, wakes_at, kept.has_data) read
