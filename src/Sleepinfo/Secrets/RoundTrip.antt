-- ===== src/Sleepinfo/Secrets/RoundTrip.antt =====
-- The secret that one reconciliation writes, read by the next.
use kube_green.Base.{
  Bool, true, false, ◌≡◌, ◌≢◌, refl, ◌∙◌, String, ◌==◌, List, [], ◌∷◌, Option, none, some, arith,
}
use kube_green.Base.{ok, or_else, any, non_empty, eq_iff, Result-cases, inl, inr}
use kube_green.Base.Dict.{Dict, lookup, insert}
use kube_green.Base.Clock.{Time}
use kube_green.Libraries.{Codec, RestorePatches}
use kube_green.Api.{SleepInfo}
use kube_green.Api.Schedule.{get_sleep_schedule, get_wake_up_schedule}
use kube_green.Cluster.{Secret}
use kube_green.JsonPatch.{ManagedResources}
use kube_green.JsonPatch.Resources.{has_resource}
use kube_green.JsonPatch.Saved.RoundTrip.{KeepsPatches, patch_of, save_mapping-non_empty}
use kube_green.JsonPatch.Saved.{
  data_to_save, save_mapping, get_original_info_to_save, get_original_info_to_restore,
}
use kube_green.Sleepinfo.{
  Settings, SleepInfoData, sleep_operation, wake_up_operation, last_schedule_key,
  last_operation_key, original_json_patch_data_key, replicas_before_sleep_key,
  original_cronjob_status_key,
}
use kube_green.Sleepinfo.OldSecret.{convert_old_secret_data_to_new_format}
use kube_green.Sleepinfo.Data.{
  get_sleep_info_data, read_secret, read_secret_data, after_operation, initial_data,
}
use kube_green.Sleepinfo.Secrets.{new_secret}

abbrev pub entries_of : Option (Dict String) → Dict String
entries_of none = []
entries_of (some entries) = entries

-- The API server keeps a secret's `data` with its `stringData` written over it.
pub record IsStored (sent stored : Secret) : Type 0 where
  pub entries : Dict String
  pub has_data : stored.data_map ≡ some entries
  pub merged :
      (k : String)
      → lookup k entries ≡ or_else (lookup k sent.string_data) (lookup k (entries_of sent.data_map))

-- The encodings read back: the instant to the second, the patches up to their order.
pub record ReadsBack (codec : Codec) : Type 0 where
  pub truncated : Time → Time
  pub parse-format : (t : Time) → codec.parse_rfc3339 (codec.format_rfc3339 t) ≡ ok (truncated t)
  pub patches : KeepsPatches codec

pub lookup-IsStored :
    {sent stored : Secret} (kept : IsStored sent stored) (key : String)
    (entries strings : Dict String)
    → sent.data_map ≡ some entries
    → sent.string_data ≡ strings
    → lookup key kept.entries ≡ or_else (lookup key strings) (lookup key entries)
lookup-IsStored kept key entries strings h k = kept.merged key ∙ rw (h, k)

module _ (codec : Codec) where
  -- A secret with a marshalled map of patches, or with none.
  read_secret_data-patches :
      (s : SleepInfo) (a b op : String) (stamp : Time) (shown text : String)
      (saved : Dict RestorePatches) (entries : Dict String)
      → codec.parse_rfc3339 shown ≡ ok stamp
      → codec.unmarshal_patches text ≡ ok saved
      → lookup last_schedule_key entries ≡ some shown
      → lookup last_operation_key entries ≡ some op
      → lookup original_json_patch_data_key entries ≡ some text
      → lookup replicas_before_sleep_key entries ≡ none
      → lookup original_cronjob_status_key entries ≡ none
      → read_secret_data codec s a b entries
        ≡ ok (
            after_operation op a b (record (initial_data a b) {
              last_schedule = stamp;
              original_generic_resource_info = some saved;
            }))
  unfolding read_secret_data get_original_info_to_restore convert_old_secret_data_to_new_format
  read_secret_data-patches s a b op stamp shown text saved entries p q h1 h2 h3 h4 h5 = ground arith

  read_secret_data-no_patches :
      (s : SleepInfo) (a b op : String) (stamp : Time) (shown : String) (entries : Dict String)
      → codec.parse_rfc3339 shown ≡ ok stamp
      → lookup last_schedule_key entries ≡ some shown
      → lookup last_operation_key entries ≡ some op
      → lookup original_json_patch_data_key entries ≡ none
      → lookup replicas_before_sleep_key entries ≡ none
      → lookup original_cronjob_status_key entries ≡ none
      → read_secret_data codec s a b entries
        ≡ ok (
            after_operation op a b (record (initial_data a b) {
              last_schedule = stamp;
              original_generic_resource_info = some [];
            }))
  unfolding read_secret_data get_original_info_to_restore convert_old_secret_data_to_new_format
  read_secret_data-no_patches s a b op stamp shown entries p h1 h2 h3 h4 h5 = ground arith

pub any-non_empty : {A : Type 0} (p : A → Bool) (l : List A) → any p l ≡ true → non_empty l ≡ true
any-non_empty p [] h = h
any-non_empty p (a ∷ l) h = refl

module _ {Object W : Type 0} (codec : Codec) where
  -- What is sent for a sleep, and for a wake up, where there are resources.
  new_secret-sleep :
      (r : Settings) (now : Time) (name namespace : String) (s : SleepInfo) (info : SleepInfoData)
      (g : ManagedResources Object W) (sent : Secret)
      → has_resource g ≡ true
      → info.current_operation_type ≡ sleep_operation
      → new_secret codec r now name namespace s info g ≡ ok sent
      → (text : String) × (codec.marshal_patches (data_to_save [] g.res_mapping) ≡ ok text)
        × (sent.data_map ≡ some ((original_json_patch_data_key, text) ∷ []))
        × (sent.string_data
            ≡ (last_schedule_key, codec.format_rfc3339 now)
              ∷ (last_operation_key, sleep_operation)
              ∷ [])
  unfolding new_secret insert get_original_info_to_save has_resource
  new_secret-sleep r now name namespace s info g sent h op sending =
      elim (Result-cases (save_mapping codec g.res_mapping)) [
        | inr (m, e) ↦ absurd (ground (arith, eq_iff info.current_operation_type sleep_operation))
        | inl (saved, e) ↦
            let (text, same, marshalled) =
              save_mapping-non_empty codec g.res_mapping saved
                (any-non_empty (λ entry. non_empty entry.1.items) g.res_mapping h) e in
            (
              text,
              marshalled,
              ground (arith, eq_iff info.current_operation_type sleep_operation),
              ground (arith, eq_iff info.current_operation_type sleep_operation),
            )
      ]

  new_secret-wake_up :
      (r : Settings) (now : Time) (name namespace : String) (s : SleepInfo) (info : SleepInfoData)
      (g : ManagedResources Object W) (sent : Secret)
      → has_resource g ≡ true
      → info.current_operation_type ≡ wake_up_operation
      → new_secret codec r now name namespace s info g ≡ ok sent
      → (sent.data_map ≡ some [])
        × (sent.string_data
            ≡ (last_schedule_key, codec.format_rfc3339 now)
              ∷ (last_operation_key, wake_up_operation)
              ∷ [])
  unfolding new_secret insert
  new_secret-wake_up r now name namespace s info g sent h op sending =
      let other : (info.current_operation_type == sleep_operation) ≡ false = rw op refl in
      ground (arith, other)

  -- After a sleep of some resources, the stored secret makes the wake up the next operation, with the
  -- instant of the sleep (as RFC 3339 keeps it) and, for every target and name, exactly the restore
  -- patch that was recorded. The SleepInfo has both schedules.
  pub get_sleep_info_data-new_secret_sleep :
      (law : ReadsBack codec) (r : Settings) (now : Time) (name namespace : String) (s : SleepInfo)
      (info : SleepInfoData) (g : ManagedResources Object W) (sent stored : Secret)
      (sleep_schedule wake_up_schedule : String)
      → get_sleep_schedule s ≡ ok sleep_schedule
      → get_wake_up_schedule s ≡ ok wake_up_schedule
      → wake_up_schedule ≢ ""
      → has_resource g ≡ true
      → info.current_operation_type ≡ sleep_operation
      → new_secret codec r now name namespace s info g ≡ ok sent
      → IsStored sent stored
      → (restored : Dict RestorePatches) × (get_sleep_info_data codec (some stored) s
          ≡ ok (record {
            last_schedule = law.truncated now;
            current_operation_type = wake_up_operation;
            current_operation_schedule = wake_up_schedule;
            next_operation_schedule = sleep_schedule;
            original_generic_resource_info = some restored;
          }))
        × ((shown resource : String)
            → patch_of shown resource restored
              ≡ patch_of shown resource (data_to_save [] g.res_mapping))
  unfolding get_sleep_info_data read_secret lookup after_operation initial_data
  get_sleep_info_data-new_secret_sleep law r now name namespace s info g sent stored a b sleeps
        wakes set h op sending kept =
      let (text, marshalled, entries, strings) =
        new_secret-sleep r now name namespace s info g sent h op sending in
      let (restored, unmarshalled, same) =
        law.patches.unmarshal-marshal (data_to_save [] g.res_mapping) text marshalled in
      let at = λ (k : String). lookup-IsStored kept k _ _ entries strings in
      let read =
        read_secret_data-patches codec s a b sleep_operation (law.truncated now)
          (codec.format_rfc3339 now) text restored kept.entries (law.parse-format now) unmarshalled
          (at last_schedule_key) (at last_operation_key) (at original_json_patch_data_key)
          (at replicas_before_sleep_key) (at original_cronjob_status_key) in
      (restored, rw (sleeps, wakes, kept.has_data, read) (ground (arith, eq_iff b "")), same)

  -- After a wake up of some resources, the stored secret makes the sleep the next operation, and keeps
  -- no restore patch.
  pub get_sleep_info_data-new_secret_wake_up :
      (law : ReadsBack codec) (r : Settings) (now : Time) (name namespace : String) (s : SleepInfo)
      (info : SleepInfoData) (g : ManagedResources Object W) (sent stored : Secret)
      (sleep_schedule wake_up_schedule : String)
      → get_sleep_schedule s ≡ ok sleep_schedule
      → get_wake_up_schedule s ≡ ok wake_up_schedule
      → wake_up_schedule ≢ ""
      → has_resource g ≡ true
      → info.current_operation_type ≡ wake_up_operation
      → new_secret codec r now name namespace s info g ≡ ok sent
      → IsStored sent stored
      → get_sleep_info_data codec (some stored) s
        ≡ ok (record {
          last_schedule = law.truncated now;
          current_operation_type = sleep_operation;
          current_operation_schedule = sleep_schedule;
          next_operation_schedule = wake_up_schedule;
          original_generic_resource_info = some [];
        })
  unfolding get_sleep_info_data read_secret lookup after_operation initial_data
  get_sleep_info_data-new_secret_wake_up law r now name namespace s info g sent stored a b sleeps
        wakes set h op sending kept =
      let (entries, strings) = new_secret-wake_up r now name namespace s info g sent h op sending in
      let at = λ (k : String). lookup-IsStored kept k _ _ entries strings in
      let read =
        read_secret_data-no_patches codec s a b wake_up_operation (law.truncated now)
          (codec.format_rfc3339 now) kept.entries (law.parse-format now) (at last_schedule_key)
          (at last_operation_key) (at original_json_patch_data_key) (at replicas_before_sleep_key)
          (at original_cronjob_status_key) in
      rw (sleeps, wakes, kept.has_data, read) (ground (arith, eq_iff b ""))
