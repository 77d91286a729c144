-- ===== src/Sleepinfo/Reconcile/Unlisted.antt =====
-- A run at a due operation whose listings find nothing, or fail.
use kube_green.Base.{◌≡◌, refl, ◌∙◌, String, Option, none, some, List, [], ◌∷◌, All, arith}
use kube_green.Base.{Error, ok}
use kube_green.Base.Dict.{Dict, lookup, insert}
use kube_green.Base.Clock.{Time}
use kube_green.Base.Int.{ℤ}
use kube_green.Libraries.{RestorePatches}
use kube_green.Api.{Patch, PatchTarget, SleepInfo}
use kube_green.Api.Patches.{get_patches}
use kube_green.Cluster.{Objects, Secret, Platform}
use kube_green.Resource.{ResourceClient}
use kube_green.JsonPatch.{GenericResource}
use kube_green.JsonPatch.Listing.{get_list_by_namespace}
use kube_green.JsonPatch.Resources.{
  add_listed, add_patches, restore_patches_for, new_resources, has_resource,
}
use kube_green.Api.Schedule.{get_sleep_schedule, get_wake_up_schedule}
use kube_green.JsonPatch.Saved.{get_original_info_to_restore}
use kube_green.Sleepinfo.{
  Settings, SleepInfoData, last_operation_key, last_schedule_key, original_json_patch_data_key,
  replicas_before_sleep_key, original_cronjob_status_key,
}
use kube_green.Sleepinfo.OldSecret.{convert_old_secret_data_to_new_format}
use kube_green.Sleepinfo.Data.{
  get_sleep_info_data, read_secret, read_secret_data, initial_data, after_operation, text_at,
}
use kube_green.Sleepinfo.Secrets.RoundTrip.{IsStored, ReadsBack}
use kube_green.Sleepinfo.Secrets.{base_secret, new_secret, upsert_secret, get_secret_name}
use kube_green.Sleepinfo.Reconcile.{
  resource_client, handle_sleep_info_status, reconcile_nothing, execute_operation,
}

-- An error, or no items.
abbrev pub FindsNothing : {Object : Type 0} → List Object × Option Error → Type 0
FindsNothing (items, some e) = Unit
FindsNothing ([], none) = Unit
FindsNothing (item ∷ items, none) = ⊥

module _ {Object Value W : Type 0} (objects : Objects Object Value)
    (res : ResourceClient Object W) where
  add_listed-FindsNothing :
      (patch_data : Patch) (patches : RestorePatches) (listing : List Object × Option Error)
      (mapping : List (PatchTarget × GenericResource Object W))
      → FindsNothing listing
      → add_listed objects res patch_data patches listing mapping ≡ mapping
  unfolding add_listed
  add_listed-FindsNothing patch_data patches (items, some e) mapping h = refl
  add_listed-FindsNothing patch_data patches ([], none) mapping h = refl
  add_listed-FindsNothing patch_data patches (item ∷ items, none) mapping h = absurd h

  add_patches-FindsNothing :
      (namespace : String) (saved : Option (Dict RestorePatches)) (patches : List Patch) (w : W)
      (mapping : List (PatchTarget × GenericResource Object W))
      → All
          (λ patch. FindsNothing (get_list_by_namespace objects res namespace patch.target w))
          patches
      → add_patches objects res namespace saved patches w mapping ≡ mapping
  unfolding add_patches
  add_patches-FindsNothing namespace saved [] w mapping h = refl
  add_patches-FindsNothing namespace saved (patch ∷ rest) w mapping (h, hs) =
      add_patches-FindsNothing namespace saved rest w _ hs
      ∙ add_listed-FindsNothing patch (restore_patches_for saved patch.target)
          (get_list_by_namespace objects res namespace patch.target w) mapping h

module _ {Object Value Operations Schedule W : Type 0}
    (p : Platform Object Value Operations Schedule W) (r : Settings) where
  open p use {codec, objects, client}

  -- The secret that is sent: the instant, and nothing else.
  abbrev pub forgetful_secret : Time → String → String → SleepInfo → Secret
  forgetful_secret now namespace name s =
      record (base_secret r (get_secret_name name) namespace s) {
        string_data = (last_schedule_key, codec.format_rfc3339 now) ∷ [];
      }

  new_resources-FindsNothing :
      (s : SleepInfo) (namespace : String) (saved : Option (Dict RestorePatches)) (w : W)
      → All
          (λ patch.
            FindsNothing
              (get_list_by_namespace objects (resource_client p r s) namespace patch.target w))
          (get_patches s)
      → new_resources objects (resource_client p r s) namespace saved w
        ≡ ok (record { res_mapping = []; namespace = namespace })
  unfolding new_resources
  new_resources-FindsNothing s namespace saved w h = rw (
      add_patches-FindsNothing objects (resource_client p r s) namespace saved (get_patches s) w []
        h)

  after_operation-none : (a b : String) (info : SleepInfoData) → after_operation "" a b info ≡ info
  unfolding after_operation
  after_operation-none a b info = refl

  read-forgetful_secret :
      (back : ReadsBack codec) (now : Time) (namespace name : String) (s : SleepInfo)
      (stored : Secret) (sleep_schedule wake_up_schedule : String)
      → get_sleep_schedule s ≡ ok sleep_schedule
      → get_wake_up_schedule s ≡ ok wake_up_schedule
      → IsStored (forgetful_secret now namespace name s) stored
      → get_sleep_info_data codec (some stored) s
        ≡ ok (record (initial_data sleep_schedule wake_up_schedule) {
          last_schedule = back.truncated now;
          original_generic_resource_info = some [];
        })
  unfolding get_sleep_info_data read_secret read_secret_data base_secret lookup
      convert_old_secret_data_to_new_format get_original_info_to_restore
  read-forgetful_secret back now namespace name s stored a b sleeps wakes kept =
      let no_operation : text_at last_operation_key kept.entries ≡ "" =
        ground (arith, kept.merged last_operation_key) in
      ground (
        arith,
        sleeps,
        wakes,
        kept.has_data,
        kept.merged last_schedule_key,
        no_operation,
        after_operation-none a b (record (initial_data a b) {
          last_schedule = back.truncated now;
          original_generic_resource_info = some [];
        }),
        kept.merged original_json_patch_data_key,
        kept.merged replicas_before_sleep_key,
        kept.merged original_cronjob_status_key,
        back.parse-format now,
      )

  -- A run at a due operation whose listings all fail, or find nothing, takes the namespace for empty.
  -- If the status can be sent, it replaces the secret, whatever that held, by one from which the next
  -- run reads a sleep and no restore patch; so it does at a wake up too, where the patches are needed.
  pub execute_operation-FindsNothing :
      (back : ReadsBack codec) (now : Time) (namespace name : String) (s : SleepInfo)
      (old stored : Secret) (info : SleepInfoData) (next_schedule : Time) (requeue_after : ℤ)
      (w w' : W) (sleep_schedule wake_up_schedule : String)
      → All
          (λ patch.
            FindsNothing
              (get_list_by_namespace objects (resource_client p r s) namespace patch.target w))
          (get_patches s)
      → handle_sleep_info_status client now s info.current_operation_type
          (record { res_mapping = []; namespace = namespace })
          w
        ≡ (ok tt, w')
      → get_sleep_schedule s ≡ ok sleep_schedule
      → get_wake_up_schedule s ≡ ok wake_up_schedule
      → IsStored (forgetful_secret now namespace name s) stored
      → ((execute_operation p r now namespace name s
            (some old)
            info
            next_schedule
            requeue_after
            w).1
          ≡ (client.update_secret (forgetful_secret now namespace name s) w').1)
        × (get_sleep_info_data codec (some stored) s
            ≡ ok (record (initial_data sleep_schedule wake_up_schedule) {
              last_schedule = back.truncated now;
              original_generic_resource_info = some [];
            }))
  unfolding execute_operation reconcile_nothing upsert_secret new_secret insert has_resource
  execute_operation-FindsNothing back now namespace name s old stored info next_schedule
        requeue_after w w' a b h sent sleeps wakes kept =
      (
        ground (
          arith,
          new_resources-FindsNothing s namespace info.original_generic_resource_info w h,
          sent,
        ),
        read-forgetful_secret back now namespace name s stored a b sleeps wakes kept,
      )
