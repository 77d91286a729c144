-- ===== src/Sleepinfo/Secrets.antt =====
-- secrets.go: the secret that keeps the state of a SleepInfo.
pub mod RoundTrip
pub mod Readable
pub mod Alternates
use kube_green.Base.{◌&&◌, String, ◌<>◌, Option, none, some, [], ◌∷◌}
use kube_green.Base.{Result, ok, err, if◌then◌else◌}
use kube_green.Base.Dict.{Dict, insert}
use kube_green.Base.Clock.{Time}
use kube_green.Base.Exec.{Exec, lift, ◌>>=◌}
use kube_green.Libraries.{Codec}
use kube_green.Api.{SleepInfo}
use kube_green.Cluster.{Secret, Client}
use kube_green.JsonPatch.{ManagedResources}
use kube_green.JsonPatch.Resources.{has_resource}
use kube_green.JsonPatch.Saved.{get_original_info_to_save}
use kube_green.Sleepinfo.{
  Settings, SleepInfoData, is_sleep_operation, last_schedule_key, last_operation_key,
  original_json_patch_data_key,
}

unfoldable pub get_secret_name : String → String
get_secret_name name = "sleepinfo-" <> name

-- The secret before its data is set.
unfoldable pub base_secret : Settings → String → String → SleepInfo → Secret
base_secret r secret_name namespace sleep_info = record {
  name = secret_name;
  namespace = namespace;
  labels = ("app.kubernetes.io/managed-by", r.manager_name) ∷ [];
  owner_references =
      record {
        api_version = "kube-green.com/v1alpha1";
        kind = "SleepInfo";
        name = sleep_info.name;
        uid = sleep_info.uid;
      }
      ∷ [];
  data_map = some [];
  string_data = [];
}

-- The saved patches as `Data`; nil bytes read back as the empty text.
abbrev pub patches_data : Option String → Dict String
patches_data none = (original_json_patch_data_key, "") ∷ []
patches_data (some text) = (original_json_patch_data_key, text) ∷ []

module _ {Object W : Type 0} (codec : Codec) where
  -- `newSecret`, when it is sent.
  unfoldable pub new_secret :
      Settings
      → Time
      → String
      → String
      → SleepInfo
      → SleepInfoData
      → ManagedResources Object W
      → Result Secret
  unfolding base_secret
  new_secret r now secret_name namespace sleep_info info resources =
      let stamped : Dict String = insert last_schedule_key (codec.format_rfc3339 now) [] in
      let string_data =
        if has_resource resources
        then insert last_operation_key info.current_operation_type stamped
        else stamped in
      let secret = record (base_secret r secret_name namespace sleep_info) {
        string_data = string_data;
      } in
      if has_resource resources && is_sleep_operation info
      then elim (get_original_info_to_save codec resources) [
        | err e ↦ err e
        | ok saved ↦ ok (record secret { data_map = some (patches_data saved) })
      ]
      else ok secret

  -- A nil secret is created, another one replaced.
  abbrev pub send_secret : Client Object W → Option Secret → Secret → Exec W (Unit {0})
  send_secret client none new = client.create_secret new
  send_secret client (some old) new = client.update_secret new

  unfoldable pub upsert_secret :
      Client Object W
      → Settings
      → Time
      → String
      → String
      → SleepInfo
      → Option Secret
      → SleepInfoData
      → ManagedResources Object W
      → Exec W (Unit {0})
  upsert_secret client r now secret_name namespace sleep_info secret info resources = do
    new ← lift (new_secret r now secret_name namespace sleep_info info resources)
    send_secret client secret new
