-- ===== src/Patcher.antt =====
-- internal/patcher/patcher.go: a decoded JSON 6902 patch and its application.
use kube_green.Base.{Bool, true, not, String, Result, ok, ◌>>=◌}
use kube_green.Libraries.{JsonLib}

pub record Patcher (Operations : Type 0) : Type 0 where
  pub patch : Operations

module _ {Operations : Type 0} (json : JsonLib Operations) where
  unfoldable pub exec : Patcher Operations → String → Result String
  exec p original =
      json.apply_with_options p.patch
        (record { ensure_path_exists_on_add = true; allow_missing_path_on_remove = true }) original

  unfoldable pub is_resource_changed : Patcher Operations → String → Result Bool
  is_resource_changed p original = do
    modified ← exec p original
    ok (not (json.equal original modified))

  unfoldable pub new : String → Result (Patcher Operations)
  new patch_to_apply = do
    json_patch_to_apply ← json.yaml_to_json patch_to_apply
    patch ← json.decode_patch json_patch_to_apply
    ok (record { patch = patch })
