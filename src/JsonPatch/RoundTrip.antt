-- ===== src/JsonPatch/RoundTrip.antt =====
-- `Sleep` and `WakeUp` together: what comes back, and what does not.
use kube_green.Base.{true, false, ◌≡◌, ◌≢◌, ◌∙◌, String, none, some, List, arith}
use kube_green.Base.{ok, In, eq_iff}
use kube_green.Base.Dict.{lookup}
use kube_green.Base.Exec.{◌>>◌}
use kube_green.Libraries.{JsonLib}
use kube_green.Cluster.{Objects, Platform}
use kube_green.Patcher.{Patcher, exec, is_resource_changed}
use kube_green.Resource.{ResourceClient, patch}
use kube_green.JsonPatch.{Progress, on_world, json_patch_call, mark_cache_invalid}
use kube_green.JsonPatch.Sleep.{sleep_resources}
use kube_green.JsonPatch.Sleep.Recorded.{restore_patch_of, DistinctNames, lookup-sleep_resources}
use kube_green.JsonPatch.WakeUp.{restore_resource, wake_up_resource}

-- What documents say, but for the fields that the API server itself writes: a document of an object says
-- what the object does. A merge patch that leads from one document to another, at any document that
-- says what the first does, makes one that says what the second does (RFC 7386).
pub record ReadsContent {Object Value Operations Content : Type 0} (objects : Objects Object Value)
    (json : JsonLib Operations) (content : Object → Content) (shown : String → Content)
    : Type 0 where
  pub marshalled :
      (o : Object) (document : String)
      → objects.marshal o ≡ ok document
      → shown document ≡ content o
  pub unmarshalled :
      (document : String) (o : Object)
      → objects.unmarshal document ≡ ok o
      → content o ≡ shown document
  pub merged :
      (from to merge_patch current result : String)
      → json.create_merge_patch from to ≡ ok merge_patch
      → json.merge_patch current merge_patch ≡ ok result
      → shown current ≡ shown from
      → shown result ≡ shown to

module _ {Object Value Operations Schedule W : Type 0}
    (p : Platform Object Value Operations Schedule W) where
  open p use {objects, json}

  -- `o` is put to sleep, and `asleep` is what is found later, when the API server has written its own
  -- fields: the patch has an effect on `o`, which the restore patch records, and what is found says
  -- what the patch makes of `o`, and is left alone by it (JSON 6902 `add` of a constant). `back` is
  -- what the restore patch makes of that.
  pub record SleepsAs {Content Ident : Type 0} (ident : Object → Ident) (content : Object → Content)
      (shown : String → Content) (patcher : Patcher Operations) (o asleep : Object) : Type 0 where
    pub original : String
    pub modified : String
    pub restore_patch : String
    pub current : String
    pub again : String
    pub restored : String
    pub back : Object
    pub same_name : objects.name asleep ≡ objects.name o
    pub same_object : ident asleep ≡ ident o
    pub uncontrolled : objects.has_controller o ≡ false
    pub marshal_original : objects.marshal o ≡ ok original
    pub applies : exec json patcher original ≡ ok modified
    pub merge_back : json.create_merge_patch modified original ≡ ok restore_patch
    pub changes : restore_patch ≢ "{}"
    pub says_modified : content asleep ≡ shown modified
    pub marshal_asleep : objects.marshal asleep ≡ ok current
    pub applies_again : exec json patcher current ≡ ok again
    pub equal_again : json.equal current again ≡ true
    pub merges_back : json.merge_patch current restore_patch ≡ ok restored
    pub unmarshal_restored : objects.unmarshal restored ≡ ok back
    pub back_object : ident back ≡ ident o

  module _ {Content Ident : Type 0} (ident : Object → Ident) (content : Object → Content)
      (shown : String → Content) where
    -- What comes back says what was there.
    pub content-SleepsAs :
        (reads : ReadsContent objects json content shown) (patcher : Patcher Operations)
        (o asleep : Object) (h : SleepsAs ident content shown patcher o asleep)
        → content h.back ≡ content o
    content-SleepsAs reads patcher o asleep h =
        reads.unmarshalled h.restored h.back h.unmarshal_restored
        ∙ reads.merged h.modified h.original h.restore_patch h.current h.restored h.merge_back
            h.merges_back (reads.marshalled asleep h.current h.marshal_asleep ∙ h.says_modified)
        ∙ reads.marshalled o h.original h.marshal_original

    pub restore_patch_of-SleepsAs :
        (patcher : Patcher Operations) (o asleep : Object)
        (h : SleepsAs ident content shown patcher o asleep)
        → restore_patch_of p patcher o ≡ some h.restore_patch
    unfolding restore_patch_of
    restore_patch_of-SleepsAs patcher o asleep h = ground (arith, eq_iff h.restore_patch "{}")

    -- The wake up is the one call that patches what it finds to what the restore patch makes of it.
    pub wake_up_resource-SleepsAs :
        (res : ResourceClient Object W) (patcher : Patcher Operations) (o asleep : Object)
        (h : SleepsAs ident content shown patcher o asleep) (s : Progress W)
        → lookup (objects.name o) s.restore_patches ≡ some h.restore_patch
        → wake_up_resource p res patcher asleep s
          ≡ (on_world (json_patch_call (patch res asleep h.back)) >> mark_cache_invalid) s
    unfolding wake_up_resource restore_resource is_resource_changed
    wake_up_resource-SleepsAs res patcher o asleep h s found = rw (
      h.same_name, found, h.marshal_asleep, h.applies_again, h.equal_again, h.merges_back,
      h.unmarshal_restored,
    )

  -- A resource that the patch no longer changes, such as one that an interrupted sleep has already
  -- patched, is not recorded by the sleep that is tried again: if no restore patch was stored for it,
  -- there is none after that sleep either, and the wake up passes it by.
  pub wake_up_resource-sleep_resources_again :
      (res res' : ResourceClient Object W) (patcher : Patcher Operations) (items : List Object)
      (s t : Progress W) (o : Object)
      → DistinctNames p items
      → In o items
      → restore_patch_of p patcher o ≡ none
      → lookup (objects.name o) s.restore_patches ≡ none
      → (sleep_resources p res patcher items s).0 ≡ ok tt
      → t.restore_patches ≡ (sleep_resources p res patcher items s).1.restore_patches
      → (lookup (objects.name o) t.restore_patches ≡ none)
        × (wake_up_resource p res' patcher o t ≡ (ok tt, t))
  unfolding wake_up_resource
  wake_up_resource-sleep_resources_again res res' patcher items s t o d m unchanged absent done
        kept =
      let gone : lookup (objects.name o) t.restore_patches ≡ none =
        rw (kept, lookup-sleep_resources p res patcher items s o d m done, unchanged) absent in
      (gone, rw gone)
