-- ===== src/Api/Validate/Complete.antt =====
-- Which SleepInfo passes validation: an independent description.
use kube_green.Base.{true, ◌≡◌, ◌↔◌, ◌⊎◌, refl, String, List, [], ◌∷◌, ◌++◌, arith}
use kube_green.Base.{Result, ok, is_ok, Result-cases, inl, inr, All, eq_iff}
use kube_green.Libraries.{Cron, JsonLib}
use kube_green.Patcher.{new}
use kube_green.Api.{GroupKind, group_kind, Patch, SleepInfo}
use kube_green.Api.Schedule.{get_sleep_schedule, get_wake_up_schedule}
use kube_green.Api.Patches.{get_patches}
use kube_green.Api.Validate.{
  target_warnings, invalid_patch, validate_each, validate_patches, validate_wake_up, validate,
}
use kube_green.Api.Validate.Sound.{validate_sound}

module _ {Schedule Operations Mapping : Type 0} (cron : Cron Schedule) (json : JsonLib Operations)
    (rest_mapping : GroupKind → Result Mapping) where
  -- Both schedules are built, the sleep schedule parses, the wake up schedule is empty or parses, and
  -- every patch decodes.
  abbrev pub IsAdmissible : SleepInfo → Type 0
  IsAdmissible s =
      (sleep_schedule : String) × (wake_up_schedule : String) × (get_sleep_schedule s
        ≡ ok sleep_schedule)
      × (get_wake_up_schedule s ≡ ok wake_up_schedule)
      × (is_ok (cron.parse_standard sleep_schedule) ≡ true)
      × ((wake_up_schedule ≡ "") ⊎ (is_ok (cron.parse_standard wake_up_schedule) ≡ true))
      × All (λ patch. is_ok (new json patch.patch) ≡ true) (get_patches s)

  is_ok-validate_each :
      (patches : List Patch) (warnings : List String)
      → All (λ patch. is_ok (new json patch.patch) ≡ true) patches
      → is_ok (validate_each cron json rest_mapping warnings patches) ≡ true
  unfolding validate_each invalid_patch
  is_ok-validate_each [] warnings h = refl
  is_ok-validate_each (patch ∷ rest) warnings (h, hs) = elim (Result-cases (new json patch.patch)) [
    | inr (e, failed) ↦ absurd (ground arith)
    | inl (q, decoded) ↦ rw decoded (
        is_ok-validate_each rest
          (warnings
            ++ target_warnings cron json rest_mapping (rest_mapping (group_kind patch.target)))
          hs)
  ]

  is_ok-validate_wake_up :
      (s : SleepInfo) (schedule : String)
      → ((schedule ≡ "") ⊎ (is_ok (cron.parse_standard schedule) ≡ true))
      → All (λ patch. is_ok (new json patch.patch) ≡ true) (get_patches s)
      → is_ok (validate_wake_up cron json rest_mapping s schedule) ≡ true
  unfolding validate_wake_up validate_patches
  is_ok-validate_wake_up s schedule parses h =
      ground (arith, is_ok-validate_each (get_patches s) [] h, eq_iff schedule "")

  IsAdmissible-validate :
      (s : SleepInfo) → is_ok (validate cron json rest_mapping s) ≡ true → IsAdmissible s
  IsAdmissible-validate s h = elim (Result-cases (validate cron json rest_mapping s)) [
    | inr (e, failed) ↦ absurd (ground arith)
    | inl (warnings, admitted) ↦
        let (a, b, sleeps, wakes, parsed, parses, decoded, counted) =
          validate_sound cron json rest_mapping s warnings admitted in
        (a, b, sleeps, wakes, parsed, parses, decoded)
  ]

  validate-IsAdmissible :
      (s : SleepInfo) → IsAdmissible s → is_ok (validate cron json rest_mapping s) ≡ true
  unfolding validate
  validate-IsAdmissible s (a, b, sleeps, wakes, parsed, parses, decoded) =
      ground (arith, is_ok-validate_wake_up s b parses decoded)

  -- Validation admits exactly the SleepInfos whose schedules can be built and parsed, where the wake
  -- up schedule may be empty, and whose patches can all be decoded; whether the cluster knows the
  -- targets of the patches does not matter.
  pub is_ok-validate_iff :
      (s : SleepInfo) → (is_ok (validate cron json rest_mapping s) ≡ true) ↔ IsAdmissible s
  is_ok-validate_iff s = (IsAdmissible-validate s, validate-IsAdmissible s)
