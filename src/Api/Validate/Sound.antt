-- ===== src/Api/Validate/Sound.antt =====
-- What a SleepInfo that passes validation satisfies.
use kube_green.Base.{true, ◌≡◌, String, ◌==◌, List, [], ◌∷◌, ◌++◌, ℕ, ◌+◌, suc, arith}
use kube_green.Base.{
  ◌<>◌, message, Result, ok, is_ok, if◌then◌else◌, Result-cases, inl, inr, eq_iff, All, length,
  length-append, ◌⊎◌, Bool-cases,
}
use kube_green.Libraries.{Cron, JsonLib}
use kube_green.Patcher.{new}
use kube_green.Api.{GroupKind, group_kind, Patch, SleepInfo}
use kube_green.Api.Schedule.{get_sleep_schedule, get_wake_up_schedule}
use kube_green.Api.Patches.{get_patches}
use kube_green.Api.Validate.{
  target_warnings, invalid_patch, validate_each, validate_patches, validate_wake_up, validate,
}

module _ {Schedule Operations Mapping : Type 0} (cron : Cron Schedule) (json : JsonLib Operations)
    (rest_mapping : GroupKind → Result Mapping) where
  -- How many patches have a target that the cluster does not know.
  abbrev pub unmapped : List Patch → ℕ
  unmapped [] = 0
  unmapped (patch ∷ rest) =
      if is_ok (rest_mapping (group_kind patch.target)) then unmapped rest else suc (unmapped rest)

  length-validate_each :
      (patches : List Patch) (warnings found : List String)
      → validate_each cron json rest_mapping warnings patches ≡ ok found
      → All (λ patch. is_ok (new json patch.patch) ≡ true) patches
        × (length found ≡ length warnings + unmapped patches)
  unfolding validate_each target_warnings invalid_patch
  length-validate_each [] warnings found h = ground arith
  length-validate_each (patch ∷ rest) warnings found h =
      elim (Result-cases (new json patch.patch)) [
        | inr (e, failed) ↦ absurd (ground arith)
        | inl (q, decoded) ↦ elim (Result-cases (rest_mapping (group_kind patch.target))) [
          | inl (m, mapped) ↦
              ground
                (arith, length-validate_each rest (warnings ++ []) found, length-append warnings [])
          | inr (e, unknown) ↦
              let text : String = "SleepInfo patch target is invalid: " <> message e in
              ground (
                arith,
                length-validate_each rest (warnings ++ text ∷ []) found,
                length-append warnings (text ∷ []),
              )
        ]
      ]

  validate_wake_up_sound :
      (s : SleepInfo) (b : String) (warnings : List String)
      → validate_wake_up cron json rest_mapping s b ≡ ok warnings
      → ((b ≡ "") ⊎ (is_ok (cron.parse_standard b) ≡ true))
        × (All (λ patch. is_ok (new json patch.patch) ≡ true) (get_patches s)
            × (length warnings ≡ unmapped (get_patches s)))
  unfolding validate_wake_up validate_patches
  validate_wake_up_sound s b warnings h =
      let plain = length-validate_each (get_patches s) [] warnings in
      elim (Bool-cases (b == "")) [
        | inl e ↦
            let (decoded, counted) = plain (rw e at h) in
            (inl ((eq_iff b "").0 e), (decoded, omega (arith, counted)))
        | inr e ↦ elim (Result-cases (cron.parse_standard b)) [
          | inl (q, parsed) ↦
              let (decoded, counted) = plain (rw (e, parsed) at h) in
              (inr (rw parsed), (decoded, omega (arith, counted)))
          | inr (m, failed) ↦ absurd (ground arith)
        ]
      ]

  -- A SleepInfo that is admitted has a sleep schedule that cron parses, a wake up schedule that is
  -- empty or that cron parses, and only patches that can be decoded; and there is a warning for each
  -- patch whose target the cluster does not know.
  pub validate_sound :
      (s : SleepInfo) (warnings : List String)
      → validate cron json rest_mapping s ≡ ok warnings
      → (sleep_schedule : String) × (wake_up_schedule : String) × (get_sleep_schedule s
          ≡ ok sleep_schedule)
        × (get_wake_up_schedule s ≡ ok wake_up_schedule)
        × (is_ok (cron.parse_standard sleep_schedule) ≡ true)
        × ((wake_up_schedule ≡ "") ⊎ (is_ok (cron.parse_standard wake_up_schedule) ≡ true))
        × All (λ patch. is_ok (new json patch.patch) ≡ true) (get_patches s)
        × (length warnings ≡ unmapped (get_patches s))
  unfolding validate
  validate_sound s warnings h = elim (Result-cases (get_sleep_schedule s)) [
    | inr (e, failed) ↦ absurd (ground arith)
    | inl (a, sleeps) ↦ elim (Result-cases (cron.parse_standard a)) [
      | inr (e, failed) ↦ absurd (ground arith)
      | inl (q, parsed) ↦ elim (Result-cases (get_wake_up_schedule s)) [
        | inr (e, failed) ↦ absurd (ground arith)
        | inl (b, wakes) ↦
            let checked : validate_wake_up cron json rest_mapping s b ≡ ok warnings =
              unfold validate_wake_up in ground arith in
            let (parses, patches) = validate_wake_up_sound s b warnings checked in
            (a, b, sleeps, wakes, rw parsed, parses, patches.0, patches.1)
      ]
    ]
  ]
