-- ===== src/JsonPatch/Selectors/Names.antt =====
-- Which filters concern a target.
use text.Mathlib.Text.{starts_with}
use text.Mathlib.TextEquality.{starts_with_iff}
use text.Mathlib.TextLemmas.{nil-append, cons-append}
use kube_green.Base.{false, ◌≡◌, ap, String, ◌<>◌, ℕ, ◌+◌, arith}
use kube_green.Base.{Bool-cases, inl, inr}
use kube_green.Api.{FilterRef, PatchTarget}
use kube_green.Api.Schedule.Format.{occurrences}
use kube_green.JsonPatch.Selectors.{match_patch_target_and_filter_ref}

pub occurrences-append :
    (c : ℕ) (s t : String) → occurrences c (s <> t) ≡ occurrences c s + occurrences c t
occurrences-append c String.[] t = rw nil-append (omega arith)
occurrences-append c (String.◌∷◌ d s) t = rw cons-append (ground (arith, occurrences-append c s t))

-- A filter whose apiVersion has no slash, as those of the core group (`v1`) have none, concerns no
-- target at all, not even one of the core group and of its kind.
pub match_patch_target_and_filter_ref-no_slash :
    (target : PatchTarget) (filter_ref : FilterRef)
    → occurrences b'/' filter_ref.api_version ≡ 0
    → match_patch_target_and_filter_ref target filter_ref ≡ false
unfolding match_patch_target_and_filter_ref
match_patch_target_and_filter_ref-no_slash target filter_ref h =
    elim (Bool-cases (starts_with filter_ref.api_version (target.group <> "/"))) [
      | inr e ↦ rw e
      | inl e ↦
          let (rest, whole) = (starts_with_iff filter_ref.api_version (target.group <> "/")).0 e in
          absurd (
            omega (
              arith,
              ap (occurrences b'/') whole,
              occurrences-append b'/' (target.group <> "/") rest,
              occurrences-append b'/' target.group "/",
            ))
    ]
