-- ===== src/Tests/Restoring.antt =====
-- The small cluster as a server that applies patches, and what a wake up finds there.
use kube_green.Base.{
  ◌≡◌, ◌≢◌, String, Option, none, some, List, [], ◌∷◌, arith, eq_iff, Option-cases,
}
use kube_green.Base.{false, ◌==◌, ◌∙◌, inl, inr, ok, Bool-cases}
use kube_green.Base.Text.{split}
use kube_green.JsonPatch.RoundTrip.{ReadsContent}
use kube_green.JsonPatch.Server.{StoresObjects}
use kube_green.Tests.Sample.{shown, shown_parts, readable, difference, merge, with_replicas}
use kube_green.Tests.Cluster.{
  workload_of, Workload, World, platform, server, web, sleeping_web, idle, replicas_in,
  patched_items,
}

-- The version is the server's own.
abbrev pub content : Workload → String
content o = o.replicas

abbrev pub holds : String → World → Option String
holds name w = replicas_in name w.items

replicas_in-patched_items :
    (new old : Workload) (items : List Workload)
    → new.name ≡ old.name
    → replicas_in old.name items ≡ some old.replicas
    → replicas_in old.name (patched_items new old items) ≡ some new.replicas
replicas_in-patched_items new old [] same held = absurd (ground (arith, held))
replicas_in-patched_items new old (o ∷ items) same held = ground (
  arith,
  same,
  held,
  eq_iff o.name new.name,
  eq_iff o.name old.name,
  eq_iff new.replicas old.replicas,
  replicas_in-patched_items new old items,
)

replicas_in-patched_other :
    (new old : Workload) (name : String) (items : List Workload)
    → name ≢ new.name
    → replicas_in name (patched_items new old items) ≡ replicas_in name items
replicas_in-patched_other new old name [] other = ground arith
replicas_in-patched_other new old name (o ∷ items) other = ground (
  arith,
  eq_iff o.name name,
  eq_iff o.name new.name,
  replicas_in-patched_other new old name items other,
)

replicas_in-patched_none :
    (new old : Workload) (items : List Workload)
    → replicas_in new.name items ≡ none
    → replicas_in new.name (patched_items new old items) ≡ none
replicas_in-patched_none new old [] absent = ground arith
replicas_in-patched_none new old (o ∷ items) absent =
    ground (arith, eq_iff o.name new.name, replicas_in-patched_none new old items)

pub stores : StoresObjects platform.objects.name content server holds
stores = record {
  patched = λ new old w same held done. replicas_in-patched_items new old w.items same held;
  missed = λ new old w e failed missing.
      replicas_in-patched_none new old w.items
        (ground (arith, failed, Option-cases (replicas_in new.name w.items)));
  others_kept = λ new old name w other. replicas_in-patched_other new old name w.items other;
}

content-workload_of :
    (parts : List String) (o : Workload) → workload_of parts ≡ ok o → content o ≡ shown_parts parts
content-workload_of [] o h = absurd (ground (arith, h))
content-workload_of (name ∷ []) o h = absurd (ground (arith, h))
content-workload_of (name ∷ replicas ∷ []) o h = absurd (ground (arith, h))
content-workload_of (name ∷ replicas ∷ version ∷ []) o h = ground (arith, h)
content-workload_of (name ∷ replicas ∷ version ∷ _ ∷ _) o h = absurd (ground (arith, h))

shown-readable :
    (replicas document result : String)
    → readable replicas document ≡ ok result
    → shown result ≡ replicas
shown-readable replicas document result h = ground (arith, h, eq_iff (shown document) replicas)

shown-with_replicas :
    (replicas : String) (parts : List String) (result : String)
    → with_replicas replicas parts ≡ ok result
    → shown result ≡ replicas
shown-with_replicas replicas [] result h = absurd (ground (arith, h))
shown-with_replicas replicas (name ∷ []) result h = absurd (ground (arith, h))
shown-with_replicas replicas (name ∷ _ ∷ []) result h = absurd (ground (arith, h))
shown-with_replicas replicas (name ∷ _ ∷ version ∷ []) result h = shown-readable replicas _ result h
shown-with_replicas replicas (name ∷ _ ∷ version ∷ _ ∷ _) result h = absurd (ground (arith, h))

shown-merge :
    (from to patch current result : String)
    → difference from to ≡ ok patch
    → merge current patch ≡ ok result
    → shown current ≡ shown from
    → shown result ≡ shown to
shown-merge from to patch current result made merged same = elim (Bool-cases (from == to)) [
  | inl e ↦
      let equal : from ≡ to = ground (arith, eq_iff from to, e) in
      let sent : patch ≡ "{}" = ground (arith, made, e) in
      let unchanged : current ≡ result = ground (arith, merged, sent, eq_iff patch "{}") in
      rw (← unchanged, ← equal) same
  | inr e ↦
      let sent : patch ≡ shown to = ground (arith, made, e) in
      let set : (patch == "{}") ≡ false = ground (arith, made, e) in
      shown-with_replicas patch (split b':' current) result (ground (arith, merged, set)) ∙ sent
]

pub reads_content : ReadsContent platform.objects platform.json content shown
reads_content = record {
  marshalled = λ o document h. shown-readable o.replicas _ document h;
  unmarshalled = λ document o h. content-workload_of (split b':' document) o h;
  merged = shown-merge;
}

abbrev pub found : List (Workload × Workload)
found = (web, sleeping_web) ∷ (idle, idle) ∷ []
