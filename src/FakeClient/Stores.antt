-- ===== src/FakeClient/Stores.antt =====
-- The fake client around one that stores secrets as they are sent, as a server that stores them.
use kube_green.Base.{◌≡◌, ◌⊎◌, inl, inr, refl, String, [], ◌∷◌, Option, some, arith}
use kube_green.Base.{or_else, Bool-cases}
use kube_green.Base.Dict.{Dict, lookup, lookup-insert}
use kube_green.Base.Exec.{Exec}
use kube_green.Cluster.{Secret, Metrics}
use kube_green.FakeClient.{
  Accessors, FakeClient, write_over, convert_secret_string_data, fails, as_client,
}
use kube_green.FakeClient
use kube_green.Sleepinfo.Secrets.RoundTrip.{IsStored}
use kube_green.Sleepinfo.Runs.Reachable.{StoresSecrets}

lookup-write_over :
    (k : String) (strings entries : Dict String)
    → lookup k (write_over strings entries) ≡ or_else (lookup k strings) (lookup k entries)
unfolding lookup
lookup-write_over k [] entries = refl
lookup-write_over k ((j, v) ∷ strings) entries =
    ground
      (arith, lookup-insert j k v (write_over strings entries), lookup-write_over k strings entries)

data_map-convert_secret_string_data :
    (sent : Secret) (strings entries : Dict String)
    → sent.string_data ≡ strings
    → sent.data_map ≡ some entries
    → (convert_secret_string_data sent).data_map ≡ some (write_over strings entries)
unfolding convert_secret_string_data
data_map-convert_secret_string_data sent [] entries e h = rw e h
data_map-convert_secret_string_data sent (string ∷ strings) entries e h = rw (e, h) refl

convert_secret_string_data-IsStored :
    (sent : Secret) (entries : Dict String)
    → sent.data_map ≡ some entries
    → IsStored sent (convert_secret_string_data sent)
convert_secret_string_data-IsStored sent entries h = record {
  entries = write_over sent.string_data entries;
  has_data = data_map-convert_secret_string_data sent sent.string_data entries refl h;
  merged = λ k. rw h (lookup-write_over k sent.string_data entries);
}

module _ {Object W : Type 0} (accessors : Accessors Object) (p : FakeClient Object W)
    (metrics : Metrics W) (holds : String → String → W → Option Secret) where
  -- A client that stores a secret as it is sent.
  abbrev pub StoresAsSent : Type 0
  StoresAsSent = StoresSecrets p.client metrics holds (λ sent stored. stored ≡ sent)

  -- A call that is made or is answered with an error keeps what the call itself keeps.
  same-unless :
      {A : Type 0} (method : FakeClient.Method) (obj : FakeClient.Subject Object) (text : String)
      (call : Exec W A) (w : W) (namespace name : String)
      → holds namespace name (call w).1 ≡ holds namespace name w
      → holds namespace name (FakeClient.unless accessors p method obj text call w).1
        ≡ holds namespace name w
  same-unless method obj text call w namespace name h = ground arith

  written-unless :
      (method : FakeClient.Method) (sent : Secret) (entries : Dict String) (text : String)
      (call : Secret → Exec W (Unit {0})) (w : W) (namespace name : String) (stored : Secret)
      → sent.data_map ≡ some entries
      → (holds namespace name (call (convert_secret_string_data sent) w).1 ≡ some stored
          → (holds namespace name w ≡ some stored) ⊎ (stored ≡ convert_secret_string_data sent))
      → holds namespace name
          (FakeClient.unless accessors p method
            (FakeClient.secret sent)
            text
            (call (convert_secret_string_data sent))
            w).1
        ≡ some stored
      → (holds namespace name w ≡ some stored) ⊎ IsStored sent stored
  written-unless method sent entries text call w namespace name stored h write held =
      elim (Bool-cases (fails accessors p method (FakeClient.secret sent))) [
        | inl e ↦ inl (ground arith)
        | inr e ↦ elim (write (ground arith)) [
          | inl old ↦ inl old
          | inr same ↦ inr (rw same (convert_secret_string_data-IsStored sent entries h))
        ]
      ]

  -- The fake client behaves towards the secrets as the API server does, whichever errors the tests
  -- ask for: around a client that stores each secret as it is sent, what it holds after a `Create` or
  -- an `Update` of a secret with `data` is what it held, or that `data` with `stringData` written over
  -- it; no other call concerns the secrets; and what is read is what is held.
  pub as_client-StoresSecrets :
      StoresAsSent → StoresSecrets (as_client accessors p) metrics holds IsStored
  as_client-StoresSecrets law = record {
    created = λ sent entries w namespace name stored h.
        written-unless FakeClient.Method.create sent entries "error during create"
          p.client.create_secret w namespace name stored h
          (law.created (convert_secret_string_data sent) (write_over sent.string_data entries) w
            namespace name stored
            (data_map-convert_secret_string_data sent sent.string_data entries refl h));
    updated = λ sent entries w namespace name stored h.
        written-unless FakeClient.Method.update sent entries "error during update"
          p.client.update_secret w namespace name stored h
          (law.updated (convert_secret_string_data sent) (write_over sent.string_data entries) w
            namespace name stored
            (data_map-convert_secret_string_data sent sent.string_data entries refl h));
    patched = λ new old w namespace name.
        same-unless FakeClient.Method.patch (FakeClient.object new) "error during patch"
          (p.client.patch new old) w namespace name (law.patched new old w namespace name);
    applied = λ o owner w namespace name.
        same-unless FakeClient.Method.apply FakeClient.nothing "error during apply"
          (p.client.apply o owner) w namespace name (law.applied o owner w namespace name);
    status_updated = law.status_updated;
    execution_updated = λ e w namespace name.
        same-unless FakeClient.Method.update (FakeClient.execution e) "error during update"
          (p.client.update_execution e) w namespace name (law.execution_updated e w namespace name);
    execution_status_updated = law.execution_status_updated;
    gauge_set = law.gauge_set;
    gauge_deleted = law.gauge_deleted;
    got = law.got;
  }
