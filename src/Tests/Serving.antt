-- ===== src/Tests/Serving.antt =====
-- What the fake client keeps, and what validation admits.
use kube_green.Base.{◌≡◌, ◌↔◌, refl, true, false, String, ◌==◌, Option, some, arith, inr}
use kube_green.Base.{ok, is_ok}
use kube_green.Api.Validate.{validate}
use kube_green.Api.Validate.Complete.{IsAdmissible, is_ok-validate_iff}
use kube_green.Cluster.{Secret}
use kube_green.FakeClient.{FakeClient, Accessors, Method, as_client}
use kube_green.FakeClient.Stores.{StoresAsSent, as_client-StoresSecrets}
use kube_green.Sleepinfo.Runs.Reachable.{StoresSecrets}
use kube_green.Sleepinfo.Secrets.RoundTrip.{IsStored}
use kube_green.Tests.Sample.{daily, documents}
use kube_green.Tests.Cluster.{Workload, World, server, gauges, awake, working_hours}

is_ok-validate_iff_example :
    (is_ok (validate daily documents (λ target. server.rest_mapping target awake) working_hours)
      ≡ true)
    ↔ IsAdmissible daily documents (λ target. server.rest_mapping target awake) working_hours
is_ok-validate_iff_example =
    is_ok-validate_iff daily documents (λ target. server.rest_mapping target awake) working_hours

-- Inside, secrets are stored as they are sent; updates fail.
abbrev faulty : FakeClient Workload World
faulty = record {
  client = record server {
    create_secret = λ sent w. (ok tt, record w { secret = some sent });
    update_secret = λ sent w. (ok tt, record w { secret = some sent });
  };
  should_error = some (λ method obj. elim method [
    | Method.list ↦ false
    | Method.create ↦ false
    | Method.update ↦ true
    | Method.patch ↦ false
    | Method.apply ↦ false
  ]);
}

abbrev by_name : Accessors Workload
by_name = record {
  get_name = λ o. ok o.name;
  extract_list = λ items. ok items;
  set_list = λ items. ok tt;
  matches = λ selector name. selector == name;
}

abbrev held_secret : String → String → World → Option Secret
held_secret namespace name w = w.secret

as_sent : (sent stored : Secret) → some sent ≡ some stored → stored ≡ sent
as_sent sent stored e = cc

fetched_as_held :
    (w : World) (stored : Secret) → server.get_secret "" "" w ≡ ok stored → w.secret ≡ some stored
fetched_as_held w stored e = ground arith

stores_as_sent : StoresAsSent by_name faulty gauges held_secret
stores_as_sent = record {
  created = λ sent entries w namespace name stored h e. inr (as_sent sent stored e);
  updated = λ sent entries w namespace name stored h e. inr (as_sent sent stored e);
  patched = λ _ _ _ _ _. refl;
  applied = λ _ _ _ _ _. refl;
  status_updated = λ _ _ _ _. refl;
  execution_updated = λ _ _ _ _. refl;
  execution_status_updated = λ _ _ _ _. refl;
  gauge_set = λ _ _ _ _ _. refl;
  gauge_deleted = λ _ _ _ _ _. refl;
  got = λ namespace name w stored e. fetched_as_held w stored e;
}

as_client-StoresSecrets_example :
    StoresSecrets (as_client by_name faulty) gauges held_secret IsStored
as_client-StoresSecrets_example =
    as_client-StoresSecrets by_name faulty gauges held_secret stores_as_sent
