-- ===== src/ServiceLifecycle/Tests.antt =====
-- Runs of the lifecycle of services.
use Prim.Native.String.{String}
use containerhub.Prelude.{
  ℕ, ◌≡◌, refl, false, none, some, List, [], ◌∷◌, ◌++◌, Outcome, ok, throw, if◌then◌else◌, ◌===◌,
}
use containerhub.DockerSpec.{DockerServiceSpec}
use containerhub.ServiceSpec.{to_service_spec}
use containerhub.ServiceSpec.Input.{ServiceInput}
use containerhub.ServiceModel.{map_inspect_to_service_model}
use containerhub.ServiceModel.Shape.{DockerServiceItem, ServiceModel}
use containerhub.ServiceMutations.{Site}
use containerhub.ServiceLifecycle.{
  DockerHost, build_docker_list_filters, ensure_service_networks, network_of_stack, create_service,
  update_service,
}
use containerhub.ServiceLifecycle.Audits.{lifecycle-audits, entry, as_created, as_updated, always}

-- A Docker whose world is the list of its networks.
abbrev host : DockerHost (List String) ℕ
host = record {
  list_services = λ labels w. (ok [], w);
  inspect_service = λ id w. (ok (some (item id, 4)), w);
  post_service = λ spec w. (ok "s1", w);
  put_service = λ id spec version w. (ok tt, w);
  get_network = λ name w. (
    if name === "here"
        then ok (network_of_stack name none)
        else throw (record { message = "no such network"; status_code = some 404 }),
    w,
  );
  post_network = λ options w. (ok tt, "made" ∷ w);
  delete_network = λ id w. (ok tt, w);
}
  where
    item : String → DockerServiceItem ℕ
    item id = record {
      id_capital = some id;
      id = none;
      spec = none;
      created_at = none;
      updated_at = none;
    }

labels_asked :
    build_docker_list_filters (some "shop") (
      record { field = "stack"; operator = "eq"; value = some "web" }
      ∷ record { field = "name"; operator = "eq"; value = some "db" }
      ∷ [])
    ≡ "com.docker.stack.namespace=shop" ∷ "com.docker.stack.namespace=web" ∷ []
unfolding build_docker_list_filters
labels_asked = refl

abbrev site : Site (List String)
site = record { world = []; audits = ("RESTART", "s0") ∷ [] }

-- The network that is there is not made again.
networks_made :
    (ensure_service_networks host (some "here" ∷ none ∷ some "front" ∷ []) none site).1.world
    ≡ "made" ∷ []
unfolding ensure_service_networks
networks_made = refl

abbrev shown : DockerServiceItem ℕ → Outcome (ServiceModel ℕ)
shown item = map_inspect_to_service_model 1 (λ n. n) (λ s. s) item false

abbrev web : ServiceInput ℕ
web = record {
  name = some "web";
  image = some "nginx:1";
  stack = some "shop";
  labels = none;
  command = none;
  envs = none;
  volumes = none;
  dns = none;
  extra_hosts = none;
  healthcheck = none;
  limits = none;
  constraints = none;
  preferences = none;
  deploy_mode = none;
  replicas = none;
  ports = none;
  networks = none;
}

abbrev checked : ServiceInput ℕ → Outcome (ServiceInput ℕ)
checked input = ok input

abbrev specified : ServiceInput ℕ → DockerServiceSpec ℕ → Outcome (DockerServiceSpec ℕ)
specified = to_service_spec 1 (λ n. n) (λ s. s)

lifecycle-audits_example :
    let created = create_service host shown checked specified always web site in
    let updated = update_service host shown checked specified always "s1" web site in
    (created.1.audits ≡ site.audits ++ entry as_created created.0)
    × (updated.1.audits ≡ site.audits ++ entry (as_updated "s1") updated.0)
lifecycle-audits_example = lifecycle-audits host shown checked specified "s1" web site
