-- ===== src/ServiceMutations/Tests.antt =====
-- A site whose world is the list of services that run.
use Prim.Native.String.{String}
use containerhub.Prelude.{
  ◌≡◌, refl, Bool, true, Option, none, some, List, [], ◌∷◌, ◌++◌, map, any, filter, not, false,
  ◌===◌, if◌then◌else◌, ok, throw, error,
}
use containerhub.ServiceMutations.{
  DockerClient, Site, ServiceRestartResult, as_service_id_array, docker_restart_many,
}
use containerhub.ServiceMutations.Many.{always, restart_audits, restart_many-audits}

abbrev runs : String → List String → Bool
runs id services = any (λ s. s === id) services

abbrev client : DockerClient (List String) (Unit {0})
client = record {
  inspect = λ id services.
      if runs id services
      then (
        ok (record { spec = record { force_update = none; rest = tt }; version = some 4 }),
        services,
      )
      else (throw (error "no such service"), services);
  update = λ id spec version services. (ok none, services);
  remove = λ id services.
      if runs id services
      then (ok tt, filter (λ s. not (s === id)) services)
      else (throw (error "no such service"), services);
}

abbrev site : Site (List String)
site = record { world = "web" ∷ "db" ∷ []; audits = [] }

abbrev service_ids : Option (List (Option String))
service_ids = some (some "web" ∷ some "gone" ∷ some "db" ∷ [])

restart_run : docker_restart_many client (always client) service_ids site ≡ (
  ok (
      record { service_id = "web"; success = true; warnings = []; error_message = none }
      ∷ record {
        service_id = "gone";
        success = false;
        warnings = [];
        error_message = some "no such service";
      }
      ∷ record { service_id = "db"; success = true; warnings = []; error_message = none }
      ∷ []),
  record site { audits = ("RESTART", "web") ∷ ("RESTART", "db") ∷ [] },
)
unfolding docker_restart_many
restart_run = refl

restart_many-audits_example :
    (results : List ServiceRestartResult) × (after : Site (List String)) × (docker_restart_many
        client
        (always client)
        service_ids
        site
      ≡ (ok results, after))
    × (map (λ result. result.service_id) results ≡ "web" ∷ "gone" ∷ "db" ∷ [])
    × (after.audits ≡ [] ++ restart_audits results)
unfolding as_service_id_array
restart_many-audits_example =
    restart_many-audits client service_ids ("web" ∷ "gone" ∷ "db" ∷ []) site refl
