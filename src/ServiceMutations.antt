-- ===== src/ServiceMutations.antt =====
-- packages/containerhub-back/src/modules/services/services/ServiceService.ts and
-- ServiceMutationAudit.ts: restarts and removals of services, one by one and many at once. Docker is
-- a parameter: calls that change a world of its own; the audit log is kept beside it.
pub mod Many
mod Tests
use Prim.Native.String.{String}
use containerhub.Prelude.{
  ℕ, ◌+◌, ◌≡◌, Bool, true, false, ◌&&◌, ◌||◌, not, Option, none, some, List, [], ◌∷◌, ◌++◌, any,
  map, is_nil, ◌otherwise◌, if◌then◌else◌, Outcome, ok, throw, Fault, error,
}
use containerhub.Prelude.Text.{is_empty, ◌<>◌}

-- A specification, as far as a restart tells its parts apart: `TaskTemplate.ForceUpdate`, and the rest.
pub record RestartSpec (R : Type 0) : Type 0 where
  pub force_update : Option ℕ
  pub rest : R

pub record Inspected (R : Type 0) : Type 0 where
  pub spec : RestartSpec R
  pub version : Option ℕ

pub record DockerClient (W R : Type 0) : Type 0 where
  pub inspect : String → W → Outcome (Inspected R) × W
  pub update : String → RestartSpec R → ℕ → W → Outcome (Option (List String)) × W
  pub remove : String → W → Outcome (Unit {0}) × W

-- The audit log holds an action and a service for each entry that could be written, oldest first.
pub record Site (W : Type 0) : Type 0 where
  pub world : W
  pub audits : List (String × String)

pub record ServiceRestartResult : Type 0 where
  pub service_id : String
  pub success : Bool
  pub warnings : List String
  pub error_message : Option String

pub record ServiceRemoveResult : Type 0 where
  pub service_id : String
  pub success : Bool
  pub error_message : Option String

-- `asServiceIdArray`: an input that is no array is `none`, and so is an entry that is no text.
abbrev is_bad_id : Option String → Bool
is_bad_id none = true
is_bad_id (some id) = is_empty id

abbrev ids_error : Fault
ids_error = error "serviceIds must be a non-empty array of service IDs"

unfoldable pub as_service_id_array : Option (List (Option String)) → Outcome (List String)
as_service_id_array none = throw ids_error
as_service_id_array (some ids) =
    if is_nil ids || any is_bad_id ids
    then throw ids_error
    else ok (map (λ id. id otherwise "") ids)

module _ {W : Type 0} where
  -- A call of Docker, at the site.
  abbrev pub at_site : {A : Type 0} → Site W → Outcome A × W → Outcome A × Site W
  at_site site (outcome, world) = (outcome, record site { world = world })

  abbrev pub and_then :
      {A B : Type 0} → Outcome A × Site W → (A → Site W → Outcome B × Site W) → Outcome B × Site W
  and_then (ok a, site) next = next a site
  and_then (throw fault, site) next = (throw fault, site)

  abbrev done : {A : Type 0} → A × Site W → Outcome A × Site W
  done (results, site) = (ok results, site)

  -- A loop over ids that are valid; others are refused before any call.
  abbrev with_ids :
      {A : Type 0}
      → Outcome (List String)
      → Site W
      → (List String → Site W → A × Site W)
      → Outcome A × Site W
  with_ids (ok ids) site each = done (each ids site)
  with_ids (throw fault) site each = (throw fault, site)

  -- `registerServiceMutation`: it never throws. `writes` says whether the entry can be written.
  unfoldable pub register_service_mutation :
      (writes : String → String → Site W → Bool) → (action service_id : String) → Site W → Site W
  register_service_mutation writes action service_id site =
      if writes action service_id site
      then record site { audits = site.audits ++ (action, service_id) ∷ [] }
      else site

module _ {W R : Type 0} (docker : DockerClient W R) (writes : String → String → Site W → Bool) where
  unfoldable pub docker_restart : String → Site W → Outcome (List String) × Site W
  unfolding register_service_mutation
  docker_restart service_id site =
      and_then (at_site site (docker.inspect service_id site.world)) (λ inspected seen.
        and_then
          (at_site seen (
            docker.update service_id
              (record inspected.spec {
                force_update = some ((inspected.spec.force_update otherwise 0) + 1);
              })
              (inspected.version otherwise 0) seen.world))
          (λ warnings updated. (
            ok (warnings otherwise []),
            register_service_mutation writes "RESTART" service_id updated,
          )))

  abbrev restart_result : String → Outcome (List String) → ServiceRestartResult
  restart_result service_id (ok warnings) = record {
    service_id = service_id;
    success = true;
    warnings = warnings;
    error_message = none;
  }
  restart_result service_id (throw fault) = record {
    service_id = service_id;
    success = false;
    warnings = [];
    error_message = some fault.message;
  }

  abbrev prepend : {A : Type 0} → A → List A × Site W → List A × Site W
  prepend result (results, site) = (result ∷ results, site)

  -- The loop over the ids.
  unfoldable pub restart_each : List String → Site W → List ServiceRestartResult × Site W
  unfolding docker_restart
  restart_each [] site = ([], site)
  restart_each (service_id ∷ ids) site =
      let (outcome, restarted) = docker_restart service_id site in
      prepend (restart_result service_id outcome) (restart_each ids restarted)

  unfoldable pub docker_restart_many :
      Option (List (Option String)) → Site W → Outcome (List ServiceRestartResult) × Site W
  unfolding as_service_id_array restart_each
  docker_restart_many service_ids site =
      with_ids (as_service_id_array service_ids) site restart_each

  unfoldable pub docker_remove : String → Site W → Outcome String × Site W
  unfolding register_service_mutation
  docker_remove service_id site =
      and_then (at_site site (docker.remove service_id site.world)) (λ _ removed. (
        ok ("Service " <> service_id <> " removed"),
        register_service_mutation writes "DELETE" service_id removed,
      ))

  abbrev remove_result : String → Outcome String → ServiceRemoveResult
  remove_result service_id (ok _) = record {
    service_id = service_id;
    success = true;
    error_message = none;
  }
  remove_result service_id (throw fault) = record {
    service_id = service_id;
    success = false;
    error_message = some fault.message;
  }

  unfoldable pub remove_each : List String → Site W → List ServiceRemoveResult × Site W
  unfolding docker_remove
  remove_each [] site = ([], site)
  remove_each (service_id ∷ ids) site =
      let (outcome, removed) = docker_remove service_id site in
      prepend (remove_result service_id outcome) (remove_each ids removed)

  unfoldable pub docker_remove_many :
      Option (List (Option String)) → Site W → Outcome (List ServiceRemoveResult) × Site W
  unfolding as_service_id_array remove_each
  docker_remove_many service_ids site = with_ids (as_service_id_array service_ids) site remove_each
