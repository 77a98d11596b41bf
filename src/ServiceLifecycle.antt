-- ===== src/ServiceLifecycle.antt =====
-- packages/containerhub-back/src/modules/services/services/ServiceService.ts: services that are found,
-- created and updated, with their networks and the audit log. Docker is a parameter: calls that change
-- a world of its own. The specifications are those of ServiceSpec, the models those of ServiceModel.
pub mod Audits
mod Tests
use Prim.Native.String.{String}
use containerhub.Prelude.{
  ℕ, Bool, true, false, ◌&&◌, ◌||◌, not, Option, none, some, List, [], ◌∷◌, ◌++◌, any, find, bind?,
  map?, is_some, is_nil, ◌==◌, ◌===◌, ◌otherwise◌, ◌or_else◌, if◌then◌else◌, Outcome, ok, throw,
  Fault, error, ◌>>=◌, traverse,
}
use containerhub.Prelude.Text.{◌<>◌, non_empty}
use containerhub.Prelude.Dict.{lookup}
use containerhub.DockerSpec.{Labels, NetworkAttachment, TaskTemplate, DockerServiceSpec}
use containerhub.ServiceSpec.Input.{ServiceInput}
use containerhub.ServiceSpec.{empty_spec}
use containerhub.ServiceModel.Shape.{DockerServiceItem, ServiceModel}
use containerhub.ServiceMutations.{Site, at_site, and_then, register_service_mutation}

pub record NetworkOptions : Type 0 where
  pub network_name : Option String
  pub driver : Option String
  pub attachable : Bool
  pub network_labels : Option Labels
  pub network_rest : Labels

-- What Docker is asked. A service comes with the index of its version.
pub record DockerHost (W N : Type 0) : Type 0 where
  pub list_services : List String → W → Outcome (List (DockerServiceItem N)) × W
  pub inspect_service : String → W → Outcome (Option (DockerServiceItem N × ℕ)) × W
  pub post_service : DockerServiceSpec N → W → Outcome String × W
  pub put_service : String → DockerServiceSpec N → ℕ → W → Outcome (Unit {0}) × W
  pub get_network : String → W → Outcome NetworkOptions × W
  pub post_network : NetworkOptions → W → Outcome (Unit {0}) × W
  pub delete_network : String → W → Outcome (Unit {0}) × W

-- `filter.field === 'stack' && filter.operator === 'eq' && filter.value`, with the value as a text.
pub record ListFilter : Type 0 where
  pub field : String
  pub operator : String
  pub value : Option String

abbrev stack_label : String → String
stack_label stack = "com.docker.stack.namespace=" <> stack

abbrev given_label : Option String → List String
given_label none = []
given_label (some stack) = if non_empty stack then stack_label stack ∷ [] else []

unfoldable pub filter_labels : List ListFilter → List String
filter_labels [] = []
filter_labels (f ∷ fs) =
    let rest = filter_labels fs in
    if f.field === "stack" && f.operator === "eq" && non_empty (f.value otherwise "")
    then stack_label (f.value otherwise "") ∷ rest
    else rest

-- The labels that the services are asked for; with none, all are.
unfoldable pub build_docker_list_filters : Option String → List ListFilter → List String
unfolding filter_labels
build_docker_list_filters stack filters = given_label stack ++ filter_labels filters

unfoldable pub is_docker_not_found : Fault → Bool
is_docker_not_found fault = elim fault.status_code [ none ↦ false | some code ↦ code == 404 ]

abbrev pub network_of_stack : String → Option String → NetworkOptions
network_of_stack network stack = record {
  network_name = some network;
  driver = some "overlay";
  attachable = true;
  network_labels =
      if non_empty (stack otherwise "")
      then some (("com.docker.stack.namespace", stack otherwise "") ∷ [])
      else none;
  network_rest = [];
}

abbrev targets_of : List NetworkAttachment → List (Option String)
targets_of [] = []
targets_of (network ∷ networks) = network.target ∷ targets_of networks

-- The networks that a specification names.
unfoldable pub network_targets : {N : Type 0} → DockerServiceSpec N → List (Option String)
network_targets spec = targets_of (bind? spec.task_template (λ t. t.networks) otherwise [])

abbrev pub stack_label_of : Option Labels → Option String
stack_label_of none = none
stack_label_of (some labels) = lookup "com.docker.stack.namespace" labels

module _ {W N : Type 0} (docker : DockerHost W N) where
  -- What is done where a network was not fetched.
  abbrev pub or_create :
      String → Option String → Outcome NetworkOptions × Site W → Outcome (Unit {0}) × Site W
  or_create network stack (ok found, site) = (ok tt, site)
  or_create network stack (throw fault, site) =
      if is_docker_not_found fault
      then at_site site (docker.post_network (network_of_stack network stack) site.world)
      else (throw fault, site)

  unfoldable pub get_or_create_network :
      String → Option String → Site W → Outcome (Unit {0}) × Site W
  unfolding is_docker_not_found
  get_or_create_network network stack site =
      or_create network stack (at_site site (docker.get_network network site.world))

  -- The loop over the networks; a target that is missing or empty is left out.
  unfoldable pub ensure_service_networks :
      List (Option String) → Option String → Site W → Outcome (Unit {0}) × Site W
  unfolding get_or_create_network
  ensure_service_networks [] stack site = (ok tt, site)
  ensure_service_networks (target ∷ targets) stack site =
      let name = target otherwise "" in
      if non_empty name
      then and_then (get_or_create_network name stack site)
          (λ _ after. ensure_service_networks targets stack after)
      else ensure_service_networks targets stack site

  -- `updateNetwork`: the network is removed and made again, with what is given. `merge` lays an input
  -- over the network that was there, but for its name.
  unfoldable pub update_network :
      (merge : NetworkOptions → NetworkOptions)
      → (has_input : Bool) → (new_name : Option String) → String
      → Site W
      → Outcome (Unit {0}) × Site W
  update_network merge has_input new_name network_id site =
      if not has_input
      then (throw (error "You must provide the new network information!"), site)
      else and_then (at_site site (docker.get_network network_id site.world)) (λ original seen.
        and_then (at_site seen (docker.delete_network network_id seen.world)) (λ _ removed.
          at_site removed (
            docker.post_network
              (record (merge original) {
                network_name = new_name or_else original.network_name or_else some network_id;
              })
              removed.world)))

  -- `model_of_item` is `mapInspectToServiceModel` with the options of the reader.
  module _ (model_of_item : DockerServiceItem N → Outcome (ServiceModel N)) where
    abbrev pub found_model : Option (DockerServiceItem N × ℕ) → Outcome (ServiceModel N)
    found_model none = throw (error "Service not found")
    found_model (some (item, version)) = model_of_item item

    unfoldable pub find_service_by_id : String → Site W → Outcome (ServiceModel N) × Site W
    find_service_by_id service_id site =
        and_then (at_site site (docker.inspect_service service_id site.world))
          (λ inspected seen. (found_model inspected, seen))

    unfoldable pub fetch_service : Option String → Site W → Outcome (List (ServiceModel N)) × Site W
    unfolding build_docker_list_filters
    fetch_service stack site =
        and_then
          (at_site site (docker.list_services (build_docker_list_filters stack []) site.world))
          (λ items seen. (traverse model_of_item items, seen))

    abbrev is_name : String → Option String → Bool
    is_name identifier none = false
    is_name identifier (some name) = name === identifier

    abbrev named : String → List (ServiceModel N) → Outcome (ServiceModel N)
    named identifier models =
        elim (find (λ (m : ServiceModel N). is_name identifier m.name) models) [
          | none ↦ throw (record { message = "Service " <> identifier; status_code = some 404 })
          | some model ↦ ok model
        ]

    -- The service with a name, where none has the id.
    abbrev or_named : String → Outcome (ServiceModel N) × Site W → Outcome (ServiceModel N) × Site W
    or_named identifier (ok model, site) = (ok model, site)
    or_named identifier (throw fault, site) =
        if not (is_docker_not_found fault)
        then (throw fault, site)
        else and_then (fetch_service none site) (λ models seen. (named identifier models, seen))

    unfoldable pub find_service_by_id_or_name : String → Site W → Outcome (ServiceModel N) × Site W
    unfolding find_service_by_id fetch_service is_docker_not_found
    find_service_by_id_or_name identifier site =
        or_named identifier (find_service_by_id identifier site)

    -- `validate` is the schema of the input, `spec_of` is `toServiceSpec`, `writes` says whether an
    -- entry of the audit log can be written.
    module _ {Raw : Type 0} (validate : Raw → Outcome (ServiceInput N))
        (spec_of : ServiceInput N → DockerServiceSpec N → Outcome (DockerServiceSpec N))
        (writes : String → String → Site W → Bool) where
      unfoldable pub create_service : Raw → Site W → Outcome (ServiceModel N) × Site W
      unfolding ensure_service_networks find_service_by_id register_service_mutation network_targets
      create_service raw site =
          and_then (validate raw, site)
            (λ input _.
              and_then (spec_of input empty_spec, site)
                (λ spec _.
                  and_then (ensure_service_networks (network_targets spec) input.stack site)
                    (λ _ joined.
                      and_then (at_site joined (docker.post_service spec joined.world))
                        (λ id posted. and_then (find_service_by_id id posted) (λ service read. (
                          ok service,
                          register_service_mutation writes "CREATE" service.id read,
                        ))))))

      -- An update of a service that is there, with its specification and its version.
      unfoldable pub put_spec :
          String
          → ServiceInput N
          → DockerServiceItem N × ℕ
          → Site W
          → Outcome (ServiceModel N) × Site W
      unfolding ensure_service_networks find_service_by_id register_service_mutation network_targets
      put_spec service_id input (item, version) site =
          let current = item.spec otherwise empty_spec in
          and_then (spec_of input current, site)
            (λ spec _.
              and_then
                (ensure_service_networks (network_targets spec)
                  (input.stack or_else stack_label_of current.labels) site)
                (λ _ joined.
                  and_then
                    (at_site joined (docker.put_service service_id spec version joined.world))
                    (λ _ put. and_then (find_service_by_id service_id put) (λ service read.
                      (ok service, register_service_mutation writes "UPDATE" service_id read)))))

      abbrev pub with_item :
          {A B : Type 0}
          → (A → Site W → Outcome B × Site W)
          → Option A
          → Site W
          → Outcome B × Site W
      with_item next none site = (throw (error "Cannot read properties of undefined"), site)
      with_item next (some item) site = next item site

      unfoldable pub update_service : String → Raw → Site W → Outcome (ServiceModel N) × Site W
      unfolding put_spec
      update_service service_id raw site =
          and_then (validate raw, site)
            (λ input _.
              and_then (at_site site (docker.inspect_service service_id site.world))
                (λ found seen. with_item (put_spec service_id input) found seen))
