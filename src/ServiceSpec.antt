-- ===== src/ServiceSpec.antt =====
-- packages/containerhub-back/src/modules/services/services/ServiceSpec.ts: `toServiceSpec`, from a
-- service's input, and the specification that is updated if there is one, to the specification that
-- Docker is sent.
pub mod Input
pub mod Parts
pub mod Accepted
pub mod Update
pub mod Stack
mod Tests
use containerhub.Prelude.{
  ℕ, String, Bool, true, false, ◌&&◌, ◌||◌, not, Option, none, some, List, [], ◌∷◌, map,
  ◌otherwise◌, ◌or_else◌, map?, bind?, if◌then◌else◌, Outcome, ok, throw, error, require, ◌>>=◌,
  ◌>>◌, >>=-eq-ok, require-eq-ok, ◌≡◌, arith,
}
use containerhub.DockerSpec.{
  Labels, DockerMount, ContainerSpec, Placement, on_failure, UpdateConfig, paused_at_failure,
  TaskTemplate, DockerServicePort, DockerServiceSpec,
}
use Input.{ServiceInput}
use Parts.{
  truthy, given_or, to_mount_settings, to_service_port, to_container_spec, to_placement,
  to_service_resources, to_service_networks, to_mode, to_service_labels, stack_of, empty_container,
  previous_container_task,
}

abbrev pub empty_template : {N : Type 0} → TaskTemplate N
empty_template = record {
  runtime = none;
  container_spec = none;
  placement = none;
  resources = none;
  restart_policy = none;
  networks = none;
  other = [];
}

abbrev pub empty_spec : {N : Type 0} → DockerServiceSpec N
empty_spec = record {
  name = none;
  labels = none;
  task_template = none;
  mode = none;
  update_config = none;
  rollback_config = none;
  endpoint_ports = none;
  networks = none;
  other = [];
}

module _ {N : Type 0} (one : N) (to_nanoseconds : N → N) (lower : String → String) where
  -- `previousContainerTask?.ContainerSpec ?? {}`
  unfoldable pub container_of : DockerServiceSpec N → ContainerSpec N
  container_of previous =
      bind? (previous_container_task previous.task_template) (λ t. t.container_spec)
      otherwise empty_container

  unfoldable pub to_task_template :
      ServiceInput N → DockerServiceSpec N → String → Option (List DockerMount) → TaskTemplate N
  unfolding container_of
  to_task_template input previous name mounts =
      let task = previous_container_task previous.task_template in
      record (task otherwise empty_template) {
        container_spec =
            some (to_container_spec to_nanoseconds input (container_of previous) mounts);
        placement = to_placement input (bind? previous.task_template (λ t. t.placement));
        resources =
            map? to_service_resources input.limits
            or_else bind? previous.task_template (λ t. t.resources);
        restart_policy = some on_failure;
        networks =
            to_service_networks input.networks (stack_of input previous.labels) name
              (bind? task (λ t. t.networks) or_else previous.networks);
      }

  -- The specification, once its mounts and its ports are converted.
  unfoldable pub assembled :
      ServiceInput N
      → DockerServiceSpec N
      → Option (List DockerMount)
      → Option (List (DockerServicePort N))
      → DockerServiceSpec N
  unfolding container_of to_task_template
  assembled input previous mounts ports =
      let name = input.name or_else previous.name in
      record previous {
        name = name;
        labels = some (to_service_labels input previous.labels);
        task_template = some (to_task_template input previous (name otherwise "") mounts);
        mode = to_mode one input.deploy_mode input.replicas previous.mode;
        update_config = some (paused_at_failure 2);
        rollback_config = some (paused_at_failure 1);
        endpoint_ports = ports;
        networks = none;
      }

  abbrev pub has_name_and_image : ServiceInput N → DockerServiceSpec N → Bool
  has_name_and_image input previous =
      truthy (input.name or_else previous.name)
      && (truthy input.image || truthy (container_of previous).image)

  -- A service that is created has no specification before: `previous` is `empty_spec`.
  unfoldable pub to_service_spec :
      ServiceInput N → DockerServiceSpec N → Outcome (DockerServiceSpec N)
  to_service_spec input previous = do
    require (has_name_and_image input previous) (error "Service name and image are required")
    mounts ← given_or to_mount_settings input.volumes (container_of previous).mounts
    ports ← given_or (to_service_port lower) input.ports previous.endpoint_ports
    ok (assembled input previous mounts ports)

  -- What a specification that is not refused looks like.
  pub to_service_spec-eq-ok :
      (input : ServiceInput N) (previous spec : DockerServiceSpec N)
      → to_service_spec input previous ≡ ok spec
      → (mounts : Option (List DockerMount)) × (ports : Option (List (DockerServicePort N)))
        × (given_or to_mount_settings input.volumes (container_of previous).mounts ≡ ok mounts)
        × (given_or (to_service_port lower) input.ports previous.endpoint_ports ≡ ok ports)
        × (has_name_and_image input previous ≡ true)
        × (spec ≡ assembled input previous mounts ports)
  unfolding to_service_spec
  to_service_spec-eq-ok input previous spec e =
      let named = has_name_and_image input previous in
      let (_, required, e1) = >>=-eq-ok (require named _) _ e in
      let (mounts, converted, e2) = >>=-eq-ok (given_or to_mount_settings input.volumes _) _ e1 in
      let (ports, ported, e3) =
        >>=-eq-ok (given_or (to_service_port lower) input.ports previous.endpoint_ports) _ e2 in
      (mounts, ports, converted, ported, require-eq-ok named _ _ required, cc)
