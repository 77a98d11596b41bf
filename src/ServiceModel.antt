-- ===== src/ServiceModel.antt =====
-- packages/containerhub-back/src/modules/services/helpers/mapInspectToServiceModel.ts: from what
-- Docker says of a service to the model that the program shows. Upper case and the conversion to
-- seconds are parameters.
pub mod Shape
pub mod Constraint
pub mod RoundTrip
pub mod Redaction
mod Tests
use Prim.Native.Char.{Char, code}
use Prim.Native.String.{String, [], ◌∷◌}
use containerhub.Prelude.{
  ℕ, Bool, true, false, ◌&&◌, ◌||◌, not, Option, none, some, List, [], ◌∷◌, map, ◌otherwise◌, map?,
  bind?, is_some, if◌then◌else◌, ◌===◌, ◌==◌, Outcome, ok, throw, error, ◌>>=◌,
}
use containerhub.Prelude.Text.{◌<>◌, has, cut_first, join, is_space, trim_start, strip_prefix}
use containerhub.Prelude.Dict.{lookup, delete}
use containerhub.DockerSpec.{
  Labels, DockerMount, DockerHealthCheck, ContainerSpec, ResourceAmounts, Resources, Mode, global,
  replicated, other_mode, DockerServicePort, DockerServiceSpec,
}
use containerhub.Image.{DockerImageReference, parse_docker_image_reference}
use containerhub.ServiceSpec.{empty_spec}
use containerhub.ServiceSpec.Parts.{stack_label, put_labels}
pub use Shape.{
  NamedText, ServiceConstraint, ServiceVolume, ServicePort, ServiceHealthCheck, ServiceLimits,
  ServiceMode, global_mode, replic, ServiceModel, DockerServiceItem,
}

abbrev pub redacted : String
redacted = "[REDACTED]"

-- `revealConfiguration ? value : '[REDACTED]'`
abbrev pub shown : Bool → String → String
shown reveal value = if reveal then value else redacted

service_id : {N : Type 0} → DockerServiceItem N → Outcome String
service_id item = elim item.id_capital [
  | some id ↦ ok id
  | none ↦ elim item.id [
    | some id ↦ ok id
    | none ↦ throw (error "Docker service response is missing ID")
  ]
]

abbrev environment_entry : Bool → String → Option (String × String) → NamedText
environment_entry reveal entry none = record { name = entry; value = shown reveal "" }
environment_entry reveal entry (some (name, value)) = record {
  name = name;
  value = shown reveal value;
}

pub map_environment : List String → Bool → List NamedText
map_environment values reveal =
    map (λ entry. environment_entry reveal entry (cut_first b'=' entry)) values

pub map_docker_host : String → String
map_docker_host value = elim (cut_first b' ' value) [
  | none ↦ value
  | some (address, host) ↦ host <> ":" <> address
]

abbrev is_line_end : ℕ → Bool
is_line_end c = c == 10 || c == 13 || c == 8232 || c == 8233

abbrev starts_space : String → Bool
starts_space [] = false
starts_space (c ∷ s) = is_space (code c)

-- `(.*)$`: no line ends in what is left.
pub one_line : String → Bool
one_line [] = true
one_line (c ∷ s) = not (is_line_end (code c)) && one_line s

-- `\s+(.*)$` behind the operation.
value_part : String → String → Option (String × String)
value_part operation behind =
    if starts_space behind && one_line (trim_start behind)
    then some (operation, trim_start behind)
    else none

-- `\s+(==|!=)\s+(.*)$`, from the place at hand.
operation_part : String → Option (String × String)
unfolding value_part
operation_part s =
    if starts_space s
    then elim (strip_prefix "==" (trim_start s)) [
      | some behind ↦ value_part "==" behind
      | none ↦ elim (strip_prefix "!=" (trim_start s)) [
        | some behind ↦ value_part "!=" behind
        | none ↦ none
      ]
    ]
    else none

abbrev name_longer : Char → Option (String × String × String) → Option (String × String × String)
name_longer c none = none
name_longer c (some (name, operation, value)) = some (c ∷ name, operation, value)

abbrev first_match :
    Char
    → Option (String × String)
    → Option (String × String × String)
    → Option (String × String × String)
first_match c none later = if is_line_end (code c) then none else name_longer c later
first_match c (some (operation, value)) later = some ([], operation, value)

-- `/^(.*?)\s+(==|!=)\s+(.*)$/`: the shortest name that lets the rest match.
pub match_constraint : String → Option (String × String × String)
match_constraint [] = none
match_constraint (c ∷ s) = first_match c (operation_part (c ∷ s)) (match_constraint s)

abbrev pub constraint_of : String → Option (String × String × String) → ServiceConstraint
constraint_of value none = record { name = value; operation = ""; value = "" }
constraint_of value (some (name, operation, right)) = record {
  name = name;
  operation = operation;
  value = right;
}

pub map_constraint : String → ServiceConstraint
map_constraint value = constraint_of value (match_constraint value)

abbrev command_of : List String → String
command_of [] = ""
command_of (word ∷ rest) = if word === "CMD-SHELL" then join " " rest else join " " (word ∷ rest)

module _ {N : Type 0} where
  map_health_check : (N → N) → DockerHealthCheck N → ServiceHealthCheck N
  map_health_check to_seconds check = record {
    command = command_of (check.test otherwise []);
    interval = map? to_seconds check.interval;
    timeout = map? to_seconds check.timeout;
    retries = check.retries;
    start_period = map? to_seconds check.start_period;
  }

  map_port : (String → String) → DockerServicePort N → ServicePort N
  map_port upper port =
      let protocol = map? upper port.protocol otherwise "TCP" in
      record {
        host_port = port.published_port;
        container_port = port.target_port;
        protocol = protocol;
        ports_protocol = protocol;
      }

pub map_mount : DockerMount → ServiceVolume
map_mount mount = record {
  type = mount.type otherwise "bind";
  host_volume = mount.source otherwise "";
  container_volume = mount.target otherwise "";
  read_only = mount.read_only otherwise false;
}

-- The labels that are shown: those of the service without the stack's name, then the container's.
configuration_labels : Labels → Labels → Labels
configuration_labels service container = put_labels (delete stack_label service) container

map_labels : Labels → Bool → List NamedText
map_labels labels reveal =
    map (λ (name, value). record { name = name; value = shown reveal value }) labels

module _ {N : Type 0} (one : N) (to_seconds : N → N) (upper : String → String) where
  map_limits : Option (Resources N) → ServiceLimits N
  map_limits resources =
      let limits = bind? resources (λ r. r.limits) in
      let reservations = bind? resources (λ r. r.reservations) in
      record {
        cpu_limit = bind? limits (λ l. l.nano_cpus);
        memory_limit = bind? limits (λ l. l.memory_bytes);
        cpu_reservation = bind? reservations (λ r. r.nano_cpus);
        memory_reservation = bind? reservations (λ r. r.memory_bytes);
      }

  map_mode : Option (Mode N) → ServiceMode
  map_mode (some global) = global_mode
  map_mode _ = replic

  map_replicas : Option (Mode N) → N
  map_replicas (some (replicated (some replicas))) = replicas
  map_replicas _ = one

  -- The model of a specification, with the item's id and times.
  pub model_of :
      String → Option String → Option String → DockerServiceSpec N → Bool → ServiceModel N
  unfolding map_environment map_limits map_mode map_replicas map_labels configuration_labels
      map_mount map_port map_health_check map_docker_host map_constraint
  model_of id created_at updated_at spec reveal =
      let container = bind? spec.task_template (λ t. t.container_spec) in
      let placement = bind? spec.task_template (λ t. t.placement) in
      let service_labels = spec.labels otherwise [] in
      let container_labels = bind? container (λ c. c.labels) otherwise [] in
      record {
        id = id;
        name = spec.name;
        stack = lookup stack_label service_labels;
        image = parse_docker_image_reference (bind? container (λ c. c.image) otherwise "");
        ports = map (map_port upper) (spec.endpoint_ports otherwise []);
        envs = map_environment (bind? container (λ c. c.env) otherwise []) reveal;
        volumes = map map_mount (bind? container (λ c. c.mounts) otherwise []);
        labels = map_labels (configuration_labels service_labels container_labels) reveal;
        constraints = map map_constraint (bind? placement (λ p. p.constraints) otherwise []);
        limits = map_limits (bind? spec.task_template (λ t. t.resources));
        preferences =
            map (λ p. record { name = "spread"; value = p otherwise "" })
              (bind? placement (λ p. p.preferences) otherwise []);
        mode = map_mode spec.mode;
        replicas = map_replicas spec.mode;
        extra_hosts = map map_docker_host (bind? container (λ c. c.hosts) otherwise []);
        dns = bind? container (λ c. c.nameservers) otherwise [];
        health_check = map? (map_health_check to_seconds) (bind? container (λ c. c.health_check));
        created_at = created_at;
        updated_at = updated_at;
      }

  pub map_inspect_to_service_model : DockerServiceItem N → Bool → Outcome (ServiceModel N)
  unfolding service_id
  map_inspect_to_service_model item reveal = service_id item >>= λ id.
      ok (model_of id item.created_at item.updated_at (item.spec otherwise empty_spec) reveal)
