-- ===== src/ServiceSpec/Parts.antt =====
-- packages/containerhub-back/src/modules/services/services/ServiceSpec.ts: the parts of the
-- specification, each from its part of the input. The conversion to nanoseconds and lower case are
-- parameters.
use containerhub.Prelude.{
  String, Bool, false, ◌||◌, Option, none, some, List, [], ◌∷◌, ◌++◌, map, any, filter, ◌otherwise◌,
  ◌or_else◌, map?, bind?, is_some, if◌then◌else◌, ◌===◌, Outcome, ok, throw, error, traverse, ◌>>=◌,
}
use containerhub.Prelude.Text.{◌<>◌, non_empty, is_empty, split, remove_first}
use containerhub.Prelude.Dict.{lookup, insert}
use containerhub.DockerSpec.{
  Labels, DockerMount, DockerHealthCheck, NetworkAttachment, ContainerSpec, Placement,
  ResourceAmounts, Resources, TaskTemplate, Mode, global, replicated, DockerServicePort,
}
use containerhub.ServiceSpec.Input.{
  NamedValue, VolumeInput, NetworkInput, network_name, network, HealthTest, shell, words,
  HealthcheckInput, docker, legacy, CommandInput, null_command, line, arguments, LimitsInput,
  DeployMode, global_mode, replicated_mode, PortInput, ServiceInput,
}

abbrev pub stack_label : String
stack_label = "com.docker.stack.namespace"

-- `{...labels, ...entries}`, where an entry takes the place of an older one.
unfoldable pub put_labels : Labels → Labels → Labels
put_labels labels [] = labels
put_labels labels ((name, value) ∷ entries) = put_labels (insert name value labels) entries

unfoldable pub labels_to_object : List NamedValue → Labels
labels_to_object labels =
    put_labels []
      (map (λ l. (l.name, l.value otherwise "")) (filter (λ l. non_empty l.name) labels))

unfoldable pub to_mount_settings : VolumeInput → Outcome DockerMount
to_mount_settings volume =
    let source = (volume.host_volume or_else volume.source) otherwise "" in
    let target = (volume.container_volume or_else volume.target) otherwise "" in
    if is_empty source || is_empty target
    then throw (error "Service volume requires source and target")
    else ok (record {
      type = some (volume.type otherwise "bind");
      source = some source;
      target = some target;
      read_only = some (volume.read_only otherwise false);
    })

unfoldable pub to_network_attachment : NetworkInput → NetworkAttachment
to_network_attachment (network_name name) = record { target = some name; aliases = none }
to_network_attachment (network id target target_capital aliases aliases_capital) = record {
  target = id or_else target or_else target_capital;
  aliases = aliases or_else aliases_capital;
}

module _ {N : Type 0} (to_nanoseconds : N → N) where
  unfoldable pub health_test : HealthTest → List String
  health_test (shell command) = "CMD-SHELL" ∷ command ∷ []
  health_test (words test) = test

  -- The fields of the legacy form that a check has: one in Docker's form has none.
  unfoldable pub from_legacy : HealthcheckInput N → DockerHealthCheck N
  unfolding health_test
  from_legacy (docker healthcheck) = record {
    test = none;
    interval = none;
    timeout = none;
    retries = none;
    start_period = none;
  }
  from_legacy (legacy test interval timeout retries start_period) = record {
    test = map? health_test test;
    interval = map? to_nanoseconds interval;
    timeout = map? to_nanoseconds timeout;
    retries = retries;
    start_period = map? to_nanoseconds start_period;
  }

  -- `'Test' in healthcheck`
  unfoldable pub to_container_healthcheck : HealthcheckInput N → DockerHealthCheck N
  unfolding from_legacy
  to_container_healthcheck (docker healthcheck) =
      if is_some healthcheck.test then healthcheck else from_legacy (docker healthcheck)
  to_container_healthcheck (legacy test interval timeout retries start_period) =
      from_legacy (legacy test interval timeout retries start_period)

module _ {N : Type 0} where
  -- An object of the amounts that are given, if there is one.
  unfoldable pub amounts : Option N → Option N → Option (ResourceAmounts N)
  amounts none none = none
  amounts cpus memory = some (record { nano_cpus = cpus; memory_bytes = memory })

  unfoldable pub to_service_resources : LimitsInput N → Resources N
  unfolding amounts
  to_service_resources limits = record {
    limits = amounts limits.cpu_limit limits.memory_limit;
    reservations = amounts limits.cpu_reservation limits.memory_reservation;
  }

-- A text that is there and not empty.
abbrev pub truthy : Option String → Bool
truthy none = false
truthy (some s) = non_empty s

abbrev pub is_target : String → NetworkAttachment → Bool
is_target name attachment = (attachment.target otherwise "") === name

-- The default network of a stack is added, unless it is among the networks.
unfoldable pub add_default_network :
    String → String → List NetworkAttachment → List NetworkAttachment
add_default_network stack service_name networks =
    let default_network = stack <> "_default" in
    if any (is_target default_network) networks
    then networks
    else networks
      ++ record {
        target = some default_network;
        aliases = some (remove_first (stack <> "_") service_name ∷ []);
      }
        ∷ []

unfoldable pub unless_empty : List NetworkAttachment → Option (List NetworkAttachment)
unless_empty [] = none
unless_empty (n ∷ ns) = some (n ∷ ns)

unfoldable pub given_networks :
    List NetworkAttachment → Option String → String → Option (List NetworkAttachment)
unfolding add_default_network unless_empty
given_networks networks none service_name = unless_empty networks
given_networks networks (some stack) service_name =
    unless_empty
      (if non_empty stack then add_default_network stack service_name networks else networks)

unfoldable pub to_service_networks :
    Option (List NetworkInput)
    → Option String
    → String
    → Option (List NetworkAttachment)
    → Option (List NetworkAttachment)
unfolding given_networks to_network_attachment
to_service_networks none stack service_name (some previous) = some previous
to_service_networks none stack service_name none = given_networks [] stack service_name
to_service_networks (some networks) stack service_name previous =
    given_networks (map to_network_attachment networks) stack service_name

-- `toServicePortProtocol`; `lower` is `toLowerCase`.
unfoldable pub to_service_port_protocol : (String → String) → Option String → String
to_service_port_protocol lower value =
    let normalized = lower (value otherwise "tcp") in
    if normalized === "tcp" || normalized === "udp" || normalized === "sctp"
    then normalized
    else "tcp"

-- `const [hostname, address] = host.split(':')`; a missing part shows as `undefined`.
abbrev pub host_entry : List String → String
host_entry [] = "undefined undefined"
host_entry (hostname ∷ []) = "undefined " <> hostname
host_entry (hostname ∷ address ∷ _) = address <> " " <> hostname

-- The container's part of the task template that is updated; plugins and attachments have none.
unfoldable pub previous_container_task :
    {N : Type 0} → Option (TaskTemplate N) → Option (TaskTemplate N)
previous_container_task none = none
previous_container_task (some t) =
    let runtime = t.runtime otherwise "" in
    if runtime === "plugin" || runtime === "attachment" then none else some t

abbrev pub empty_container : {N : Type 0} → ContainerSpec N
empty_container = record {
  image = none;
  command = none;
  env = none;
  labels = none;
  mounts = none;
  nameservers = none;
  hosts = none;
  health_check = none;
  other = [];
}

abbrev pub empty_placement : Placement
empty_placement = record { constraints = none; preferences = none; other = [] }

-- `input.a || input.b ? {...previous, Constraints, Preferences} : previous`: both are replaced, also
-- by nothing.
unfoldable pub to_placement : {N : Type 0} → ServiceInput N → Option Placement → Option Placement
to_placement input previous =
    if is_some input.constraints || is_some input.preferences
    then some (record (previous otherwise empty_placement) {
      constraints =
          map? (map (λ c. c.name <> " " <> c.operation <> " " <> c.value)) input.constraints;
      preferences = map? (map (λ p. some (p otherwise ""))) input.preferences;
    })
    else previous

unfoldable pub to_command : Option CommandInput → Option (List String) → Option (List String)
to_command none previous = previous
to_command (some null_command) previous = none
to_command (some (line command)) previous = some (split b' ' command)
to_command (some (arguments command)) previous = some command

abbrev pub env_entry : NamedValue → String
env_entry env = env.name <> "=" <> (env.value otherwise "")

-- `input.volumes ? input.volumes.map(f) : previous`, where `f` may throw.
unfoldable pub given_or {ℓ} :
    {A B : Type ℓ} → (A → Outcome B) → Option (List A) → Option (List B) → Outcome (Option (List B))
given_or f none previous = ok previous
given_or f (some xs) previous = traverse f xs >>= λ ys. ok (some ys)

module _ {N : Type 0} where
  unfoldable pub as_service_port : Option N → Outcome N
  as_service_port none = throw (error "Service port must be a number")
  as_service_port (some port) = ok port

  unfoldable pub to_service_port : (String → String) → PortInput N → Outcome (DockerServicePort N)
  unfolding as_service_port to_service_port_protocol
  to_service_port lower port = do
    published ← as_service_port (port.host_port or_else port.published_port)
    target ← as_service_port (port.container_port or_else port.target_port)
    ok (record {
      protocol = some (to_service_port_protocol lower (port.protocol or_else port.ports_protocol));
      published_port = some published;
      target_port = some target;
    })

  -- `one` is the number 1.
  unfoldable pub to_mode : N → Option DeployMode → Option N → Option (Mode N) → Option (Mode N)
  to_mode one (some global_mode) replicas previous = some global
  to_mode one (some replicated_mode) replicas previous =
      some (replicated (some (replicas otherwise one)))
  to_mode one deploy_mode (some replicas) previous = some (replicated (some replicas))
  to_mode one deploy_mode none previous = previous

  -- The container's specification, with its mounts already converted.
  unfoldable pub to_container_spec :
      (N → N) → ServiceInput N → ContainerSpec N → Option (List DockerMount) → ContainerSpec N
  unfolding to_command labels_to_object
  to_container_spec to_nanoseconds input container mounts = record container {
    image = input.image or_else container.image;
    command = to_command input.command container.command;
    env = map? (map env_entry) input.envs or_else container.env;
    labels =
        some (
          put_labels (container.labels otherwise [])
            (labels_to_object (input.labels otherwise [])));
    mounts = mounts;
    nameservers = input.dns or_else container.nameservers;
    hosts =
        map? (map (λ host. host_entry (split b':' host))) input.extra_hosts or_else container.hosts;
    health_check =
        map? (to_container_healthcheck to_nanoseconds) input.healthcheck
        or_else container.health_check;
  }

  unfoldable pub stack_of : ServiceInput N → Option Labels → Option String
  stack_of input labels = input.stack or_else bind? labels (lookup stack_label)

  -- The labels of the service: the stack's name last, over a label of that name.
  unfoldable pub to_service_labels : ServiceInput N → Option Labels → Labels
  unfolding stack_of labels_to_object
  to_service_labels input previous =
      let labels =
        put_labels (previous otherwise []) (labels_to_object (input.labels otherwise [])) in
      let stack = stack_of input previous in
      if truthy stack then insert stack_label (stack otherwise "") labels else labels
