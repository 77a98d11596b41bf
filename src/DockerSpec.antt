-- ===== src/DockerSpec.antt =====
-- The part of Docker's service specification that the program reads and writes
-- (packages/containerhub-back/src/modules/services/helpers/mapInspectToServiceModel.ts, its first
-- types, and the dockerode types named in services/ServiceSpec.ts). `N` is the type of JavaScript's
-- numbers. `other` holds the fields that the program only carries along.
use containerhub.Prelude.{ℕ, String, Bool, Option, List}

abbrev pub Labels : Type 0
Labels = List (String × String)

pub record DockerMount : Type 0 where
  pub type : Option String
  pub source : Option String
  pub target : Option String
  pub read_only : Option Bool

pub record DockerHealthCheck (N : Type 0) : Type 0 where
  pub test : Option (List String)
  pub interval : Option N
  pub timeout : Option N
  pub retries : Option N
  pub start_period : Option N

pub record NetworkAttachment : Type 0 where
  pub target : Option String
  pub aliases : Option (List String)

pub record ContainerSpec (N : Type 0) : Type 0 where
  pub image : Option String
  pub command : Option (List String)
  pub env : Option (List String)
  pub labels : Option Labels
  pub mounts : Option (List DockerMount)
  pub nameservers : Option (List String)
  pub hosts : Option (List String)
  pub health_check : Option (DockerHealthCheck N)
  pub other : Labels

pub record Placement : Type 0 where
  pub constraints : Option (List String)
  pub preferences : Option (List (Option String))
  pub other : Labels

pub record ResourceAmounts (N : Type 0) : Type 0 where
  pub nano_cpus : Option N
  pub memory_bytes : Option N

pub record Resources (N : Type 0) : Type 0 where
  pub limits : Option (ResourceAmounts N)
  pub reservations : Option (ResourceAmounts N)

-- The policies are constants of the program.
pub data RestartPolicy : Type 0 where
  on_failure : RestartPolicy
  other_policy : Labels → RestartPolicy

-- `Parallelism`; the delay, the failure action, the monitor time and the ratio are always the same.
pub data UpdateConfig : Type 0 where
  paused_at_failure : ℕ → UpdateConfig
  other_config : Labels → UpdateConfig

pub record TaskTemplate (N : Type 0) : Type 0 where
  pub runtime : Option String
  pub container_spec : Option (ContainerSpec N)
  pub placement : Option Placement
  pub resources : Option (Resources N)
  pub restart_policy : Option RestartPolicy
  pub networks : Option (List NetworkAttachment)
  pub other : Labels

pub data Mode (N : Type 0) : Type 0 where
  global : Mode N
  replicated : Option N → Mode N
  other_mode : Labels → Mode N

pub record DockerServicePort (N : Type 0) : Type 0 where
  pub protocol : Option String
  pub published_port : Option N
  pub target_port : Option N

pub record DockerServiceSpec (N : Type 0) : Type 0 where
  pub name : Option String
  pub labels : Option Labels
  pub task_template : Option (TaskTemplate N)
  pub mode : Option (Mode N)
  pub update_config : Option UpdateConfig
  pub rollback_config : Option UpdateConfig
  pub endpoint_ports : Option (List (DockerServicePort N))
  pub networks : Option (List NetworkAttachment)
  pub other : Labels
