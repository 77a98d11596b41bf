-- ===== src/ServiceSpec/Input.antt =====
-- packages/containerhub-back/src/modules/services/services/ServiceSpec.ts: the input of a service, as
-- its schemas let it through. Numbers are of any type `N`.
use containerhub.Prelude.{String, Bool, Option, List}
use containerhub.DockerSpec.{DockerHealthCheck}

pub record NamedValue : Type 0 where
  pub name : String
  pub value : Option String

pub record VolumeInput : Type 0 where
  pub type : Option String
  pub host_volume : Option String
  pub source : Option String
  pub container_volume : Option String
  pub target : Option String
  pub read_only : Option Bool

-- `target_capital` is the field `Target`, and `aliases_capital` the field `Aliases`.
pub data NetworkInput : Type 0 where
  network_name : String → NetworkInput
  network :
      (id target target_capital : Option String)
      → (aliases aliases_capital : Option (List String)) → NetworkInput

pub data HealthTest : Type 0 where
  shell : String → HealthTest
  words : List String → HealthTest

-- The two forms that the schema takes: Docker's, with or without a `Test`, and the legacy form, in
-- seconds.
pub data HealthcheckInput (N : Type 0) : Type 0 where
  docker : DockerHealthCheck N → HealthcheckInput N
  legacy :
      (test : Option HealthTest)
      → (interval timeout retries start_period : Option N) → HealthcheckInput N

pub data CommandInput : Type 0 where
  null_command : CommandInput
  line : String → CommandInput
  arguments : List String → CommandInput

pub record LimitsInput (N : Type 0) : Type 0 where
  pub cpu_limit : Option N
  pub memory_limit : Option N
  pub cpu_reservation : Option N
  pub memory_reservation : Option N

pub record ConstraintInput : Type 0 where
  pub name : String
  pub operation : String
  pub value : String

pub data DeployMode : Type 0 where
  global_mode replicated_mode replic : DeployMode

pub record PortInput (N : Type 0) : Type 0 where
  pub protocol : Option String
  pub ports_protocol : Option String
  pub host_port : Option N
  pub published_port : Option N
  pub container_port : Option N
  pub target_port : Option N

pub record ServiceInput (N : Type 0) : Type 0 where
  pub name : Option String
  pub image : Option String
  pub stack : Option String
  pub labels : Option (List NamedValue)
  pub command : Option CommandInput
  pub envs : Option (List NamedValue)
  pub volumes : Option (List VolumeInput)
  pub dns : Option (List String)
  pub extra_hosts : Option (List String)
  pub healthcheck : Option (HealthcheckInput N)
  pub limits : Option (LimitsInput N)
  pub constraints : Option (List ConstraintInput)
  pub preferences : Option (List (Option String))
  pub deploy_mode : Option DeployMode
  pub replicas : Option N
  pub ports : Option (List (PortInput N))
  pub networks : Option (List NetworkInput)
