-- ===== src/ServiceModel/Shape.antt =====
-- packages/containerhub-back/src/modules/services/helpers/mapInspectToServiceModel.ts: the types of the
-- model, and of what it is made from.
use Prim.Native.String.{String}
use containerhub.Prelude.{Bool, Option, List}
use containerhub.DockerSpec.{DockerServiceSpec}
use containerhub.Image.{DockerImageReference}

pub record NamedText : Type 0 where
  pub name : String
  pub value : String

pub record ServiceConstraint : Type 0 where
  pub name : String
  pub operation : String
  pub value : String

pub record ServiceVolume : Type 0 where
  pub type : String
  pub host_volume : String
  pub container_volume : String
  pub read_only : Bool

pub record ServicePort (N : Type 0) : Type 0 where
  pub host_port : Option N
  pub container_port : Option N
  pub protocol : String
  pub ports_protocol : String

pub record ServiceHealthCheck (N : Type 0) : Type 0 where
  pub command : String
  pub interval : Option N
  pub timeout : Option N
  pub retries : Option N
  pub start_period : Option N

pub record ServiceLimits (N : Type 0) : Type 0 where
  pub cpu_limit : Option N
  pub memory_limit : Option N
  pub cpu_reservation : Option N
  pub memory_reservation : Option N

pub data ServiceMode : Type 0 where
  global_mode replic : ServiceMode

-- The field `files`, which is always empty, is left out.
pub record ServiceModel (N : Type 0) : Type 0 where
  pub id : String
  pub name : Option String
  pub stack : Option String
  pub image : DockerImageReference
  pub ports : List (ServicePort N)
  pub envs : List NamedText
  pub volumes : List ServiceVolume
  pub labels : List NamedText
  pub constraints : List ServiceConstraint
  pub limits : ServiceLimits N
  pub preferences : List NamedText
  pub mode : ServiceMode
  pub replicas : N
  pub extra_hosts : List String
  pub dns : List String
  pub health_check : Option (ServiceHealthCheck N)
  pub created_at : Option String
  pub updated_at : Option String

pub record DockerServiceItem (N : Type 0) : Type 0 where
  pub id_capital : Option String
  pub id : Option String
  pub spec : Option (DockerServiceSpec N)
  pub created_at : Option String
  pub updated_at : Option String
