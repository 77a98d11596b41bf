-- ===== src/MonitoredServices.antt =====
-- packages/containerhub-back/src/modules/monitoring/services/MonitoringService.ts: the services that
-- are put under monitoring, over a store of configurations with the calls of the persistence
-- framework. `R` is what the store keeps of a configuration.
pub mod Outcomes
mod Tests
use Prim.Native.String.{String}
use containerhub.Prelude.{
  ℕ, Bool, true, false, ◌&&◌, ◌||◌, not, Option, none, some, List, [], ◌∷◌, ◌++◌, any, filter, find,
  if◌then◌else◌, ◌===◌, is_some, Outcome, Fault, ok, throw, ◌>>=◌, ◌>>◌, require, error,
}
use containerhub.Prelude.Text.{◌<>◌}

pub record Service : Type 0 where
  pub id : String
  pub name : String
  pub stack : Option String

-- `IMonitoringCreate`.
pub record Request : Type 0 where
  pub service_ids : List String
  pub kind : String
  pub collection_interval : String
  pub collection_type : String
  pub since : Option String
  pub until : Option String
  pub holding_time : Option ℕ

-- `IMonitoringBase`.
pub record Base : Type 0 where
  pub service_id : String
  pub service_name : String
  pub service_stack : Option String
  pub base_kind : String
  pub status : String
  pub interval : String
  pub base_type : String
  pub first_day : Option String
  pub last_day : Option String
  pub holding : Option ℕ

unfoldable pub base_of : Request → Service → Base
base_of request service = record {
  service_id = service.id;
  service_name = service.name;
  service_stack = service.stack;
  base_kind = request.kind;
  status = "monitoring";
  interval = request.collection_interval;
  base_type = request.collection_type;
  first_day = if request.kind === "calendar" then request.since else none;
  last_day = if request.kind === "calendar" then request.until else none;
  holding = if request.kind === "permanent" then request.holding_time else none;
}

-- What `create` comes to: a record, the fields that a validation refuses, or another error.
pub data Creation (W R : Type 0) : Type 0 where
  made : R → W → Creation W R
  invalid : (fields : List String) → Fault → W → Creation W R
  failed : Fault → Creation W R

-- `[...new Set(ids)]`
unfoldable pub unique : List String → List String
unique [] = []
unique (id ∷ ids) = id ∷ filter (λ other. not (other === id)) (unique ids)

abbrev pub knows : List Service → String → Bool
knows services id = any (λ (s : Service). s.id === id) services

unfoldable pub check_known : List Service → List String → Outcome (Unit {0})
check_known services [] = ok tt
check_known services (id ∷ ids) =
    require (knows services id) (error ("Service " <> id)) >> check_known services ids

pub record Report (W R : Type 0) : Type 0 where
  pub created : List R
  pub skipped : List String
  pub world : W

module _ {W R : Type 0} (find_by_service : String → W → Bool)
    (create : Base → W → Creation W R) where
  -- What the round of a service adds: a configuration, or nothing where there is one.
  abbrev pub after_creation : String → Creation W R → Outcome (Option R × W)
  after_creation id (made configuration w) = ok (some configuration, w)
  after_creation id (invalid fields fault w) =
      if any (λ f. f === "serviceId") fields && find_by_service id w
      then ok (none, w)
      else throw fault
  after_creation id (failed fault) = throw fault

  -- A service that is not there has no name to be read.
  abbrev pub create_found : Request → String → Option Service → W → Outcome (Option R × W)
  create_found request id none w = throw (error "Cannot read properties of undefined")
  create_found request id (some service) w = after_creation id (create (base_of request service) w)

  unfoldable pub create_one : Request → List Service → String → W → Outcome (Option R × W)
  unfolding base_of
  create_one request services id w =
      if find_by_service id w
      then ok (none, w)
      else create_found request id (find (λ (s : Service). s.id === id) services) w

  abbrev pub add : String → Option R → Report W R → W → Report W R
  add id none report w = record report { skipped = report.skipped ++ id ∷ []; world = w }
  add id (some configuration) report w = record report {
    created = report.created ++ configuration ∷ [];
    world = w;
  }

  unfoldable pub create_each :
      Request → List Service → List String → Report W R → Outcome (Report W R)
  unfolding create_one
  create_each request services [] report = ok report
  create_each request services (id ∷ ids) report =
      create_one request services id report.world >>= λ (result, w).
      create_each request services ids (add id result report w)

  unfoldable pub create_for_services : Request → List Service → W → Outcome (Report W R)
  unfolding unique check_known create_each
  create_for_services request services w =
      let ids = unique request.service_ids in
      check_known services ids
      >> create_each request services ids (record { created = []; skipped = []; world = w })

-- `setStatus`, where `update` writes the status.
unfoldable pub set_status :
    {W : Type 0}
    → (has_id : String → W → Bool) (update : String → String → W → Outcome W) → String
    → String
    → W
    → Outcome W
set_status has_id update id status w =
    require (has_id id w) (error ("MonitoringConfiguration " <> id)) >> update id status w
