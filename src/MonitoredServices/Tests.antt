-- ===== src/MonitoredServices/Tests.antt =====
-- Runs of the services that are put under monitoring.
use Prim.Native.String.{String}
use containerhub.Prelude.{
  ◌+◌, ◌≡◌, refl, Bool, true, none, some, List, [], ◌∷◌, any, all, map, ◌===◌, ok, throw, error,
}
use containerhub.MonitoredServices.{
  Service, Request, Base, Creation, Report, made, unique, knows, create_for_services, set_status,
}
use containerhub.MonitoredServices.Outcomes.{each_service_once, count}

abbrev services : List Service
services =
    record { id = "s1"; name = "web"; stack = none }
    ∷ record { id = "s2"; name = "db"; stack = some "shop" }
    ∷ []

abbrev request : Request
request = record {
  service_ids = "s1" ∷ "s2" ∷ "s1" ∷ [];
  kind = "permanent";
  collection_interval = "30s";
  collection_type = "replic";
  since = none;
  until = none;
  holding_time = some 7;
}

-- The store is the list of the services that have a configuration.
abbrev has_service : String → List String → Bool
has_service id w = any (λ other. other === id) w

abbrev store_base : Base → List String → Creation (List String) String
store_base base w = made base.service_id (base.service_id ∷ w)

abbrev expected : Report (List String) String
expected = record { created = "s2" ∷ []; skipped = "s1" ∷ []; world = "s2" ∷ "s1" ∷ [] }

db_created : create_for_services has_service store_base request services ("s1" ∷ []) ≡ ok expected
unfolding create_for_services
db_created = refl

unknown_service :
    create_for_services has_service store_base
      (record request { service_ids = "s3" ∷ [] })
      services
      []
    ≡ throw (error "Service s3")
unfolding create_for_services
unknown_service = refl

no_configuration :
    set_status has_service (λ id status w. ok w) "c9" "paused" []
    ≡ throw (error "MonitoringConfiguration c9")
unfolding set_status
no_configuration = refl

each_service_once_example :
    (count "s1" (map (λ (r : String). r) ("s2" ∷ [])) + count "s1" ("s1" ∷ []) ≡ 1)
    × (all (knows services) (unique request.service_ids) ≡ true)
unfolding create_for_services
each_service_once_example =
    each_service_once has_service store_base (λ r. r) request services ("s1" ∷ []) expected "s1"
      created_for refl
  where
    created_for :
        (base : Base) (w w' : List String) (r : String)
        → store_base base w ≡ made r w'
        → r ≡ base.service_id
    created_for base w w' r e = cc
