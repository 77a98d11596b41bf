-- ===== src/MonitoredServices/Outcomes.antt =====
-- MonitoringService.ts: what becomes of the services that are asked for.
use Prim.Native.String.{String}
use containerhub.Prelude.{
  ℕ, suc, ◌+◌, ◌≡◌, refl, ◌∙◌, Bool, true, not, Option, none, some, List, [], ◌∷◌, ◌++◌, any, all,
  filter, find, map, if◌then◌else◌, ◌===◌, eq_iff, ok, >>=-eq-ok, require, require-eq-ok, arith,
}
use mathlib.Core.List.{map-append}
use containerhub.MonitoredServices.{
  Service, Request, Base, Creation, Report, made, invalid, failed, base_of, unique, knows,
  check_known, create_one, create_found, create_each, create_for_services, after_creation, add,
}

abbrev pub count : String → List String → ℕ
count id [] = 0
count id (x ∷ xs) = let rest = count id xs in if x === id then suc rest else rest

count-append : (id : String) (xs ys : List String) → count id (xs ++ ys) ≡ count id xs + count id ys
count-append id [] ys = omega arith
count-append id (x ∷ xs) ys = ground (arith, count-append id xs ys)

count-filter :
    (id x : String) (xs : List String)
    → count id (filter (λ other. not (other === x)) xs) ≡ (if x === id then 0 else count id xs)
count-filter id x [] = ground arith
count-filter id x (y ∷ ys) =
    ground (arith, count-filter id x ys, eq_iff y x, eq_iff y id, eq_iff x id)

abbrev pub asked : String → List String → Bool
asked id ids = any (λ other. other === id) ids

count-unique :
    (id : String) (ids : List String) → count id (unique ids) ≡ (if asked id ids then 1 else 0)
unfolding unique
count-unique id [] = refl
count-unique id (x ∷ xs) =
    ground (arith, count-unique id xs, count-filter id x (unique xs), eq_iff x id)

check_known-all :
    (services : List Service) (ids : List String) (u : Unit {0})
    → check_known services ids ≡ ok u
    → all (knows services) ids ≡ true
unfolding check_known
check_known-all services [] u e = refl
check_known-all services (id ∷ ids) u e =
    let (v, known, rest) = >>=-eq-ok (require (knows services id) _) _ e in
    let here = require-eq-ok (knows services id) _ v known in
    rw here (check_known-all services ids u rest)

find-id :
    (services : List Service) (id : String) (s : Service)
    → find (λ (t : Service). t.id === id) services ≡ some s
    → s.id ≡ id
find-id [] id s e = cc
find-id (t ∷ ts) id s e = ground (arith, find-id ts id s, eq_iff t.id id)

module _ {W R : Type 0} (find_by_service : String → W → Bool) (create : Base → W → Creation W R)
    (service_of : R → String) where
  -- What the framework creates is for the service that it was given.
  abbrev pub Faithful : Type 0
  Faithful =
      (base : Base) (w w' : W) (r : R) → create base w ≡ made r w' → service_of r ≡ base.service_id

  abbrev of_service : String → Option R → Bool
  of_service id none = true
  of_service id (some r) = service_of r === id

  abbrev done_with : String → Report W R → ℕ
  done_with id report = count id (map service_of report.created) + count id report.skipped

  after_creation-made :
      (id : String) (creation : Creation W R) (r : R) (w' : W)
      → after_creation find_by_service create id creation ≡ ok (some r, w')
      → creation ≡ made r w'
  after_creation-made id (made r' w'') r w' e = cc
  after_creation-made id (invalid fields fault w'') r w' e = absurd (ground arith)
  after_creation-made id (failed fault) r w' e = cc

  create_found-service :
      (request : Request) (id : String) (found : Option Service) (w w' : W) (r : R)
      → Faithful
      → ((s : Service) → found ≡ some s → s.id ≡ id)
      → create_found find_by_service create request id found w ≡ ok (some r, w')
      → service_of r ≡ id
  unfolding base_of
  create_found-service request id none w w' r h same e = cc
  create_found-service request id (some s) w w' r h same e =
      h (base_of request s) w w' r (after_creation-made id (create (base_of request s) w) r w' e)
      ∙ same s refl

  create_one-service :
      (request : Request) (services : List Service) (id : String) (w w' : W) (r : R)
      → Faithful
      → create_one find_by_service create request services id w ≡ ok (some r, w')
      → service_of r ≡ id
  unfolding create_one
  create_one-service request services id w w' r h e =
      create_found-service request id (find (λ (s : Service). s.id === id) services) w w' r h
        (λ s found. find-id services id s found) (ground arith)

  add-done :
      (request : Request) (services : List Service) (id other : String) (report : Report W R)
      (result : Option R) (w' : W)
      → Faithful
      → create_one find_by_service create request services id report.world ≡ ok (result, w')
      → done_with other (add find_by_service create id result report w')
        ≡ done_with other report + (if id === other then 1 else 0)
  add-done request services id other report none w' h e =
      ground (arith, count-append other report.skipped (id ∷ []))
  add-done request services id other report (some r) w' h e =
      let same = create_one-service request services id report.world w' r h e in
      rw (map-append service_of report.created (r ∷ []), same)
        (ground (arith, count-append other (map service_of report.created) (id ∷ [])))

  create_each-done :
      (request : Request) (services : List Service) (ids : List String) (other : String)
      (report result : Report W R)
      → Faithful
      → create_each find_by_service create request services ids report ≡ ok result
      → done_with other result ≡ done_with other report + count other ids
  unfolding create_each
  create_each-done request services [] other report result h e =
      let same : report ≡ result = cc in rw same (omega arith)
  create_each-done request services (id ∷ ids) other report result h e =
      let ((r, w), made_one, rest) =
        >>=-eq-ok (create_one find_by_service create request services id report.world) _ e in
      let here = add-done request services id other report r w h made_one in
      let later =
        create_each-done request services ids other (add find_by_service create id r report w)
          result h rest in
      ground (arith, here, later)

-- When services have been put under monitoring with no error, every service that was asked for, once
-- or more often, is either created or skipped, and that exactly once; no other service is; and all of
-- them are known. It is assumed that the framework creates a configuration for the service it is given.
pub each_service_once :
    {W R : Type 0} (find_by_service : String → W → Bool) (create : Base → W → Creation W R)
    (service_of : R → String) (request : Request) (services : List Service) (w : W)
    (report : Report W R) (id : String)
    → Faithful find_by_service create service_of
    → create_for_services find_by_service create request services w ≡ ok report
    → (count id (map service_of report.created) + count id report.skipped
        ≡ (if asked id request.service_ids then 1 else 0))
      × (all (knows services) (unique request.service_ids) ≡ true)
unfolding create_for_services
each_service_once {W} {R} find_by_service create service_of request services w report id h e =
    let ids = unique request.service_ids in
    let (u, known, rest) = >>=-eq-ok (check_known services ids) _ e in
    let empty : Report W R = record { created = []; skipped = []; world = w } in
    (
      omega (
        arith,
        create_each-done find_by_service create service_of request services ids id empty report h
            rest,
        count-unique id request.service_ids,
      ),
      check_known-all services ids u known,
    )
