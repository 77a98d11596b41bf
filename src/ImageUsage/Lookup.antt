-- ===== src/ImageUsage/Lookup.antt =====
-- serviceImageUsage.ts: what the map of repositories holds, and the other way to the same services.
use Prim.Native.String.{String}
use containerhub.Prelude.{
  ◌≡◌, refl, ◌∙◌, Bool, true, false, ◌&&◌, List, [], ◌∷◌, ◌++◌, filter, if◌then◌else◌, ◌===◌,
  ◌otherwise◌, Outcome, ok, throw, >>=-eq-ok, append_if-append, eq_iff, arith,
}
use mathlib.Core.List.{append-nil}
use containerhub.Prelude.Text.{non_empty}
use containerhub.Prelude.Dict.{lookup, insert, lookup-insert}
use containerhub.ImageUsage.{
  ServiceImageUsageInput, RegistryTarget, ProjectTarget, Usage, unused, service_registry_target,
  project_registry_target, add_usage, usage_loop, build_service_image_usage, uses_project,
  filter_usage, project_service_usage, is_given,
}

abbrev pub services_of : String → Usage → List ServiceImageUsageInput
services_of repository usage = (lookup repository usage otherwise unused).services

abbrev pub tagged_services_of : String → String → Usage → List ServiceImageUsageInput
tagged_services_of repository tag usage =
    lookup tag (lookup repository usage otherwise unused).tags otherwise []

-- The tests that a plain search through the services would make.
abbrev pub lies_in : String → ServiceImageUsageInput → Bool
lies_in repository service = elim (service_registry_target service.image) [
  | ok target ↦ target.repository === repository
  | throw fault ↦ false
]

abbrev pub has_tag : String → ServiceImageUsageInput → Bool
has_tag tag service = (service.image.tag otherwise "") === tag

abbrev only_if : Bool → ServiceImageUsageInput → List ServiceImageUsageInput
only_if b service = if b then service ∷ [] else []

module _ (service : ServiceImageUsageInput) (target : RegistryTarget) (usage : Usage)
    (r : String) where
  services_of-add_usage :
      services_of r (add_usage service target usage)
      ≡ services_of r usage ++ only_if (target.repository === r) service
  unfolding add_usage
  services_of-add_usage =
      let held = lookup target.repository usage otherwise unused in
      let tag = target.tag otherwise "" in
      let tagged = insert tag ((lookup tag held.tags otherwise []) ++ service ∷ []) held.tags in
      ground (
        arith,
        eq_iff target.repository r,
        append-nil (services_of r usage),
        lookup-insert target.repository r
            (record {
              services = held.services ++ service ∷ [];
              tags = if non_empty tag then tagged else held.tags;
            })
            usage,
      )

  tagged-add_usage :
      (tag : String)
      → non_empty tag ≡ true
      → tagged_services_of r tag (add_usage service target usage)
        ≡ tagged_services_of r tag usage
          ++ only_if (target.repository === r && (target.tag otherwise "") === tag) service
  unfolding add_usage
  tagged-add_usage tag h =
      let held = lookup target.repository usage otherwise unused in
      let old = lookup (target.tag otherwise "") held.tags otherwise [] in
      rw (lookup-insert target.repository r _ usage) (
        ground (
          arith,
          eq_iff target.repository r,
          eq_iff (target.tag otherwise "") tag,
          append-nil (tagged_services_of r tag usage),
          lookup-insert (target.tag otherwise "") tag (old ++ service ∷ []) held.tags,
        ))

abbrev is_in : String → Outcome RegistryTarget → Bool
is_in r (ok target) = target.repository === r
is_in r (throw fault) = false

lies_in_lem :
    (r : String) (service : ServiceImageUsageInput)
    → lies_in r service ≡ is_in r (service_registry_target service.image)
lies_in_lem r service = ground arith

target-tag :
    (service : ServiceImageUsageInput) (target : RegistryTarget)
    → service_registry_target service.image ≡ ok target
    → target.tag ≡ service.image.tag
unfolding service_registry_target
target-tag service target e = ground arith

module _ (r : String) where
  services_of-usage_loop :
      (services : List ServiceImageUsageInput) (usage result : Usage)
      → usage_loop services usage ≡ ok result
      → services_of r result ≡ services_of r usage ++ filter (lies_in r) services
  unfolding usage_loop
  services_of-usage_loop [] usage result e =
      let same : usage ≡ result = cc in rw (same, append-nil (services_of r result))
  services_of-usage_loop (service ∷ services) usage result e =
      let (target, found, e') = >>=-eq-ok (service_registry_target service.image) _ e in
      let later = services_of-usage_loop services (add_usage service target usage) result e' in
      later
      ∙ (rw (services_of-add_usage service target usage r, lies_in_lem r service, found)
          (append_if-append (target.repository === r) (services_of r usage)
            (filter (lies_in r) services) service))

  tagged-usage_loop :
      (tag : String) (services : List ServiceImageUsageInput) (usage result : Usage)
      → non_empty tag ≡ true
      → usage_loop services usage ≡ ok result
      → tagged_services_of r tag result
        ≡ tagged_services_of r tag usage ++ filter (λ s. lies_in r s && has_tag tag s) services
  unfolding usage_loop
  tagged-usage_loop tag [] usage result h e =
      let same : usage ≡ result = cc in rw (same, append-nil (tagged_services_of r tag result))
  tagged-usage_loop tag (service ∷ services) usage result h e =
      let (target, found, e') = >>=-eq-ok (service_registry_target service.image) _ e in
      let later = tagged-usage_loop tag services (add_usage service target usage) result h e' in
      let rest = filter (λ s. lies_in r s && has_tag tag s) services in
      later
      ∙ (rw
          (
            tagged-add_usage service target usage r tag h,
            lies_in_lem r service,
            found,
            target-tag service target found,
          )
          (append_if-append (target.repository === r && has_tag tag service)
            (tagged_services_of r tag usage) rest service))

  filter_usage_lem :
      (project : ProjectTarget) (services : List ServiceImageUsageInput) (usage result : Usage)
      → project.repository ≡ r
      → is_given project.registry_domain ≡ false
      → usage_loop services usage ≡ ok result
      → filter_usage project services ≡ ok (filter (lies_in r) services)
  unfolding usage_loop filter_usage uses_project
  filter_usage_lem project [] usage result p d e = refl
  filter_usage_lem project (service ∷ services) usage result p d e =
      let (target, found, e') = >>=-eq-ok (service_registry_target service.image) _ e in
      let later =
        filter_usage_lem project services (add_usage service target usage) result p d e' in
      rw (later, lies_in_lem r service, found, d, p) (ground arith)

-- The map that is built from services holds, for every repository, exactly the services whose image
-- lies in it, in their order, and for every tag that is not empty those of them with that tag; and a
-- project whose prefix names no registry is found to be used by the services that the map holds for
-- its repository.
pub usage-agrees :
    (services : List ServiceImageUsageInput) (usage : Usage) (r tag prefix : String)
    (project : ProjectTarget)
    → build_service_image_usage services ≡ ok usage
    → non_empty tag ≡ true
    → project_registry_target prefix ≡ ok project
    → is_given project.registry_domain ≡ false
    → (services_of r usage ≡ filter (lies_in r) services)
      × (tagged_services_of r tag usage ≡ filter (λ s. lies_in r s && has_tag tag s) services)
      × project_service_usage services prefix ≡ ok (services_of project.repository usage)
unfolding build_service_image_usage project_service_usage lookup
usage-agrees services usage r tag prefix project e h p d =
    let held = services_of-usage_loop project.repository services [] usage e in
    (
      services_of-usage_loop r services [] usage e,
      tagged-usage_loop r tag services [] usage h e,
      rw (p, held) (filter_usage_lem project.repository project services [] usage refl d e),
    )
