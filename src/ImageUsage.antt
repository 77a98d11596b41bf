-- ===== src/ImageUsage.antt =====
-- packages/containerhub-front/src/images/: registryImageReference.ts, the repository that an image lies
-- in, and serviceImageUsage.ts, which services use which repositories and tags.
pub mod Lookup
mod Tests
use Prim.Native.String.{String, []}
use containerhub.Prelude.{
  Bool, true, false, ◌&&◌, ◌||◌, not, Option, none, some, List, [], ◌∷◌, ◌++◌, filter,
  if◌then◌else◌, ◌===◌, ◌otherwise◌, Outcome, ok, throw, error, require, ◌>>=◌, ◌>>◌,
}
use containerhub.Prelude.Text.{◌<>◌, is_empty, non_empty, has, cut_first, cut_last, split, join}
use containerhub.Prelude.Dict.{lookup, insert}

pub record ServiceImage : Type 0 where
  pub domain : Option String
  pub namespace : Option String
  pub name : String
  pub tag : Option String

pub record RegistryTarget : Type 0 where
  pub repository : String
  pub tag : Option String
  pub full_reference : String

-- A text that is there and not empty.
abbrev pub is_given : Option String → Bool
is_given o = non_empty (o otherwise "")

unfoldable pub image_repository : (namespace : Option String) (name : String) → Outcome String
image_repository namespace name = do
  require (non_empty name) (error "image name is required")
  ok (if is_given namespace then (namespace otherwise "") <> "/" <> name else name)

unfoldable pub service_registry_target : ServiceImage → Outcome RegistryTarget
unfolding image_repository
service_registry_target image = do
  repository ← image_repository image.namespace image.name
  let registry_repository =
      if is_given image.domain then (image.domain otherwise "") <> "/" <> repository else repository
  ok (record {
    repository = repository;
    tag = image.tag;
    full_reference =
        if is_given image.tag
        then registry_repository <> ":" <> (image.tag otherwise "")
        else registry_repository;
  })

pub record ProjectTarget : Type 0 where
  pub repository : String
  pub registry_domain : Option String

abbrev is_domain : String → Bool
is_domain part = part === "localhost" || has b'.' part || has b':' part

abbrev target_of : List String → ProjectTarget
target_of [] = record { repository = []; registry_domain = none }
target_of (part ∷ parts) =
    if is_domain part
    then record { repository = join "/" parts; registry_domain = some part }
    else record { repository = join "/" (part ∷ parts); registry_domain = none }

unfoldable pub project_registry_target : String → Outcome ProjectTarget
project_registry_target prefix = do
  require (non_empty prefix) (error "registry prefix is required")
  let target = target_of (filter non_empty (split b'/' prefix))
  require (non_empty target.repository) (error "registry repository is required")
  ok target

abbrev before_digest : String → String
before_digest reference = elim (cut_first b'@' reference) [
  | none ↦ reference
  | some (before, digest) ↦ before
]

-- The last colon begins a tag if no slash follows it.
abbrev path_and_tag : String → String × Option String
path_and_tag text = elim (cut_last b':' text) [
  | none ↦ (text, none)
  | some (path, tag) ↦ if has b'/' tag then (text, none) else (path, some tag)
]

abbrev inspected_repository : String → Option String → Option (String × Option String)
inspected_repository path tag =
    if has b'/' path
    then (elim (project_registry_target path) [
      | throw fault ↦ none
      | ok target ↦ some (target.repository, tag)
    ])
    else some (path, tag)

abbrev is_blank : Option String → Bool
is_blank none = false
is_blank (some s) = is_empty s

unfoldable pub inspection_registry_target : String → Option (String × Option String)
unfolding project_registry_target
inspection_registry_target reference =
    let (path, tag) = path_and_tag (before_digest reference) in
    if is_empty path || is_blank tag then none else inspected_repository path tag

pub record ServiceImageUsageInput : Type 0 where
  pub id : String
  pub service_name : String
  pub stack : Option String
  pub image : ServiceImage
  pub fullname : String
  pub name_with_tag : String

pub record RepositoryUsage : Type 0 where
  pub services : List ServiceImageUsageInput
  pub tags : List (String × List ServiceImageUsageInput)

abbrev pub unused : RepositoryUsage
unused = record { services = []; tags = [] }

abbrev pub Usage : Type 0
Usage = List (String × RepositoryUsage)

-- One round of the loop, for a service with its target.
unfoldable pub add_usage : ServiceImageUsageInput → RegistryTarget → Usage → Usage
add_usage service target usage =
    let held = lookup target.repository usage otherwise unused in
    let tag = target.tag otherwise "" in
    let tagged = insert tag ((lookup tag held.tags otherwise []) ++ service ∷ []) held.tags in
    insert target.repository
      (record {
        services = held.services ++ service ∷ [];
        tags = if non_empty tag then tagged else held.tags;
      })
      usage

unfoldable pub usage_loop : List ServiceImageUsageInput → Usage → Outcome Usage
unfolding add_usage
usage_loop [] usage = ok usage
usage_loop (service ∷ services) usage = service_registry_target service.image >>= λ target.
    usage_loop services (add_usage service target usage)

unfoldable pub build_service_image_usage : List ServiceImageUsageInput → Outcome Usage
unfolding usage_loop
build_service_image_usage services = usage_loop services []

-- Whether two optional domains are one.
abbrev same_domain : Option String → Option String → Bool
same_domain none none = true
same_domain (some d) (some e) = d === e
same_domain _ _ = false

unfoldable pub uses_project : ProjectTarget → ServiceImageUsageInput → RegistryTarget → Bool
uses_project project service target =
    target.repository === project.repository
    && (not (is_given project.registry_domain)
        || same_domain project.registry_domain service.image.domain)

-- `filter` with a test that may throw.
unfoldable pub filter_usage :
    ProjectTarget → List ServiceImageUsageInput → Outcome (List ServiceImageUsageInput)
unfolding uses_project
filter_usage project [] = ok []
filter_usage project (service ∷ services) = service_registry_target service.image >>= λ target.
    filter_usage project services >>= λ rest.
    ok (if uses_project project service target then service ∷ rest else rest)

unfoldable pub project_service_usage :
    List ServiceImageUsageInput → (prefix : String) → Outcome (List ServiceImageUsageInput)
unfolding filter_usage
project_service_usage services prefix =
    project_registry_target prefix >>= λ project. filter_usage project services
