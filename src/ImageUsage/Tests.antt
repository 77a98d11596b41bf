-- ===== src/ImageUsage/Tests.antt =====
-- Runs of the readers of images and of the map of their uses.
use containerhub.Prelude.{◌≡◌, refl, ◌&&◌, none, some, [], ◌∷◌, filter, ok, throw, error}
use containerhub.Prelude.Text.{split, join, has, cut_first, cut_last}
use containerhub.Prelude.Dict.{lookup, insert}
use containerhub.ImageUsage.{
  ServiceImage, ServiceImageUsageInput, Usage, service_registry_target, project_registry_target,
  inspection_registry_target, build_service_image_usage, project_service_usage,
}
use containerhub.ImageUsage.Lookup.{usage-agrees, services_of, tagged_services_of, lies_in, has_tag}

abbrev web_image : ServiceImage
web_image = record {
  domain = some "hub.io:5000";
  namespace = some "team";
  name = "web";
  tag = some "v1";
}

abbrev web : ServiceImageUsageInput
web = record {
  id = "s1";
  service_name = "web";
  stack = none;
  image = web_image;
  fullname = "hub.io:5000/team/web:v1";
  name_with_tag = "web:v1";
}

full_reference :
    service_registry_target web_image
    ≡ ok (record {
      repository = "team/web";
      tag = some "v1";
      full_reference = "hub.io:5000/team/web:v1";
    })
unfolding service_registry_target
full_reference = refl

nameless :
    service_registry_target (record web_image { name = "" })
    ≡ throw (error "image name is required")
unfolding service_registry_target
nameless = refl

inspected :
    inspection_registry_target "hub.io:5000/team/web:v1@sha256:00" ≡ some ("team/web", some "v1")
unfolding inspection_registry_target cut_first cut_last split join has
inspected = refl

no_tag : inspection_registry_target "hub.io:5000/team/web" ≡ some ("team/web", none)
unfolding inspection_registry_target cut_first cut_last split join has
no_tag = refl

abbrev web_usage : Usage
web_usage = ("team/web", record { services = web ∷ []; tags = ("v1", web ∷ []) ∷ [] }) ∷ []

usage-agrees_example :
    (services_of "team/web" web_usage ≡ filter (lies_in "team/web") (web ∷ []))
    × (tagged_services_of "team/web" "v1" web_usage
        ≡ filter (λ s. lies_in "team/web" s && has_tag "v1" s) (web ∷ []))
    × project_service_usage (web ∷ []) "team/web" ≡ ok (services_of "team/web" web_usage)
unfolding build_service_image_usage service_registry_target project_registry_target split join has
    lookup insert
usage-agrees_example =
    usage-agrees (web ∷ []) web_usage "team/web" "v1" "team/web"
      (record { repository = "team/web"; registry_domain = none }) refl refl refl refl
