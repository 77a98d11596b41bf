-- ===== src/ServiceSpec/Tests.antt =====
-- `toServiceSpec` at concrete inputs. Numbers are natural, and nanoseconds are multiplied out.
use Prim.Native.String.{String}
use containerhub.Prelude.{
  ◌⊎◌, ℕ, ◌*◌, ◌≡◌, refl, true, false, ◌&&◌, Option, none, some, List, [], ◌∷◌, all, any, bind?,
  ◌otherwise◌, ok,
}
use containerhub.Prelude.Text.{◌<>◌}
use containerhub.Prelude.Dict.{lookup}
use containerhub.DockerSpec.{
  DockerMount, DockerServiceSpec, TaskTemplate, ContainerSpec, on_failure, paused_at_failure,
}
use containerhub.ServiceSpec.{
  empty_spec, empty_template, container_of, assembled, has_name_and_image, to_service_spec,
}
use containerhub.ServiceSpec.Input.{docker, VolumeInput, PortInput, network_name, ServiceInput}
use containerhub.ServiceSpec.Parts.{
  to_container_healthcheck, stack_label, empty_container, previous_container_task, stack_of,
  is_target, given_or, to_mount_settings,
}
use containerhub.ServiceSpec.Accepted.{is_ok, whole_volume, whole_port, accepted}
use containerhub.ServiceSpec.Update.{blank, blank_update}
use containerhub.ServiceSpec.Stack.{in_stack}

abbrev nanoseconds : ℕ → ℕ
nanoseconds seconds = seconds * 1000000000

abbrev same_case : String → String
same_case s = s

abbrev data_volume : VolumeInput
data_volume = record {
  type = none;
  host_volume = some "/srv/data";
  source = none;
  container_volume = none;
  target = some "/data";
  read_only = none;
}

abbrev web_port : PortInput ℕ
web_port = record {
  protocol = none;
  ports_protocol = some "tcp";
  host_port = some 8080;
  published_port = none;
  container_port = none;
  target_port = some 80;
}

abbrev half_port : PortInput ℕ
half_port = record web_port { target_port = none }

abbrev web : ServiceInput ℕ
web = record (blank {N = ℕ}) {
  name = some "shop_web";
  image = some "nginx";
  volumes = some (data_volume ∷ []);
  ports = some (web_port ∷ half_port ∷ []);
}

accepted_example : is_ok (to_service_spec 1 nanoseconds same_case web empty_spec) ≡ (
    has_name_and_image 1 nanoseconds same_case web empty_spec
    && (all whole_volume (data_volume ∷ []) && all whole_port (web_port ∷ half_port ∷ [])))
accepted_example = accepted 1 nanoseconds same_case web empty_spec

abbrev old_task : TaskTemplate ℕ
old_task = record (empty_template {N = ℕ}) {
  container_spec = some (record (empty_container {N = ℕ}) { image = some "nginx:1" });
}

abbrev old_spec : DockerServiceSpec ℕ
old_spec = record (empty_spec {N = ℕ}) { name = some "shop_web" }

abbrev old_container : ContainerSpec ℕ
old_container = record (empty_container {N = ℕ}) { image = some "nginx:1"; env = some ("A=1" ∷ []) }

blank_update_example :
    let template = record old_task {
      container_spec = some (record old_container { labels = some [] });
      networks = some [];
    } in
    let previous = record old_spec {
      labels = some ((stack_label, "shop") ∷ []);
      task_template = some template;
    } in
    to_service_spec 1 nanoseconds same_case blank previous
    ≡ ok (record previous {
      task_template = some (record template { restart_policy = some on_failure });
      update_config = some (paused_at_failure 2);
      rollback_config = some (paused_at_failure 1);
      networks = none;
    })
unfolding previous_container_task
blank_update_example =
    blank_update 1 nanoseconds same_case old_spec old_task old_container
      ((stack_label, "shop") ∷ []) [] [] refl refl refl

abbrev stacked : ServiceInput ℕ
stacked = record web {
  stack = some "shop";
  ports = none;
  networks = some (network_name "front" ∷ []);
}

abbrev stacked_mounts : Option (List DockerMount)
stacked_mounts = some (
    record {
      type = some "bind";
      source = some "/srv/data";
      target = some "/data";
      read_only = some false;
    }
    ∷ [])

abbrev stacked_spec : DockerServiceSpec ℕ
stacked_spec = assembled 1 nanoseconds same_case stacked empty_spec stacked_mounts none

stacked_spec-accepted : to_service_spec 1 nanoseconds same_case stacked empty_spec ≡ ok stacked_spec
unfolding to_service_spec container_of previous_container_task given_or to_mount_settings
stacked_spec-accepted = refl

in_stack_example :
    (bind? stacked_spec.labels (lookup stack_label) ≡ some "shop")
    × ((stacked.networks ≡ none)
        ⊎ (any
              (is_target ("shop" <> "_default"))
              (bind? stacked_spec.task_template (λ t. t.networks) otherwise [])
            ≡ true))
unfolding stack_of
in_stack_example =
    in_stack 1 nanoseconds same_case stacked empty_spec stacked_spec "shop" stacked_spec-accepted
      refl refl

-- Five seconds between two checks in Docker's form, without a test, are lost.
untested :
    to_container_healthcheck nanoseconds (
      docker (record {
        test = none;
        interval = some 5000000000;
        timeout = none;
        retries = none;
        start_period = none;
      }))
    ≡ record { test = none; interval = none; timeout = none; retries = none; start_period = none }
unfolding to_container_healthcheck
untested = refl
