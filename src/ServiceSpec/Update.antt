-- ===== src/ServiceSpec/Update.antt =====
-- An update that gives nothing: `toServiceSpec({}, previous)`.
use Prim.Native.String.{String}
use containerhub.Prelude.{
  ◌≡◌, refl, ap, true, Option, none, some, List, [], ◌∷◌, inl, inr, Bool-cases, ◌===◌,
  if◌then◌else◌, ◌otherwise◌, ok, eq_iff,
}
use containerhub.Prelude.Text.{non_empty}
use containerhub.Prelude.Dict.{lookup, insert}
use containerhub.DockerSpec.{
  Labels, ContainerSpec, NetworkAttachment, TaskTemplate, on_failure, paused_at_failure,
  DockerServiceSpec,
}
use containerhub.ServiceSpec.{container_of, to_task_template, assembled, to_service_spec}
use containerhub.ServiceSpec.Input.{ServiceInput}
use containerhub.ServiceSpec.Parts.{
  stack_label, truthy, put_labels, labels_to_object, to_container_spec, to_placement,
  to_service_networks, to_mode, to_service_labels, stack_of, previous_container_task, to_command,
  given_or,
}

abbrev pub blank : {N : Type 0} → ServiceInput N
blank = record {
  name = none;
  image = none;
  stack = none;
  labels = none;
  command = none;
  envs = none;
  volumes = none;
  dns = none;
  extra_hosts = none;
  healthcheck = none;
  limits = none;
  constraints = none;
  preferences = none;
  deploy_mode = none;
  replicas = none;
  ports = none;
  networks = none;
}

-- A label that is set to the value it has.
insert-lookup :
    (name text : String) (labels : Labels)
    → lookup name labels ≡ some text
    → insert name text labels ≡ labels
unfolding lookup insert
insert-lookup name text [] h = cc
insert-lookup name text ((first, shown) ∷ labels) h = elim (Bool-cases (first === name)) [
  | inl same ↦
      let found = rw same at h in
      let key : first ≡ name = (eq_iff first name).0 same in
      let value : shown ≡ text = cc in rw (same, key, value) refl
  | inr other ↦ rw other (ap (◌∷◌ (first, shown)) (insert-lookup name text labels (rw other at h)))
]

kept_labels :
    (labels : Labels) (stack : Option String)
    → lookup stack_label labels ≡ stack
    → (if truthy stack then insert stack_label (stack otherwise "") labels else labels) ≡ labels
kept_labels labels none h = refl
kept_labels labels (some stack) h = elim (Bool-cases (non_empty stack)) [
  | inl e ↦ rw e (insert-lookup stack_label stack labels h)
  | inr e ↦ rw e refl
]

to_service_labels-blank :
    (N : Type 0) (labels : Labels) → to_service_labels {N = N} blank (some labels) ≡ labels
unfolding to_service_labels stack_of put_labels labels_to_object
to_service_labels-blank N labels = kept_labels labels (lookup stack_label labels) refl

-- A service of a container, named and with an image, whose labels and networks are written out, is
-- updated by an input without any field to the same specification, but for the restart policy, the
-- two update policies and the top-level networks.
pub blank_update :
    {N : Type 0} (one : N) (to_nanoseconds : N → N) (lower : String → String)
    (spec : DockerServiceSpec N) (task : TaskTemplate N) (container : ContainerSpec N)
    (labels container_labels : Labels) (networks : List NetworkAttachment)
    → let template = record task {
      container_spec = some (record container { labels = some container_labels });
      networks = some networks;
    } in
      let previous = record spec { labels = some labels; task_template = some template } in
      previous_container_task (some template) ≡ some template
      → truthy spec.name ≡ true
      → truthy container.image ≡ true
      → to_service_spec one to_nanoseconds lower blank previous
        ≡ ok (record previous {
          task_template = some (record template { restart_policy = some on_failure });
          update_config = some (paused_at_failure 2);
          rollback_config = some (paused_at_failure 1);
          networks = none;
        })
unfolding to_service_spec container_of to_task_template assembled to_container_spec to_placement
    to_service_networks to_mode to_command given_or put_labels labels_to_object
blank_update {N = N} one to_nanoseconds lower spec task container labels container_labels networks h
      n i =
    rw (h, n, i) (rw (to_service_labels-blank N labels) refl)
