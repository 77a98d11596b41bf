-- ===== src/ServiceModel/Tests.antt =====
-- Concrete services, read from what Docker says of them.
use Prim.Native.String.{String}
use containerhub.Prelude.{
  ℕ, ◌*◌, ◌≡◌, refl, arith, inl, true, false, none, some, [], ◌∷◌, ◌>>=◌, ok,
}
use containerhub.Prelude.Text.{Free, is_space}
use containerhub.DockerSpec.{DockerServiceSpec}
use containerhub.ServiceSpec.{empty_spec, container_of, to_service_spec, assembled}
use containerhub.ServiceSpec.Input.{ConstraintInput, ServiceInput}
use containerhub.ServiceSpec.Parts.{previous_container_task, given_or}
use containerhub.ServiceSpec.Update.{blank}
use containerhub.ServiceModel.{DockerServiceItem, one_line, map_inspect_to_service_model, model_of}
use containerhub.ServiceModel.Constraint.{Solid}
use containerhub.ServiceModel.RoundTrip.{IsReadable, created_reads_back}
use containerhub.ServiceModel.Redaction.{without_values, redaction}

abbrev nanoseconds : ℕ → ℕ
nanoseconds n = n * 1000000000

abbrev seconds : ℕ → ℕ
seconds n = n

abbrev same_case : String → String
same_case s = s

abbrev item : DockerServiceItem ℕ
item = record {
  id_capital = none;
  id = some "abc";
  spec = some (record (empty_spec {N = ℕ}) { labels = some (("owner", "me") ∷ []) });
  created_at = none;
  updated_at = none;
}

redaction_example : map_inspect_to_service_model 1 seconds same_case item false ≡ (
    map_inspect_to_service_model 1 seconds same_case item true >>= λ model.
    ok (without_values model))
redaction_example = redaction 1 seconds same_case item

abbrev on_workers : ConstraintInput
on_workers = record { name = "node.role"; operation = "=="; value = "worker" }

abbrev input : ServiceInput ℕ
input = record (blank {N = ℕ}) {
  name = some "shop_web";
  image = some "nginx:1.27";
  stack = some "shop";
  envs = some (record { name = "MODE"; value = some "a=b" } ∷ []);
  constraints = some (on_workers ∷ []);
}

abbrev spec : DockerServiceSpec ℕ
spec = assembled 1 nanoseconds same_case input empty_spec none none

spec-accepted : to_service_spec 1 nanoseconds same_case input empty_spec ≡ ok spec
unfolding to_service_spec container_of previous_container_task given_or
spec-accepted = refl

mode-Free : Free b'=' "MODE"
mode-Free = ground arith

node_role-Solid : Solid "node.role"
unfolding is_space
node_role-Solid = (refl, (refl, (refl, (refl, (refl, (refl, (refl, (refl, (refl, tt)))))))))

input-IsReadable : IsReadable input
unfolding is_space one_line
input-IsReadable = record {
  envs = (mode-Free, tt);
  constraints = ((node_role-Solid, inl refl, (refl, refl)), tt);
  stack = refl;
}

created_reads_back_example :
    let shown = model_of 1 seconds same_case "abc" none none spec true in
    (shown.name ≡ some "shop_web")
    × (shown.stack ≡ some "shop")
    × (shown.envs ≡ record { name = "MODE"; value = "a=b" } ∷ [])
    × (shown.volumes ≡ [])
    × (shown.constraints ≡ record { name = "node.role"; operation = "=="; value = "worker" } ∷ [])
    × (shown.dns ≡ [])
created_reads_back_example =
    created_reads_back 1 nanoseconds seconds same_case same_case input spec "abc" spec-accepted
      input-IsReadable
